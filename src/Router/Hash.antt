-- ===== src/Router/Hash.antt =====
-- router/router.go: `CheckHash`, the test of a proof of work.
pub mod Masks
use Prim.Native.Nat.{bit_and, bit_or}
use xchg.Base.{
  ℕ, zero, suc, ◌+◌, ◌/◌, ◌%◌, ◌^◌, Bool, true, false, Option, none, some, List, [], ◌∷◌, ◌==◌,
  if◌then◌else◌, length, get_or, set, replicate,
}

-- A round of the loop that sets the bits of the mask.
abbrev pub set_bit : List ℕ → ℕ → List ℕ
set_bit mask q = set mask (q / 8) (bit_or (get_or mask (q / 8) 0) (0x80 / 2 ^ (q % 8)))

-- The loop over `q`, from `q` on.
unfoldable pub set_bits : List ℕ → ℕ → ℕ → List ℕ
set_bits mask zero q = mask
set_bits mask (suc rounds) q = set_bits (set_bit mask q) rounds (q + 1)

-- The loop over the bytes of the mask; `none` is the panic of a mask longer than the hash.
unfoldable pub no_bit_set : List ℕ → List ℕ → Option Bool
no_bit_set hash [] = some true
no_bit_set [] (m ∷ mask) = none
no_bit_set (b ∷ hash) (m ∷ mask) =
    let rest = no_bit_set hash mask in if bit_and b m == 0 then rest else some false

-- `CheckHash`.
unfoldable pub check_hash : List ℕ → ℕ → Option Bool
unfolding set_bits no_bit_set
check_hash hash complexity =
    if length hash == 32
    then no_bit_set hash (set_bits (replicate (complexity / 8 + 1) 0) complexity 0)
    else some false
