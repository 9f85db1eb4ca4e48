-- ===== src/Nonces.antt =====
-- xchg/utils_nonces.go: the table of the nonces that a server gives out for authentication.
-- The bytes that `rand.Read` yields are an argument of each call. The proofs are in the modules
-- below.
pub mod Table
pub mod Fill
pub mod Issue
mod Tests
use xchg.Base.{
  ℕ, zero, suc, ◌+◌, Bool, true, false, Option, none, some, List, [], ◌∷◌, ltb, leb, ◌==◌,
  if◌then◌else◌, length, get_or, set, replicate,
}
use xchg.Bytes.{copy_at, put_uint32, uint32_at}

pub record Nonces : Type 0 where
  pub nonces : List (List ℕ)
  pub current_index : ℕ
  pub complexity : ℕ

-- `XchgNonceSize`, the size of an entry.
abbrev pub nonce_size : ℕ
nonce_size = 16

-- One entry, written over the old one: its index, the complexity, and 11 random bytes.
unfoldable pub filled : List ℕ → ℕ → ℕ → List ℕ → List ℕ
filled old index complexity random =
    copy_at (copy_at (put_uint32 old 0 index) 4 (complexity ∷ [])) 5 random

-- `fillNonce`.
unfoldable pub fill_nonce : Nonces → ℕ → List ℕ → Nonces
fill_nonce c index random =
    if ltb index (length c.nonces)
    then record c {
      nonces = set c.nonces index (filled (get_or c.nonces index []) index c.complexity random);
    }
    else c

-- The loop of `NewNonces`, from `i` on; `random i` is what the call for entry `i` reads.
unfoldable pub fill_from : Nonces → (ℕ → List ℕ) → ℕ → ℕ → Nonces
fill_from c random zero i = c
fill_from c random (suc rounds) i = fill_from (fill_nonce c i (random i)) random rounds (i + 1)

unfoldable pub new_nonces : ℕ → (ℕ → List ℕ) → Nonces
unfolding fill_from fill_nonce filled
new_nonces size random =
    fill_from
      (record {
        nonces = replicate size (replicate nonce_size 0);
        current_index = 0;
        complexity = 0;
      })
      random size 0

-- The index of the next entry to give out.
abbrev pub advance : ℕ → ℕ → ℕ
advance index size = if leb size (index + 1) then 0 else index + 1

-- `Next`; `none` is the panic of an index out of range (a table of no entries).
unfoldable pub next : Nonces → List ℕ → Option (List ℕ × Nonces)
unfolding fill_nonce filled
next c random =
    if ltb c.current_index (length c.nonces)
    then (let c' = fill_nonce c c.current_index random in
        some (
          get_or c'.nonces c.current_index [],
          record c' { current_index = advance c.current_index (length c'.nonces) },
        ))
    else none

-- The loop of `Check` that compares the bytes, from `i` on.
unfoldable pub same_bytes : List ℕ → List ℕ → ℕ → ℕ → Bool
same_bytes a b zero i = true
same_bytes a b (suc rounds) i =
    let rest = same_bytes a b rounds (i + 1) in if get_or a i 0 == get_or b i 0 then rest else false

-- `Check`, for a nonce of 16 bytes (its callers cut it to that size). `random` is read only when
-- the nonce is accepted, and its entry filled anew.
unfoldable pub check : Nonces → List ℕ → List ℕ → Bool × Nonces
unfolding fill_nonce filled same_bytes
check c nonce random =
    let index = uint32_at nonce 0 in
    let result =
      if ltb index (length c.nonces)
      then same_bytes (get_or c.nonces index []) nonce nonce_size 0
      else false in
    (result, if result then fill_nonce c index random else c)
