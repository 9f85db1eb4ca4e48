-- ===== src/Bits.antt =====
-- Facts on the bit operations of bytes, each checked at every byte.
use Prim.Native.Nat.{bit_and, bit_or}
use xchg.Base.{
  ℕ, zero, suc, ◌+◌, ◌-◌, ◌*◌, ◌/◌, ◌%◌, ◌^◌, ◌<◌, ◌≡◌, refl, Bool, true, false, ◌&&◌, arith, ltb,
  leb, ◌==◌, ==_iff, ℕ_discrete,
}

-- Whether `p` holds of each number from 0 up to a limit that is left out.
unfoldable pub each : (ℕ → Bool) → ℕ → Bool
each p zero = true
each p (suc limit) = each p limit && p limit

pub each_at : (p : ℕ → Bool) (limit m : ℕ) → m < limit → each p limit ≡ true → p m ≡ true
unfolding each
each_at p zero m small ok = absurd (omega arith)
each_at p (suc limit) m small ok = elim (ℕ_discrete m limit) [
  | yes e ↦ rw e (ground arith)
  | no ne ↦ each_at p limit m (omega arith) (ground arith)
]

-- The byte whose `j` highest bits are set.
abbrev pub top : ℕ → ℕ
top j = 256 - 256 / 2 ^ j

top_next_table : each (λ j. bit_or (top j) (0x80 / 2 ^ j) == top (j + 1)) 8 ≡ true
unfolding each
top_next_table = refl

pub top_next : (j : ℕ) → j < 8 → bit_or (top j) (0x80 / 2 ^ j) ≡ top (j + 1)
top_next j h = (==_iff _ _).0 (each_at _ 8 j h top_next_table)

same : Bool → Bool → Bool
same true b = b
same false true = false
same false false = true

same_eq : (a b : Bool) → same a b ≡ true → a ≡ b
unfolding same
same_eq true b h = cc h
same_eq false true h = cc h
same_eq false false h = refl

top_and_table :
    each (λ j. each (λ b. same (bit_and b (top j) == 0) (ltb (b * 2 ^ j) 256)) 256) 8 ≡ true
unfolding each same
top_and_table = refl

-- No bit of the mask is set in a byte that is small enough.
pub top_and : (j b : ℕ) → j < 8 → b < 256 → (bit_and b (top j) == 0) ≡ ltb (b * 2 ^ j) 256
top_and j b hj hb = same_eq _ _ (
    each_at _ 256 b hb (
      each_at (λ k. each (λ b. same (bit_and b (top k) == 0) (ltb (b * 2 ^ k) 256)) 256) 8 j hj
        top_and_table))

full_and_table : each (λ b. same (bit_and b 255 == 0) (b == 0)) 256 ≡ true
unfolding each same
full_and_table = refl

pub full_and : (b : ℕ) → b < 256 → (bit_and b 255 == 0) ≡ (b == 0)
full_and b h =
    same_eq _ _ (each_at (λ b. same (bit_and b 255 == 0) (b == 0)) 256 b h full_and_table)

-- What `GenerateCurve25519KeyPair` does to the bytes at both ends.
low_table : each (λ b. (bit_and b 248 % 8 == 0) && leb (bit_and b 248) 248) 256 ≡ true
unfolding each
low_table = refl

pub low_bits : (b : ℕ) → b < 256 → (bit_and b 248 % 8 == 0) && leb (bit_and b 248) 248 ≡ true
low_bits b h = each_at (λ b. (bit_and b 248 % 8 == 0) && leb (bit_and b 248) 248) 256 b h low_table

high_table :
    each (λ b. leb 64 (bit_or (bit_and b 127) 64) && ltb (bit_or (bit_and b 127) 64) 128) 256 ≡ true
unfolding each
high_table = refl

pub high_bits :
    (b : ℕ)
    → b < 256
    → leb 64 (bit_or (bit_and b 127) 64) && ltb (bit_or (bit_and b 127) 64) 128 ≡ true
high_bits b h =
    each_at (λ b. leb 64 (bit_or (bit_and b 127) 64) && ltb (bit_or (bit_and b 127) 64) 128) 256 b h
      high_table
