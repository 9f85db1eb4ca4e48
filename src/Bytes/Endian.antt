-- ===== src/Bytes/Endian.antt =====
-- `binary.LittleEndian`: PutUint32, PutUint64, Uint32 and Uint64.
use xchg.Base.{
  ℕ, zero, suc, ◌+◌, ◌*◌, ◌/◌, ◌%◌, ◌^◌, ◌<◌, ◌≡◌, refl, ap, List, [], ◌∷◌, arith, length, All, ◌≤◌,
  drop, take-All, drop-All, length-take,
}
use xchg.Bytes.Copy.{bytes_at, copy_at}
use native.Mathlib.Nat.{pow-suc}

-- The low `n` bytes of `v`, lowest first.
unfoldable pub le_bytes : ℕ → ℕ → List ℕ
le_bytes zero v = []
le_bytes (suc n) v = (v % 256) ∷ le_bytes n (v / 256)

-- The number that the bytes stand for.
unfoldable pub le_value : List ℕ → ℕ
le_value [] = 0
le_value (b ∷ bs) = b + 256 * le_value bs

unfoldable pub put_uint32 : List ℕ → ℕ → ℕ → List ℕ
put_uint32 s off v = copy_at s off (le_bytes 4 v)

unfoldable pub put_uint64 : List ℕ → ℕ → ℕ → List ℕ
put_uint64 s off v = copy_at s off (le_bytes 8 v)

unfoldable pub uint32_at : List ℕ → ℕ → ℕ
uint32_at s off = le_value (bytes_at s off 4)

unfoldable pub uint64_at : List ℕ → ℕ → ℕ
uint64_at s off = le_value (bytes_at s off 8)

abbrev pub IsByte : ℕ → Type 0
IsByte b = b < 256

pub length-le_bytes : (n v : ℕ) → length (le_bytes n v) ≡ n
unfolding le_bytes
length-le_bytes zero v = refl
length-le_bytes (suc n) v = ap suc (length-le_bytes n (v / 256))

pub le_bytes-IsByte : (n v : ℕ) → All IsByte (le_bytes n v)
unfolding le_bytes
le_bytes-IsByte zero v = tt
le_bytes-IsByte (suc n) v = (omega arith, le_bytes-IsByte n (v / 256))

pub uint32-le_bytes : (v : ℕ) → v < 2 ^ 32 → le_value (le_bytes 4 v) ≡ v
unfolding le_value le_bytes
uint32-le_bytes v h = omega arith

pub uint64-le_bytes : (v : ℕ) → v < 2 ^ 64 → le_value (le_bytes 8 v) ≡ v
unfolding le_value le_bytes
uint64-le_bytes v h = omega arith

pub le_value-lt : (bs : List ℕ) → All IsByte bs → le_value bs < 256 ^ length bs
unfolding le_value
le_value-lt [] h = omega arith
le_value-lt (b ∷ bs) (hb, h) = rw pow-suc (omega (arith, le_value-lt bs h))

le_value-lt_of_le : (n : ℕ) (bs : List ℕ) → All IsByte bs → length bs ≤ n → le_value bs < 256 ^ n
unfolding le_value
le_value-lt_of_le zero [] hb h = omega arith
le_value-lt_of_le zero (b ∷ bs) hb h = absurd (omega arith)
le_value-lt_of_le (suc n) [] hb h =
    rw pow-suc (omega (arith, le_value-lt_of_le n [] tt (omega arith)))
le_value-lt_of_le (suc n) (b ∷ bs) (x, hb) h =
    rw pow-suc (omega (arith, le_value-lt_of_le n bs hb (omega arith)))

pub uint64_at-IsWord : (s : List ℕ) (off : ℕ) → All IsByte s → uint64_at s off < 2 ^ 64
unfolding uint64_at
uint64_at-IsWord s off h =
    le_value-lt_of_le 8 (bytes_at s off 8)
      (take-All IsByte 8 (drop off s) (drop-All IsByte off s h))
      (omega (arith, length-take 8 (drop off s)))
