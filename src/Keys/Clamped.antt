-- ===== src/Keys/Clamped.antt =====
-- The private keys that are generated, and addresses as texts.
use Prim.Native.Nat.{bit_and, bit_or}
use native.Mathlib.Nat.{mul_comm, mul_assoc, pow-suc, mul-le-mul_left}
use xchg.Base.{
  ℕ, zero, suc, ◌+◌, ◌*◌, ◌%◌, ◌^◌, ◌≤◌, ◌<◌, ◌≡◌, refl, ap, ◌∙◌, Bool, true, false, List, [], ◌∷◌,
  arith, length, All, ltb, leb, ◌==◌, ◌&&◌, ==_iff, get_or, set, length-set, get_or-set_self,
  get_or-set_ne, leb→le, ltb→lt,
}
use xchg.Bits.{low_bits, high_bits, each, each_at}
use xchg.Bytes.{IsByte, le_value}
use xchg.Keys.{clamp}

both : (a b : Bool) → a && b ≡ true → (a ≡ true) × (b ≡ true)
both true b h = (refl, h)
both false b h = cc h

low_facts : (b : ℕ) → b < 256 → (bit_and b 248 % 8 ≡ 0) × (bit_and b 248 ≤ 248)
low_facts b h =
    let (m, l) = both (bit_and b 248 % 8 == 0) (leb (bit_and b 248) 248) (low_bits b h) in
    ((==_iff (bit_and b 248 % 8) 0).0 m, leb→le (bit_and b 248) 248 l)

high_facts :
    (b : ℕ) → b < 256 → (64 ≤ bit_or (bit_and b 127) 64) × (bit_or (bit_and b 127) 64 < 128)
high_facts b h =
    let x : ℕ = bit_or (bit_and b 127) 64 in
    let (m, l) = both (leb 64 x) (ltb x 128) (high_bits b h) in (leb→le 64 x m, ltb→lt x 128 l)

masked_table : each (λ b. ltb (bit_and b 127) 256) 256 ≡ true
unfolding each
masked_table = refl

masked_byte : (b : ℕ) → b < 256 → bit_and b 127 < 256
masked_byte b h =
    ltb→lt (bit_and b 127) 256 (each_at (λ b. ltb (bit_and b 127) 256) 256 b h masked_table)

lt_le : {a b : ℕ} → a < b → a + 1 ≤ b
lt_le h = omega arith

set-All-IsByte : (s : List ℕ) (i b : ℕ) → All IsByte s → IsByte b → All IsByte (set s i b)
set-All-IsByte [] i b a h = tt
set-All-IsByte (x ∷ s) zero b (hx, a) h = (h, a)
set-All-IsByte (x ∷ s) (suc i) b (hx, a) h = (hx, set-All-IsByte s i b a h)

get_or-IsByte : (s : List ℕ) (i : ℕ) → All IsByte s → IsByte (get_or s i 0)
get_or-IsByte [] i a = omega arith
get_or-IsByte (x ∷ s) zero (hx, a) = hx
get_or-IsByte (x ∷ s) (suc i) (hx, a) = get_or-IsByte s i a

-- The last byte is the highest.
last_byte :
    (s : List ℕ) (i : ℕ)
    → All IsByte s
    → length s ≡ suc i
    → (256 ^ i * get_or s i 0 ≤ le_value s) × (le_value s < 256 ^ i * (get_or s i 0 + 1))
unfolding le_value
last_byte [] i a e = absurd (omega arith)
last_byte (x ∷ []) zero a e = omega arith
last_byte (x ∷ y ∷ s) zero a e = absurd (omega arith)
last_byte (x ∷ []) (suc i) a e = absurd (omega arith)
last_byte (x ∷ y ∷ s) (suc i) (hx, a) e =
    let (low, high) = last_byte (y ∷ s) i a (omega arith) in
    let p : ℕ = 256 ^ i in
    let g : ℕ = get_or (y ∷ s) i 0 in
    let e1 : 256 ^ suc i * g ≡ 256 * (p * g) =
      ap (λ (n : ℕ). n * g) (pow-suc 256 i ∙ mul_comm p 256) ∙ mul_assoc 256 p g in
    let e2 : 256 ^ suc i * (g + 1) ≡ 256 * (p * (g + 1)) =
      ap (λ (n : ℕ). n * (g + 1)) (pow-suc 256 i ∙ mul_comm p 256) ∙ mul_assoc 256 p (g + 1) in
    (omega (arith, e1), omega (arith, e2))

low_byte : (s : List ℕ) → 0 < length s → le_value s % 8 ≡ get_or s 0 0 % 8
unfolding le_value
low_byte [] h = absurd (omega arith)
low_byte (x ∷ s) h = omega arith

-- Whatever 32 random bytes are read, the generated private key is, as a number, a multiple of 8 from
-- 2^254 on and below 2^255: a valid scalar of curve 25519.
pub clamp_bounds :
    (random : List ℕ)
    → length random ≡ 32
    → All IsByte random
    → (length (clamp random) ≡ 32)
      × All IsByte (clamp random)
      × (le_value (clamp random) % 8 ≡ 0)
      × (2 ^ 254 ≤ le_value (clamp random))
      × (le_value (clamp random) < 2 ^ 255)
unfolding clamp
clamp_bounds random size a = (
  long,
  bytes,
  low_byte (clamp random) (omega (arith, long)) ∙ ap (λ b. b % 8) first ∙ low.0,
  omega (arith, bounds.0, ap (λ b. 256 ^ 31 * b) last, mul-le-mul_left (256 ^ 31) high.0),
  omega (arith, bounds.1, ap (λ b. 256 ^ 31 * b) last, mul-le-mul_left (256 ^ 31) (lt_le high.1)),
)
  where
    b0 : ℕ
    b0 = get_or random 0 0

    s1 : List ℕ
    s1 = set random 0 (bit_and b0 248)

    b31 : ℕ
    b31 = get_or s1 31 0

    s2 : List ℕ
    s2 = set s1 31 (bit_and b31 127)

    low : (bit_and b0 248 % 8 ≡ 0) × (bit_and b0 248 ≤ 248)
    low = low_facts b0 (get_or-IsByte random 0 a)

    long1 : length s1 ≡ 32
    long1 = length-set random 0 (bit_and b0 248) ∙ size

    long2 : length s2 ≡ 32
    long2 = length-set s1 31 (bit_and b31 127) ∙ long1

    middle : get_or s2 31 0 ≡ bit_and b31 127
    middle = get_or-set_self s1 31 (bit_and b31 127) 0 (omega (arith, long1))

    bytes1 : All IsByte s1
    bytes1 = set-All-IsByte random 0 (bit_and b0 248) a (omega (arith, low.1))

    high : (64 ≤ bit_or (bit_and b31 127) 64) × (bit_or (bit_and b31 127) 64 < 128)
    high = high_facts b31 (get_or-IsByte s1 31 bytes1)

    clamped : clamp random ≡ set s2 31 (bit_or (bit_and b31 127) 64)
    clamped = ap (λ b. set s2 31 (bit_or b 64)) middle

    long : length (clamp random) ≡ 32
    long = length-set s2 31 (bit_or (get_or s2 31 0) 64) ∙ long2

    last : get_or (clamp random) 31 0 ≡ bit_or (bit_and b31 127) 64
    last =
        ap (λ s. get_or s 31 0) clamped
        ∙ get_or-set_self s2 31 (bit_or (bit_and b31 127) 64) 0 (omega (arith, long2))

    bytes : All IsByte (clamp random)
    bytes = rw clamped (
        set-All-IsByte s2 31 (bit_or (bit_and b31 127) 64)
          (set-All-IsByte s1 31 (bit_and b31 127) bytes1
            (masked_byte b31 (get_or-IsByte s1 31 bytes1)))
          (omega (arith, high.1)))

    first : get_or (clamp random) 0 0 ≡ bit_and b0 248
    first =
        get_or-set_ne s2 31 0 (bit_or (get_or s2 31 0) 64) 0 (omega arith)
        ∙ get_or-set_ne s1 31 0 (bit_and b31 127) 0 (omega arith)
        ∙ get_or-set_self random 0 (bit_and b0 248) 0 (omega (arith, size))

    bounds :
        (256 ^ 31 * get_or (clamp random) 31 0 ≤ le_value (clamp random))
        × (le_value (clamp random) < 256 ^ 31 * (get_or (clamp random) 31 0 + 1))
    bounds = last_byte (clamp random) 31 bytes long
