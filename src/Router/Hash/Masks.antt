-- ===== src/Router/Hash/Masks.antt =====
-- What `CheckHash` asks of a hash: that its first `complexity` bits are zero.
use native.Mathlib.Numerals.{add-one}
use native.Mathlib.Nat.{
  mul-le-mul, mul_left_comm, zero-add, mul-le-mul_right, mul-le-mul_left, mul-lt-mul_of_pos_left,
  mul_comm, mul_assoc, suc-mul, pow-suc,
}
use xchg.Base.{
  ℕ, zero, suc, ◌+◌, ◌-◌, ◌*◌, ◌/◌, ◌%◌, ◌^◌, ◌≤◌, ◌<◌, ◌≡◌, refl, sym, ap, ◌∙◌, true, false, some,
  List, [], ◌∷◌, arith, length, replicate, ltb, lt→ltb, le→not-ltb, ◌==◌, dec_lt, All, ==_ne,
  ℕ_discrete, ◌≢◌, ◌&&◌, if◌then◌else◌,
}
use xchg.Bytes.{IsByte}
use xchg.Bits.{each, each_at, top, top_next, top_and, full_and}
use xchg.Router.Hash.{set_bit, set_bits, no_bit_set, check_hash}

-- How many of the next eight bits are among the first `q`.
capped : ℕ → ℕ
capped q = if ltb q 8 then q else 8

capped_small : (q : ℕ) → q ≤ 8 → capped q ≡ q
unfolding capped
capped_small q h = ground arith

capped_large : (q : ℕ) → 8 ≤ q → capped q ≡ 8
unfolding capped
capped_large q h = ground arith

-- The mask of `n` bytes with the first `q` bits set.
abbrev mask_of : ℕ → ℕ → List ℕ
mask_of zero q = []
mask_of (suc n) q = top (capped q) ∷ mask_of n (q - 8)

mask_of-zero : (n : ℕ) → mask_of n 0 ≡ replicate n 0
unfolding capped
mask_of-zero zero = refl
mask_of-zero (suc n) = ap (λ m. 0 ∷ m) (mask_of-zero n)

set_bit-mask_of : (n q : ℕ) → q / 8 < n → set_bit (mask_of n q) q ≡ mask_of n (q + 1)
set_bit-mask_of zero q h = absurd (omega arith)
set_bit-mask_of (suc n) q h = elim (dec_lt q 8) [
  | yes lt ↦
      let at : q / 8 ≡ 0 = omega arith in
      let bit : q % 8 ≡ q = omega arith in
      let rest : q + 1 - 8 ≡ q - 8 = omega arith in
      rw
        (
          at,
          bit,
          rest,
          capped_small q (omega arith),
          capped_small (q + 1) (omega arith),
          top_next q lt,
        )
        refl
  | no ge ↦
      let at : q / 8 ≡ suc ((q - 8) / 8) = omega arith in
      let bit : q % 8 ≡ (q - 8) % 8 = omega arith in
      let next : q + 1 - 8 ≡ q - 8 + 1 = omega arith in
      rw (at, bit, next, capped_large q (omega arith), capped_large (q + 1) (omega arith))
        (ap (λ m. 255 ∷ m) (set_bit-mask_of n (q - 8) (omega arith)))
]

set_bits-mask_of :
    (rounds n q : ℕ)
    → (q + rounds) / 8 < n
    → set_bits (mask_of n q) rounds q ≡ mask_of n (q + rounds)
unfolding set_bits
set_bits-mask_of zero n q h = ap (mask_of n) (omega arith)
set_bits-mask_of (suc rounds) n q h =
    ap (λ m. set_bits m rounds (q + 1)) (set_bit-mask_of n q (omega arith))
    ∙ set_bits-mask_of rounds n (q + 1) (omega arith)
    ∙ ap (mask_of n) (omega arith)

suc_le : (b : ℕ) → b < 256 → suc b ≤ 256
suc_le b h = omega arith

not_lt_le : (b k : ℕ) → ¬ (b < k) → k ≤ b
not_lt_le b k h = omega arith

-- The number that bytes stand for, the first byte the highest.
unfoldable pub be_value : List ℕ → ℕ
be_value [] = 0
be_value (b ∷ bs) = b * 256 ^ length bs + be_value bs

be_value-lt : (bs : List ℕ) → All IsByte bs → be_value bs < 256 ^ length bs
unfolding be_value
be_value-lt [] a = omega arith
be_value-lt (b ∷ bs) (hb, a) = omega (
  arith,
  be_value-lt bs a,
  mul-le-mul_right (256 ^ length bs) (suc_le b hb),
  suc-mul b (256 ^ length bs),
  pow-suc 256 (length bs),
)

-- A byte before `p` more: multiplied by `t`, it keeps below 256 if and only if the whole does below
-- `256 * p`.
first_byte :
    (b v p t k : ℕ)
    → v < p
    → 0 < t
    → t * k ≡ 256
    → ltb (b * t) 256 ≡ ltb ((b * p + v) * t) (256 * p)
first_byte b v p t k h pos e = elim (dec_lt b k) [
  | yes lt ↦
      let below : b * p + v < k * p = omega (arith, mul-le-mul_right p lt, suc-mul b p) in
      lt→ltb (b * t) 256 (omega (arith, mul-lt-mul_of_pos_left lt pos, mul_comm t b))
      ∙ sym (
          lt→ltb ((b * p + v) * t) (256 * p) (
            omega (
              arith,
              mul-lt-mul_of_pos_left below pos,
              mul_comm t (b * p + v),
              mul_assoc t k p,
              ap (λ (n : ℕ). n * p) e,
            )))
  | no ge ↦
      let above : k * p ≤ b * p + v = omega (arith, mul-le-mul_right p (not_lt_le b k ge)) in
      le→not-ltb (b * t) 256 (omega (arith, mul-le-mul_left t (not_lt_le b k ge), mul_comm t b))
      ∙ sym (
          le→not-ltb ((b * p + v) * t) (256 * p) (
            omega (
              arith,
              mul-le-mul_left t above,
              mul_comm t (b * p + v),
              mul_assoc t k p,
              ap (λ (n : ℕ). n * p) e,
            )))
]

split_table : each (λ j. (2 ^ j * 2 ^ (8 - j) == 256) && ltb 0 (2 ^ j)) 8 ≡ true
unfolding each
split_table = refl

split_byte : (j : ℕ) → j < 8 → (2 ^ j * 2 ^ (8 - j) ≡ 256) × (0 < 2 ^ j)
split_byte j h =
    let t : (2 ^ j * 2 ^ (8 - j) == 256) && ltb 0 (2 ^ j) ≡ true =
      each_at (λ j. (2 ^ j * 2 ^ (8 - j) == 256) && ltb 0 (2 ^ j)) 8 j h split_table in
    (ground arith, ground arith)

eight_suc : (n : ℕ) → 2 ^ suc (suc (suc (suc (suc (suc (suc (suc n))))))) ≡ 256 * 2 ^ n
eight_suc n = omega (
  arith,
  pow-suc 2 n,
  pow-suc 2 (suc n),
  pow-suc 2 (suc (suc n)),
  pow-suc 2 (suc (suc (suc n))),
  pow-suc 2 (suc (suc (suc (suc n)))),
  pow-suc 2 (suc (suc (suc (suc (suc n))))),
  pow-suc 2 (suc (suc (suc (suc (suc (suc n)))))),
  pow-suc 2 (suc (suc (suc (suc (suc (suc (suc n))))))),
)

eight_more : (q : ℕ) → 8 ≤ q → 2 ^ q ≡ 256 * 2 ^ (q - 8)
eight_more q h =
    let e : q ≡ suc (suc (suc (suc (suc (suc (suc (suc (q - 8)))))))) = omega arith in
    ap (λ (n : ℕ). 2 ^ n) e ∙ eight_suc (q - 8)

pow_pos : (n : ℕ) → 0 < 2 ^ n
pow_pos zero = omega arith
pow_pos (suc n) = omega (arith, pow_pos n, pow-suc 2 n)

-- A byte that is zero, and one that is not, before a longer run of bits.
zero_byte : (v x y p : ℕ) → y ≡ 256 * x → ltb (v * x) p ≡ ltb ((0 * p + v) * y) (256 * p)
zero_byte v x y p e =
    let big : (0 * p + v) * y ≡ 256 * (v * x) = rw e (omega (arith, mul_left_comm v 256 x)) in
    rw big (ground arith)

other_byte : (b v x y p : ℕ) → b ≢ 0 → 0 < x → y ≡ 256 * x → ltb ((b * p + v) * y) (256 * p) ≡ false
other_byte b v x y p ne pos e =
    le→not-ltb ((b * p + v) * y) (256 * p)
      (omega (arith, mul-le-mul (one_le b p v ne) (at_least y x pos e), mul_comm 256 p))
  where
    one_le : (b p v : ℕ) → b ≢ 0 → p ≤ b * p + v
    one_le zero p v ne = absurd (ne refl)
    one_le (suc b) p v ne = omega (arith, suc-mul b p)

    at_least : (y x : ℕ) → 0 < x → y ≡ 256 * x → 256 ≤ y
    at_least y x pos e = omega arith

length-pow : (bs : List ℕ) (b : ℕ) → 256 ^ length (b ∷ bs) ≡ 256 * 256 ^ length bs
length-pow bs b = pow-suc 256 (length bs) ∙ mul_comm (256 ^ length bs) 256

no_bit_set-mask_of :
    (hash : List ℕ) (q : ℕ)
    → All IsByte hash
    → q / 8 < length hash
    → no_bit_set hash (mask_of (suc (q / 8)) q)
      ≡ some (ltb (be_value hash * 2 ^ q) (256 ^ length hash))
unfolding no_bit_set be_value
no_bit_set-mask_of [] q a h = absurd (omega arith)
no_bit_set-mask_of (b ∷ bs) q (hb, a) h = elim (dec_lt q 8) [
  | yes lt ↦
      let at : q / 8 ≡ 0 = omega arith in
      let (split, pos) = split_byte q lt in
      rw
        (
          at,
          capped_small q (omega arith),
          top_and q b lt hb,
          first_byte b (be_value bs) (256 ^ length bs) (2 ^ q) (2 ^ (8 - q)) (be_value-lt bs a) pos
              split,
          length-pow bs b,
        )
        (ground arith)
  | no ge ↦
      let at : q / 8 ≡ suc ((q - 8) / 8) = omega arith in
      rw (at, capped_large q (omega arith), full_and b hb, length-pow bs b)
        (elim (ℕ_discrete b 0) [
          | yes zero_b ↦ rw zero_b (
              no_bit_set-mask_of bs (q - 8) a (omega arith)
              ∙ ap some (
                  zero_byte (be_value bs) (2 ^ (q - 8)) (2 ^ q) (256 ^ length bs)
                    (eight_more q (omega arith))))
          | no some_b ↦
              rw
                (
                  ==_ne b 0 some_b,
                  other_byte b (be_value bs) (2 ^ (q - 8)) (2 ^ q) (256 ^ length bs) some_b
                      (pow_pos (q - 8)) (eight_more q (omega arith)),
                )
                refl
        ])
]

-- `CheckHash` panics at no complexity (a byte), and accepts a hash exactly when it has 32 bytes of
-- which the first `complexity` bits are zero: as a number, the hash is below 2^(256 - complexity).
pub check_hash_iff :
    (hash : List ℕ) (complexity : ℕ)
    → All IsByte hash
    → IsByte complexity
    → check_hash hash complexity
      ≡ some ((length hash == 32) && ltb (be_value hash * 2 ^ complexity) (2 ^ 256))
unfolding check_hash
check_hash_iff hash complexity a h = elim (ℕ_discrete (length hash) 32) [
  | no other ↦ rw (==_ne (length hash) 32 other) refl
  | yes size ↦
      let mask =
        ap (λ m. set_bits m complexity 0) (sym (mask_of-zero (complexity / 8 + 1)))
        ∙ set_bits-mask_of complexity (complexity / 8 + 1) 0 (omega arith)
        ∙ ap (mask_of (complexity / 8 + 1)) (zero-add complexity)
        ∙ ap (λ n. mask_of n complexity) (add-one (complexity / 8)) in
      rw (size, mask)
        (no_bit_set-mask_of hash complexity a (omega arith)
          ∙ ap (λ n. some (ltb (be_value hash * 2 ^ complexity) (256 ^ n))) size)
]
