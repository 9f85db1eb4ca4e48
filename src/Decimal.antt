-- ===== src/Decimal.antt =====
-- The decimal numbers of the package strconv.
use xchg.Base.{
  ℕ, zero, suc, ◌+◌, ◌-◌, ◌*◌, ◌/◌, ◌%◌, ◌^◌, ◌≤◌, ◌<◌, ◌≡◌, refl, ap, ◌∙◌, inl, inr, ◌&&◌, Option,
  none, some, List, [], ◌∷◌, arith, length, ltb, leb, lt→ltb, le→leb, if◌then◌else◌, Bool-cases,
}

-- `strconv.FormatInt` of a number that is not negative; a digit is taken in each round.
unfoldable pub digits : ℕ → ℕ → List ℕ → List ℕ
digits zero n acc = acc
digits (suc fuel) n acc =
    let acc' = (b'0' + n % 10) ∷ acc in
    let rest = digits fuel (n / 10) acc' in if ltb n 10 then acc' else rest

unfoldable pub format_int : ℕ → List ℕ
unfolding digits
format_int n = digits (suc n) n []

-- The digits of a text after the number `v`; `none` is a syntax error.
unfoldable pub read_digits : List ℕ → ℕ → Option ℕ
read_digits [] v = some v
read_digits (c ∷ s) v =
    let rest = read_digits s (v * 10 + (c - b'0')) in
    if leb b'0' c && leb c b'9' then rest else none

-- `strconv.ParseUint` to the base 10, of 64 bits; `none` is an error.
unfoldable pub parse_uint : List ℕ → Option ℕ
unfolding read_digits
parse_uint [] = none
parse_uint (c ∷ s) = elim (read_digits (c ∷ s) 0) [
  | none ↦ none
  | some v ↦ if ltb v (2 ^ 64) then some v else none
]

-- A number with fewer than `k` + 1 digits.
one_digit : (fuel n : ℕ) (acc : List ℕ) → n < 10 → length (digits fuel n acc) ≤ length acc + 1
unfolding digits
one_digit zero n acc h = omega arith
one_digit (suc fuel) n acc h = ground arith

more_digits :
    (b k : ℕ)
    → 10 ≤ b
    → ((fuel n : ℕ) (acc : List ℕ) → n < b → length (digits fuel n acc) ≤ length acc + k)
    → (fuel n : ℕ) (acc : List ℕ) → n < 10 * b
    → length (digits fuel n acc) ≤ length acc + (k + 1)
unfolding digits
more_digits b k ten h zero n acc lt = omega arith
more_digits b k ten h (suc fuel) n acc lt = ground (arith, h fuel (n / 10) ((b'0' + n % 10) ∷ acc))

four_digits : (fuel n : ℕ) (acc : List ℕ) → n < 10000 → length (digits fuel n acc) ≤ length acc + 4
four_digits =
    more_digits 1000 3 (omega arith)
      (more_digits 100 2 (omega arith) (more_digits 10 1 (omega arith) one_digit))

pub length-format_int : (n : ℕ) → n < 10000 → length (format_int n) ≤ 4
unfolding format_int
length-format_int n h = four_digits (suc n) n [] h

read_digit :
    (m v : ℕ) (s : List ℕ) → m < 10 → read_digits ((b'0' + m) ∷ s) v ≡ read_digits s (v * 10 + m)
unfolding read_digits
read_digit m v s h =
    let e : b'0' + m - b'0' ≡ m = omega arith in
    rw (le→leb b'0' (b'0' + m) (omega arith), le→leb (b'0' + m) b'9' (omega arith), e) refl

read_digits-digits :
    (fuel n : ℕ) (acc : List ℕ) → n < fuel → read_digits (digits fuel n acc) 0 ≡ read_digits acc n
unfolding digits
read_digits-digits zero n acc h = absurd (omega arith)
read_digits-digits (suc fuel) n acc h = elim (Bool-cases (ltb n 10)) [
  | inl small ↦
      let e : 0 * 10 + n % 10 ≡ n = ground arith in
      rw small (read_digit (n % 10) 0 acc (omega arith) ∙ ap (read_digits acc) e)
  | inr large ↦
      let e : n / 10 * 10 + n % 10 ≡ n = omega arith in
      rw large (
        read_digits-digits fuel (n / 10) ((b'0' + n % 10) ∷ acc) (ground arith)
        ∙ read_digit (n % 10) (n / 10) acc (omega arith)
        ∙ ap (read_digits acc) e)
]

digits-grow : (fuel n : ℕ) (acc : List ℕ) → length acc ≤ length (digits fuel n acc)
unfolding digits
digits-grow zero n acc = omega arith
digits-grow (suc fuel) n acc = ground (arith, digits-grow fuel (n / 10) ((b'0' + n % 10) ∷ acc))

some_digits : (n : ℕ) → 0 < length (format_int n)
unfolding format_int digits
some_digits n = ground (arith, digits-grow n (n / 10) ((b'0' + n % 10) ∷ []))

parse_uint-some :
    (s : List ℕ) (n : ℕ)
    → 0 < length s
    → n < 2 ^ 64
    → read_digits s 0 ≡ some n
    → parse_uint s ≡ some n
unfolding parse_uint
parse_uint-some [] n h small e = absurd (omega arith)
parse_uint-some (c ∷ s) n h small e = rw (e, parse_uint, lt→ltb n (2 ^ 64) small) refl

-- A number of 64 bits is read back from its text.
pub parse_uint-format_int : (n : ℕ) → n < 2 ^ 64 → parse_uint (format_int n) ≡ some n
unfolding format_int read_digits
parse_uint-format_int n h =
    parse_uint-some (format_int n) n (some_digits n) h
      (read_digits-digits (suc n) n [] (omega arith))
