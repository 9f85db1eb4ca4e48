-- ===== src/Bytes/Copy.antt =====
-- `s[off : off+n]` and the builtin `copy(s[off:], src)`.
use xchg.Base.{
  ℕ, zero, suc, ◌+◌, ◌≤◌, ◌<◌, ◌≡◌, refl, ap, ◌∙◌, ◌⊎◌, inl, inr, List, [], ◌∷◌, arith, length,
  take, drop, get_or, length-take, length-drop,
}

-- `s[off : off+n]`, for a range inside the slice.
abbrev pub bytes_at : List ℕ → ℕ → ℕ → List ℕ
bytes_at s off n = take n (drop off s)

-- `copy(s[off:], src)`: it writes what fits, and never grows `s`.
unfoldable pub copy_at : List ℕ → ℕ → List ℕ → List ℕ
copy_at [] off src = []
copy_at (b ∷ s) zero [] = b ∷ s
copy_at (b ∷ s) zero (x ∷ src) = x ∷ copy_at s zero src
copy_at (b ∷ s) (suc off) src = b ∷ copy_at s off src

pub length-copy_at : (s : List ℕ) (off : ℕ) (src : List ℕ) → length (copy_at s off src) ≡ length s
unfolding copy_at
length-copy_at [] off src = refl
length-copy_at (b ∷ s) zero [] = refl
length-copy_at (b ∷ s) zero (x ∷ src) = ap suc (length-copy_at s zero src)
length-copy_at (b ∷ s) (suc off) src = ap suc (length-copy_at s off src)

-- What was just written is read back.
pub bytes_at-copy_at_self :
    (s : List ℕ) (off : ℕ) (src : List ℕ)
    → off + length src ≤ length s
    → bytes_at (copy_at s off src) off (length src) ≡ src
unfolding copy_at
bytes_at-copy_at_self [] zero [] h = refl
bytes_at-copy_at_self [] zero (x ∷ src) h = absurd (omega arith)
bytes_at-copy_at_self [] (suc off) src h = absurd (omega arith)
bytes_at-copy_at_self (b ∷ s) zero [] h = refl
bytes_at-copy_at_self (b ∷ s) zero (x ∷ src) h =
    ap (λ t. x ∷ t) (bytes_at-copy_at_self s zero src (omega arith))
bytes_at-copy_at_self (b ∷ s) (suc off) src h = bytes_at-copy_at_self s off src (omega arith)

-- A write past the range that is read leaves it.
pub bytes_at-copy_at_after :
    (s : List ℕ) (off : ℕ) (src : List ℕ) (o n : ℕ)
    → o + n ≤ off
    → bytes_at (copy_at s off src) o n ≡ bytes_at s o n
unfolding copy_at
bytes_at-copy_at_after [] off src o n h = refl
bytes_at-copy_at_after (b ∷ s) zero src zero zero h = refl
bytes_at-copy_at_after (b ∷ s) zero src zero (suc n) h = absurd (omega arith)
bytes_at-copy_at_after (b ∷ s) zero src (suc o) n h = absurd (omega arith)
bytes_at-copy_at_after (b ∷ s) (suc off) src zero zero h = refl
bytes_at-copy_at_after (b ∷ s) (suc off) src zero (suc n) h =
    ap (λ t. b ∷ t) (bytes_at-copy_at_after s off src zero n (omega arith))
bytes_at-copy_at_after (b ∷ s) (suc off) src (suc o) n h =
    bytes_at-copy_at_after s off src o n (omega arith)

drop-copy_at :
    (s : List ℕ) (off : ℕ) (src : List ℕ) (o : ℕ)
    → off + length src ≤ o
    → drop o (copy_at s off src) ≡ drop o s
unfolding copy_at
drop-copy_at [] off src o h = refl
drop-copy_at (b ∷ s) zero [] o h = refl
drop-copy_at (b ∷ s) zero (x ∷ src) zero h = absurd (omega arith)
drop-copy_at (b ∷ s) zero (x ∷ src) (suc o) h = drop-copy_at s zero src o (omega arith)
drop-copy_at (b ∷ s) (suc off) src zero h = absurd (omega arith)
drop-copy_at (b ∷ s) (suc off) src (suc o) h = drop-copy_at s off src o (omega arith)

-- A write before the range that is read leaves it.
pub bytes_at-copy_at_before :
    (s : List ℕ) (off : ℕ) (src : List ℕ) (o n : ℕ)
    → off + length src ≤ o
    → bytes_at (copy_at s off src) o n ≡ bytes_at s o n
bytes_at-copy_at_before s off src o n h = ap (take n) (drop-copy_at s off src o h)

pub length-bytes_at : (s : List ℕ) (off n : ℕ) → off + n ≤ length s → length (bytes_at s off n) ≡ n
length-bytes_at s off n h = omega (arith, length-take n (drop off s), length-drop off s)

-- The element that stands at `i` after a copy: `src`'s, if the copy covers `i`.
pub get_or-copy_at_in :
    (s : List ℕ) (off : ℕ) (src : List ℕ) (i d : ℕ)
    → i < length src
    → off + i < length s
    → get_or (copy_at s off src) (off + i) d ≡ get_or src i d
unfolding copy_at
get_or-copy_at_in [] off src i d hi hs = absurd (omega arith)
get_or-copy_at_in (b ∷ s) zero [] i d hi hs = absurd (omega arith)
get_or-copy_at_in (b ∷ s) zero (x ∷ src) zero d hi hs = refl
get_or-copy_at_in (b ∷ s) zero (x ∷ src) (suc i) d hi hs =
    let e : zero + suc i ≡ suc (zero + i) = omega arith in
    rw e (get_or-copy_at_in s zero src i d (omega arith) (omega arith))
get_or-copy_at_in (b ∷ s) (suc off) src i d hi hs =
    let e : suc off + i ≡ suc (off + i) = omega arith in
    rw e (get_or-copy_at_in s off src i d hi (omega arith))

pub get_or-copy_at_out :
    (s : List ℕ) (off : ℕ) (src : List ℕ) (i d : ℕ)
    → (i < off) ⊎ (off + length src ≤ i)
    → get_or (copy_at s off src) i d ≡ get_or s i d
unfolding copy_at
get_or-copy_at_out [] off src i d h = refl
get_or-copy_at_out (b ∷ s) zero [] i d h = refl
get_or-copy_at_out (b ∷ s) zero (x ∷ src) zero d h = absurd (omega arith)
get_or-copy_at_out (b ∷ s) zero (x ∷ src) (suc i) d h =
    get_or-copy_at_out s zero src i d (inr (omega arith))
get_or-copy_at_out (b ∷ s) (suc off) src zero d h = refl
get_or-copy_at_out (b ∷ s) (suc off) src (suc i) d (inl h) =
    get_or-copy_at_out s off src i d (inl (omega arith))
get_or-copy_at_out (b ∷ s) (suc off) src (suc i) d (inr h) =
    get_or-copy_at_out s off src i d (inr (omega arith))

pub get_or-drop : (s : List ℕ) (off i d : ℕ) → get_or (drop off s) i d ≡ get_or s (off + i) d
get_or-drop s zero i d = ap (λ k. get_or s k d) (omega arith)
get_or-drop [] (suc off) i d = refl
get_or-drop (b ∷ s) (suc off) i d =
    let e : suc off + i ≡ suc (off + i) = omega arith in rw e (get_or-drop s off i d)

pub get_or-take : (s : List ℕ) (n i d : ℕ) → i < n → get_or (take n s) i d ≡ get_or s i d
get_or-take s zero i d h = absurd (omega arith)
get_or-take [] (suc n) i d h = refl
get_or-take (b ∷ s) (suc n) zero d h = refl
get_or-take (b ∷ s) (suc n) (suc i) d h = get_or-take s n i d (omega arith)

pub get_or-bytes_at :
    (s : List ℕ) (off n i d : ℕ) → i < n → get_or (bytes_at s off n) i d ≡ get_or s (off + i) d
get_or-bytes_at s off n i d h = get_or-take (drop off s) n i d h ∙ get_or-drop s off i d
