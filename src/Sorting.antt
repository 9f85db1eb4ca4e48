-- ===== src/Sorting.antt =====
-- `sort.Slice` by a text of the elements, as router/router.go and logger/logger.go call it. Where no
-- two elements have one text, the sorted list is the only one in that order.
use xchg.Base.{
  ℕ, ◌≡◌, refl, inl, inr, Bool, true, false, List, [], ◌∷◌, arith, ltb, ◌==◌, if◌then◌else◌, All,
  Bool-cases,
}
use mathlib.Core.List.{Permᴰ}
use mathlib.Core.List.Permᴰ

-- The order of strings, by their bytes.
unfoldable pub text_lt : List ℕ → List ℕ → Bool
text_lt xs [] = false
text_lt [] (y ∷ ys) = true
text_lt (x ∷ xs) (y ∷ ys) =
    let rest = text_lt xs ys in if ltb x y then true else (if x == y then rest else false)

text_lt_asym : (xs ys : List ℕ) → text_lt xs ys ≡ true → text_lt ys xs ≡ false
unfolding text_lt
text_lt_asym xs [] h = cc
text_lt_asym [] (y ∷ ys) h = refl
text_lt_asym (x ∷ xs) (y ∷ ys) h = ground (arith, text_lt_asym xs ys)

-- A text that is not below one that is not below a third is not below the third.
text_lt_trans :
    (xs ys zs : List ℕ) → text_lt ys xs ≡ false → text_lt zs ys ≡ false → text_lt zs xs ≡ false
unfolding text_lt
text_lt_trans [] ys zs h k = refl
text_lt_trans (x ∷ xs) [] zs h k = cc
text_lt_trans (x ∷ xs) (y ∷ ys) [] h k = cc
text_lt_trans (x ∷ xs) (y ∷ ys) (z ∷ zs) h k = ground (arith, text_lt_trans xs ys zs)

module _ {A : Type 0} (text : A → List ℕ) where
  unfoldable pub insert_by : A → List A → List A
  insert_by a [] = a ∷ []
  insert_by a (b ∷ bs) =
      let rest = insert_by a bs in if text_lt (text b) (text a) then b ∷ rest else a ∷ b ∷ bs

  unfoldable pub sort_by : List A → List A
  unfolding insert_by
  sort_by [] = []
  sort_by (a ∷ xs) = insert_by a (sort_by xs)

  -- No element comes before one with a smaller text.
  abbrev pub IsAbove : A → A → Type 0
  IsAbove a b = text_lt (text b) (text a) ≡ false

  abbrev pub IsSorted : List A → Type 0
  IsSorted [] = Unit
  IsSorted (a ∷ xs) = All (IsAbove a) xs × IsSorted xs

  insert_by-All : (P : A → Type 0) (a : A) (bs : List A) → P a → All P bs → All P (insert_by a bs)
  unfolding insert_by
  insert_by-All P a [] p h = (p, tt)
  insert_by-All P a (b ∷ bs) p (q, h) = elim (Bool-cases (text_lt (text b) (text a))) [
    | inl e ↦ rw e (q, insert_by-All P a bs p h)
    | inr e ↦ rw e (p, (q, h))
  ]

  All-IsAbove : (a b : A) (bs : List A) → IsAbove a b → All (IsAbove b) bs → All (IsAbove a) bs
  All-IsAbove a b [] e h = tt
  All-IsAbove a b (c ∷ bs) e (k, h) =
      (text_lt_trans (text a) (text b) (text c) e k, All-IsAbove a b bs e h)

  insert_by-IsSorted : (a : A) (bs : List A) → IsSorted bs → IsSorted (insert_by a bs)
  unfolding insert_by
  insert_by-IsSorted a [] h = (tt, tt)
  insert_by-IsSorted a (b ∷ bs) (above, h) = elim (Bool-cases (text_lt (text b) (text a))) [
    | inl e ↦ rw e (
      insert_by-All (IsAbove b) a bs (text_lt_asym (text b) (text a) e) above,
      insert_by-IsSorted a bs h,
    )
    | inr e ↦ rw e ((e, All-IsAbove a b bs e above), (above, h))
  ]

  insert_by-Perm : (a : A) (bs : List A) → Permᴰ (insert_by a bs) (a ∷ bs)
  unfolding insert_by
  insert_by-Perm a [] = Permᴰ.refl (a ∷ [])
  insert_by-Perm a (b ∷ bs) = elim (Bool-cases (text_lt (text b) (text a))) [
    | inl e ↦ rw e (Permᴰ.trans (Permᴰ.cons refl (insert_by-Perm a bs)) (Permᴰ.swap refl refl))
    | inr e ↦ rw e (Permᴰ.refl (a ∷ b ∷ bs))
  ]

  pub sort_by-IsSorted : (xs : List A) → IsSorted (sort_by xs)
  unfolding sort_by
  sort_by-IsSorted [] = tt
  sort_by-IsSorted (a ∷ xs) = insert_by-IsSorted a (sort_by xs) (sort_by-IsSorted xs)

  pub sort_by-Perm : (xs : List A) → Permᴰ (sort_by xs) xs
  unfolding sort_by
  sort_by-Perm [] = Permᴰ.nil
  sort_by-Perm (a ∷ xs) =
      Permᴰ.trans (insert_by-Perm a (sort_by xs)) (Permᴰ.cons refl (sort_by-Perm xs))

  -- What holds of every element holds of those of the sorted list.
  pub sort_by-All : (P : A → Type 0) (xs : List A) → All P xs → All P (sort_by xs)
  unfolding sort_by
  sort_by-All P [] h = tt
  sort_by-All P (a ∷ xs) (p, h) = insert_by-All P a (sort_by xs) p (sort_by-All P xs h)
