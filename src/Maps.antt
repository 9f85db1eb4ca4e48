-- ===== src/Maps.antt =====
-- A Go map with integer keys, as an association list.
use xchg.Base.{
  ℕ, ◌≡◌, ◌≢◌, refl, arith, inl, inr, Option, none, some, List, [], ◌∷◌, ◌==◌, ==_refl, ==_ne,
  if◌then◌else◌, All, Bool-cases,
}

module _ {ℓ} {A : Type ℓ} where
  -- `m[k]`.
  unfoldable pub find : ℕ → List (ℕ × A) → Option A
  find k [] = none
  find k ((j, a) ∷ m) = if j == k then some a else find k m

  -- `delete(m, k)`.
  unfoldable pub remove : ℕ → List (ℕ × A) → List (ℕ × A)
  remove k [] = []
  remove k ((j, a) ∷ m) = if j == k then remove k m else (j, a) ∷ remove k m

  -- `m[k] = a`.
  unfoldable pub store : ℕ → A → List (ℕ × A) → List (ℕ × A)
  unfolding remove
  store k a m = (k, a) ∷ remove k m

  pub find-store_self : (k : ℕ) (a : A) (m : List (ℕ × A)) → find k (store k a m) ≡ some a
  unfolding find store
  find-store_self k a m = rw (==_refl k) refl

  pub find-remove_self : (k : ℕ) (m : List (ℕ × A)) → find k (remove k m) ≡ none
  unfolding find remove
  find-remove_self k [] = refl
  find-remove_self k ((j, a) ∷ m) = ground (arith, find-remove_self k m)

  pub find-remove_ne : (k l : ℕ) (m : List (ℕ × A)) → k ≢ l → find l (remove k m) ≡ find l m
  unfolding find remove
  find-remove_ne k l [] ne = refl
  find-remove_ne k l ((j, a) ∷ m) ne = ground (arith, find-remove_ne k l m ne)

  pub find-store_ne : (k l : ℕ) (a : A) (m : List (ℕ × A)) → k ≢ l → find l (store k a m) ≡ find l m
  unfolding find store
  find-store_ne k l a m ne = rw (==_ne k l ne) (find-remove_ne k l m ne)

  pub remove-absent : (k : ℕ) (m : List (ℕ × A)) → find k m ≡ none → remove k m ≡ m
  unfolding find remove
  remove-absent k [] e = refl
  remove-absent k ((j, a) ∷ m) e = ground (arith, remove-absent k m)

  -- Every key stands once.
  abbrev pub HasOneOfEach : List (ℕ × A) → Type ℓ
  HasOneOfEach [] = Unit
  HasOneOfEach ((k, a) ∷ m) = (find k m ≡ none) × HasOneOfEach m

  find-remove_absent : (k l : ℕ) (m : List (ℕ × A)) → find l m ≡ none → find l (remove k m) ≡ none
  unfolding find remove
  find-remove_absent k l [] e = refl
  find-remove_absent k l ((j, a) ∷ m) e = ground (arith, find-remove_absent k l m)

  remove-HasOneOfEach : (k : ℕ) (m : List (ℕ × A)) → HasOneOfEach m → HasOneOfEach (remove k m)
  unfolding remove
  remove-HasOneOfEach k [] h = tt
  remove-HasOneOfEach k ((j, a) ∷ m) (e, h) = elim (Bool-cases (j == k)) [
    | inl eq ↦ rw eq (remove-HasOneOfEach k m h)
    | inr ne ↦ rw ne (find-remove_absent k j m e, remove-HasOneOfEach k m h)
  ]

  pub store-HasOneOfEach :
      (k : ℕ) (a : A) (m : List (ℕ × A)) → HasOneOfEach m → HasOneOfEach (store k a m)
  unfolding store
  store-HasOneOfEach k a m h = (find-remove_self k m, remove-HasOneOfEach k m h)

  module _ {κ} (P : ℕ × A → Type κ) where
    remove-All : (k : ℕ) (m : List (ℕ × A)) → All P m → All P (remove k m)
    unfolding remove
    remove-All k [] h = tt
    remove-All k ((j, a) ∷ m) (p, h) = elim (Bool-cases (j == k)) [
      | inl eq ↦ rw eq (remove-All k m h)
      | inr ne ↦ rw ne (p, remove-All k m h)
    ]

    pub store-All : (k : ℕ) (a : A) (m : List (ℕ × A)) → P (k, a) → All P m → All P (store k a m)
    unfolding store
    store-All k a m p h = (p, remove-All k m h)

    pub find-All : (k : ℕ) (a : A) (m : List (ℕ × A)) → find k m ≡ some a → All P m → P (k, a)
    unfolding find
    find-All k a [] e h = cc
    find-All k a ((j, b) ∷ m) e (p, h) = ground (arith, find-All k a m)
