-- ===== src/Nonces/Table.antt =====
-- The invariant of the table, and what `Check` accepts.
use xchg.Base.{
  ℕ, zero, suc, ◌+◌, ◌^◌, ◌≤◌, ◌<◌, ◌≡◌, ◌≢◌, refl, ap, ◌∙◌, sym, inl, inr, true, false, List, [],
  ◌∷◌, ◌↔◌, arith, length, length-set, get_or, set, get_or-set_self, get_or-set_ne, get_or_ext,
  Bool-cases, dec_lt, ℕ_discrete,
}
use xchg.Bytes.{
  bytes_at, copy_at, put_uint32, uint32_at, le_bytes, le_value, uint32-le_bytes, length-le_bytes,
  length-copy_at, bytes_at-copy_at_self, bytes_at-copy_at_after,
}
use xchg.Nonces.{Nonces, nonce_size, filled, fill_nonce, same_bytes, check}

-- An entry has its index in its first four bytes.
pub record IsEntry (i : ℕ) (e : List ℕ) : Type 0 where
  pub size : length e ≡ nonce_size
  pub index : uint32_at e 0 ≡ i

pub record IsValid (c : Nonces) : Type 0 where
  pub current : c.current_index < length c.nonces
  pub small : length c.nonces ≤ 2 ^ 32
  pub entry : (i : ℕ) → i < length c.nonces → IsEntry i (get_or c.nonces i [])

pub length-filled :
    (old : List ℕ) (i x : ℕ) (random : List ℕ) → length (filled old i x random) ≡ length old
unfolding filled put_uint32
length-filled old i x random =
    length-copy_at (copy_at (copy_at old 0 (le_bytes 4 i)) 4 (x ∷ [])) 5 random
    ∙ length-copy_at (copy_at old 0 (le_bytes 4 i)) 4 (x ∷ [])
    ∙ length-copy_at old 0 (le_bytes 4 i)

pub filled-IsEntry :
    (old : List ℕ) (i x : ℕ) (random : List ℕ)
    → length old ≡ nonce_size
    → i < 2 ^ 32
    → IsEntry i (filled old i x random)
unfolding filled put_uint32 uint32_at
filled-IsEntry old i x random e h = record {
  size = length-filled old i x random ∙ e;
  index =
      ap le_value (
        bytes_at-copy_at_after (copy_at (copy_at old 0 (le_bytes 4 i)) 4 (x ∷ [])) 5 random 0 4
          (omega arith)
        ∙ bytes_at-copy_at_after (copy_at old 0 (le_bytes 4 i)) 4 (x ∷ []) 0 4 (omega arith)
        ∙ ap (bytes_at (copy_at old 0 (le_bytes 4 i)) 0) (sym (length-le_bytes 4 i))
        ∙ bytes_at-copy_at_self old 0 (le_bytes 4 i) (omega (arith, length-le_bytes 4 i)))
      ∙ uint32-le_bytes i h;
}

-- The random part of an entry.
abbrev pub random_part : List ℕ → List ℕ
random_part e = bytes_at e 5 11

pub random_part-filled :
    (old : List ℕ) (i x : ℕ) (random : List ℕ)
    → length old ≡ nonce_size
    → length random ≡ 11
    → random_part (filled old i x random) ≡ random
unfolding filled put_uint32
random_part-filled old i x random e h =
    let s : List ℕ = copy_at (copy_at old 0 (le_bytes 4 i)) 4 (x ∷ []) in
    ap (bytes_at (copy_at s 5 random) 5) (sym h)
    ∙ bytes_at-copy_at_self s 5 random (
        omega (
          arith,
          length-copy_at (copy_at old 0 (le_bytes 4 i)) 4 (x ∷ []),
          length-copy_at old 0 (le_bytes 4 i),
        ))

-- The byte loop decides equality of entries.
same_bytes→ :
    (a b : List ℕ) (rounds i : ℕ)
    → same_bytes a b rounds i ≡ true
    → (j : ℕ) → i ≤ j
    → j < i + rounds
    → get_or a j 0 ≡ get_or b j 0
unfolding same_bytes
same_bytes→ a b zero i h j lo hi = absurd (omega arith)
same_bytes→ a b (suc rounds) i h j lo hi = elim (ℕ_discrete i j) [
  | yes e ↦ rw (← e) (ground arith)
  | no ne ↦ same_bytes→ a b rounds (i + 1) (ground arith) j (omega arith) (omega arith)
]

same_bytes_refl : (a : List ℕ) (rounds i : ℕ) → same_bytes a a rounds i ≡ true
unfolding same_bytes
same_bytes_refl a zero i = refl
same_bytes_refl a (suc rounds) i = ground (arith, same_bytes_refl a rounds (i + 1))

pub same_bytes→eq :
    (a b : List ℕ)
    → length a ≡ nonce_size
    → length b ≡ nonce_size
    → same_bytes a b nonce_size 0 ≡ true
    → a ≡ b
same_bytes→eq a b ha hb h =
    get_or_ext 0 a b (ha ∙ sym hb)
      (λ i hi. same_bytes→ a b nonce_size 0 h i (omega arith) (omega arith))

-- `Check` accepts a nonce of 16 bytes exactly when it stands in the table.
pub check_iff :
    (c : Nonces) (nonce random : List ℕ)
    → IsValid c
    → length nonce ≡ nonce_size
    → ((check c nonce random).0 ≡ true)
      ↔ ((i : ℕ) × (i < length c.nonces) × (get_or c.nonces i [] ≡ nonce))
unfolding check
check_iff c nonce random v e = (to, from)
  where
    to :
        (check c nonce random).0 ≡ true
        → (i : ℕ) × (i < length c.nonces) × (get_or c.nonces i [] ≡ nonce)
    to h =
        let i : ℕ = uint32_at nonce 0 in
        let lt : i < length c.nonces = ground arith in
        (i, lt, same_bytes→eq (get_or c.nonces i []) nonce (v.entry i lt).size e (ground arith))

    from :
        (i : ℕ) × (i < length c.nonces) × (get_or c.nonces i [] ≡ nonce)
        → (check c nonce random).0 ≡ true
    from (i, lt, eq) =
        let at : uint32_at nonce 0 ≡ i = ap (λ s. uint32_at s 0) (sym eq) ∙ (v.entry i lt).index in
        rw (at, eq) (ground (arith, same_bytes_refl nonce nonce_size 0))

pub fill_nonce_in :
    (c : Nonces) (i : ℕ) (random : List ℕ)
    → i < length c.nonces
    → fill_nonce c i random
      ≡ record c { nonces = set c.nonces i (filled (get_or c.nonces i []) i c.complexity random) }
unfolding fill_nonce
fill_nonce_in c i random h = ground arith

pub fill_nonce_out :
    (c : Nonces) (i : ℕ) (random : List ℕ) → length c.nonces ≤ i → fill_nonce c i random ≡ c
unfolding fill_nonce
fill_nonce_out c i random h = ground arith

-- Filling an entry anew keeps the invariant.
pub fill_nonce-IsValid :
    (c : Nonces) (i : ℕ) (random : List ℕ) → IsValid c → IsValid (fill_nonce c i random)
fill_nonce-IsValid c i random v = elim (dec_lt i (length c.nonces)) [
  | no h ↦ rw (fill_nonce_out c i random (omega arith)) v
  | yes h ↦ rw (fill_nonce_in c i random h) (record {
    current = omega (arith, v.current, length-set c.nonces i (new h));
    small = omega (arith, v.small, length-set c.nonces i (new h));
    entry = λ j hj. entries h j (omega (arith, length-set c.nonces i (new h)));
  })
]
  where
    new : i < length c.nonces → List ℕ
    new h = filled (get_or c.nonces i []) i c.complexity random

    entries :
        (h : i < length c.nonces) (j : ℕ)
        → j < length c.nonces
        → IsEntry j (get_or (set c.nonces i (new h)) j [])
    entries h j hj = elim (ℕ_discrete i j) [
      | yes e ↦
          rw (← e, get_or-set_self c.nonces i (new h) [] h)
            (filled-IsEntry (get_or c.nonces i []) i c.complexity random (v.entry i h).size
              (omega (arith, v.small)))
      | no ne ↦ rw (get_or-set_ne c.nonces i j (new h) [] ne) (v.entry j hj)
    ]

-- `Check` keeps the invariant.
pub check-IsValid :
    (c : Nonces) (nonce random : List ℕ) → IsValid c → IsValid (check c nonce random).1
unfolding check
check-IsValid c nonce random v = ground (arith, fill_nonce-IsValid c (uint32_at nonce 0) random v)

-- A nonce that `Check` accepts is refused when it comes again, if the random bytes that replaced
-- it differ from its own.
pub check_once :
    (c : Nonces) (nonce random random' : List ℕ)
    → IsValid c
    → length nonce ≡ nonce_size
    → length random ≡ 11
    → random_part nonce ≢ random
    → (check c nonce random).0 ≡ true
    → (check (check c nonce random).1 nonce random').0 ≡ false
check_once c nonce random random' v e er fresh ok =
    elim (Bool-cases (check (check c nonce random).1 nonce random').0) [
      | inr h ↦ h
      | inl h ↦ absurd (clash h)
    ]
  where
    i : ℕ
    i = uint32_at nonce 0

    lt : i < length c.nonces
    lt = unfold check in ground arith

    after : (check c nonce random).1 ≡ fill_nonce c i random
    after = unfold check in ground arith

    slot :
        get_or (fill_nonce c i random).nonces i []
        ≡ filled (get_or c.nonces i []) i c.complexity random
    slot = rw (fill_nonce_in c i random lt) (get_or-set_self c.nonces i _ [] lt)

    clash : (check (check c nonce random).1 nonce random').0 ≡ true → ⊥
    clash h =
        let (j, hj, eq) =
          (check_iff (check c nonce random).1 nonce random' (check-IsValid c nonce random v) e).0
            h in
        let eq' : get_or (fill_nonce c i random).nonces j [] ≡ nonce = rw (← after) eq in
        let at : j ≡ i =
          sym ((check-IsValid c nonce random v).entry j hj).index ∙ ap (λ s. uint32_at s 0) eq in
        fresh (
          ap random_part (sym eq' ∙ ap (λ k. get_or (fill_nonce c i random).nonces k []) at ∙ slot)
          ∙ random_part-filled (get_or c.nonces i []) i c.complexity random (v.entry i lt).size er)
