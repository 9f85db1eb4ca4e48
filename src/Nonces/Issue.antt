-- ===== src/Nonces/Issue.antt =====
-- A nonce that `Next` gave out is good until the table has gone round.
use xchg.Base.{
  ℕ, suc, ◌+◌, ◌-◌, ◌≤◌, ◌<◌, ◌≡◌, refl, ap, ◌∙◌, sym, true, Option, none, some, List, [], ◌∷◌,
  arith, leb, if◌then◌else◌, length, length-set, get_or, get_or-set_ne,
}
use xchg.Nonces.{nonce_size, Nonces, filled, fill_nonce, advance, next, check}
use xchg.Nonces.Table.{IsValid, fill_nonce_in, fill_nonce-IsValid, check_iff}

-- The state after `Next`, and what it returned.
next_table : Nonces → List ℕ → Nonces
next_table c random =
    let c' = fill_nonce c c.current_index random in
    record c' { current_index = advance c.current_index (length c'.nonces) }

abbrev issued : Nonces → List ℕ → List ℕ
issued c random = get_or (fill_nonce c c.current_index random).nonces c.current_index []

next-some :
    (c : Nonces) (random : List ℕ)
    → IsValid c
    → next c random ≡ some (issued c random, next_table c random)
unfolding next next_table
next-some c random v = ground (arith, v.current)

length-next_table :
    (c : Nonces) (random : List ℕ)
    → IsValid c
    → length (next_table c random).nonces ≡ length c.nonces
unfolding next_table
length-next_table c random v =
    rw (fill_nonce_in c c.current_index random v.current) (length-set c.nonces c.current_index _)

next_table-IsValid : (c : Nonces) (random : List ℕ) → IsValid c → IsValid (next_table c random)
unfolding next_table
next_table-IsValid c random v =
    let w = fill_nonce-IsValid c c.current_index random v in
    record { current = ground (arith, w.current); small = w.small; entry = w.entry }

-- A valid table gives out a nonce, and stays valid.
pub next-IsValid :
    (c : Nonces) (random : List ℕ)
    → IsValid c
    → (nonce : List ℕ) × (c' : Nonces) × (next c random ≡ some (nonce, c')) × IsValid c'
next-IsValid c random v =
    (issued c random, next_table c random, next-some c random v, next_table-IsValid c random v)

-- How many calls of `Next` come before the one that writes entry `p`.
abbrev calls_before : ℕ → ℕ → ℕ → ℕ
calls_before p current size = if leb current p then p - current else size - current + p

-- A call of `Next` elsewhere leaves the entry.
next_keeps :
    (c : Nonces) (random : List ℕ) (p d : ℕ)
    → IsValid c
    → p < length c.nonces
    → calls_before p c.current_index (length c.nonces) ≡ suc d
    → (get_or (next_table c random).nonces p [] ≡ get_or c.nonces p [])
      × (calls_before p (next_table c random).current_index (length c.nonces) ≡ d)
unfolding next_table
next_keeps c random p d v hp e = rw (fill_nonce_in c c.current_index random v.current) (
  get_or-set_ne c.nonces c.current_index p _ [] (ground arith),
  rw (length-set c.nonces c.current_index _) (ground (arith, v.current)),
)

-- A row of calls of `Next`; `none` is a panic.
unfoldable pub next_all : Nonces → List (List ℕ) → Option Nonces
next_all c [] = some c
next_all c (random ∷ rest) = elim (next c random) [ none ↦ none | some (n, c') ↦ next_all c' rest ]

next_all_keeps :
    (c : Nonces) (randoms : List (List ℕ)) (p : ℕ)
    → IsValid c
    → p < length c.nonces
    → length randoms ≤ calls_before p c.current_index (length c.nonces)
    → (c' : Nonces) × (next_all c randoms ≡ some c')
      × IsValid c'
      × (length c'.nonces ≡ length c.nonces)
      × (get_or c'.nonces p [] ≡ get_or c.nonces p [])
unfolding next_all
next_all_keeps c [] p v hp h = (c, refl, v, refl, refl)
next_all_keeps c (random ∷ rest) p v hp h =
    let d : ℕ = calls_before p c.current_index (length c.nonces) - 1 in
    let (same, left) = next_keeps c random p d v hp (ground arith) in
    let len = length-next_table c random v in
    let (c', run, v', len', same') =
      next_all_keeps (next_table c random) rest p (next_table-IsValid c random v) (omega arith)
        (rw (len, left) (omega arith)) in
    (c', rw (next-some c random v, next_all) run, v', len' ∙ len, same' ∙ same)

-- `Next` on a valid table returns a nonce, and `Check` accepts it, also after fewer further calls
-- of `Next` than the table has entries.
pub issued_accepted :
    (c : Nonces) (random : List ℕ) (later : List (List ℕ)) (random' : List ℕ)
    → IsValid c
    → length later < length c.nonces
    → (nonce : List ℕ) × (c1 c2 : Nonces) × (next c random ≡ some (nonce, c1))
      × (next_all c1 later ≡ some c2)
      × IsValid c2
      × ((check c2 nonce random').0 ≡ true)
issued_accepted c random later random' v few =
    let p : ℕ = c.current_index in
    let c1 : Nonces = next_table c random in
    let w = next_table-IsValid c random v in
    let len = length-next_table c random v in
    let (c2, run, w2, len2, same) = next_all_keeps c1 later p w (omega (arith, v.current)) (
      rw len (
        unfold next_table in
        ground (
          arith,
          v.current,
          ap length (ap (λ (x : Nonces). x.nonces) (fill_nonce_in c p random v.current)),
          length-set c.nonces p (filled (get_or c.nonces p []) p c.complexity random),
        ))) in
    let hp : p < length c2.nonces = omega (arith, v.current) in
    let kept : get_or c2.nonces p [] ≡ issued c random = same ∙ (unfold next_table in refl) in
    (
      issued c random,
      c1,
      c2,
      next-some c random v,
      run,
      w2,
      (check_iff c2 (issued c random) random' w2 (ap length (sym kept) ∙ (w2.entry p hp).size)).1
          (p, hp, kept),
    )

-- A nonce that was just given out has 16 bytes, and `Check` accepts it.
pub next-accepted :
    (c : Nonces) (random random' : List ℕ)
    → IsValid c
    → (nonce : List ℕ) × (c' : Nonces) × (next c random ≡ some (nonce, c'))
      × (length nonce ≡ nonce_size)
      × ((check c' nonce random').0 ≡ true)
unfolding next_table
next-accepted c random random' v =
    let p : ℕ = c.current_index in
    let w = next_table-IsValid c random v in
    let hp : p < length (next_table c random).nonces =
      omega (arith, v.current, length-next_table c random v) in
    let size : length (issued c random) ≡ nonce_size = (w.entry p hp).size in
    (
      issued c random,
      next_table c random,
      next-some c random v,
      size,
      (check_iff (next_table c random) (issued c random) random' w size).1 (p, hp, refl),
    )
