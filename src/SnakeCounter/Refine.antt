-- ===== src/SnakeCounter/Refine.antt =====
-- `TestAndDeclare` implements the replay window.
use xchg.Base.{
  ℕ, zero, suc, ◌+◌, ◌-◌, ◌≤◌, ◌<◌, ◌≡◌, refl, ap, ◌∙◌, sym, inl, inr, Bool, true, false, Option,
  none, some, ◌∷◌, arith, leb, ◌==◌, if◌then◌else◌, length, length-set, get_or, set,
  get_or-set_self, get_or-set_ne, Bool-cases, dec_lt, ℕ_discrete,
}
use xchg.Base.Words.{IsWord, half_mod, word_mod, sub64, slt}
use xchg.SnakeCounter.{
  SnakeCounter, Error, too_less, already_used, move_window, take_cell, test_and_declare, shift_from,
}
use xchg.SnakeCounter.Cells.{get_or-shift, length-shift_from}
use xchg.SnakeCounter.Window.{Window, contains, is_fresh, declare}

-- What the cell at `i` says: whether `newest - i` was accepted. Below 0 all counters are taken.
abbrev pub cell_of : Window → ℕ → ℕ
cell_of w i = if leb i w.newest then (if contains w.seen (w.newest - i) then 1 else 0) else 1

pub record Refines (c : SnakeCounter) (w : Window) : Type 0 where
  pub size : w.size ≡ c.size
  pub full : length c.cells ≡ c.size
  pub pos : 0 < c.size
  pub small : c.size < half_mod
  pub last : c.last_processed ≡ w.newest
  pub nonneg : w.newest < half_mod
  pub below : (n : ℕ) → contains w.seen n ≡ true → n ≤ w.newest
  pub cell : (i : ℕ) → i < c.size → get_or c.cells i 0 ≡ cell_of w i

-- The error is nil.
abbrev pub is_nil : Option Error → Bool
is_nil none = true
is_nil (some e) = false

module _ (c : SnakeCounter) (w : Window) (r : Refines c w) (n : ℕ) where
  run_ahead : n < half_mod → w.newest < n → test_and_declare c n ≡ (move_window c n, none)
  unfolding test_and_declare
  run_ahead h a = ground (arith, r.full, r.pos, r.small, r.last, r.nonneg)

  taken : SnakeCounter × Option Error
  taken =
      if get_or c.cells (w.newest - n) 0 == 0
      then (record c { cells = set c.cells (w.newest - n) 1 }, none)
      else (c, some already_used)

  run_inside : n ≤ w.newest → w.newest < n + w.size → test_and_declare c n ≡ taken
  unfolding test_and_declare taken take_cell
  run_inside b h =
      let e : sub64 c.last_processed n ≡ w.newest - n = ground (arith, r.last, r.nonneg) in
      rw e (ground (arith, r.full, r.pos, r.small, r.last, r.nonneg, r.size))

  refusal : Error
  refusal = if slt n (sub64 c.last_processed (length c.cells)) then too_less else already_used

  run_old : n ≤ w.newest → n + w.size ≤ w.newest → test_and_declare c n ≡ (c, some refusal)
  unfolding test_and_declare refusal
  run_old b h =
      let e : sub64 c.last_processed n ≡ w.newest - n = ground (arith, r.last, r.nonneg) in
      rw e (ground (arith, r.full, r.pos, r.small, r.last, r.nonneg, r.size))

  run_negative : IsWord n → half_mod ≤ n → test_and_declare c n ≡ (c, some refusal)
  unfolding test_and_declare refusal
  run_negative b h =
      let k : ℕ = w.newest + (word_mod - n) in
      let e : sub64 c.last_processed n ≡ k = ground (arith, r.last, r.nonneg) in
      rw e (ground (arith, r.full, r.pos, r.small, r.last, r.nonneg, r.size, r.cell k))

  -- The cells of the moved window.
  moved_cell :
      n < half_mod
      → w.newest < n
      → (i : ℕ) → i < c.size
      → get_or (move_window c n).cells i 0 ≡ cell_of (record w { newest = n; seen = n ∷ w.seen }) i
  unfolding move_window contains
  moved_cell h a zero hi =
      get_or-set_self (shift_from c.cells (sub64 n c.last_processed) (length c.cells) 0) 0 1 0 (
        omega
          (arith, r.full, length-shift_from c.cells (sub64 n c.last_processed) (length c.cells) 0))
      ∙ ground arith
  moved_cell h a (suc i) hi =
      let k : ℕ = n - w.newest in
      let e : sub64 n c.last_processed ≡ k = ground (arith, r.last, r.nonneg) in
      get_or-set_ne (shift_from c.cells (sub64 n c.last_processed) (length c.cells) 0) 0 (suc i) 1 0
        (omega arith)
      ∙ get_or-shift c.cells (sub64 n c.last_processed) (suc i) (omega (arith, r.full, r.small))
          (omega (arith, e)) (omega (arith, r.full))
      ∙ rw e (ground (arith, r.cell (suc i - k), r.below (n - suc i)))

  -- The cells after a counter inside the window was taken.
  taken_cell :
      n ≤ w.newest
      → w.newest < n + w.size
      → (i : ℕ) → i < c.size
      → get_or (set c.cells (w.newest - n) 1) i 0 ≡ cell_of (record w { seen = n ∷ w.seen }) i
  unfolding contains
  taken_cell b h i hi = elim (ℕ_discrete (w.newest - n) i) [
    | yes e ↦
        rw (← e) (
          get_or-set_self c.cells (w.newest - n) 1 0 (omega (arith, r.full, r.size)) ∙ ground arith)
    | no ne ↦ get_or-set_ne c.cells (w.newest - n) i 1 0 ne ∙ ground (arith, r.cell i)
  ]

  ahead_Refines :
      n < half_mod
      → w.newest < n
      → Refines (move_window c n) (record w { newest = n; seen = n ∷ w.seen })
  unfolding move_window
  ahead_Refines h a = record {
    size = r.size;
    full =
        length-set (shift_from c.cells (sub64 n c.last_processed) (length c.cells) 0) 0 1
        ∙ length-shift_from c.cells (sub64 n c.last_processed) (length c.cells) 0
        ∙ r.full;
    pos = r.pos;
    small = r.small;
    last = refl;
    nonneg = h;
    below = λ m e. unfold contains in ground (arith, r.below m);
    cell = moved_cell h a;
  }

  taken_Refines :
      n ≤ w.newest
      → w.newest < n + w.size
      → Refines (record c { cells = set c.cells (w.newest - n) 1 }) (record w { seen = n ∷ w.seen })
  taken_Refines b h = record {
    size = r.size;
    full = length-set c.cells (w.newest - n) 1 ∙ r.full;
    pos = r.pos;
    small = r.small;
    last = r.last;
    nonneg = r.nonneg;
    below = λ m e. unfold contains in ground (arith, r.below m);
    cell = taken_cell b h;
  }

  -- The outcome of a call against the specification.
  abbrev pub Agrees : SnakeCounter × Option Error → Type 0
  Agrees out = Refines out.0 (declare w n) × (is_nil out.1 ≡ is_fresh w n)

  declare_old : is_fresh w n ≡ false → declare w n ≡ w
  unfolding declare
  declare_old h = ground arith

  declare_inside : n ≤ w.newest → is_fresh w n ≡ true → declare w n ≡ record w { seen = n ∷ w.seen }
  unfolding declare
  declare_inside b h = ground arith

  refused :
      (e : Error)
      → is_fresh w n ≡ false
      → test_and_declare c n ≡ (c, some e)
      → Agrees (test_and_declare c n)
  refused e old eq = rw eq (rw (declare_old old) r, sym old)

  ahead-Agrees : n < half_mod → w.newest < n → Agrees (test_and_declare c n)
  unfolding declare is_fresh
  ahead-Agrees h a = rw (run_ahead h a) (ground (arith, ahead_Refines h a))

  taken_new :
      contains w.seen n ≡ false
      → n ≤ w.newest
      → w.newest < n + w.size
      → taken ≡ (record c { cells = set c.cells (w.newest - n) 1 }, none)
  unfolding taken
  taken_new new b h =
      let e : w.newest - (w.newest - n) ≡ n = omega arith in
      let f : get_or c.cells (w.newest - n) 0 ≡ cell_of w (w.newest - n) =
        r.cell (w.newest - n) (omega (arith, r.size)) in
      ground (arith, ap (contains w.seen) e)

  taken_old :
      contains w.seen n ≡ true
      → n ≤ w.newest
      → w.newest < n + w.size
      → taken ≡ (c, some already_used)
  unfolding taken
  taken_old old b h =
      let e : w.newest - (w.newest - n) ≡ n = omega arith in
      let f : get_or c.cells (w.newest - n) 0 ≡ cell_of w (w.newest - n) =
        r.cell (w.newest - n) (omega (arith, r.size)) in
      ground (arith, ap (contains w.seen) e)

  inside-Agrees : n ≤ w.newest → w.newest < n + w.size → Agrees (test_and_declare c n)
  inside-Agrees b h = elim (Bool-cases (contains w.seen n)) [
    | inl old ↦
        refused already_used (unfold is_fresh in ground arith) (run_inside b h ∙ taken_old old b h)
    | inr new ↦
        let fresh : is_fresh w n ≡ true = unfold is_fresh in ground (arith, r.nonneg) in
        rw (run_inside b h, taken_new new b h, declare_inside b fresh)
          (taken_Refines b h, sym fresh)
  ]

  -- One call keeps the refinement, and accepts exactly the fresh counters.
  pub test_and_declare_refines : IsWord n → Agrees (test_and_declare c n)
  test_and_declare_refines word = elim (dec_lt n half_mod) [
    | no big ↦ refused refusal (unfold is_fresh in ground arith) (run_negative word (omega arith))
    | yes small ↦ elim (dec_lt w.newest n) [
      | yes a ↦ ahead-Agrees small a
      | no b ↦ elim (dec_lt w.newest (n + w.size)) [
        | yes h ↦ inside-Agrees (omega arith) h
        | no h ↦
            refused refusal (unfold is_fresh in ground arith) (run_old (omega arith) (omega arith))
      ]
    ]
  ]
