-- ===== src/SnakeCounter/Replay.antt =====
-- Rows of calls on a new window: they refine the specification, and no counter passes twice.
use xchg.Base.{
  ℕ, zero, suc, ◌+◌, ◌-◌, ◌<◌, ◌≡◌, refl, ◌∙◌, sym, true, false, List, [], ◌∷◌, map, arith, length,
  length-replicate, length-set, replicate, get_or, get_or-set_self, get_or-set_ne, All,
}
use xchg.Base.Words.{IsWord, half_mod, sub64, minus_one}
use xchg.SnakeCounter.{
  SnakeCounter, move_window, test_and_declare, new_snake_counter, declare_all, shift_from,
}
use xchg.SnakeCounter.Cells.{get_or-shift, length-shift_from}
use xchg.SnakeCounter.Window.{Window, contains, is_fresh, declare, accepted}
use xchg.SnakeCounter.Refine.{Refines, cell_of, is_nil, test_and_declare_refines}

-- The window of `NewSnakeCounter`: the initial value is taken.
abbrev pub new_window : ℕ → ℕ → Window
new_window size init_value = record { size = size; newest = init_value; seen = init_value ∷ [] }

module _ (size init_value : ℕ) (pos : 0 < size) (small : size < half_mod)
    (fits : init_value + 1 < half_mod) where
  abbrev taken : List ℕ
  taken = replicate size 1

  abbrev moved : List ℕ
  moved = shift_from taken (sub64 init_value minus_one) (length taken) 0

  abbrev empty : SnakeCounter
  empty = record { size = size; cells = taken; last_processed = minus_one }

  ones : (k i : ℕ) → i < k → get_or {A = ℕ} (replicate k 1) i 0 ≡ 1
  ones zero i h = absurd (omega arith)
  ones (suc k) zero h = refl
  ones (suc k) (suc i) h = ones k i (omega arith)

  new-eq : new_snake_counter size init_value ≡ move_window empty init_value
  unfolding new_snake_counter test_and_declare
  new-eq = ground (arith, length-replicate {A = ℕ} size 1)

  shift-eq : sub64 init_value minus_one ≡ init_value + 1
  shift-eq = omega arith

  first_cell :
      (i : ℕ)
      → i < size
      → get_or (move_window empty init_value).cells i 0 ≡ cell_of (new_window size init_value) i
  unfolding move_window contains
  first_cell zero h =
      get_or-set_self moved 0 1 0 (
        omega (
          arith,
          length-replicate {A = ℕ} size 1,
          length-shift_from taken (sub64 init_value minus_one) (length taken) 0,
        ))
      ∙ ground arith
  first_cell (suc i) h =
      get_or-set_ne moved 0 (suc i) 1 0 (omega arith)
      ∙ get_or-shift taken (sub64 init_value minus_one) (suc i)
          (omega (arith, length-replicate {A = ℕ} size 1)) (omega arith)
          (omega (arith, length-replicate {A = ℕ} size 1))
      ∙ rw shift-eq (ground (arith, ones size (suc i - (init_value + 1))))

  -- A new window refines the specification's.
  pub new-Refines : Refines (new_snake_counter size init_value) (new_window size init_value)
  new-Refines = rw new-eq (
      unfold move_window in
      record {
        size = refl;
        full =
            length-set moved 0 1
            ∙ length-shift_from taken (sub64 init_value minus_one) (length taken) 0
            ∙ length-replicate size 1;
        pos = pos;
        small = small;
        last = refl;
        nonneg = omega arith;
        below = λ m e. unfold contains in ground arith;
        cell = first_cell;
      })

pub declare_all-Refines :
    (c : SnakeCounter) (w : Window) (ns : List ℕ)
    → Refines c w
    → All IsWord ns
    → map is_nil (declare_all c ns) ≡ accepted w ns
unfolding declare_all accepted
declare_all-Refines c w [] r a = refl
declare_all-Refines c w (n ∷ ns) r (h, a) =
    let (r', e) = test_and_declare_refines c w r n h in
    rw (e, declare_all-Refines (test_and_declare c n).0 (declare w n) ns r' a)

-- A new counter, given any row of counters, accepts exactly those that the specification of the
-- replay window accepts.
pub new_declare_all_refines :
    (size init_value : ℕ) (ns : List ℕ)
    → 0 < size
    → size < half_mod
    → init_value + 1 < half_mod
    → All IsWord ns
    → map is_nil (declare_all (new_snake_counter size init_value) ns)
      ≡ accepted (new_window size init_value) ns
new_declare_all_refines size init_value ns pos small fits a =
    declare_all-Refines (new_snake_counter size init_value) (new_window size init_value) ns
      (new-Refines size init_value pos small fits) a

-- The state after a row of calls.
unfoldable pub after_all : SnakeCounter → List ℕ → SnakeCounter
after_all c [] = c
after_all c (n ∷ ns) = after_all (test_and_declare c n).0 ns

abbrev declared : Window → List ℕ → Window
declared w [] = w
declared w (n ∷ ns) = declared (declare w n) ns

after_all-Refines :
    (c : SnakeCounter) (w : Window) (ns : List ℕ)
    → Refines c w
    → All IsWord ns
    → Refines (after_all c ns) (declared w ns)
unfolding after_all
after_all-Refines c w [] r a = r
after_all-Refines c w (n ∷ ns) r (h, a) =
    after_all-Refines (test_and_declare c n).0 (declare w n) ns
      (test_and_declare_refines c w r n h).0 a

contains-declare :
    (w : Window) (m n : ℕ) → contains w.seen n ≡ true → contains (declare w m).seen n ≡ true
unfolding declare contains
contains-declare w m n h = ground arith

contains-declared :
    (w : Window) (ns : List ℕ) (n : ℕ)
    → contains w.seen n ≡ true
    → contains (declared w ns).seen n ≡ true
contains-declared w [] n h = h
contains-declared w (m ∷ ns) n h = contains-declared (declare w m) ns n (contains-declare w m n h)

contains-declare_self :
    (w : Window) (n : ℕ) → is_fresh w n ≡ true → contains (declare w n).seen n ≡ true
unfolding declare contains
contains-declare_self w n h = ground arith

seen-not_fresh :
    (c : SnakeCounter) (w : Window) (n : ℕ)
    → Refines c w
    → contains w.seen n ≡ true
    → is_fresh w n ≡ false
unfolding is_fresh
seen-not_fresh c w n r h = ground (arith, r.below n)

pub refused_again :
    (c : SnakeCounter) (w : Window) (n : ℕ)
    → Refines c w
    → IsWord n
    → is_nil (test_and_declare c n).1 ≡ true
    → is_nil (test_and_declare (test_and_declare c n).0 n).1 ≡ false
refused_again c w n r word ok =
    let (r1, agree) = test_and_declare_refines c w r n word in
    (test_and_declare_refines (test_and_declare c n).0 (declare w n) r1 n word).1
    ∙ seen-not_fresh _ (declare w n) n r1 (contains-declare_self w n (sym agree ∙ ok))

-- A counter that was accepted is refused ever after, whatever came before it and since.
pub accepted_once :
    (size init_value : ℕ) (before since : List ℕ) (n : ℕ)
    → 0 < size
    → size < half_mod
    → init_value + 1 < half_mod
    → All IsWord before
    → All IsWord since
    → IsWord n
    → is_nil (test_and_declare (after_all (new_snake_counter size init_value) before) n).1 ≡ true
    → is_nil
        (test_and_declare
          (after_all
            (test_and_declare (after_all (new_snake_counter size init_value) before) n).0
            since)
          n).1
      ≡ false
accepted_once size init_value before since n pos small fits wb ws wn ok =
    (test_and_declare_refines _ w2 r2 n wn).1
    ∙ seen-not_fresh _ w2 n r2 (contains-declared w1 since n (contains-declare_self w n fresh))
  where
    w : Window
    w = declared (new_window size init_value) before

    r : Refines (after_all (new_snake_counter size init_value) before) w
    r = after_all-Refines _ _ before (new-Refines size init_value pos small fits) wb

    fresh : is_fresh w n ≡ true
    fresh = sym (test_and_declare_refines _ w r n wn).1 ∙ ok

    w1 : Window
    w1 = declare w n

    w2 : Window
    w2 = declared w1 since

    r2 :
        Refines
          (after_all
            (test_and_declare (after_all (new_snake_counter size init_value) before) n).0
            since)
          w2
    r2 = after_all-Refines _ w1 since (test_and_declare_refines _ w r n wn).0 ws
