-- ===== src/SnakeCounter.antt =====
-- xchg/utils_snake_counter.go: the replay window of a session. The proofs are in the modules below.
pub mod Cells
pub mod Window
pub mod Refine
pub mod Replay
mod Tests
use xchg.Base.{
  ℕ, zero, suc, ◌+◌, Bool, true, false, not, ◌&&◌, Option, none, some, List, [], ◌∷◌, ◌==◌,
  if◌then◌else◌, length, get_or, set, replicate,
}
use xchg.Base.Words.{sub64, slt, minus_one}

-- `cells` is the field `data`: `cells[i]` is 1 if the counter `lastProcessed - i` is taken.
pub record SnakeCounter : Type 0 where
  pub size : ℕ
  pub cells : List ℕ
  pub last_processed : ℕ

pub data Error : Type 0 where
  too_less already_used : Error

-- The cell that lands on `i` when the window moves by `shift`.
unfoldable pub shifted_cell : List ℕ → ℕ → ℕ → ℕ
shifted_cell cells shift i =
    let old = sub64 i shift in
    if not (slt old 0) && slt old (length cells) then get_or cells old 0 else 0

-- The loop that fills `newData`, from `i` on.
unfoldable pub shift_from : List ℕ → ℕ → ℕ → ℕ → List ℕ
shift_from cells shift zero i = []
shift_from cells shift (suc rounds) i =
    shifted_cell cells shift i ∷ shift_from cells shift rounds (i + 1)

-- `TestAndDeclare` for a counter above `lastProcessed`. (With a window of no cells `data[0]` would
-- panic; here the write is lost.)
move_window : SnakeCounter → ℕ → SnakeCounter
move_window c counter = record c {
  cells = set (shift_from c.cells (sub64 counter c.last_processed) (length c.cells) 0) 0 1;
  last_processed = counter;
}

-- `TestAndDeclare` for a counter inside the window.
take_cell : SnakeCounter → ℕ → SnakeCounter × Option Error
take_cell c index =
    if not (slt index 0) && slt index c.size
    then (if get_or c.cells index 0 == 0
        then (record c { cells = set c.cells index 1 }, none)
        else (c, some already_used))
    else (c, some already_used)

-- `TestAndDeclare`; `none` is the nil error.
unfoldable pub test_and_declare : SnakeCounter → ℕ → SnakeCounter × Option Error
unfolding move_window take_cell shift_from shifted_cell
test_and_declare c counter =
    if slt counter (sub64 c.last_processed (length c.cells))
    then (c, some too_less)
    else (if slt c.last_processed counter
        then (move_window c counter, none)
        else take_cell c (sub64 c.last_processed counter))

-- `NewSnakeCounter`.
unfoldable pub new_snake_counter : ℕ → ℕ → SnakeCounter
unfolding test_and_declare
new_snake_counter size init_value =
    (test_and_declare (record { size = size; cells = replicate size 1; last_processed = minus_one })
      init_value).0

-- A row of calls, with the error of each.
unfoldable pub declare_all : SnakeCounter → List ℕ → List (Option Error)
declare_all c [] = []
declare_all c (n ∷ ns) = let (c', e) = test_and_declare c n in e ∷ declare_all c' ns
