-- ===== src/SnakeCounter/Tests.antt =====
-- The theorems at concrete inputs.
use xchg.Base.{◌≡◌, refl, true, false, [], ◌∷◌, map, arith}
use xchg.SnakeCounter.{test_and_declare, new_snake_counter, declare_all}
use xchg.SnakeCounter.Window.{accepted}
use xchg.SnakeCounter.Refine.{Refines, is_nil}
use xchg.SnakeCounter.Replay.{
  new_window, new-Refines, new_declare_all_refines, after_all, accepted_once,
}

four_from_9 : Refines (new_snake_counter 4 9) (new_window 4 9)
four_from_9 = new-Refines 4 9 (omega arith) (omega arith) (omega arith)

new_declare_all_refines_example :
    map is_nil (declare_all (new_snake_counter 4 0) (3 ∷ 3 ∷ 1 ∷ []))
    ≡ accepted (new_window 4 0) (3 ∷ 3 ∷ 1 ∷ [])
new_declare_all_refines_example =
    new_declare_all_refines 4 0 (3 ∷ 3 ∷ 1 ∷ []) (omega arith) (omega arith) (omega arith)
      (omega arith, (omega arith, (omega arith, tt)))

accepted_run : is_nil (test_and_declare (after_all (new_snake_counter 4 0) (3 ∷ [])) 2).1 ≡ true
unfolding test_and_declare after_all new_snake_counter
accepted_run = refl

accepted_once_example :
    is_nil
      (test_and_declare
        (after_all (test_and_declare (after_all (new_snake_counter 4 0) (3 ∷ [])) 2).0 (5 ∷ []))
        2).1
    ≡ false
accepted_once_example =
    accepted_once 4 0 (3 ∷ []) (5 ∷ []) 2 (omega arith) (omega arith) (omega arith)
      (omega arith, tt) (omega arith, tt) (omega arith) accepted_run
