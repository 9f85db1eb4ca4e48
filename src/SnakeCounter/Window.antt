-- ===== src/SnakeCounter/Window.antt =====
-- The replay window as a specification: the newest counter and those that were accepted.
use xchg.Base.{ℕ, ◌+◌, Bool, false, not, ◌&&◌, ◌||◌, List, [], ◌∷◌, ltb, ◌==◌, if◌then◌else◌}
use xchg.Base.Words.{half_mod}

pub record Window : Type 0 where
  pub size : ℕ
  pub newest : ℕ
  pub seen : List ℕ

unfoldable pub contains : List ℕ → ℕ → Bool
contains [] n = false
contains (x ∷ xs) n = (x == n) || contains xs n

-- A counter is fresh if it is not negative, and either above all others or one of the last `size`
-- that was not accepted before.
unfoldable pub is_fresh : Window → ℕ → Bool
is_fresh w n =
    ltb n half_mod && (ltb w.newest n || (ltb w.newest (n + w.size) && not (contains w.seen n)))

unfoldable pub declare : Window → ℕ → Window
declare w n =
    if is_fresh w n
    then record w { newest = if ltb w.newest n then n else w.newest; seen = n ∷ w.seen }
    else w

-- Which of a row of counters are accepted.
unfoldable pub accepted : Window → List ℕ → List Bool
accepted w [] = []
accepted w (n ∷ ns) = is_fresh w n ∷ accepted (declare w n) ns
