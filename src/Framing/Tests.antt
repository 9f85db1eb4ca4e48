-- ===== src/Framing/Tests.antt =====
-- The loop at a concrete input.
use xchg.Base.{ℕ, ◌+◌, ◌≡◌, refl, Option, some, replicate}
use xchg.Bytes.{uint32_at}
use xchg.Router.{Slice}
use xchg.Framing.{running, frames_loop}

-- A handler that counts the frames.
abbrev count : ℕ → Slice → Option ℕ
count n f = some (n + 1)

abbrev zeros : Slice
zeros = record { array = replicate 69 0; len = 69 }

zeros_run : frames_loop count 70 0 zeros 0 ≡ running 70
unfolding frames_loop xchg.Bytes.uint32_at xchg.Bytes.le_value
zeros_run = refl
