-- ===== src/Keys/Tests.antt =====
-- The theorems at concrete inputs.
use xchg.Base.{ℕ, ◌%◌, ◌^◌, ◌≤◌, ◌<◌, ◌≡◌, refl, List, arith, length, replicate, All}
use xchg.Bytes.{IsByte, le_value}
use xchg.Keys.{clamp}
use xchg.Keys.Clamped.{clamp_bounds}

abbrev random : List ℕ
random = replicate 32 201

clamp_bounds_example :
    (length (clamp random) ≡ 32)
    × All IsByte (clamp random)
    × (le_value (clamp random) % 8 ≡ 0)
    × (2 ^ 254 ≤ le_value (clamp random))
    × (le_value (clamp random) < 2 ^ 255)
clamp_bounds_example = clamp_bounds random refl (ground arith)
