-- ===== src/Base/Words.antt =====
-- Machine integers. A Go `int` or `uint64` is its 64-bit pattern, a number below 2 ^ 64.
use Prim.Native.Nat.{ℕ, ◌+◌, ◌-◌, ◌%◌, ◌^◌, ◌≤◌, ◌<◌}
use mathlib.Core.Path.{◌≡◌}
use mathlib.Core.Bool.{Bool, true, false}
use native.Mathlib.Omega.{arith}
use xchg.Base.Tests.{ltb}

abbrev pub word_mod : ℕ
word_mod = 2 ^ 64

abbrev pub half_mod : ℕ
half_mod = 2 ^ 63

-- Addition and subtraction wrap.
abbrev pub add64 : ℕ → ℕ → ℕ
add64 a b = (a + b) % word_mod

abbrev pub sub64 : ℕ → ℕ → ℕ
sub64 a b = (a + (word_mod - b)) % word_mod

-- The signed order: adding 2 ^ 63 turns it into the order of the patterns.
abbrev pub signed_rank : ℕ → ℕ
signed_rank a = (a + half_mod) % word_mod

abbrev pub slt : ℕ → ℕ → Bool
slt a b = ltb (signed_rank a) (signed_rank b)

-- The pattern of -1.
abbrev pub minus_one : ℕ
minus_one = word_mod - 1

abbrev pub IsWord : ℕ → Type 0
IsWord a = a < word_mod

-- The pattern of a number that is not negative.
abbrev pub IsNonneg : ℕ → Type 0
IsNonneg a = a < half_mod

-- On numbers that are not negative the signed order is the usual one.
pub slt_of_lt : (a b : ℕ) → IsNonneg b → a < b → slt a b ≡ true
slt_of_lt a b h lt = ground arith

pub slt_of_ge : (a b : ℕ) → IsNonneg a → b ≤ a → slt a b ≡ false
slt_of_ge a b h le = ground arith
