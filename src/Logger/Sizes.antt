-- ===== src/Logger/Sizes.antt =====
-- `SizeAsString`.
use xchg.Base.{ℕ, ◌/◌, ◌^◌, ◌≤◌, ◌<◌, inl, inr, Bool-cases, ◌++◌, arith, length, length-append}
use xchg.Texts.{codes}
use xchg.Decimal.{format_int, length-format_int}
use xchg.Logger.{FileInfo, unit_of, size_as_string}

-- The number that is shown for a size below 2 ^ 40.
shown :
    (size : ℕ)
    → size < 2 ^ 40
    → (size / (unit_of size).0 < 1024)
      × (0 < size → 0 < size / (unit_of size).0)
      × (length (unit_of size).1 ≤ 2)
unfolding unit_of
shown size h = (ground arith, λ pos. ground arith, ground arith)

size_as_string-short :
    (c : FileInfo)
    → c.size / (unit_of c.size).0 < 1024
    → length (unit_of c.size).1 ≤ 2
    → length (size_as_string c) ≤ 7
unfolding size_as_string
size_as_string-short c small unit = elim (Bool-cases c.dir) [
  | inl directory ↦ rw directory (omega arith)
  | inr file ↦
      let n : ℕ = c.size / (unit_of c.size).0 in
      rw file (
        omega (
          arith,
          length-format_int n,
          length-append (format_int n) (codes " "),
          length-append (format_int n ++ codes " ") (unit_of c.size).1,
        ))
]

-- Of a file of less than 1024 GB, the number before the unit is below 1024, and not 0 unless the
-- file is empty; the text, also that of a directory, has at most seven characters.
pub size_as_string_bounds :
    (c : FileInfo)
    → c.size < 2 ^ 40
    → (c.size / (unit_of c.size).0 < 1024)
      × (0 < c.size → 0 < c.size / (unit_of c.size).0)
      × (length (size_as_string c) ≤ 7)
size_as_string_bounds c h =
    let (small, pos, unit) = shown c.size h in (small, pos, size_as_string-short c small unit)
