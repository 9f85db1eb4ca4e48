-- ===== src/SnakeCounter/Cells.antt =====
-- What the cells hold after the window moved.
use xchg.Base.{
  ℕ, zero, suc, ◌+◌, ◌-◌, ◌%◌, ◌<◌, ◌≡◌, refl, ap, ◌∙◌, List, arith, leb, dec_le, length, get_or,
  if◌then◌else◌,
}
use xchg.Base.Words.{half_mod, word_mod}
use xchg.SnakeCounter.{shifted_cell, shift_from}

pub length-shift_from :
    (cells : List ℕ) (shift rounds i : ℕ) → length (shift_from cells shift rounds i) ≡ rounds
unfolding shift_from
length-shift_from cells shift zero i = refl
length-shift_from cells shift (suc rounds) i = ap suc (length-shift_from cells shift rounds (i + 1))

get_or-shift_from :
    (cells : List ℕ) (shift rounds i k : ℕ)
    → k < rounds
    → get_or (shift_from cells shift rounds i) k 0 ≡ shifted_cell cells shift (i + k)
unfolding shift_from
get_or-shift_from cells shift zero i k h = absurd (omega arith)
get_or-shift_from cells shift (suc rounds) i zero h = ap (shifted_cell cells shift) (omega arith)
get_or-shift_from cells shift (suc rounds) i (suc k) h =
    get_or-shift_from cells shift rounds (i + 1) k (omega arith)
    ∙ ap (shifted_cell cells shift) (omega arith)

-- The cell at `i` comes from `i - shift`, or is clear.
shifted_cell_lem :
    (cells : List ℕ) (shift i : ℕ)
    → length cells < half_mod
    → shift < half_mod
    → i < length cells
    → shifted_cell cells shift i ≡ (if leb shift i then get_or cells (i - shift) 0 else 0)
unfolding shifted_cell
shifted_cell_lem cells shift i small hs hi = elim (dec_le shift i) [
  | yes p ↦
      let e : (i + (word_mod - shift)) % word_mod ≡ i - shift = omega arith in rw e (ground arith)
  | no p ↦ ground arith
]

pub get_or-shift :
    (cells : List ℕ) (shift i : ℕ)
    → length cells < half_mod
    → shift < half_mod
    → i < length cells
    → get_or (shift_from cells shift (length cells) 0) i 0
      ≡ (if leb shift i then get_or cells (i - shift) 0 else 0)
get_or-shift cells shift i small hs hi =
    get_or-shift_from cells shift (length cells) 0 i hi
    ∙ ap (shifted_cell cells shift) (omega arith)
    ∙ shifted_cell_lem cells shift i small hs hi
