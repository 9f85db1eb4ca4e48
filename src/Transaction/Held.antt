-- ===== src/Transaction/Held.antt =====
-- How much of a message the received frames hold, counted block by block.
use xchg.Base.{
  ℕ, ◌+◌, ◌≤◌, ◌<◌, ◌≡◌, refl, inl, inr, Bool, true, false, ◌&&◌, ◌||◌, List, [], ◌∷◌, ◌++◌, arith,
  ◌==◌, if◌then◌else◌, length,
}
use xchg.Transaction.{Frame, found}
use xchg.Transaction.Pieces.{Tiles, Among, Among-above}

pub found-append : (o : ℕ) (fs gs : List Frame) → found o (fs ++ gs) ≡ (found o fs || found o gs)
unfolding found
found-append o [] gs = refl
found-append o (f ∷ fs) gs = ground (arith, found-append o fs gs)

-- Every block of the list has a frame at its offset.
unfoldable pub all_found : List (ℕ × List ℕ) → List Frame → Bool
all_found [] fs = true
all_found ((o, d) ∷ bs) fs = found o fs && all_found bs fs

pub all_found_ext :
    (bs : List (ℕ × List ℕ)) (fs gs : List Frame)
    → ((o : ℕ) → found o fs ≡ found o gs)
    → all_found bs fs ≡ all_found bs gs
unfolding all_found
all_found_ext [] fs gs h = refl
all_found_ext ((o, d) ∷ bs) fs gs h = ground (arith, h o, all_found_ext bs fs gs h)

pub found_of_all_found :
    (bs : List (ℕ × List ℕ)) (fs : List Frame) (o : ℕ) (d : List ℕ)
    → all_found bs fs ≡ true
    → Among o d bs
    → found o fs ≡ true
unfolding all_found
found_of_all_found [] fs o d h m = absurd m
found_of_all_found ((x, y) ∷ bs) fs o d h m = ground (arith, found_of_all_found bs fs o d)

module _ (w : List ℕ → ℕ) where
  -- The weight of the blocks that have arrived, and of all blocks.
  pub held : List (ℕ × List ℕ) → List Frame → ℕ
  held [] fs = 0
  held ((o, d) ∷ bs) fs = (if found o fs then w d else 0) + held bs fs

  pub weight : List (ℕ × List ℕ) → ℕ
  weight [] = 0
  weight ((o, d) ∷ bs) = w d + weight bs

  pub held-nil : (bs : List (ℕ × List ℕ)) → held bs [] ≡ 0
  unfolding held found
  held-nil [] = refl
  held-nil ((o, d) ∷ bs) = omega (arith, held-nil bs)

  pub held-le-weight : (bs : List (ℕ × List ℕ)) (fs : List Frame) → held bs fs ≤ weight bs
  unfolding held weight
  held-le-weight [] fs = omega arith
  held-le-weight ((o, d) ∷ bs) fs = ground (arith, held-le-weight bs fs)

  pub held-lt-weight :
      (bs : List (ℕ × List ℕ)) (fs : List Frame) (o : ℕ) (d : List ℕ)
      → Among o d bs
      → 0 < w d
      → found o fs ≡ false
      → held bs fs < weight bs
  unfolding held weight
  held-lt-weight [] fs o d m p h = absurd m
  held-lt-weight ((x, y) ∷ bs) fs o d (inl (eo, ed)) p h =
      rw (← eo, ← ed) (ground (arith, held-le-weight bs fs))
  held-lt-weight ((x, y) ∷ bs) fs o d (inr m) p h =
      ground (arith, held-lt-weight bs fs o d m p h, held-le-weight bs fs)

  pub held_of_all_found :
      (bs : List (ℕ × List ℕ)) (fs : List Frame) → all_found bs fs ≡ true → held bs fs ≡ weight bs
  unfolding held weight all_found
  held_of_all_found [] fs h = refl
  held_of_all_found ((o, d) ∷ bs) fs h = ground (arith, held_of_all_found bs fs)

  -- A frame at another offset changes nothing.
  held-append_below :
      (bs : List (ℕ × List ℕ)) (fs : List Frame) (f : Frame) (lo hi : ℕ)
      → Tiles lo bs hi
      → f.offset < lo
      → held bs (fs ++ (f ∷ [])) ≡ held bs fs
  unfolding held found
  held-append_below [] fs f lo hi t h = refl
  held-append_below ((o, d) ∷ bs) fs f lo hi (e, p, t) h =
      ground (arith, found-append o fs (f ∷ []), held-append_below bs fs f (lo + length d) hi t)

  -- A frame that brings a missing block adds the weight of that block.
  pub held-append :
      (bs : List (ℕ × List ℕ)) (fs : List Frame) (f : Frame) (d : List ℕ) (lo hi : ℕ)
      → Tiles lo bs hi
      → Among f.offset d bs
      → found f.offset fs ≡ false
      → held bs (fs ++ (f ∷ [])) ≡ held bs fs + w d
  unfolding held found
  held-append [] fs f d lo hi t m h = absurd m
  held-append ((o, y) ∷ bs) fs f d lo hi (e, p, t) (inl (eo, ed)) h =
      ground (arith, found-append o fs (f ∷ []), held-append_below bs fs f (lo + length y) hi t)
  held-append ((o, y) ∷ bs) fs f d lo hi (e, p, t) (inr m) h = ground (
    arith,
    found-append o fs (f ∷ []),
    held-append bs fs f d (lo + length y) hi t m h,
    Among-above f.offset (lo + length y) hi d bs t m,
  )

-- The blocks weigh as much as the range that they tile.
pub weight-Tiles :
    (bs : List (ℕ × List ℕ)) (lo hi : ℕ) → Tiles lo bs hi → lo + weight length bs ≡ hi
unfolding weight
weight-Tiles [] lo hi t = omega arith
weight-Tiles ((o, d) ∷ bs) lo hi (e, p, t) = omega (arith, weight-Tiles bs (lo + length d) hi t)

pub weight-one : (bs : List (ℕ × List ℕ)) → weight (λ _. 1) bs ≡ length bs
unfolding weight
weight-one [] = refl
weight-one (b ∷ bs) = omega (arith, weight-one bs)

-- The held length is the whole length exactly when every block has arrived.
pub held-eq-weight_iff :
    (bs : List (ℕ × List ℕ)) (fs : List Frame) (lo hi : ℕ)
    → Tiles lo bs hi
    → (held length bs fs == weight length bs) ≡ all_found bs fs
unfolding held weight all_found
held-eq-weight_iff [] fs lo hi t = refl
held-eq-weight_iff ((o, d) ∷ bs) fs lo hi (e, p, t) =
    ground (arith, held-eq-weight_iff bs fs (lo + length d) hi t, held-le-weight length bs fs)

-- Before the first frame some block is missing.
pub all_found-nil :
    (bs : List (ℕ × List ℕ)) (lo hi : ℕ) → Tiles lo bs hi → lo < hi → all_found bs [] ≡ false
unfolding all_found found
all_found-nil [] lo hi t h = absurd (omega arith)
all_found-nil ((o, d) ∷ bs) lo hi t h = refl
