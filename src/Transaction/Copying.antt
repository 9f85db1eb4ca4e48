-- ===== src/Transaction/Copying.antt =====
-- Copying the received frames together gives the message.
use xchg.Base.{
  ℕ, ◌+◌, ◌-◌, ◌≤◌, ◌<◌, ◌≡◌, refl, ap, ◌∙◌, sym, ◌⊎◌, inl, inr, true, some, List, [], ◌∷◌, ◌++◌,
  arith, ◌==◌, leb, length, get_or, get_or_ext, All, Bool-cases,
}
use xchg.Bytes.{copy_at, length-copy_at, get_or-copy_at_in, get_or-copy_at_out, get_or-bytes_at}
use xchg.Transaction.{Frame, found, copy_frames}
use xchg.Transaction.Pieces.{
  Tiles, SlicesOf, IsSliceOf, Among, Among-unique, Among-IsSliceOf, locate,
}
use xchg.Transaction.Held.{all_found, found_of_all_found}

-- The frame covers the position.
abbrev Covers : ℕ → Frame → Type 0
Covers i f = (f.offset ≤ i) × (i < f.offset + length f.payload)

abbrev Covered : ℕ → List Frame → Type 0
Covered i [] = ⊥
Covered i (f ∷ fs) = Covers i f ⊎ Covered i fs

-- The frame's bytes are those of the message at its offset.
abbrev IsPartOf : List ℕ → Frame → Type 0
IsPartOf bytes f = IsSliceOf bytes f.offset f.payload

part_byte :
    (bytes buf : List ℕ) (f : Frame) (i : ℕ)
    → IsPartOf bytes f
    → length buf ≡ length bytes
    → Covers i f
    → get_or (copy_at buf f.offset f.payload) i 0 ≡ get_or bytes i 0
part_byte bytes buf f i (fits, same) e (lo, hi) =
    let k : ℕ = i - f.offset in
    let ei : f.offset + k ≡ i = omega arith in
    ap (λ j. get_or (copy_at buf f.offset f.payload) j 0) (sym ei)
    ∙ get_or-copy_at_in buf f.offset f.payload k 0 (omega arith) (omega arith)
    ∙ ap (λ s. get_or s k 0) same
    ∙ get_or-bytes_at bytes f.offset (length f.payload) k 0 (omega arith)
    ∙ ap (λ j. get_or bytes j 0) ei

Covers-cases :
    (i : ℕ) (f : Frame) → Covers i f ⊎ ((i < f.offset) ⊎ (f.offset + length f.payload ≤ i))
Covers-cases i f = omega arith

step_byte :
    (bytes buf : List ℕ) (f : Frame) (i : ℕ)
    → IsPartOf bytes f
    → length buf ≡ length bytes
    → (get_or buf i 0 ≡ get_or bytes i 0) ⊎ Covers i f
    → get_or (copy_at buf f.offset f.payload) i 0 ≡ get_or bytes i 0
step_byte bytes buf f i p e (inr c) = part_byte bytes buf f i p e c
step_byte bytes buf f i p e (inl h) = elim (Covers-cases i f) [
  | inl c ↦ part_byte bytes buf f i p e c
  | inr out ↦ get_or-copy_at_out buf f.offset f.payload i 0 out ∙ h
]

-- Copying frames of the message into a buffer of its length does not panic, and every position
-- that a frame covers, or that was right before, is right at the end.
copy_frames_lem :
    (bytes : List ℕ) (fs : List Frame) (buf : List ℕ)
    → All (IsPartOf bytes) fs
    → length buf ≡ length bytes
    → (out : List ℕ) × (copy_frames buf fs ≡ some out)
      × (length out ≡ length bytes)
      × ((i : ℕ)
          → (get_or buf i 0 ≡ get_or bytes i 0) ⊎ Covered i fs
          → get_or out i 0 ≡ get_or bytes i 0)
unfolding copy_frames
copy_frames_lem bytes [] buf a e = (buf, refl, e, λ i. elim [ inl h ↦ h | inr c ↦ absurd c ])
copy_frames_lem bytes (f ∷ fs) buf (p, a) e =
    let (out, eq, len, same) =
      copy_frames_lem bytes fs (copy_at buf f.offset f.payload) a
        (length-copy_at buf f.offset f.payload ∙ e) in
    (
      out,
      rw fits eq,
      len,
      λ i. elim [
        | inl h ↦ same i (inl (step_byte bytes buf f i p e (inl h)))
        | inr (inl c) ↦ same i (inl (step_byte bytes buf f i p e (inr c)))
        | inr (inr c) ↦ same i (inr c)
      ],
    )
  where
    fits : leb f.offset (length buf) ≡ true
    fits = ground arith

-- The frames that a receiver holds carry blocks of the message.
abbrev pub FromBlocks : List (ℕ × List ℕ) → List Frame → Type 0
FromBlocks bs fs = All (λ (f : Frame). Among f.offset f.payload bs) fs

pub FromBlocks-append :
    (bs : List (ℕ × List ℕ)) (fs : List Frame) (f : Frame)
    → FromBlocks bs fs
    → Among f.offset f.payload bs
    → FromBlocks bs (fs ++ (f ∷ []))
FromBlocks-append bs [] f a m = (m, tt)
FromBlocks-append bs (g ∷ fs) f (n, a) m = (n, FromBlocks-append bs fs f a m)

module _ (bytes : List ℕ) (bs : List (ℕ × List ℕ)) (t : Tiles 0 bs (length bytes))
    (s : SlicesOf bytes bs) where
  parts : (fs : List Frame) → FromBlocks bs fs → All (IsPartOf bytes) fs
  parts [] a = tt
  parts (f ∷ fs) (m, a) = (Among-IsSliceOf bytes f.offset f.payload bs s m, parts fs a)

  covered :
      (i o : ℕ) (d : List ℕ) (fs : List Frame)
      → FromBlocks bs fs
      → Among o d bs
      → o ≤ i
      → i < o + length d
      → found o fs ≡ true
      → Covered i fs
  unfolding found
  covered i o d [] a m lo hi h = cc
  covered i o d (f ∷ fs) (n, a) m lo hi h = elim (Bool-cases (f.offset == o)) [
    | inl here ↦
        let e : f.offset ≡ o = ground arith in
        let same : f.payload ≡ d =
          Among-unique o 0 (length bytes) f.payload d bs t (rw (← e) n) m in
        inl (omega arith, omega (arith, ap length same))
    | inr there ↦ inr (covered i o d fs a m lo hi (ground arith))
  ]

  -- When every block has arrived, the copy gives the message.
  pub copy_all :
      (fs : List Frame) (buf : List ℕ)
      → FromBlocks bs fs
      → all_found bs fs ≡ true
      → length buf ≡ length bytes
      → copy_frames buf fs ≡ some bytes
  copy_all fs buf a full e =
      let (out, eq, len, same) = copy_frames_lem bytes fs buf (parts fs a) e in
      let right : out ≡ bytes = get_or_ext 0 out bytes len (λ i hi.
        let (o, d, m, lo, up) = locate i 0 (length bytes) bs t (omega arith) (omega arith) in
        same i (inr (covered i o d fs a m lo up (found_of_all_found bs fs o d full m)))) in
      eq ∙ ap some right
