-- ===== src/Framing/Split.antt =====
-- A buffer of frames that stand end to end is cut into exactly those frames.
use xchg.Base.{
  ℕ, zero, suc, ◌+◌, ◌≤◌, ◌<◌, ◌≡◌, refl, ap, ◌∙◌, sym, Option, none, some, List, [], ◌∷◌, ◌++◌,
  map, arith, length, length-append, take, drop, All, take-length-append, drop-length-append,
  drop-drop, lt→ltb, le→leb, le→not-ltb, Option-cases, inl, inr,
}
use mathlib.Core.Path.{subst}
use mathlib.Core.List.{append_assoc}
use xchg.Bytes.{uint32_at, bytes_at, le_value}
use xchg.Router.{Slice, slice_bytes}
use xchg.Framing.{panicked, sub_slice, min_frame, frames_loop, handle_all}

-- A frame that the loop can cut off: its first four bytes hold its length.
pub record IsFramed (f : List ℕ) : Type 0 where
  pub long : min_frame ≤ length f
  pub own_length : uint32_at f 0 ≡ length f

abbrev pub end_to_end : List (List ℕ) → List ℕ
end_to_end [] = []
end_to_end (f ∷ fs) = f ++ end_to_end fs

-- The frames as slices of the buffer, from `offset` on.
unfoldable pub slices : Slice → ℕ → List (List ℕ) → List Slice
slices buf offset [] = []
slices buf offset (f ∷ fs) = sub_slice buf offset (length f) ∷ slices buf (offset + length f) fs

bytes_at-append :
    (xs ys : List ℕ) (n : ℕ) → n ≤ length xs → bytes_at (xs ++ ys) 0 n ≡ bytes_at xs 0 n
bytes_at-append xs ys zero h = refl
bytes_at-append [] ys (suc n) h = absurd (omega arith)
bytes_at-append (x ∷ xs) ys (suc n) h = ap (λ t. x ∷ t) (bytes_at-append xs ys n (omega arith))

uint32_at-drop : (s : List ℕ) (offset : ℕ) → uint32_at s offset ≡ uint32_at (drop offset s) 0
unfolding uint32_at
uint32_at-drop s offset = refl

uint32_at-append : (xs ys : List ℕ) → 4 ≤ length xs → uint32_at (xs ++ ys) 0 ≡ uint32_at xs 0
unfolding uint32_at
uint32_at-append xs ys h = ap le_value (bytes_at-append xs ys 4 h)

front :
    (s : List ℕ) (offset : ℕ) (f more : List ℕ)
    → IsFramed f
    → drop offset s ≡ f ++ more
    → (uint32_at s offset ≡ length f) × (drop (offset + length f) s ≡ more)
front s offset f more w e = (
  uint32_at-drop s offset
      ∙ ap (λ t. uint32_at t 0) e
      ∙ uint32_at-append f more (omega (arith, w.long))
      ∙ w.own_length,
  sym (drop-drop (length f) offset s) ∙ ap (drop (length f)) e ∙ drop-length-append f more,
)

module _ {ℓ} {S : Type ℓ} (handle : S → Slice → Option S) where
  own_round :
      (fuel : ℕ) (s : S) (buf : Slice) (offset : ℕ)
      → offset + min_frame ≤ buf.len
      → offset + uint32_at buf.array offset ≤ buf.len
      → frames_loop handle (suc fuel) s buf offset
        ≡ elim (handle s (sub_slice buf offset (uint32_at buf.array offset))) [
          | none ↦ panicked
          | some s' ↦ frames_loop handle fuel s' buf (offset + uint32_at buf.array offset)
        ]
  unfolding frames_loop
  own_round fuel s buf offset long fits = rw (
    lt→ltb offset buf.len (omega arith),
    le→leb (offset + min_frame) buf.len long,
    le→leb (offset + uint32_at buf.array offset) buf.len fits,
  )

  -- One round of the loop, on a frame of length `n`.
  pub one_round :
      (fuel : ℕ) (s : S) (buf : Slice) (offset n : ℕ)
      → uint32_at buf.array offset ≡ n
      → offset + min_frame ≤ buf.len
      → offset + n ≤ buf.len
      → frames_loop handle (suc fuel) s buf offset ≡ elim (handle s (sub_slice buf offset n)) [
        | none ↦ panicked
        | some s' ↦ frames_loop handle fuel s' buf (offset + n)
      ]
  one_round fuel s buf offset n e long fits =
      subst
        (λ k.
          frames_loop handle (suc fuel) s buf offset ≡ elim (handle s (sub_slice buf offset k)) [
            | none ↦ panicked
            | some s' ↦ frames_loop handle fuel s' buf (offset + k)
          ])
        e (own_round fuel s buf offset long (omega arith))

  -- What lies in the buffer from `offset` on: the frames, and then `spare`, past its length.
  frames_loop-frames :
      (fs : List (List ℕ)) (fuel : ℕ) (s : S) (buf : Slice) (offset : ℕ) (spare : List ℕ)
      → All IsFramed fs
      → length fs < fuel
      → drop offset buf.array ≡ end_to_end fs ++ spare
      → buf.len ≡ offset + length (end_to_end fs)
      → frames_loop handle fuel s buf offset ≡ handle_all handle s (slices buf offset fs)
  unfolding handle_all slices
  frames_loop-frames [] zero s buf offset spare a lt e len = absurd (omega arith)
  frames_loop-frames [] (suc fuel) s buf offset spare a lt e len =
      unfold frames_loop in rw (le→not-ltb offset buf.len (omega arith), frames_loop)
  frames_loop-frames (f ∷ fs) zero s buf offset spare a lt e len = absurd (omega arith)
  frames_loop-frames (f ∷ fs) (suc fuel) s buf offset spare (w, a) lt e len =
      let (own, rest) =
        front buf.array offset f (end_to_end fs ++ spare) w
          (e ∙ append_assoc f (end_to_end fs) spare) in
      let total = length-append f (end_to_end fs) in
      one_round fuel s buf offset (length f) own (omega (arith, w.long)) (omega arith)
      ∙ elim (Option-cases (handle s (sub_slice buf offset (length f)))) [
        | inl stop ↦ rw (stop, handle_all)
        | inr (s', go) ↦
            rw (go, handle_all)
              (frames_loop-frames fs fuel s' buf (offset + length f) spare a (omega arith) rest
                (omega arith))
      ]

-- The slices hold the frames.
slice_bytes-slices :
    (fs : List (List ℕ)) (buf : Slice) (offset : ℕ) (spare : List ℕ)
    → drop offset buf.array ≡ end_to_end fs ++ spare
    → map slice_bytes (slices buf offset fs) ≡ fs
unfolding slices
slice_bytes-slices [] buf offset spare e = refl
slice_bytes-slices (f ∷ fs) buf offset spare e =
    let e' = e ∙ append_assoc f (end_to_end fs) spare in
    cc (
      ap (take (length f)) e' ∙ take-length-append f (end_to_end fs ++ spare),
      slice_bytes-slices fs buf (offset + length f) spare (
          sym (drop-drop (length f) offset buf.array)
          ∙ ap (drop (length f)) e'
          ∙ drop-length-append f (end_to_end fs ++ spare)),
    )

-- A buffer of framed frames is handed over frame by frame, in order, and the loop ends: it does
-- what the handler does on slices that hold exactly those frames.
pub frames_loop_splits {ℓ} :
    {S : Type ℓ} (handle : S → Slice → Option S) (fs : List (List ℕ)) (fuel : ℕ) (s : S)
    (buf : Slice) (offset : ℕ) (spare : List ℕ)
    → All IsFramed fs
    → length fs < fuel
    → drop offset buf.array ≡ end_to_end fs ++ spare
    → buf.len ≡ offset + length (end_to_end fs)
    → (sl : List Slice) × (map slice_bytes sl ≡ fs)
      × (frames_loop handle fuel s buf offset ≡ handle_all handle s sl)
frames_loop_splits handle fs fuel s buf offset spare a lt e len = (
  slices buf offset fs,
  slice_bytes-slices fs buf offset spare e,
  frames_loop-frames handle fs fuel s buf offset spare a lt e len,
)
