-- ===== src/Framing/Stall.antt =====
-- The loop and frames that claim a length of 0.
use xchg.Base.{
  ℕ, zero, suc, ◌+◌, ◌≤◌, ◌<◌, ◌≡◌, ◌≢◌, refl, ap, ◌∙◌, sym, Option, none, some, arith,
  Option-cases, ◌⊎◌, inl, inr, dec_le, ℕ_discrete,
}
use xchg.Bytes.{uint32_at}
use xchg.Router.{Slice}
use xchg.Framing.Split.{one_round}
use xchg.Framing.{panicked, running, sub_slice, min_frame, frames_loop}

module _ {ℓ} {S : Type ℓ} (handle : S → Slice → Option S) where
  -- Where a length of 0 is read, and the handler does not panic on the empty slice there, the loop
  -- goes round for ever: no fuel is enough for it to end.
  pub frames_loop_stalls :
      (fuel : ℕ) (s : S) (buf : Slice) (offset : ℕ)
      → uint32_at buf.array offset ≡ 0
      → offset + min_frame ≤ buf.len
      → ((s : S) → handle s (sub_slice buf offset 0) ≢ none)
      → (s' : S) × (frames_loop handle fuel s buf offset ≡ running s')
  frames_loop_stalls zero s buf offset e room total = (s, unfold frames_loop in refl)
  frames_loop_stalls (suc fuel) s buf offset e room total =
      elim (Option-cases (handle s (sub_slice buf offset 0))) [
        | inl stop ↦ absurd (total s stop)
        | inr (s1, go) ↦
            let (s', again) = frames_loop_stalls fuel s1 buf offset e room total in
            let same : offset + 0 ≡ offset = omega arith in
            (
              s',
              one_round handle fuel s buf offset 0 e room (omega arith)
                  ∙ rw go (ap (frames_loop handle fuel s1 buf) same ∙ again),
            )
      ]

  -- A run that is not over after more rounds than there are bytes has met a length of 0; so on a
  -- buffer without one, a round for each byte and one more are enough.
  pub frames_loop_ends :
      (fuel : ℕ) (s s' : S) (buf : Slice) (offset : ℕ)
      → offset ≤ buf.len
      → buf.len < offset + fuel
      → frames_loop handle fuel s buf offset ≡ running s'
      → (at : ℕ) × (offset ≤ at) × (at + min_frame ≤ buf.len) × (uint32_at buf.array at ≡ 0)
  frames_loop_ends zero s s' buf offset le h e = absurd (omega arith)
  frames_loop_ends (suc fuel) s s' buf offset le h e = elim (dec_le (offset + min_frame) buf.len) [
    | no short ↦ absurd (stops (inl short) e)
    | yes long ↦ elim (dec_le (offset + uint32_at buf.array offset) buf.len) [
      | no over ↦ absurd (stops (inr over) e)
      | yes fits ↦ elim (ℕ_discrete (uint32_at buf.array offset) 0) [
        | yes zero_length ↦ (offset, omega arith, long, zero_length)
        | no some_length ↦
            elim (Option-cases (handle s (sub_slice buf offset (uint32_at buf.array offset)))) [
              | inl stop ↦ absurd (cc (sym (round long fits) ∙ e, stop))
              | inr (s1, go) ↦
                  let (at, lo, room, z) =
                    frames_loop_ends fuel s1 s' buf (offset + uint32_at buf.array offset) fits
                      (omega arith) (sym (round long fits ∙ rw go) ∙ e) in
                  (at, omega arith, room, z)
            ]
      ]
    ]
  ]
    where
      round :
          offset + min_frame ≤ buf.len
          → offset + uint32_at buf.array offset ≤ buf.len
          → frames_loop handle (suc fuel) s buf offset
            ≡ elim (handle s (sub_slice buf offset (uint32_at buf.array offset))) [
              | none ↦ panicked
              | some s1 ↦ frames_loop handle fuel s1 buf (offset + uint32_at buf.array offset)
            ]
      round = one_round handle fuel s buf offset (uint32_at buf.array offset) refl

      stops :
          (¬ (offset + min_frame ≤ buf.len)) ⊎ (¬ (offset + uint32_at buf.array offset ≤ buf.len))
          → frames_loop handle (suc fuel) s buf offset ≢ running s'
      stops c = unfold frames_loop in ground arith
