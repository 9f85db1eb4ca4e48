-- ===== src/Transaction/Sent.antt =====
-- The frames that carry the blocks of a message, one for each, complete it.
use xchg.Base.{
  ℕ, ◌^◌, ◌≤◌, ◌<◌, ◌≡◌, refl, ◌∙◌, inl, inr, true, false, some, List, [], ◌∷◌, arith, length, All,
  map, ==_refl,
}
use xchg.Transaction.{Frame, Transaction, found}
use xchg.Transaction.Pieces.{Among, SlicesOf}
use xchg.Transaction.Held.{all_found}
use xchg.Transaction.Reassembly.{receive_all}
use xchg.Transaction.Message.{message_blocks, Carries, message_blocks-SlicesOf, receive_all_message}

-- The frame for each block has its offset, its bytes and the length of the message.
pub record IsBlockFrame (bytes : List ℕ) (block : ℕ × List ℕ → Frame) : Type 0 where
  pub offset : (o : ℕ) (d : List ℕ) → o ≤ length bytes → (block (o, d)).offset ≡ o
  pub payload : (o : ℕ) (d : List ℕ) → (block (o, d)).payload ≡ d
  pub total_size : (b : ℕ × List ℕ) → (block b).total_size ≡ length bytes

module _ (bytes : List ℕ) (block : ℕ × List ℕ → Frame) (w : IsBlockFrame bytes block) where
  blocks-Carries :
      (bs : List (ℕ × List ℕ))
      → SlicesOf bytes bs
      → ((o : ℕ) (d : List ℕ) → Among o d bs → Among o d (message_blocks bytes))
      → All (Carries bytes) (map block bs)
  blocks-Carries [] s sub = tt
  blocks-Carries ((o, d) ∷ bs) ((fits, _), s) sub =
      let eo : (block (o, d)).offset ≡ o = w.offset o d (omega arith) in
      let ed : (block (o, d)).payload ≡ d = w.payload o d in
      let here : Among o d (message_blocks bytes) = sub o d (inl (refl, refl)) in
      ((rw (eo, ed) here, w.total_size (o, d)), blocks-Carries bs s (λ o' d' m. sub o' d' (inr m)))

  found_sent :
      (o : ℕ) (d : List ℕ) (bs : List (ℕ × List ℕ))
      → SlicesOf bytes bs
      → Among o d bs
      → found o (map block bs) ≡ true
  unfolding found
  found_sent o d [] s m = absurd m
  found_sent o d ((o', d') ∷ bs) ((fits, _), s) m =
      let eo : (block (o', d')).offset ≡ o' = w.offset o' d' (omega arith) in
      elim m [
        | inl (e, _) ↦ rw (eo, e, ==_refl o') refl
        | inr m' ↦ ground (arith, found_sent o d bs s m')
      ]

  all_found_sent :
      (bs cs : List (ℕ × List ℕ))
      → SlicesOf bytes cs
      → ((o : ℕ) (d : List ℕ) → Among o d bs → Among o d cs)
      → all_found bs (map block cs) ≡ true
  unfolding all_found
  all_found_sent [] cs s sub = refl
  all_found_sent ((o, d) ∷ bs) cs s sub =
      rw
        (
          found_sent o d cs s (sub o d (inl (refl, refl))),
          all_found_sent bs cs s (λ o' d' m. sub o' d' (inr m)),
        )
        refl

  -- A frame for each block, in order: the receiver has the whole message.
  pub sent_arrives :
      (t : Transaction)
      → 0 < length bytes
      → length bytes < 2 ^ 32
      → t.received_frames ≡ []
      → t.complete ≡ false
      → (t' : Transaction) × (receive_all t (map block (message_blocks bytes)) ≡ some t')
        × (t'.complete ≡ true)
        × (t'.result ≡ bytes)
  sent_arrives t pos small empty undone =
      let s = message_blocks-SlicesOf bytes in
      let (t', run, done, whole) =
        receive_all_message bytes t (map block (message_blocks bytes)) pos small empty undone
          (blocks-Carries (message_blocks bytes) s (λ o d m. m)) in
      let complete : t'.complete ≡ true =
        done ∙ all_found_sent (message_blocks bytes) (message_blocks bytes) s (λ o d m. m) in
      (t', run, complete, whole complete)
