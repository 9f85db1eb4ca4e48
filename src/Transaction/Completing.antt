-- ===== src/Transaction/Completing.antt =====
-- `AppendReceivedData` on the frames of a message in the order of sending: the last one completes it.
use xchg.Base.{
  ℕ, ◌^◌, ◌≤◌, ◌<◌, ◌≡◌, refl, sym, ap, ◌∙◌, inl, inr, Bool, true, false, Option, none, some, List,
  [], ◌∷◌, ◌++◌, arith, length, All, map, ltb, if◌then◌else◌, Bool-cases,
}
use xchg.Transaction.{
  Frame, Transaction, append_received_data, add_frame, try_complete, found, max_received_frames,
}
use xchg.Transaction.Pieces.{Among, SlicesOf, Tiles}
use xchg.Transaction.Held.{all_found, found_of_all_found}
use xchg.Transaction.Reassembly.{receive_all, Receiving, step}
use xchg.Transaction.Message.{
  message_blocks, message_blocks-Tiles, message_blocks-SlicesOf, length-message_blocks,
  fresh-Receiving,
}
use xchg.Transaction.Sent.{IsBlockFrame, sent_arrives}

-- The frames complete the transaction, the last one and none before.
abbrev pub Completes : Transaction → List Frame → Transaction → Type 0
Completes t [] t' = ⊥
Completes t (f ∷ []) t' = (append_received_data t f ≡ some t') × (t'.complete ≡ true)
Completes t (f ∷ g ∷ fs) t' =
    (t1 : Transaction) × (append_received_data t f ≡ some t1)
    × (t1.complete ≡ false)
    × (t1.begin_dt ≡ t.begin_dt)
    × Completes t1 (g ∷ fs) t'

-- What `AppendReceivedData` does not change.
abbrev pub Same : Transaction → Transaction → Type 0
Same t t1 =
    (t1.begin_dt ≡ t.begin_dt)
    × (t1.session_id ≡ t.session_id)
    × (t1.transaction_id ≡ t.transaction_id)
    × (t1.src_address ≡ t.src_address)
    × (t1.err ≡ t.err)

append_received_data-Same :
    (t t1 : Transaction) (f : Frame) → append_received_data t f ≡ some t1 → Same t t1
unfolding append_received_data add_frame try_complete
append_received_data-Same t t1 f e = ended _ _ e
  where
    kept : (q : Transaction) → Same t q → some q ≡ some t1 → Same t t1
    kept q (b, i, j, a, x) eq =
        let same : q ≡ t1 = ap (λ o. elim o [ none ↦ q | some x ↦ x ]) eq in
        rw (← same) (b, i, j, a, x)

    ended :
        (full : Bool) (o : Option (List ℕ))
        → (if full
            then elim o [
              | none ↦ none
              | some out ↦ some (record (add_frame t f) {
                frame = record (add_frame t f).frame { result = out; complete = true };
              })
            ]
            else some (add_frame t f))
          ≡ some t1
        → Same t t1
    ended true none eq = cc
    ended true (some out) eq = kept _ (refl, refl, refl, refl, refl) eq
    ended false o eq = kept _ (refl, refl, refl, refl, refl) eq

below-found : (o : ℕ) (fs : List Frame) → All (λ (f : Frame). f.offset < o) fs → found o fs ≡ false
unfolding found
below-found o [] h = refl
below-found o (f ∷ fs) (lt, h) = ground (arith, below-found o fs h)

add_frame-below :
    (t : Transaction) (f : Frame) (lo hi : ℕ)
    → lo ≤ hi
    → All (λ (g : Frame). g.offset < lo) t.received_frames
    → f.offset < hi
    → All (λ (g : Frame). g.offset < hi) (add_frame t f).received_frames
unfolding add_frame
add_frame-below t f lo hi le h lt =
    choose (ltb (length t.received_frames) max_received_frames)
      (if found f.offset t.received_frames
        then t.received_frames
        else t.received_frames ++ (f ∷ []))
      t.received_frames
      (choose (found f.offset t.received_frames) t.received_frames (t.received_frames ++ (f ∷ []))
        (raise t.received_frames h) (joined t.received_frames h))
      (raise t.received_frames h)
  where
    raise :
        (fs : List Frame)
        → All (λ (g : Frame). g.offset < lo) fs
        → All (λ (g : Frame). g.offset < hi) fs
    raise [] a = tt
    raise (g ∷ fs) (b, a) = (omega arith, raise fs a)

    joined :
        (fs : List Frame)
        → All (λ (g : Frame). g.offset < lo) fs
        → All (λ (g : Frame). g.offset < hi) (fs ++ (f ∷ []))
    joined [] a = (lt, tt)
    joined (g ∷ fs) (b, a) = (omega arith, joined fs a)

    choose :
        (b : Bool) (xs ys : List Frame)
        → All (λ (g : Frame). g.offset < hi) xs
        → All (λ (g : Frame). g.offset < hi) ys
        → All (λ (g : Frame). g.offset < hi) (if b then xs else ys)
    choose true xs ys a b' = a
    choose false xs ys a b' = b'

-- The transaction is there, and complete.
is_whole : Option Transaction → Bool
is_whole none = false
is_whole (some t) = t.complete

module _ (bytes : List ℕ) (block : ℕ × List ℕ → Frame) (w : IsBlockFrame bytes block)
    (small : length bytes < 2 ^ 32) where
  abbrev bs : List (ℕ × List ℕ)
  bs = message_blocks bytes

  lacking :
      (o : ℕ) (d : List ℕ) (t : Transaction)
      → Among o d bs
      → All (λ (g : Frame). g.offset < o) t.received_frames
      → all_found bs t.received_frames ≡ false
  lacking o d t m under = elim (Bool-cases (all_found bs t.received_frames)) [
    | inr h ↦ h
    | inl h ↦ absurd (
        cc (found_of_all_found bs t.received_frames o d h m, below-found o t.received_frames under))
  ]

  -- The rest of the blocks completes the message, if it completes it at all.
  rest-Completes :
      (o : ℕ) (d : List ℕ) (cs : List (ℕ × List ℕ)) (t : Transaction)
      → Receiving bytes bs t
      → All (λ (g : Frame). g.offset < o) t.received_frames
      → Tiles o ((o, d) ∷ cs) (length bytes)
      → SlicesOf bytes ((o, d) ∷ cs)
      → ((x : ℕ) (e : List ℕ) → Among x e ((o, d) ∷ cs) → Among x e bs)
      → is_whole (receive_all t (map block ((o, d) ∷ cs))) ≡ true
      → (t' : Transaction) × Completes t (map block ((o, d) ∷ cs)) t'
        × (receive_all t (map block ((o, d) ∷ cs)) ≡ some t')
        × Same t t'
  unfolding receive_all is_whole
  rest-Completes o d [] t r below tiles ((fits, at), s) sub whole =
      let eo : (block (o, d)).offset ≡ o = w.offset o d (omega arith) in
      let ed : (block (o, d)).payload ≡ d = w.payload o d in
      let here : Among (block (o, d)).offset (block (o, d)).payload bs =
        rw (eo, ed) (sub o d (inl (refl, refl))) in
      let (t1, eq, r1, list) =
        step bytes bs (message_blocks-Tiles bytes) (message_blocks-SlicesOf bytes)
          (length-message_blocks bytes small) t (block (o, d)) r here (w.total_size (o, d)) in
      let run : receive_all t (block (o, d) ∷ []) ≡ some t1 = rw (eq, receive_all) refl in
      (
        t1,
        (eq, sym (ap is_whole run) ∙ whole),
        run,
        append_received_data-Same t t1 (block (o, d)) eq,
      )
  rest-Completes o d ((o2, d2) ∷ cs) t r below (e, pos, (e2, pos2, tiles)) ((fits, at), s) sub
        whole =
      let f : Frame = block (o, d) in
      let eo : f.offset ≡ o = w.offset o d (omega arith) in
      let ed : f.payload ≡ d = w.payload o d in
      let here : Among f.offset f.payload bs = rw (eo, ed) (sub o d (inl (refl, refl))) in
      let (t1, eq, r1, list) =
        step bytes bs (message_blocks-Tiles bytes) (message_blocks-SlicesOf bytes)
          (length-message_blocks bytes small) t f r here (w.total_size (o, d)) in
      let under : All (λ (g : Frame). g.offset < o2) t1.received_frames =
        rw list (add_frame-below t f o o2 (omega arith) below (omega arith)) in
      let part : t1.complete ≡ false =
        r1.done ∙ lacking o2 d2 t1 (sub o2 d2 (inr (inl (refl, refl)))) under in
      let run : receive_all t (map block ((o, d) ∷ (o2, d2) ∷ cs))
          ≡ receive_all t1 (map block ((o2, d2) ∷ cs)) =
        rw (eq, receive_all) refl in
      let (t', h, all, same) =
        rest-Completes o2 d2 cs t1 r1 under (refl, pos2, rw e2 tiles) s (λ x y m. sub x y (inr m))
          (sym (ap is_whole run) ∙ whole) in
      let (b, i, j, a, x) = append_received_data-Same t t1 f eq in
      let (b', i', j', a', x') = same in
      (t', (t1, eq, part, b, h), run ∙ all, (b' ∙ b, i' ∙ i, j' ∙ j, a' ∙ a, x' ∙ x))

  these_blocks :
      (cs : List (ℕ × List ℕ))
      → cs ≡ bs
      → Tiles 0 cs (length bytes)
        × SlicesOf bytes cs
        × ((x : ℕ) (y : List ℕ) → Among x y cs → Among x y bs)
  these_blocks cs e = rw e (message_blocks-Tiles bytes, message_blocks-SlicesOf bytes, λ x y m. m)

  from_start :
      (cs : List (ℕ × List ℕ)) (t : Transaction)
      → cs ≡ bs
      → 0 < length bytes
      → Receiving bytes bs t
      → t.received_frames ≡ []
      → is_whole (receive_all t (map block cs)) ≡ true
      → (t' : Transaction) × Completes t (map block cs) t'
        × (receive_all t (map block cs) ≡ some t')
        × Same t t'
  from_start [] t e pos r empty whole =
      let (tiles, slices, sub) = these_blocks [] e in absurd (omega (arith, tiles))
  from_start ((o, d) ∷ cs) t e pos r empty whole =
      let ((start, some_bytes, tiles), slices, sub) = these_blocks ((o, d) ∷ cs) e in
      rest-Completes o d cs t r (rw empty tt) (refl, some_bytes, rw start tiles) slices sub whole

  -- The frames of a message, one for each block in the order of sending, complete a fresh
  -- transaction with the last one and not before, with the message as its result.
  pub sent-Completes :
      (t : Transaction)
      → 0 < length bytes
      → t.received_frames ≡ []
      → t.complete ≡ false
      → (t' : Transaction) × Completes t (map block bs) t' × (t'.result ≡ bytes) × Same t t'
  unfolding is_whole
  sent-Completes t pos empty undone =
      let (u, run, complete, result) = sent_arrives bytes block w t pos small empty undone in
      let (t', h, run', same) =
        from_start bs t refl pos (fresh-Receiving bytes t pos empty undone) empty
          (ap is_whole run ∙ complete) in
      let one : some t' ≡ some u = sym run' ∙ run in
      let equal : t' ≡ u = ap (λ o. elim o [ none ↦ t' | some x ↦ x ]) one in
      (t', h, ap (λ (x : Transaction). x.result) equal ∙ result, same)
