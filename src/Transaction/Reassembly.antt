-- ===== src/Transaction/Reassembly.antt =====
-- A message that was cut into blocks is put together again, whatever the order of arrival.
use xchg.Base.{
  ℕ, ◌+◌, ◌≤◌, ◌<◌, ◌≡◌, ◌≢◌, refl, ap, ◌∙◌, sym, inl, inr, true, false, ◌||◌, Option, none, some,
  List, [], ◌∷◌, ◌++◌, arith, ◌==◌, if◌then◌else◌, length, length-append, replicate,
  length-replicate, All, Bool-cases,
}
use mathlib.Core.List.{append-nil}
use xchg.Transaction.{
  Frame, Transaction, found, received_data_len, copy_frames, add_frame, try_complete,
  append_received_data, max_received_frames,
}
use xchg.Transaction.Pieces.{Tiles, SlicesOf, Among}
use xchg.Transaction.Held.{
  found-append, all_found, all_found_ext, found_of_all_found, held, held_of_all_found,
  held-lt-weight, held-append, weight-Tiles, weight-one, held-eq-weight_iff,
}
use xchg.Transaction.Copying.{FromBlocks, FromBlocks-append, copy_all}

-- Frames that arrive one after the other; `none` is a panic.
unfoldable pub receive_all : Transaction → List Frame → Option Transaction
receive_all c [] = some c
receive_all c (f ∷ fs) = elim (append_received_data c f) [
  | none ↦ none
  | some c' ↦ receive_all c' fs
]

received_data_len-append :
    (fs : List Frame) (f : Frame)
    → received_data_len (fs ++ (f ∷ [])) ≡ received_data_len fs + length f.payload
unfolding received_data_len
received_data_len-append [] f = omega arith
received_data_len-append (g ∷ fs) f = omega (arith, received_data_len-append fs f)

-- The transaction after its frames were copied together.
abbrev completed : Transaction → List ℕ → Transaction
completed c out = record c { frame = record c.frame { result = out; complete = true } }

buffer : Transaction → ℕ → List ℕ
buffer c total = if length c.result == total then c.result else replicate total 0

length-buffer : (c : Transaction) (total : ℕ) → length (buffer c total) ≡ total
unfolding buffer
length-buffer c total = ground (arith, length-replicate {A = ℕ} total 0)

try_complete-full :
    (c : Transaction) (bytes : List ℕ)
    → received_data_len c.received_frames ≡ length bytes
    → ((buf : List ℕ) → length buf ≡ length bytes → copy_frames buf c.received_frames ≡ some bytes)
    → try_complete c (length bytes) ≡ some (completed c bytes)
unfolding try_complete buffer
try_complete-full c bytes e copies =
    ground (arith, copies (buffer c (length bytes)) (length-buffer c (length bytes)))

try_complete-short :
    (c : Transaction) (total : ℕ)
    → received_data_len c.received_frames ≢ total
    → try_complete c total ≡ some c
unfolding try_complete
try_complete-short c total h = ground arith

found_again :
    (o : ℕ) (rs : List Frame) (f : Frame) (fs : List Frame)
    → (found o (if found f.offset rs then rs else rs ++ (f ∷ [])) || found o fs)
      ≡ (found o rs || found o (f ∷ fs))
unfolding found
found_again o rs f fs = elim (Bool-cases (f.offset == o)) [
  | inl here ↦
      let e : f.offset ≡ o = ground arith in
      rw (here, e) (ground (arith, found-append o rs (f ∷ [])))
  | inr there ↦ ground (arith, found-append o rs (f ∷ []))
]

module _ (bytes : List ℕ) (bs : List (ℕ × List ℕ)) where
  -- What holds of the receiver between two frames of the message.
  pub record Receiving (c : Transaction) : Type 0 where
    pub from : FromBlocks bs c.received_frames
    pub sum : received_data_len c.received_frames ≡ held length bs c.received_frames
    pub count : length c.received_frames ≡ held (λ _. 1) bs c.received_frames
    pub done : c.complete ≡ all_found bs c.received_frames
    pub whole : c.complete ≡ true → c.result ≡ bytes

  module _ (t : Tiles 0 bs (length bytes)) (s : SlicesOf bytes bs)
      (few : length bs ≤ max_received_frames) where
    room :
        (c : Transaction) (f : Frame)
        → Receiving c
        → Among f.offset f.payload bs
        → found f.offset c.received_frames ≡ false
        → length c.received_frames < max_received_frames
    room c f r m new = omega (
      arith,
      r.count,
      weight-one bs,
      held-lt-weight (λ _. 1) bs c.received_frames f.offset f.payload m (omega arith) new,
    )

    -- The frames that are held after a call.
    kept :
        (c : Transaction) (f : Frame)
        → Receiving c
        → Among f.offset f.payload bs
        → (add_frame c f).received_frames ≡ (
            if found f.offset c.received_frames
            then c.received_frames
            else c.received_frames ++ (f ∷ []))
    unfolding add_frame
    kept c f r m = ground (arith, room c f r m)

    -- What `add_frame` keeps of the invariant.
    record Counts (fs : List Frame) : Type 0 where
      from : FromBlocks bs fs
      sum : received_data_len fs ≡ held length bs fs
      count : length fs ≡ held (λ _. 1) bs fs

    kept-Counts :
        (c : Transaction) (f : Frame)
        → Receiving c
        → Among f.offset f.payload bs
        → Counts (add_frame c f).received_frames
    kept-Counts c f r m = elim (Bool-cases (found f.offset c.received_frames)) [
      | inl old ↦ rw (kept c f r m, old) (record { from = r.from; sum = r.sum; count = r.count })
      | inr new ↦
          rw (kept c f r m, new)
            (record {
              from = FromBlocks-append bs c.received_frames f r.from m;
              sum = omega (
                arith,
                r.sum,
                received_data_len-append c.received_frames f,
                held-append length bs c.received_frames f f.payload 0 (length bytes) t m new,
              );
              count = omega (
                arith,
                r.count,
                length-append c.received_frames (f ∷ []),
                held-append (λ _. 1) bs c.received_frames f f.payload 0 (length bytes) t m new,
              );
            })
    ]

    -- Once complete, the receiver has a frame for every block, and keeps its list.
    kept_of_done :
        (c : Transaction) (f : Frame)
        → Receiving c
        → Among f.offset f.payload bs
        → c.complete ≡ true
        → (add_frame c f).received_frames ≡ c.received_frames
    kept_of_done c f r m h = rw (
      kept c f r m,
      found_of_all_found bs c.received_frames f.offset f.payload (sym r.done ∙ h) m,
    )

    -- One frame: no panic, and the invariant is kept.
    pub step :
        (c : Transaction) (f : Frame)
        → Receiving c
        → Among f.offset f.payload bs
        → f.total_size ≡ length bytes
        → (c' : Transaction) × (append_received_data c f ≡ some c')
          × Receiving c'
          × (c'.received_frames ≡ (add_frame c f).received_frames)
    step c f r m e = elim (Bool-cases (all_found bs q.received_frames)) [
      | inl full ↦ (
        completed q bytes,
        opened
            ∙ try_complete-full q bytes (total full)
                (λ buf. copy_all bytes bs t s q.received_frames buf k.from full),
        record { from = k.from; sum = k.sum; count = k.count; done = sym full; whole = λ h. refl },
        refl,
      )
      | inr part ↦ (
        q,
        opened ∙ try_complete-short q (length bytes) (lacking part),
        record {
          from = k.from;
          sum = k.sum;
          count = k.count;
          done = unfold add_frame in sym (part ∙ sym (undone part));
          whole = λ h. cc (undone part, h);
        },
        refl,
      )
    ]
      where
        q : Transaction
        q = add_frame c f

        k : Counts q.received_frames
        k = kept-Counts c f r m

        opened : append_received_data c f ≡ try_complete q (length bytes)
        opened = unfold append_received_data in ap (try_complete q) e

        total :
            all_found bs q.received_frames ≡ true
            → received_data_len q.received_frames ≡ length bytes
        total full = omega (
          arith,
          k.sum,
          held_of_all_found length bs q.received_frames full,
          weight-Tiles bs 0 (length bytes) t,
        )

        lacking :
            all_found bs q.received_frames ≡ false
            → received_data_len q.received_frames ≢ length bytes
        lacking part h = ground (
          arith,
          k.sum,
          held-eq-weight_iff bs q.received_frames 0 (length bytes) t,
          weight-Tiles bs 0 (length bytes) t,
        )

        undone : all_found bs q.received_frames ≡ false → q.complete ≡ false
        undone part = elim (Bool-cases c.complete) [
          | inl h ↦ cc (part, kept_of_done c f r m h, r.done, h)
          | inr h ↦ unfold add_frame in h
        ]

    -- A frame that is not kept has its offset among those that are.
    same_blocks :
        (c : Transaction) (f : Frame) (fs : List Frame)
        → Receiving c
        → Among f.offset f.payload bs
        → all_found bs ((add_frame c f).received_frames ++ fs)
          ≡ all_found bs (c.received_frames ++ (f ∷ fs))
    same_blocks c f fs r m = all_found_ext bs _ _ λ o.
        found-append o (add_frame c f).received_frames fs
        ∙ ap (λ l. found o l || found o fs) (kept c f r m)
        ∙ found_again o c.received_frames f fs
        ∙ sym (found-append o c.received_frames (f ∷ fs))

    -- Frames of the message in any order.
    pub receive_all_lem :
        (c : Transaction) (fs : List Frame)
        → Receiving c
        → All (λ (f : Frame). Among f.offset f.payload bs × (f.total_size ≡ length bytes)) fs
        → (c' : Transaction) × (receive_all c fs ≡ some c')
          × (c'.complete ≡ all_found bs (c.received_frames ++ fs))
          × (c'.complete ≡ true → c'.result ≡ bytes)
    unfolding receive_all
    receive_all_lem c [] r a = (c, refl, rw append-nil r.done, r.whole)
    receive_all_lem c (f ∷ fs) r ((m, e), a) =
        let (c1, eq, r1, list) = step c f r m e in
        let (c', run, done, whole) = receive_all_lem c1 fs r1 a in
        (
          c',
          rw (eq, receive_all) run,
          done ∙ ap (λ l. all_found bs (l ++ fs)) list ∙ same_blocks c f fs r m,
          whole,
        )
