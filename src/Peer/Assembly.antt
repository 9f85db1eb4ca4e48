-- ===== src/Peer/Assembly.antt =====
-- xchg/peer_processing.go: the frames of one call, until its message is whole.
use xchg.Base.{
  ℕ, ◌+◌, ◌≤◌, ◌≡◌, refl, ap, ◌∙◌, true, false, Option, none, some, List, [], ◌∷◌, ◌++◌, map, All,
  bytes_eq_refl, ==_refl, ltb, le→not-ltb, if◌then◌else◌, length, arith,
}
use mathlib.Core.List.{append-nil}
use xchg.Crypto.{Library}
use xchg.Storage.{elapsed, seconds}
use xchg.Transaction.{Frame, Transaction, marshal, append_received_data, new_transaction}
use xchg.Transaction.Completing.{Completes}
use xchg.Transaction.Wire.{FitsWire, wire_part, parse-marshal}
use xchg.Peer.{Peer, Code, Draws}
use xchg.Peer.Processing.{
  Incoming, same_code, find_incoming, remove_incoming, recent_incoming, transaction_of, answer_call,
  process_frame_call_request,
}

-- A row of frames, with what the peer draws from the number `n` on.
unfoldable pub process_frames :
    Library → (ℕ → Draws) → ℕ → Peer → List Frame → Option (List Frame × Peer)
process_frames y draws n c [] = some ([], c)
process_frames y draws n c (f ∷ fs) = elim (process_frame_call_request y c (marshal f) (draws n)) [
  | none ↦ none
  | some (sent, c') ↦ elim (process_frames y draws (n + 1) c' fs) [
    | none ↦ none
    | some (more, c'') ↦ some (sent ++ more, c'')
  ]
]

abbrev pub code_of : Frame → Code
code_of f = record { address = f.src_address; id = f.transaction_id }

same_self : (k : Code) → same_code k k ≡ true
unfolding same_code
same_self k = rw (bytes_eq_refl k.address, ==_refl k.id) refl

-- The transactions of other calls, when a frame of `code` comes.
others : Code → ℕ → Incoming → Incoming
others code now m = remove_incoming code (recent_incoming now m)

one_frame :
    (y : Library) (c : Peer) (r : Draws) (f : Frame) (t t1 : Transaction)
    → FitsWire f
    → transaction_of c (wire_part f) (recent_incoming r.now c.incoming_transactions) r.now ≡ t
    → append_received_data t (wire_part f) ≡ some t1
    → process_frame_call_request y c (marshal f) r ≡ (
        if t1.complete
        then answer_call y
            (record c { incoming_transactions = others (code_of f) r.now c.incoming_transactions })
            t1
            f.src_address
            r
        else some (
          [],
          record c {
            incoming_transactions =
                (code_of f, t1) ∷ others (code_of f) r.now c.incoming_transactions;
          },
        ))
unfolding process_frame_call_request others
one_frame y c r f t t1 w from e = rw (parse-marshal f w, from, e, process_frame_call_request) refl

process_frames-silent :
    (y : Library) (draws : ℕ → Draws) (n : ℕ) (c c1 : Peer) (f : Frame) (fs : List Frame)
    → process_frame_call_request y c (marshal f) (draws n) ≡ some ([], c1)
    → process_frames y draws n c (f ∷ fs) ≡ process_frames y draws (n + 1) c1 fs
unfolding process_frames
process_frames-silent y draws n c c1 f fs e =
    rw (e, process_frames) (again (process_frames y draws (n + 1) c1 fs))
  where
    again :
        (o : Option (List Frame × Peer))
        → (elim o [ none ↦ none | some (more, c'') ↦ some (more, c'') ]) ≡ o
    again none = refl
    again (some (more, c'')) = refl

process_frames-last :
    (y : Library) (draws : ℕ → Draws) (n : ℕ) (c : Peer) (f : Frame)
    → process_frames y draws n c (f ∷ []) ≡ process_frame_call_request y c (marshal f) (draws n)
unfolding process_frames
process_frames-last y draws n c f = alone (process_frame_call_request y c (marshal f) (draws n))
  where
    alone :
        (o : Option (List Frame × Peer))
        → (elim o [ none ↦ none | some (sent, c'') ↦ some (sent ++ [], c'') ]) ≡ o
    alone none = refl
    alone (some (sent, c'')) = rw (append-nil sent) refl

module _ (y : Library) (draws : ℕ → Draws) (code : Code) where
  -- The frame belongs to the call.
  abbrev pub IsOf : Frame → Type 0
  IsOf f = FitsWire f × (code_of f ≡ code)

  -- A frame of a call that is under way.
  abbrev held_by : Peer → Transaction → Incoming → Peer
  held_by c t m = record c { incoming_transactions = (code, t) ∷ m }

  found_again :
      (n : ℕ) (c : Peer) (m : Incoming) (t : Transaction) (f : Frame)
      → code_of f ≡ code
      → elapsed (draws n).now t.begin_dt ≤ seconds 10
      → transaction_of
          (held_by c t m)
          (wire_part f)
          (recent_incoming (draws n).now ((code, t) ∷ m))
          (draws n).now
        ≡ t
  unfolding transaction_of recent_incoming find_incoming
  found_again n c m t f same young =
      let kept : ltb (seconds 10) (elapsed (draws n).now t.begin_dt) ≡ false =
        le→not-ltb (seconds 10) (elapsed (draws n).now t.begin_dt) young in
      let mine : same_code code (code_of f) ≡ true = ap (same_code code) same ∙ same_self code in
      rw (kept, mine, transaction_of) refl

  -- What becomes of the row: the last frame completes the call, which is then answered.
  row :
      (fs : List Frame) (n : ℕ) (c : Peer) (m : Incoming) (t t' : Transaction)
      → All IsOf fs
      → ((k : ℕ) → elapsed (draws k).now t.begin_dt ≤ seconds 10)
      → Completes t (map wire_part fs) t'
      → (m' : Incoming) × (k : ℕ) × (process_frames y draws n (held_by c t m) fs
          ≡ answer_call y (record c { incoming_transactions = m' }) t' code.address (draws k))
        × (k + 1 ≡ n + length fs)
  row [] n c m t t' of young h = absurd h
  row (f ∷ []) n c m t t' ((w, same), a) young (e, whole) =
      let one =
        one_frame y (held_by c t m) (draws n) f t t' w (found_again n c m t f same (young n)) e in
      (
        others (code_of f) (draws n).now ((code, t) ∷ m),
        n,
        process_frames-last y draws n (held_by c t m) f
            ∙ one
            ∙ rw (whole, ap (λ (x : Code). x.address) same) refl,
        omega arith,
      )
  row (f ∷ g ∷ fs) n c m t t' ((w, same), a) young (t1, e, part, begun, h) =
      let one =
        one_frame y (held_by c t m) (draws n) f t t1 w (found_again n c m t f same (young n)) e in
      let (m', k, run, last) =
        row (g ∷ fs) (n + 1) c (others (code_of f) (draws n).now ((code, t) ∷ m)) t1 t' a
          (λ j. rw begun (young j)) h in
      let quiet : process_frame_call_request y (held_by c t m) (marshal f) (draws n)
          ≡ some ([], held_by c t1 (others (code_of f) (draws n).now ((code, t) ∷ m))) =
        one ∙ rw (part, same) refl in
      (m', k, process_frames-silent y draws n (held_by c t m) _ f (g ∷ fs) quiet ∙ run, omega arith)

  -- The transaction that a first frame begins.
  abbrev pub begun_by : Peer → Frame → ℕ → Transaction
  begun_by c f now =
      let t =
        new_transaction f.frame_type f.src_address c.public_key f.transaction_id f.session_id 0
          f.total_size [] in
      record t { frame = record t.frame { begin_dt = now } }

  first_begins :
      (c : Peer) (f : Frame) (m : Incoming) (now : ℕ)
      → code_of f ≡ code
      → find_incoming code m ≡ none
      → transaction_of c (wire_part f) m now ≡ begun_by c f now
  unfolding transaction_of
  first_begins c f m now same new =
      let missing : find_incoming (code_of f) m ≡ none = ap (λ k. find_incoming k m) same ∙ new in
      rw (missing, transaction_of) refl

  -- The frames of a call that is not under way, of which the last one completes the message, and
  -- that come within ten seconds: all but the last are kept in silence, then the call is answered.
  pub row_answered :
      (f : Frame) (fs : List Frame) (n : ℕ) (c : Peer) (t' : Transaction)
      → All IsOf (f ∷ fs)
      → find_incoming code (recent_incoming (draws n).now c.incoming_transactions) ≡ none
      → ((k : ℕ) → elapsed (draws k).now (draws n).now ≤ seconds 10)
      → Completes (begun_by c f (draws n).now) (map wire_part (f ∷ fs)) t'
      → (m' : Incoming) × (k : ℕ) × (process_frames y draws n c (f ∷ fs)
          ≡ answer_call y (record c { incoming_transactions = m' }) t' code.address (draws k))
        × (k + 1 ≡ n + length (f ∷ fs))
  unfolding new_transaction
  row_answered f [] n c t' ((w, same), a) new young (e, whole) =
      let one =
        one_frame y c (draws n) f (begun_by c f (draws n).now) t' w
          (first_begins c f (recent_incoming (draws n).now c.incoming_transactions) (draws n).now
            same new)
          e in
      (
        others (code_of f) (draws n).now c.incoming_transactions,
        n,
        process_frames-last y draws n c f
            ∙ one
            ∙ rw (whole, ap (λ (x : Code). x.address) same) refl,
        omega arith,
      )
  row_answered f (g ∷ fs) n c t' ((w, same), a) new young (t1, e, part, begun, h) =
      let one =
        one_frame y c (draws n) f (begun_by c f (draws n).now) t1 w
          (first_begins c f (recent_incoming (draws n).now c.incoming_transactions) (draws n).now
            same new)
          e in
      let m : Incoming = others (code_of f) (draws n).now c.incoming_transactions in
      let (m', k, run, last) = row (g ∷ fs) (n + 1) c m t1 t' a (λ j. rw begun (young j)) h in
      let quiet : process_frame_call_request y c (marshal f) (draws n) ≡ some ([], held_by c t1 m) =
        one ∙ rw (part, same) refl in
      (m', k, process_frames-silent y draws n c _ f (g ∷ fs) quiet ∙ run, omega arith)
