-- ===== src/Peer/Responses.antt =====
-- xchg/peer_processing.go and xchg/remote_peer.go: the frames of a response, from the server to the
-- transaction of the client that waits for it.
use xchg.Base.{
  ℕ, ◌+◌, ◌^◌, ◌≤◌, ◌<◌, ◌≡◌, ◌≢◌, refl, sym, ap, ◌∙◌, true, false, none, some, List, [], ◌∷◌,
  arith, get_or, length, length-replicate, map, All, ltb, lt→ltb, le→not-ltb, ==_refl, replicate,
  take-all,
}
use mathlib.Core.Path.{subst}
use mathlib.Core.List.{map-map}
use xchg.Bytes.{length-copy_at, copy_at, copy_at-replicate}
use xchg.Maps.{find, remove, store, remove-absent}
use xchg.Transaction.{Frame, Transaction, header_size, marshal, append_received_data, new_frame}
use xchg.Transaction.Wire.{FitsWire, wire_part, parse-marshal, type_at}
use xchg.Transaction.Pieces.{SlicesOf, Tiles}
use xchg.Transaction.Message.{message_blocks, message_blocks-SlicesOf, message_blocks-Tiles}
use xchg.Transaction.Sent.{IsBlockFrame}
use xchg.Transaction.Completing.{Completes, sent-Completes}
use xchg.Remote.{
  RemotePeer, process_frame, process_frame11, max_transaction_size, frame_type_response,
}
use xchg.Remote.Execution.{receive}
use xchg.Peer.{Peer}
use xchg.Peer.Processing.{response_frames, frame_call_response}

-- A client whose transaction `id` waits, beside those of `m`.
abbrev pub waiting : RemotePeer → ℕ → List (ℕ × Transaction) → Transaction → RemotePeer
waiting c id m t = record c { outgoing_transactions = (id, t) ∷ m }

-- A frame of a response to the transaction, for a message of `size` bytes.
abbrev pub IsFor : ℕ → ℕ → Frame → Type 0
IsFor id size f =
    FitsWire f
    × (f.frame_type ≡ frame_type_response)
    × (f.transaction_id ≡ id)
    × (f.total_size ≡ size)

module _ (c : RemotePeer) (id size : ℕ) (m : List (ℕ × Transaction)) (once : find id m ≡ none) where
  found :
      (t : Transaction) (f : Frame)
      → f.transaction_id ≡ id
      → find f.transaction_id ((id, t) ∷ m) ≡ some t
  unfolding find
  found t f mine = ap (λ k. find k ((id, t) ∷ m)) mine ∙ rw (==_refl id) refl

  stored :
      (t t1 : Transaction) (f : Frame)
      → f.transaction_id ≡ id
      → store f.transaction_id t1 ((id, t) ∷ m) ≡ (id, t1) ∷ m
  unfolding store remove
  stored t t1 f mine =
      ap (λ k. store k t1 ((id, t) ∷ m)) mine
      ∙ rw (==_refl id) (ap (λ l. (id, t1) ∷ l) (remove-absent id m once))

  one_taken :
      (t t1 : Transaction) (f : Frame)
      → IsFor id size f
      → size ≤ max_transaction_size + 1024
      → append_received_data t (wire_part f) ≡ some t1
      → process_frame (waiting c id m t) (marshal f) ≡ some (waiting c id m t1)
  unfolding process_frame
  one_taken t t1 f (w, type, mine, total) small e =
      let answer : get_or (marshal f) 4 0 ≡ frame_type_response = type_at f w ∙ type in
      let fits : ltb (max_transaction_size + 1024) f.total_size ≡ false =
        le→not-ltb (max_transaction_size + 1024) f.total_size (omega arith) in
      rw (answer, parse-marshal f w, process_frame11, fits, found t f mine, e, stored t t1 f mine)
        refl

  one_refused :
      (t : Transaction) (f : Frame)
      → IsFor id size f
      → max_transaction_size + 1024 < size
      → process_frame (waiting c id m t) (marshal f) ≡ some (waiting c id m t)
  unfolding process_frame
  one_refused t f (w, type, mine, total) large =
      let answer : get_or (marshal f) 4 0 ≡ frame_type_response = type_at f w ∙ type in
      let over : ltb (max_transaction_size + 1024) f.total_size ≡ true =
        lt→ltb (max_transaction_size + 1024) f.total_size (omega arith) in
      rw (answer, parse-marshal f w, process_frame11, over) refl

  -- The frames that complete a transaction, received in turn.
  all_taken :
      (fs : List Frame) (t t' : Transaction)
      → All (IsFor id size) fs
      → size ≤ max_transaction_size + 1024
      → Completes t (map wire_part fs) t'
      → receive (waiting c id m t) (map marshal fs) ≡ some (waiting c id m t')
  unfolding receive
  all_taken [] t t' a small h = absurd h
  all_taken (f ∷ []) t t' (i, a) small (e, whole) = rw (one_taken t t' f i small e, receive) refl
  all_taken (f ∷ g ∷ fs) t t' (i, a) small (t1, e, part, begun, h) =
      rw (one_taken t t1 f i small e, receive) (all_taken (g ∷ fs) t1 t' a small h)

  all_refused :
      (fs : List Frame) (t : Transaction)
      → All (IsFor id size) fs
      → max_transaction_size + 1024 < size
      → receive (waiting c id m t) (map marshal fs) ≡ some (waiting c id m t)
  unfolding receive
  all_refused [] t a large = refl
  all_refused (f ∷ fs) t (i, a) large =
      rw (one_refused t f i large, receive) (all_refused fs t a large)

Completes-complete :
    (t : Transaction) (fs : List Frame) (t' : Transaction) → Completes t fs t' → t'.complete ≡ true
Completes-complete t [] t' h = absurd h
Completes-complete t (f ∷ []) t' (e, whole) = whole
Completes-complete t (f ∷ g ∷ fs) t' (t1, e, part, begun, h) = Completes-complete t1 (g ∷ fs) t' h

module _ (p : Peer) (tr : Transaction) (src resp : List ℕ)
    (fits : header_size + length resp < 2 ^ 32) (id : tr.transaction_id < 2 ^ 64)
    (session : tr.session_id < 2 ^ 64) where
  abbrev block : ℕ × List ℕ → Frame
  block b =
      record (new_frame frame_call_response p.public_key src tr.transaction_id tr.session_id b.0
        (length resp) b.1) { from_local_node = tr.from_local_node }

  block-IsFor :
      (o : ℕ) (d : List ℕ)
      → o + length d ≤ length resp
      → IsFor tr.transaction_id (length resp) (block (o, d))
  unfolding new_frame
  block-IsFor o d h = (
    record {
      frame_type = omega arith;
      transaction_id = id;
      session_id = session;
      offset = omega arith;
      total_size = omega arith;
      src_address = length-copy_at (replicate 32 0) 0 p.public_key;
      dest_address = length-copy_at (replicate 32 0) 0 src;
      comment = length-replicate {A = ℕ} 32 0;
      payload = omega arith;
    },
    refl,
    refl,
    omega arith,
  )

  all-IsFor :
      (bs : List (ℕ × List ℕ))
      → SlicesOf resp bs
      → All (IsFor tr.transaction_id (length resp)) (map block bs)
  all-IsFor [] s = tt
  all-IsFor ((o, d) ∷ bs) ((h, at), s) = (block-IsFor o d h, all-IsFor bs s)

  pub response_frames-IsFor :
      All (IsFor tr.transaction_id (length resp)) (response_frames p tr src resp)
  unfolding response_frames
  response_frames-IsFor = all-IsFor (message_blocks resp) (message_blocks-SlicesOf resp)

  some_blocks :
      (bs : List (ℕ × List ℕ)) → 0 < length resp → Tiles 0 bs (length resp) → map block bs ≢ []
  some_blocks [] pos h = absurd (omega (arith, h))
  some_blocks (b ∷ bs) pos h = λ e. cc e

  -- A response that is not empty has a frame.
  pub response_frames-some : 0 < length resp → response_frames p tr src resp ≢ []
  unfolding response_frames
  response_frames-some pos = some_blocks (message_blocks resp) pos (message_blocks-Tiles resp)

  -- The frames name the server and the client.
  module _ (public : length p.public_key ≡ 32) (to : length src ≡ 32) where
    abbrev pub IsBetween : Frame → Type 0
    IsBetween f = (f.src_address ≡ p.public_key) × (f.dest_address ≡ src)

    kept : (a : List ℕ) → length a ≡ 32 → copy_at (replicate 32 0) 0 a ≡ a
    kept a e = copy_at-replicate 32 0 a (omega (arith, e)) ∙ take-all 32 a (omega (arith, e))

    all-IsBetween : (bs : List (ℕ × List ℕ)) → All IsBetween (map block bs)
    unfolding new_frame
    all-IsBetween [] = tt
    all-IsBetween (b ∷ bs) = ((kept p.public_key public, kept src to), all-IsBetween bs)

    pub response_frames-IsBetween : All IsBetween (response_frames p tr src resp)
    unfolding response_frames
    response_frames-IsBetween = all-IsBetween (message_blocks resp)

  wire-IsBlockFrame : IsBlockFrame resp (λ b. wire_part (block b))
  unfolding new_frame
  wire-IsBlockFrame = record {
    offset = λ o d h. omega arith;
    payload = λ o d. refl;
    total_size = λ b. omega arith;
  }

  module _ (c : RemotePeer) (m : List (ℕ × Transaction)) (t : Transaction)
      (once : find tr.transaction_id m ≡ none) where
    -- The frames of a response complete the transaction that waits for them, with the response as
    -- its result, unless the response is empty or too long.
    pub response_frames-taken :
        t.received_frames ≡ []
        → t.complete ≡ false
        → 0 < length resp
        → length resp ≤ max_transaction_size + 1024
        → (t' : Transaction) × (receive
              (waiting c tr.transaction_id m t)
              (map marshal (response_frames p tr src resp))
            ≡ some (waiting c tr.transaction_id m t'))
          × (t'.complete ≡ true)
          × (t'.result ≡ resp)
          × (t'.err ≡ t.err)
    unfolding response_frames
    response_frames-taken empty undone pos small =
        let (t', h, result, (begun, sid, tid, from, clean)) =
          sent-Completes resp (λ b. wire_part (block b)) wire-IsBlockFrame (omega arith) t pos empty
            undone in
        let whole : Completes t (map wire_part (map block (message_blocks resp))) t' =
          subst (λ l. Completes t l t') (sym (map-map wire_part block (message_blocks resp))) h in
        (
          t',
          all_taken c tr.transaction_id (length resp) m once (map block (message_blocks resp)) t t'
              (all-IsFor (message_blocks resp) (message_blocks-SlicesOf resp)) small whole,
          Completes-complete t (map wire_part (map block (message_blocks resp))) t' whole,
          result,
          clean,
        )

    -- A response that is too long is dropped frame by frame.
    pub response_frames-refused :
        max_transaction_size + 1024 < length resp
        → receive (waiting c tr.transaction_id m t) (map marshal (response_frames p tr src resp))
          ≡ some (waiting c tr.transaction_id m t)
    unfolding response_frames
    response_frames-refused large =
        all_refused c tr.transaction_id (length resp) m once (map block (message_blocks resp)) t
          (all-IsFor (message_blocks resp) (message_blocks-SlicesOf resp)) large
