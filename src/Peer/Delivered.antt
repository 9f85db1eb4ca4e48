-- ===== src/Peer/Delivered.antt =====
-- xchg/remote_peer.go `executeTransaction` and xchg/peer_processing.go `processFrameCallRequest`: the
-- frames of a call, from the client to the server.
pub mod Tests
use xchg.Base.{
  ℕ, ◌+◌, ◌%◌, ◌^◌, ◌≤◌, ◌<◌, ◌≡◌, refl, sym, ap, ◌∙◌, none, some, List, [], ◌∷◌, arith, length,
  length-replicate, map, All, replicate, take-all,
}
use mathlib.Core.Path.{subst}
use mathlib.Core.List.{map-map}
use xchg.Bytes.{copy_at, length-copy_at, copy_at-replicate}
use xchg.Crypto.{Library}
use xchg.Storage.{elapsed, seconds}
use xchg.Transaction.{Frame, Transaction, header_size, new_frame, new_transaction}
use xchg.Transaction.Wire.{FitsWire, wire_part}
use xchg.Transaction.Pieces.{SlicesOf}
use xchg.Transaction.Message.{message_blocks, message_blocks-SlicesOf}
use xchg.Transaction.Sent.{IsBlockFrame}
use xchg.Transaction.Completing.{Completes, sent-Completes}
use xchg.Remote.{RemotePeer, begin_transaction, frame_type_call}
use xchg.Peer.{Peer, Code, Draws}
use xchg.Peer.Processing.{Incoming, find_incoming, recent_incoming, answer_call}
use xchg.Peer.Assembly.{process_frames, code_of, IsOf, begun_by, row_answered}

-- A frame of a call, on its way to the server.
abbrev pub IsCall : Frame → Type 0
IsCall f = FitsWire f × (f.frame_type ≡ frame_type_call)

module _ (c : RemotePeer) (bytes comment : List ℕ) (fits : header_size + length bytes < 2 ^ 32)
    (pos : 0 < length bytes) (id : c.next_transaction_id < 2 ^ 64) (session : c.session_id < 2 ^ 64)
    (public : length c.public_key ≡ 32) (remote : length c.remote_address ≡ 32) where
  -- The frame for a block.
  abbrev block : ℕ × List ℕ → Frame
  block b =
      let f =
        new_frame frame_type_call c.public_key c.remote_address c.next_transaction_id c.session_id
          b.0 (length bytes) b.1 in
      record f { comment = copy_at f.comment 0 comment }

  abbrev code : Code
  code = record { address = c.public_key; id = c.next_transaction_id }

  address_kept : (a : List ℕ) → length a ≡ 32 → copy_at (replicate 32 0) 0 a ≡ a
  address_kept a e = copy_at-replicate 32 0 a (omega (arith, e)) ∙ take-all 32 a (omega (arith, e))

  block-FitsWire : (o : ℕ) (d : List ℕ) → o + length d ≤ length bytes → FitsWire (block (o, d))
  unfolding new_frame
  block-FitsWire o d h = record {
    frame_type = omega arith;
    transaction_id = id;
    session_id = session;
    offset = omega arith;
    total_size = omega arith;
    src_address = length-copy_at (replicate 32 0) 0 c.public_key;
    dest_address = length-copy_at (replicate 32 0) 0 c.remote_address;
    comment = length-copy_at (replicate 32 0) 0 comment;
    payload = omega arith;
  }

  block-code : (b : ℕ × List ℕ) → code_of (block b) ≡ code
  unfolding new_frame
  block-code b = rw (address_kept c.public_key public) refl

  wire-IsBlockFrame : IsBlockFrame bytes (λ b. wire_part (block b))
  unfolding new_frame
  wire-IsBlockFrame = record {
    offset = λ o d h. omega arith;
    payload = λ o d. refl;
    total_size = λ b. omega arith;
  }

  all-IsCall : (bs : List (ℕ × List ℕ)) → SlicesOf bytes bs → All IsCall (map block bs)
  unfolding new_frame
  all-IsCall [] s = tt
  all-IsCall ((o, d) ∷ bs) ((h, at), s) = ((block-FitsWire o d h, refl), all-IsCall bs s)

  pub begin_transaction-IsCall : All IsCall (begin_transaction c bytes comment).0.1
  unfolding begin_transaction
  begin_transaction-IsCall = all-IsCall (message_blocks bytes) (message_blocks-SlicesOf bytes)

  to_remote :
      (bs : List (ℕ × List ℕ))
      → All (λ (f : Frame). f.dest_address ≡ c.remote_address) (map block bs)
  unfolding new_frame
  to_remote [] = tt
  to_remote (b ∷ bs) = (address_kept c.remote_address remote, to_remote bs)

  pub begin_transaction-to_remote :
      All (λ (f : Frame). f.dest_address ≡ c.remote_address) (begin_transaction c bytes comment).0.1
  unfolding begin_transaction
  begin_transaction-to_remote = to_remote (message_blocks bytes)

  module _ (y : Library) (draws : ℕ → Draws) (start : ℕ) (p : Peer)
      (new : find_incoming code (recent_incoming (draws start).now p.incoming_transactions) ≡ none)
      (quick : (k : ℕ) → elapsed (draws k).now (draws start).now ≤ seconds 10) where
    all-IsOf : (bs : List (ℕ × List ℕ)) → SlicesOf bytes bs → All (IsOf y draws code) (map block bs)
    all-IsOf [] s = tt
    all-IsOf ((o, d) ∷ bs) ((h, at), s) = ((block-FitsWire o d h, block-code (o, d)), all-IsOf bs s)

    -- What the server answers, and in which state.
    abbrev Answered : List Frame → Type 0
    Answered fs =
        (t : Transaction) × (m : Incoming) × (k : ℕ) × (process_frames y draws start p fs
          ≡ answer_call y (record p { incoming_transactions = m }) t c.public_key (draws k))
        × (t.result ≡ bytes)
        × (t.session_id ≡ c.session_id)
        × (t.src_address ≡ c.public_key)
        × (t.transaction_id ≡ c.next_transaction_id)
        × (k + 1 ≡ start + length fs)

    row_delivered : (bs : List (ℕ × List ℕ)) → bs ≡ message_blocks bytes → Answered (map block bs)
    unfolding new_transaction new_frame
    row_delivered [] e =
        let (t, h, result, same) =
          sent-Completes bytes (λ b. wire_part (block b)) wire-IsBlockFrame (omega arith)
            (begun_by y draws code p (block (0, [])) 0) pos refl refl in
        let none_sent : Completes (begun_by y draws code p (block (0, [])) 0) [] t =
          subst
            (λ l.
              Completes (begun_by y draws code p (block (0, [])) 0)
                (map (λ b. wire_part (block b)) l) t)
            (sym e) h in
        absurd none_sent
    row_delivered (b ∷ bs) e =
        let first : Transaction = begun_by y draws code p (block b) (draws start).now in
        let (t, h, result, (begun, sid, tid, src, clean)) =
          sent-Completes bytes (λ b. wire_part (block b)) wire-IsBlockFrame (omega arith) first pos
            refl refl in
        let path : map (λ b. wire_part (block b)) (message_blocks bytes)
            ≡ map wire_part (map block (b ∷ bs)) =
          sym (map-map wire_part block (b ∷ bs) ∙ ap (map (λ b. wire_part (block b))) e) in
        let slices : SlicesOf bytes (b ∷ bs) =
          subst (λ l. SlicesOf bytes l) (sym e) (message_blocks-SlicesOf bytes) in
        let (m, k, run, last) =
          row_answered y draws code (block b) (map block bs) start p t (all-IsOf (b ∷ bs) slices)
            new quick (subst (λ l. Completes first l t) path h) in
        let kept = address_kept c.public_key public in
        (
          t,
          m,
          k,
          run,
          result,
          sid,
          src ∙ ap (copy_at (replicate 32 0) 0) kept ∙ kept,
          tid,
          omega arith,
        )

    -- The frames that `executeTransaction` sends for a message, processed by the server in the order
    -- of sending within ten seconds, when no transaction of that client and number is under way: the
    -- server answers the call once, at the last frame, with the whole message, in the session,
    -- for the client's address and the transaction's number, and sends nothing before.
    pub begin_transaction-Answered : Answered (begin_transaction c bytes comment).0.1
    unfolding begin_transaction
    begin_transaction-Answered = row_delivered (message_blocks bytes) refl
