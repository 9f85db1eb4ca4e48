-- ===== src/Peer/Line/Transacted.antt =====
-- A whole transaction over the line is one step of the server.
mod Tests
use xchg.Base.{
  ℕ, zero, suc, ◌+◌, ◌-◌, ◌/◌, ◌^◌, ◌≤◌, ◌<◌, ◌≡◌, refl, sym, ap, ◌∙◌, inl, inr, Bool, true, false,
  ◌||◌, Option, none, some, List, [], ◌∷◌, ◌++◌, arith, length, map, ltb, ltb→lt, ◌==◌, Bool-cases,
  if◌then◌else◌,
}
use mathlib.Core.Path.{subst}
use xchg.Base.Words.{add64}
use xchg.Texts.{Outcome, done}
use xchg.Maps.{find, remove, store, remove-absent}
use xchg.Bytes.{copy_at}
use xchg.Crypto.{Library}
use xchg.Storage.{elapsed, seconds}
use xchg.Transaction.{Frame, Transaction, header_size, new_frame, new_transaction, marshal}
use xchg.Transaction.Message.{message_blocks}
use xchg.Remote.{RemotePeer, begin_transaction, time_out, frame_type_call, max_transaction_size}
use xchg.Remote.Calls.{Ended}
use xchg.Remote.Execution.{receive, wait, send_all, execute_transaction}
use xchg.Peer.{Peer, Reply, Code, on_edge_received_call}
use xchg.Peer.Processing.{Incoming, find_incoming, recent_incoming, answer_call, response_frames}
use xchg.Peer.Assembly.{process_frames}
use xchg.Peer.Delivered.{begin_transaction-Answered, begin_transaction-IsCall}
use xchg.Peer.Direct.{World, next_world, counted, is_lost, answered}
use xchg.Peer.Responses.{waiting, response_frames-taken, response_frames-refused}
use xchg.Peer.Line.{Line, idle, sleep, send, over_line, on_line}
use xchg.Peer.Line.Sending.{arrived, send_all-arrived}
use xchg.Peer.Line.Waiting.{wait-silent, wait-response}

module _ (c : RemotePeer) (bytes comment key : List ℕ) (fits : header_size + length bytes < 2 ^ 32)
    (pos : 0 < length bytes) (small_id : c.next_transaction_id < 2 ^ 64)
    (small_session : c.session_id < 2 ^ 64) (public : length c.public_key ≡ 32)
    (remote : length c.remote_address ≡ 32)
    (once : find c.next_transaction_id c.outgoing_transactions ≡ none) where
  -- The transaction that waits.
  own : Transaction
  own =
      let t =
        new_transaction frame_type_call c.public_key c.remote_address c.next_transaction_id
          c.session_id 0 (length bytes) bytes in
      record t { frame = record t.frame { comment = copy_at t.comment 0 comment } }

  abbrev pending : Transaction → RemotePeer
  pending t = waiting (counted c) c.next_transaction_id c.outgoing_transactions t

  begun : (begin_transaction c bytes comment).1 ≡ pending own
  unfolding begin_transaction store own
  begun = rw (remove-absent c.next_transaction_id c.outgoing_transactions once) refl

  own_open : (own.received_frames ≡ []) × (own.complete ≡ false) × (own.err ≡ none)
  unfolding own new_transaction new_frame
  own_open = (refl, refl, refl)

  -- The rest of the transaction, when the frames are sent.
  abbrev after_sending : ℕ → Option Line → RemotePeer → Ended (List ℕ) Line
  after_sending timeout none d = none
  after_sending timeout (some l) d = wait sleep (timeout / 10) l d c.next_transaction_id key

  opened :
      (y : Library) (timeout : ℕ) (l : Line)
      → over_line y timeout l c bytes comment key
        ≡ after_sending timeout
            (send_all (send y) l (begin_transaction c bytes comment).0.1)
            (begin_transaction c bytes comment).1
  unfolding over_line execute_transaction begin_transaction
  opened y timeout l = same (send_all (send y) l (begin_transaction c bytes comment).0.1)
    where
      same :
          (o : Option Line)
          → (elim o [
            | none ↦ none
            | some x ↦
                wait sleep
                  (timeout / 10)
                  x
                  (begin_transaction c bytes comment).1
                  (begin_transaction c bytes comment).0.0
                  key
          ])
            ≡ after_sending timeout o (begin_transaction c bytes comment).1
      same none = refl
      same (some x) = refl

  module _ (y : Library) (timeout : ℕ) (long : 20 ≤ timeout) where
    abbrev SmallResponse : World → Incoming → ℕ → Type 0
    SmallResponse w m k =
        (sent : Reply) (p : Peer)
        → on_edge_received_call y (record w.peer { incoming_transactions = m }) c.session_id bytes
            c.public_key (w.draws k)
          ≡ some (sent, p)
        → header_size + length sent.response < 2 ^ 32

    -- The world when the server is asked.
    abbrev asked : World → Incoming → ℕ → World
    asked w m k = record w { peer = record w.peer { incoming_transactions = m }; time = k }

    module _ (w : World) (m : Incoming) (k n : ℕ) (t : Transaction) (last : k + 1 ≡ w.time + n)
        (id : t.transaction_id ≡ c.next_transaction_id)
        (session : t.session_id ≡ c.session_id) where
      -- What the client gets, by what the server answered.
      abbrev got : Reply → Peer → Ended (List ℕ) World
      got sent p =
          if sent.dont_send_response || is_lost (length sent.response)
          then (let (e, c') = time_out (counted c) c.next_transaction_id key in
              some (e, c', next_world (asked w m k) p))
          else some (done sent.response, counted c, next_world (asked w m k) p)

      same_time : (p : Peer) → record w { peer = p; time = w.time + n } ≡ next_world (asked w m k) p
      same_time p = ap (λ (i : ℕ). record w { peer = p; time = i }) (sym last)

      waits : World → List Frame → Ended (List ℕ) Line
      waits w' inbox =
          wait sleep (timeout / 10) (record { world = w'; inbox = inbox }) (pending own)
            c.next_transaction_id key

      silent :
          (w' : World)
          → waits w' [] ≡ (
              let (e, c') = time_out (counted c) c.next_transaction_id key in some (e, c', idle w'))
      unfolding waits
      silent w' =
          wait-silent (counted c) c.next_transaction_id c.outgoing_transactions once key
            (timeout / 10) w' own own_open.1

      heard :
          (w' : World) (p : Peer) (sent : Reply)
          → header_size + length sent.response < 2 ^ 32
          → waits w' (response_frames p t c.public_key sent.response) ≡ (
              if is_lost (length sent.response)
              then (let (e, c') = time_out (counted c) c.next_transaction_id key in
                  some (e, c', idle w'))
              else some (done sent.response, counted c, idle w'))
      unfolding waits
      heard w' p sent small =
          let two : timeout / 10 ≡ suc (suc (timeout / 10 - 2)) = omega arith in
          rw two (
            subst
              (λ (i : ℕ).
                wait sleep (suc (suc (timeout / 10 - 2)))
                  (record { world = w'; inbox = response_frames p t c.public_key sent.response })
                  (waiting (counted c) i c.outgoing_transactions own) i key
                ≡ (if is_lost (length sent.response)
                    then (let (e, c') = time_out (counted c) i key in some (e, c', idle w'))
                    else some (done sent.response, counted c, idle w')))
              id
              (wait-response (counted c) c.outgoing_transactions key w' p t c.public_key
                sent.response small (rw id small_id) (rw session small_session)
                (ap (λ i. find i c.outgoing_transactions) id ∙ once) own own_open.0 own_open.1
                own_open.2 (timeout / 10 - 2)))

      sorted :
          (b : Bool) (p : Peer) (response : List ℕ)
          → (if b
              then (let (e, c') = time_out (counted c) c.next_transaction_id key in
                  some (e, c', idle (next_world (asked w m k) p)))
              else some (done response, counted c, idle (next_world (asked w m k) p)))
            ≡ on_line (
                if b
                then (let (e, c') = time_out (counted c) c.next_transaction_id key in
                    some (e, c', next_world (asked w m k) p))
                else some (done response, counted c, next_world (asked w m k) p))
      sorted true p response = refl
      sorted false p response = refl

      ends :
          (o : Option (Reply × Peer))
          → ((sent : Reply) (p : Peer)
              → o ≡ some (sent, p)
              → header_size + length sent.response < 2 ^ 32)
          → after_sending timeout
              (arrived (idle w) n (elim o [
                | none ↦ none
                | some (sent, p) ↦
                    if sent.dont_send_response
                    then some ([], p)
                    else some (response_frames p t c.public_key sent.response, p)
              ]))
              (pending own)
            ≡ on_line (elim o [ none ↦ none | some (sent, p) ↦ got sent p ])
      unfolding waits
      ends none small = refl
      ends (some (sent, p)) small = elim (Bool-cases sent.dont_send_response) [
        | inl quiet ↦
            rw quiet (ap (λ x. waits x []) (same_time p) ∙ silent (next_world (asked w m k) p))
        | inr loud ↦
            let reply : waits (record w { peer = p; time = w.time + n })
                  (response_frames p t c.public_key sent.response)
                ≡ (if is_lost (length sent.response)
                    then (let (e, c') = time_out (counted c) c.next_transaction_id key in
                        some (e, c', idle (next_world (asked w m k) p)))
                    else some (done sent.response, counted c, idle (next_world (asked w m k) p))) =
              ap (λ x. waits x (response_frames p t c.public_key sent.response)) (same_time p)
              ∙ heard (next_world (asked w m k) p) p sent (small sent p refl) in
            rw loud (reply ∙ sorted (is_lost (length sent.response)) p sent.response)
      ]

      ending :
          t.result ≡ bytes
          → t.src_address ≡ c.public_key
          → SmallResponse w m k
          → after_sending timeout
              (arrived (idle w) n (
                answer_call y
                  (record w.peer { incoming_transactions = m })
                  t
                  c.public_key
                  (w.draws k)))
              (pending own)
            ≡ on_line (answered y (asked w m k) c bytes comment key)
      unfolding answer_call answered
      ending result src small =
          let call : on_edge_received_call y (record w.peer { incoming_transactions = m })
                t.session_id t.result t.src_address (w.draws k)
              ≡ on_edge_received_call y (record w.peer { incoming_transactions = m }) c.session_id
                  bytes c.public_key (w.draws k) =
            λ i.
              on_edge_received_call y (record w.peer { incoming_transactions = m }) (session i)
                (result i) (src i) (w.draws k) in
          rw (call, after_sending)
            (ends
              (on_edge_received_call y (record w.peer { incoming_transactions = m }) c.session_id
                bytes c.public_key (w.draws k))
              small)

    module _ (w : World)
        (new : find_incoming
            (record { address = c.public_key; id = c.next_transaction_id })
            (recent_incoming (w.draws w.time).now w.peer.incoming_transactions)
          ≡ none)
        (quick : (k : ℕ) → elapsed (w.draws k).now (w.draws w.time).now ≤ seconds 10)
        (small : (m : Incoming) (k : ℕ) → SmallResponse w m k) where
      -- `executeTransaction` with at least 20 ms of time, over a line that brings every frame, for a
      -- message that is not empty: the server is asked once, with the whole message, the client's
      -- address and the session, and its response is the result; when it sends none, or an empty one,
      -- or one of more than 1 MB and 1 KB, the client times out. What is left is the state in which
      -- the server was asked but for its transactions under way, and the client without the
      -- transaction.
      pub over_line-answered :
          (m : Incoming) × (k : ℕ) × (over_line y timeout (idle w) c bytes comment key
            ≡ on_line (answered y (asked w m k) c bytes comment key))
      over_line-answered =
          let (t, m, k, run, result, session, src, id, last) =
            begin_transaction-Answered c bytes comment fits pos small_id small_session public remote
              y w.draws w.time w.peer new quick in
          let sent : send_all (send y) (idle w) (begin_transaction c bytes comment).0.1
              ≡ arrived (idle w) (length (begin_transaction c bytes comment).0.1)
                  (process_frames y w.draws w.time w.peer (begin_transaction c bytes comment).0.1) =
            send_all-arrived y (begin_transaction c bytes comment).0.1 (idle w) (
              begin_transaction-IsCall c bytes comment fits pos small_id small_session public
                remote) in
          (
            m,
            k,
            opened y timeout (idle w)
                ∙ (λ i. after_sending timeout (sent i) (begun i))
                ∙ ap
                    (λ o.
                      after_sending timeout
                        (arrived (idle w) (length (begin_transaction c bytes comment).0.1) o)
                        (pending own))
                    run
                ∙ ending w m k (length (begin_transaction c bytes comment).0.1) t last id session
                    result src (small m k),
          )
