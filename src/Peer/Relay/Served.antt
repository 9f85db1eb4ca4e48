-- ===== src/Peer/Relay/Served.antt =====
-- A call over the router, up to the server's answer: xchg/remote_peer.go `executeTransaction`,
-- router/http_server.go, xchg/peer_receiving.go and xchg/peer_processing.go.
mod Tests
use xchg.Base.{
  ℕ, suc, ◌+◌, ◌^◌, ◌≤◌, ◌<◌, ◌≡◌, ◌≢◌, refl, sym, ap, ◌∙◌, inl, inr, Option, none, some, List, [],
  ◌∷◌, ◌++◌, arith, length, map, All, Option-cases, take-all,
}
use mathlib.Core.Path.{subst}
use mathlib.Core.List.{append-nil, append_assoc}
use xchg.Bytes.{IsByte}
use xchg.Texts.{Outcome}
use xchg.Crypto.{Library}
use xchg.Storage.{elapsed, seconds}
use xchg.Transaction.{Frame, Transaction, header_size, marshal}
use xchg.Framing.{Run, finished, panicked, handle_all}
use xchg.Router.{Router}
use xchg.Router.Reports.{Report}
use xchg.HttpServer.Requests.{Base64}
use xchg.HttpServer.Posted.{frames_for, frames_for-own}
use xchg.Remote.{RemotePeer, begin_transaction}
use xchg.Remote.Sending.{send_frames}
use xchg.Peer.{Peer, Draws}
use xchg.Peer.Processing.{
  Receipt, Incoming, receive_frame, process_frame, process_frame_call_request, find_incoming,
  recent_incoming, answer_call,
}
use xchg.Peer.Assembly.{process_frames}
use xchg.Peer.Delivered.{
  IsCall, begin_transaction-IsCall, begin_transaction-to_remote, begin_transaction-Answered,
}
use xchg.Peer.Line.Sending.{process_frame-call}
use xchg.Peer.Polling.{Source}
use xchg.Peer.Rounds.{respond, get_frames_from_routers}
use xchg.Peer.Relay.{whole, IsCaughtUp}
use xchg.Peer.Relay.Round.{unread}
use xchg.Peer.Relay.Sent.{Decodes, Serves, send_frames-puts}
use xchg.Peer.Relay.Http.{Fits, ServesPolls, relayed_from}

-- What was received when `n` frames more have come, by what became of them.
abbrev pub received : Receipt → ℕ → Option (List Frame × Peer) → Run Receipt
received s n none = panicked
received s n (some (sent, p)) =
    finished
      (record { responses = s.responses ++ sent; frames_count = s.frames_count + n; peer = p })

receive_frame-call :
    (y : Library) (draws : ℕ → Draws) (s : Receipt) (f : Frame) (o : Option (List Frame × Peer))
    → IsCall f
    → process_frame_call_request y s.peer (marshal f) (draws s.frames_count) ≡ o
    → receive_frame y draws s (whole (marshal f)) ≡ elim o [
      | none ↦ none
      | some (sent, p) ↦
          some (record {
            responses = s.responses ++ sent;
            frames_count = s.frames_count + 1;
            peer = p;
          })
    ]
unfolding receive_frame
receive_frame-call y draws s f o i e =
    rw
      (
        take-all (length (marshal f)) (marshal f) (omega arith),
        process_frame-call y s.peer f (draws s.frames_count) i ∙ e,
        receive_frame,
      )
      refl

received-later :
    (s : Receipt) (sent : List Frame) (p : Peer) (n : ℕ) (o : Option (List Frame × Peer))
    → received
        (record { responses = s.responses ++ sent; frames_count = s.frames_count + 1; peer = p })
        n
        o
      ≡ received s (suc n) (elim o [ none ↦ none | some (more, c) ↦ some (sent ++ more, c) ])
received-later s sent p n none = refl
received-later s sent p n (some (more, c)) =
    let e : s.frames_count + 1 + n ≡ s.frames_count + suc n = omega arith in
    rw (e, append_assoc s.responses sent more) refl

handle_all-received :
    (y : Library) (draws : ℕ → Draws) (fs : List Frame) (s : Receipt)
    → All IsCall fs
    → handle_all (receive_frame y draws) s (map whole (map marshal fs))
      ≡ received s (length fs) (process_frames y draws s.frames_count s.peer fs)
unfolding handle_all process_frames
handle_all-received y draws [] s a = ground (arith, append-nil s.responses)
handle_all-received y draws (f ∷ fs) s (i, a) =
    elim (Option-cases (process_frame_call_request y s.peer (marshal f) (draws s.frames_count))) [
      | inl e ↦ rw (receive_frame-call y draws s f none i e, e, handle_all, process_frames) refl
      | inr ((sent, p), e) ↦
          let s1 : Receipt = record {
            responses = s.responses ++ sent;
            frames_count = s.frames_count + 1;
            peer = p;
          } in
          rw (receive_frame-call y draws s f (some (sent, p)) i e, e, handle_all, process_frames)
            (handle_all-received y draws fs s1 a
              ∙ received-later s sent p (length fs)
                  (process_frames y draws (s.frames_count + 1) p fs))
    ]

-- A client sends the frames of a message, by `Send`, for a server that has all that the router holds
-- for it and no transaction of that client and number under way. The next round of the server, with
-- its frames processed within ten seconds, answers the call once, at the last frame, with the whole
-- message, in the session, for the client's address and the transaction's number; the responses are
-- those that are sent; and the server again has all that the router holds for it. (Base64 decodes
-- what it encoded, the router serves what is posted to it, and the frames fit.)
pub call_served :
    (b : Base64) (fuel now : ℕ) (report : Report) (other : Router → Router)
    (others : List (Router → Router)) (post : Router → List ℕ → List ℕ → Outcome (List ℕ) × Router)
    (c : Router) (src : Source) (client : RemotePeer) (bytes comment : List ℕ) (y : Library)
    (draws : ℕ → Draws) (rounds : ℕ) (p : Peer)
    → Decodes b
    → Serves b fuel now report post
    → ServesPolls b fuel now report other others post
    → 1 < fuel
    → All IsByte client.remote_address
    → length client.remote_address ≡ 32
    → length client.public_key ≡ 32
    → client.next_transaction_id < 2 ^ 64
    → client.session_id < 2 ^ 64
    → header_size + length bytes < 2 ^ 32
    → 0 < length bytes
    → IsCaughtUp client.remote_address c src
    → Fits client.remote_address c (begin_transaction client bytes comment).0.1 now
    → length (begin_transaction client bytes comment).0.1 < rounds
    → find_incoming
        (record { address = client.public_key; id = client.next_transaction_id })
        (recent_incoming (draws 0).now p.incoming_transactions)
      ≡ none
    → ((k : ℕ) → elapsed (draws k).now (draws 0).now ≤ seconds 10)
    → (t : Transaction) × (m : Incoming) × (k : ℕ) × (src' : Source) × (c' : Router)
      × (get_frames_from_routers b post y draws rounds
            (send_frames b post c (begin_transaction client bytes comment).0.1)
            p
            src
            client.remote_address
          ≡ respond b post y draws rounds c' src' (
              received (unread p) (k + 1) (
                answer_call y
                  (record p { incoming_transactions = m })
                  t
                  client.public_key
                  (draws k))))
      × (t.result ≡ bytes)
      × (t.session_id ≡ client.session_id)
      × (t.src_address ≡ client.public_key)
      × (t.transaction_id ≡ client.next_transaction_id)
      × IsCaughtUp client.remote_address c' src'
call_served b fuel now report other others post c src client bytes comment y draws rounds p decodes
      served polls_at few is_bytes remote public id session fits pos up h enough new quick =
    let fs = (begin_transaction client bytes comment).0.1 in
    let address = client.remote_address in
    let (t, m, k, run, result, sid, from, tid, last) =
      begin_transaction-Answered client bytes comment fits pos id session public remote y draws 0 p
        new quick in
    let own : frames_for address fs ≡ fs =
      frames_for-own address fs
        (begin_transaction-to_remote client bytes comment fits pos id session public remote) in
    let sent = send_frames-puts b fuel now report post decodes served few fs c h.wire in
    let (src', c', round, again) =
      relayed_from b fuel now report other others post address c src fs y draws rounds p
        (send_frames b post c fs) sent decodes polls_at is_bytes remote up
        (λ e. absurd (omega (arith, last, ap length (sym own ∙ e)))) h (rw own enough) in
    let processed : handle_all (receive_frame y draws) (unread p)
          (map whole (map marshal (frames_for address fs)))
        ≡ received (unread p) (k + 1)
            (answer_call y (record p { incoming_transactions = m }) t client.public_key (draws k)) =
      ap (λ l. handle_all (receive_frame y draws) (unread p) (map whole (map marshal l))) own
      ∙ handle_all-received y draws fs (unread p)
          (begin_transaction-IsCall client bytes comment fits pos id session public remote)
      ∙ ap (received (unread p) (length fs)) run
      ∙ ap
          (λ n.
            received (unread p) n (
              answer_call y (record p { incoming_transactions = m }) t client.public_key (draws k)))
          (omega (arith, last)) in
    (
      t,
      m,
      k,
      src',
      c',
      round ∙ ap (respond b post y draws rounds c' src') processed,
      result,
      sid,
      from,
      tid,
      again,
    )
