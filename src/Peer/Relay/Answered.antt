-- ===== src/Peer/Relay/Answered.antt =====
-- The frames of a response, over the router, to the client that waits for it: xchg/peer_receiving.go,
-- router/http_server.go and xchg/remote_peer.go.
mod Tests
use xchg.Base.{
  ℕ, suc, ◌+◌, ◌^◌, ◌≤◌, ◌<◌, ◌≡◌, ◌≢◌, refl, sym, ap, ◌∙◌, inl, inr, true, false, Bool, Option,
  none, some, List, [], ◌∷◌, ◌++◌, arith, get_or, length, map, All, Option-cases, take-all,
  bytes_eq, bytes_eq_refl, le→not-ltb,
}
use mathlib.Core.Path.{subst}
use mathlib.Core.List.{append-nil}
use xchg.Bytes.{IsByte}
use xchg.Texts.{Outcome}
use xchg.Crypto.{Library}
use xchg.Maps.{find}
use xchg.Transaction.{Frame, Transaction, header_size, marshal}
use xchg.Transaction.Wire.{FitsWire, wire_part, parse-marshal, type_at, length-marshal}
use xchg.Framing.{Run, finished, handle_all}
use xchg.Router.{Router, hex_encode}
use xchg.Router.Reports.{Report}
use xchg.HttpServer.Requests.{Base64}
use xchg.HttpServer.Posted.{frames_for, frames_for-own}
use xchg.Remote.{
  RemotePeer, frame_type_response, max_transaction_size, process_frame, process_frame11,
}
use xchg.Remote.Execution.{receive}
use xchg.Peer.{Peer, Draws}
use xchg.Peer.Processing as Processing
use xchg.Peer.Processing.{
  Receipt, receive_frame, at_address, process_frame_call_response, response_frames,
}
use xchg.Peer.Responses.{
  IsFor, IsBetween, waiting, response_frames-taken, response_frames-IsFor, response_frames-some,
  response_frames-IsBetween,
}
use xchg.Peer.Polling.{Source}
use xchg.Peer.Posting.{send_responses}
use xchg.Peer.Rounds.{respond, get_frames_from_routers}
use xchg.Peer.Relay.{whole, IsCaughtUp}
use xchg.Peer.Relay.Round.{unread}
use xchg.Peer.Relay.Sent.{Decodes, Serves}
use xchg.Peer.Relay.Http.{Fits, ServesPolls, relayed}
use xchg.Peer.Relay.Taken.{hosting, handle_all-responses, all-IsResponse}

-- A server sends the frames of a response to a client that has all that the router holds for it, and
-- whose transaction waits for them. After the next round of the client the transaction is complete,
-- with the response as its result, nothing was sent, and the client again has all that the router
-- holds for it. (The response is not empty and not too long; base64 decodes what it encoded, the
-- router serves what is posted to it, and the frames fit.)
pub answer_taken :
    (b : Base64) (fuel now : ℕ) (report : Report) (other : Router → Router)
    (others : List (Router → Router)) (post : Router → List ℕ → List ℕ → Outcome (List ℕ) × Router)
    (c : Router) (src : Source) (p : Peer) (asked : Transaction) (address resp : List ℕ)
    (y : Library) (draws : ℕ → Draws) (rounds : ℕ) (q : Peer) (rp : RemotePeer)
    (ps : List RemotePeer) (m : List (ℕ × Transaction)) (t : Transaction)
    → Decodes b
    → Serves b fuel now report post
    → ServesPolls b fuel now report other others post
    → 1 < fuel
    → All IsByte address
    → length address ≡ 32
    → length p.public_key ≡ 32
    → rp.remote_address ≡ p.public_key
    → asked.transaction_id < 2 ^ 64
    → asked.session_id < 2 ^ 64
    → header_size + length resp < 2 ^ 32
    → 0 < length resp
    → length resp ≤ max_transaction_size + 1024
    → find asked.transaction_id m ≡ none
    → t.received_frames ≡ []
    → t.complete ≡ false
    → IsCaughtUp address c src
    → Fits address c (response_frames p asked address resp) now
    → length (response_frames p asked address resp) < rounds
    → (t' : Transaction) × (src' : Source) × (c' : Router) × (get_frames_from_routers b post y draws
          rounds
          (send_responses b post c (response_frames p asked address resp))
          (hosting q (waiting rp asked.transaction_id m t) ps)
          src
          address
        ≡ finished (c', hosting q (waiting rp asked.transaction_id m t') ps, src'))
      × (t'.complete ≡ true)
      × (t'.result ≡ resp)
      × (t'.err ≡ t.err)
      × IsCaughtUp address c' src'
unfolding send_responses
answer_taken b fuel now report other others post c src p asked address resp y draws rounds q rp ps m
      t decodes served polls_at few is_bytes size public own id session fits pos small once empty
      undone up h enough =
    let fs = response_frames p asked address resp in
    let client = waiting rp asked.transaction_id m t in
    let (t', taken, ended, result, clean) =
      response_frames-taken p asked address resp fits id session rp m t once empty undone pos
        small in
    let (responses, dests) =
      all-IsResponse p asked address resp fits id session public size fs
        (response_frames-IsFor p asked address resp fits id session)
        (response_frames-IsBetween p asked address resp fits id session public size) in
    let mine : frames_for address fs ≡ fs = frames_for-own address fs dests in
    let (src', c', round, again) =
      relayed b fuel now report other others post address c src fs y draws rounds
        (hosting q client ps) decodes served polls_at few is_bytes size up
        (λ e. response_frames-some p asked address resp fits id session pos (sym mine ∙ e)) h
        (rw mine enough) in
    let (n, done_all) =
      handle_all-responses y draws q ps p.public_key fs client
        (waiting rp asked.transaction_id m t') (unread (hosting q client ps)) refl own responses
        taken in
    (
      t',
      src',
      c',
      round
          ∙ ap
              (λ l. respond b post y draws rounds c' src' (
                handle_all (receive_frame y draws) (unread (hosting q client ps))
                  (map whole (map marshal l))))
              mine
          ∙ ap (respond b post y draws rounds c' src') done_all,
      ended,
      result,
      clean,
      again,
    )
