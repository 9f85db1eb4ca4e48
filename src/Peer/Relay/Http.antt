-- ===== src/Peer/Relay/Http.antt =====
-- `getFramesFromRouter` of a peer with the router's server at the other end of each HTTP request.
pub mod Tests
use xchg.Base.{
  ℕ, ◌+◌, ◌≤◌, ◌<◌, ◌≡◌, ◌≢◌, refl, sym, ap, ◌∙◌, some, List, [], ◌∷◌, ◌++◌, arith, length, map,
  All, false, ◌^◌, take-length-append,
}
use mathlib.Core.List.{append-nil}
use xchg.Base.Words.{word_mod}
use xchg.Bytes.{IsByte}
use xchg.Texts.{Outcome, done, codes}
use xchg.Crypto.{Library}
use xchg.Transaction.{Frame, marshal}
use xchg.Transaction.Wire.{FitsWire}
use xchg.Framing.{Run, finished, handle_all}
use xchg.Framing.Split.{end_to_end}
use xchg.Router.{
  Router, Answer, hex_encode, storage_of, answer, get_messages, declare_http_request_r,
}
use xchg.Router.Reports.{Report}
use xchg.HttpServer.Requests.{Base64, serve_http}
use xchg.HttpServer.Puts.{All-IsFramed}
use xchg.HttpServer.Posted.{frames_for, frames_for-All, post_frames, length-messages_for}
use xchg.HttpServer.Polled.{polls, serve_http-answers}
use xchg.Remote.Sending.{read_response}
use xchg.Peer.{Peer, Draws}
use xchg.Peer.Processing.{receive_frame, process_frames_from_internet}
use xchg.Peer.Polling.{answer_size, Source, poll_request, length-request, begin_poll, end_poll}
use xchg.Peer.Posting.{http_call, send_responses}
use xchg.Peer.Rounds.{respond, get_frames_from_router-told, get_frames_from_routers}
use xchg.Peer.Relay.{whole, length-map, positive_length, IsCaughtUp}
use xchg.Peer.Relay.Round.{
  unread, told, news, caught_up, polled, process_frames_from_internet-frames,
}
use xchg.Peer.Relay.Sent.{Decodes, Serves, send_responses-puts}

-- The frames that a sender has for an address fit its storage and one answer.
pub record Fits (address : List ℕ) (c : Router) (fs : List Frame) (now : ℕ) : Type 0 where
  pub wire : All FitsWire fs
  pub to : All (λ (f : Frame). All IsByte f.dest_address) fs
  pub ids : c.next_id + length fs < word_mod
  pub room :
      length (storage_of (hex_encode address) c.addresses now).messages
        + length (frames_for address fs)
      ≤ (storage_of (hex_encode address) c.addresses now).max_messages
  pub one_answer : length (end_to_end (map marshal (frames_for address fs))) < answer_size

abbrev pub poll_url : List ℕ
poll_url = codes "http://localhost:8084/api/r"

module _ (b : Base64) (fuel now : ℕ) (report : Report) (other : Router → Router)
    (others : List (Router → Router)) where
  -- The router serves the polls that are posted to its address.
  abbrev pub ServesPolls : (Router → List ℕ → List ℕ → Outcome (List ℕ) × Router) → Type 0
  ServesPolls post =
      (c c' : Router) (d out : List ℕ)
      → serve_http b fuel now (other ∷ others) report c (polls d) ≡ finished (out, c')
      → post c poll_url d ≡ (done out, c')

  -- The answer to a poll comes back through base64.
  http_call-answered :
      (post : Router → List ℕ → List ℕ → Outcome (List ℕ) × Router) (c c' : Router)
      (request bytes : List ℕ) (n : ℕ)
      → Decodes b
      → ServesPolls post
      → length request ≡ 48
      → get_messages (declare_http_request_r c) (whole request) ≡ some (answer bytes n, c')
      → 0 < n
      → http_call b post c (codes "localhost:8084") (codes "r") request ≡ (done bytes, c')
  unfolding http_call read_response
  http_call-answered post c c' request bytes n decodes served size asked some_there =
      let (spare, back) = decodes request in
      let (spare', back') = decodes bytes in
      let answered = served c c' (b.encode_to_string request) (b.encode_to_string bytes) (
        serve_http-answers b fuel now other others report c c' request spare bytes n size back asked
          some_there) in
      ap (λ r. (read_response b r.0, r.1)) answered
      ∙ rw (back', take-length-append bytes spare', read_response) refl

length-begin_poll :
    (address : List ℕ) (src src' : Source) (request : List ℕ)
    → src.getting ≡ false
    → src.last_received < 2 ^ 64
    → length address ≡ 32
    → begin_poll address src ≡ (some request, src')
    → length request ≡ 48
unfolding begin_poll
length-begin_poll address src src' request free word size e =
    let asked : (begin_poll address src).0 ≡ some (poll_request src.last_received address) =
      rw (free, begin_poll) refl in
    let same : some request ≡ some (poll_request src.last_received address) =
      sym (ap (λ r. r.0) e) ∙ asked in
    let at : request ≡ poll_request src.last_received address = cc same in
    rw at (length-request src.last_received address word size)

-- What was posted reaches the peer in its next round.
pub relayed_from :
    (b : Base64) (fuel now : ℕ) (report : Report) (other : Router → Router)
    (others : List (Router → Router)) (post : Router → List ℕ → List ℕ → Outcome (List ℕ) × Router)
    (address : List ℕ) (c : Router) (src : Source) (fs : List Frame) (y : Library)
    (draws : ℕ → Draws) (rounds : ℕ) (p : Peer) (x : Router)
    → x ≡ post_frames c fs now
    → Decodes b
    → ServesPolls b fuel now report other others post
    → All IsByte address
    → length address ≡ 32
    → IsCaughtUp address c src
    → frames_for address fs ≢ []
    → Fits address c fs now
    → length (frames_for address fs) < rounds
    → (src' : Source) × (c' : Router) × (get_frames_from_routers b post y draws rounds x p src
          address
        ≡ respond b post y draws rounds c' src' (
            handle_all
              (receive_frame y draws)
              (unread p)
              (map whole (map marshal (frames_for address fs)))))
      × IsCaughtUp address c' src'
unfolding get_frames_from_routers declare_http_request_r
relayed_from b fuel now report other others post address c src fs y draws rounds p x sent decodes
      polled_at bytes size up mine h enough =
    let posted = post_frames c fs now in
    let n = length (news address bytes size c src up fs now h.to h.ids mine h.room h.one_answer) in
    let (request, src', c', begun, asked, ended, again) =
      polled address bytes size c src up fs now h.to h.ids mine h.room h.one_answer
        (declare_http_request_r posted) refl refl in
    let frames = map marshal (frames_for address fs) in
    let res = told address bytes size c src up fs now h.to h.ids mine h.room h.one_answer in
    let processed : process_frames_from_internet y draws rounds p (whole res)
        ≡ handle_all (receive_frame y draws) (unread p) (map whole frames) =
      ap
        (λ a.
          process_frames_from_internet y draws rounds p (record { array = a; len = length res }))
        (sym (append-nil res))
      ∙ process_frames_from_internet-frames y draws rounds p _ frames []
          (All-IsFramed (frames_for address fs) (frames_for-All FitsWire address fs h.wire))
          (omega (arith, length-map marshal (frames_for address fs))) in
    let called : http_call b post x (codes "localhost:8084") (codes "r") request ≡ (done res, c') =
      ap (λ r. http_call b post r (codes "localhost:8084") (codes "r") request) sent
      ∙ http_call-answered b fuel now report other others post posted c' request res n decodes
          polled_at
          (length-begin_poll address src src' request up.free (omega (arith, up.below, h.ids)) size
            begun)
          asked
          (omega (
            arith,
            length-messages_for address c.next_id fs now,
            positive_length (frames_for address fs) mine,
          )) in
    (
      caught_up address bytes size c src up fs now h.to h.ids mine h.room h.one_answer,
      c',
      get_frames_from_router-told b post y draws rounds x c' p src src'
            (caught_up address bytes size c src up fs now h.to h.ids mine h.room h.one_answer)
            (codes "localhost:8084") address request res begun called ended
          ∙ ap
              (respond b post y draws rounds c'
                (caught_up address bytes size c src up fs now h.to h.ids mine h.room h.one_answer))
              processed,
      again,
    )

-- A peer sends frames over HTTP, to any addresses, some of them for a peer that has all that the
-- router holds for it. The next round of this peer processes exactly the frames for it, in the order
-- of sending, and sends what it answers; and before that it again has all that the router holds for
-- it. (Base64 decodes what it encoded, the router serves what is posted to it, and the frames fit.)
pub relayed :
    (b : Base64) (fuel now : ℕ) (report : Report) (other : Router → Router)
    (others : List (Router → Router)) (post : Router → List ℕ → List ℕ → Outcome (List ℕ) × Router)
    (address : List ℕ) (c : Router) (src : Source) (fs : List Frame) (y : Library)
    (draws : ℕ → Draws) (rounds : ℕ) (p : Peer)
    → Decodes b
    → Serves b fuel now report post
    → ServesPolls b fuel now report other others post
    → 1 < fuel
    → All IsByte address
    → length address ≡ 32
    → IsCaughtUp address c src
    → frames_for address fs ≢ []
    → Fits address c fs now
    → length (frames_for address fs) < rounds
    → (src' : Source) × (c' : Router) × (get_frames_from_routers b post y draws rounds
          (send_responses b post c fs)
          p
          src
          address
        ≡ respond b post y draws rounds c' src' (
            handle_all
              (receive_frame y draws)
              (unread p)
              (map whole (map marshal (frames_for address fs)))))
      × IsCaughtUp address c' src'
relayed b fuel now report other others post address c src fs y draws rounds p decodes served
      polled_at few bytes size up mine h enough =
    relayed_from b fuel now report other others post address c src fs y draws rounds p
      (send_responses b post c fs)
      (send_responses-puts b fuel now report post decodes served few fs c h.wire) decodes polled_at
      bytes size up mine h enough
