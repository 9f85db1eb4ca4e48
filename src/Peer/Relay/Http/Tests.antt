-- ===== src/Peer/Relay/Http/Tests.antt =====
-- The theorem at a concrete input: two frames for one address, and a new router.
use xchg.Bytes.{IsByte}
use xchg.Base.{
  ℕ, zero, suc, All, ◌≢◌, ◌≡◌, refl, ap, false, List, [], ◌∷◌, if◌then◌else◌, arith, length, map,
  bytes_eq, replicate,
}
use xchg.Texts.{Outcome, failed}
use xchg.Transaction.{marshal}
use xchg.Framing.{handle_all}
use xchg.Router.{Router, new_router}
use xchg.HttpServer.Posted.{frames_for}
use xchg.HttpServer.Tests.{call, call-FitsWire, no_report, plain, response}
use xchg.Peer.Processing.{receive_frame}
use xchg.Peer.Polling.{Source}
use xchg.Peer.Rounds.{respond, get_frames_from_routers}
use xchg.Remote.Sending.Puts.{url, posted}
use xchg.HttpServer.Polled.{polls}
use xchg.HttpServer.Requests.{serve_http}
use xchg.Peer.Posting.{send_responses}
use xchg.Peer.Relay.{whole, IsCaughtUp}
use xchg.Peer.Relay.Round.{unread}
use xchg.Peer.Relay.Http.{Fits, poll_url, relayed}
use xchg.Peer.Delivered.Tests.{clear_text, server, draws}

abbrev address : List ℕ
address = 3 ∷ replicate 31 0

pub replicate-IsByte : (n x : ℕ) → IsByte x → All IsByte (replicate n x)
replicate-IsByte zero x h = tt
replicate-IsByte (suc n) x h = (h, replicate-IsByte n x h)

address-IsByte : All IsByte address
address-IsByte = (omega arith, replicate-IsByte 31 0 (omega arith))

abbrev pub idle : Source
idle = record { getting = false; reads = 0; last_received = 0 }

abbrev pub router : Router
router = new_router 0

idle-IsCaughtUp : IsCaughtUp address router idle
unfolding new_router xchg.Router.lookup
idle-IsCaughtUp = record { free = refl; below = omega arith; all = omega arith }

calls-Fits : Fits address router (call ∷ call ∷ []) 4
unfolding new_router xchg.Transaction.new_frame xchg.Bytes.copy_at xchg.Router.storage_of
    xchg.Router.lookup xchg.Storage.new_storage frames_for bytes_eq marshal xchg.Bytes.put_uint32
    xchg.Bytes.put_uint64 xchg.Bytes.le_bytes
calls-Fits = record {
  wire = (call-FitsWire, (call-FitsWire, tt));
  to = (address-IsByte, (address-IsByte, tt));
  ids = omega arith;
  room = omega arith;
  one_answer = omega arith;
}

some_mine : frames_for address (call ∷ call ∷ []) ≢ []
unfolding xchg.Transaction.new_frame xchg.Bytes.copy_at frames_for bytes_eq
some_mine e = absurd (omega (arith, ap length e))

-- The router answers at its addresses, and nothing answers elsewhere.
abbrev pub post : Router → List ℕ → List ℕ → Outcome (List ℕ) × Router
post c to d =
    if bytes_eq to url
    then response c (serve_http plain 2 4 [] no_report c (posted d))
    else (if bytes_eq to poll_url
        then response c (serve_http plain 2 4 ((λ c. c) ∷ []) no_report c (polls d))
        else (failed [], c))

relayed_example :
    (src' : Source) × (c' : Router) × (get_frames_from_routers plain post clear_text draws 3
        (send_responses plain post router (call ∷ call ∷ []))
        server
        idle
        address
      ≡ respond plain post clear_text draws 3 c' src' (
          handle_all
            (receive_frame clear_text draws)
            (unread server)
            (map whole (map marshal (frames_for address (call ∷ call ∷ []))))))
    × IsCaughtUp address c' src'
unfolding bytes_eq serve_http frames_for xchg.Transaction.new_frame xchg.Bytes.copy_at
relayed_example =
    relayed plain 2 4 no_report (λ c. c) [] post address router idle (call ∷ call ∷ []) clear_text
      draws 3 server (λ bytes. ((0 ∷ []), refl)) (λ c c' d out e. ap (response c) e)
      (λ c c' d out e. ap (response c) e) (omega arith) address-IsByte refl idle-IsCaughtUp
      some_mine calls-Fits (omega arith)
