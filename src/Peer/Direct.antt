-- ===== src/Peer/Direct.antt =====
-- xchg/remote_peer.go and xchg/peer_server.go: what `executeTransaction` comes to, in one step, for
-- the calls that are made of it: Peer/Line has the loops, the frames and the waiting themselves.
use xchg.Base.{
  ℕ, ◌+◌, ◌≤◌, ◌<◌, ◌≡◌, ◌≢◌, refl, ap, ◌∙◌, false, ◌||◌, ◌==◌, Bool, ltb, none, some, List, [],
  if◌then◌else◌, arith, length, le→not-ltb, ==_ne,
}
use xchg.Base.Words.{add64}
use xchg.Texts.{done}
use xchg.Crypto.{Library}
use xchg.Remote.{RemotePeer, max_transaction_size, time_out, build_frame, plain_frame, read_result}
use xchg.Remote.Frames.{named, plain_frame-eq}
use xchg.Remote.Calls.{Execute, regular_call}
use xchg.Peer.{Peer, Draws, on_edge_received_call, open_call, prepare_response}
use xchg.Peer.RoundTrip.{split_call-named, prepare_response-eq}

-- A server, and what it draws in its calls from `time` on.
pub record World : Type 0 where
  pub peer : Peer
  pub draws : ℕ → Draws
  pub time : ℕ

abbrev pub next_world : World → Peer → World
next_world w p = record w { peer = p; time = w.time + 1 }

-- The client gave the transaction its number, and no longer waits for it.
abbrev pub counted : RemotePeer → RemotePeer
counted c = record c { next_transaction_id = add64 c.next_transaction_id 1 }

-- What a client gets of a response of `n` bytes: nothing, if it is empty or too long.
abbrev pub is_lost : ℕ → Bool
is_lost n = (n == 0) || ltb (max_transaction_size + 1024) n

-- A transaction in one step: the server is asked, and its response is the result, or the timeout.
unfoldable pub answered : Library → Execute World
unfolding time_out
answered y w c bytes comment aes_key =
    elim (on_edge_received_call y w.peer c.session_id bytes c.public_key (w.draws w.time)) [
      | none ↦ none
      | some (sent, p) ↦
          if sent.dont_send_response || is_lost (length sent.response)
          then (let (e, c') = time_out (counted c) c.next_transaction_id aes_key in
              some (e, c', next_world w p))
          else some (done sent.response, counted c, next_world w p)
    ]

-- A call outside a session.
pub open_call-eq :
    (y : Library) (p : Peer) (function bytes remote : List ℕ) (r : Draws)
    → length function < 256
    → on_edge_received_call y p 0 (plain_frame function bytes) remote r
      ≡ open_call y p function bytes remote r
unfolding on_edge_received_call
open_call-eq y p function bytes remote r short =
    rw
      (
        plain_frame-eq function bytes,
        split_call-named function bytes short,
        le→not-ltb (length (named function bytes)) 1 (omega arith),
      )
      refl

-- The client after a call of its own.
abbrev pub called : RemotePeer → RemotePeer
called c = counted (record c { session_nonce_counter = add64 c.session_nonce_counter 1 })

-- A response that is neither empty nor too long.
abbrev pub IsTaken : ℕ → Type 0
IsTaken n = (0 < n) × (n ≤ max_transaction_size + 1024)

is_lost-taken : (n : ℕ) → IsTaken n → is_lost n ≡ false
is_lost-taken n (some_bytes, fits) = ground arith

pub answered-eq :
    (y : Library) (w : World) (c : RemotePeer) (p' : Peer) (frame comment key response : List ℕ)
    → IsTaken (length response)
    → on_edge_received_call y w.peer c.session_id frame c.public_key (w.draws w.time)
      ≡ some (record { response = response; dont_send_response = false }, p')
    → answered y w c frame comment key ≡ some (done response, counted c, next_world w p')
unfolding answered
answered-eq y w c p' frame comment key response taken served =
    rw (served, is_lost-taken (length response) taken, answered) refl

-- `regularCall` outside a session, of a function that the server answers.
pub regular_call-open :
    (y : Library) (w : World) (c : RemotePeer) (function bytes nonce result : List ℕ) (p' : Peer)
    → c.session_id ≡ 0
    → length c.private_key ≢ 0
    → length function ≤ 255
    → length result < max_transaction_size + 1024
    → open_call y w.peer function bytes c.public_key (w.draws w.time)
      ≡ some (record { response = prepare_response result; dont_send_response = false }, p')
    → regular_call y (answered y) w c function bytes [] nonce
      ≡ some (done result, called c, next_world w p')
unfolding regular_call
regular_call-open y w c function bytes nonce result p' none_yet key short small given =
    let built : build_frame y c function bytes [] nonce ≡ (
      done (plain_frame function bytes, false),
      record c { session_nonce_counter = add64 c.session_nonce_counter 1 },
    ) =
      unfold build_frame in
      rw (le→not-ltb 255 (length function) short, ==_ne (length c.private_key) 0 key) refl in
    let w1 : World = next_world w p' in
    let c1 : RemotePeer = record c { session_nonce_counter = add64 c.session_nonce_counter 1 } in
    let served : on_edge_received_call y w.peer c1.session_id (plain_frame function bytes)
          c1.public_key (w.draws w.time)
        ≡ some (record { response = prepare_response result; dont_send_response = false }, p') =
      rw none_yet (
        open_call-eq y w.peer function bytes c.public_key (w.draws w.time) (omega arith) ∙ given) in
    let sent : answered y w c1 (plain_frame function bytes) function []
        ≡ some (done (prepare_response result), called c, w1) =
      answered-eq y w c1 p' (plain_frame function bytes) function [] (prepare_response result)
        (
          omega (arith, ap length (prepare_response-eq result)),
          omega (arith, ap length (prepare_response-eq result)),
        )
        served in
    rw (built, built, sent, prepare_response-eq result, regular_call) (unfold read_result in refl)
