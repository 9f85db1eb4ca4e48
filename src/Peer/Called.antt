-- ===== src/Peer/Called.antt =====
-- `Call` from end to end, each of its transactions in one step of the server.
mod Tests
use xchg.Base.{
  ℕ, ◌+◌, ◌≤◌, ◌≡◌, ◌≢◌, refl, sym, ap, ◌∙◌, true, false, some, List, [], ◌++◌, length-append,
  arith, length, ==_ne, ◌==◌,
}
use xchg.Base.Words.{add64}
use xchg.Texts.{Outcome, done}
use xchg.Crypto.{Library, IsSound, IsGcm}
use xchg.Remote.{RemotePeer, max_transaction_size, build_frame, read_result, counted_frame}
use xchg.HttpServer.Requests.{Base64}
use xchg.Remote.KeyRequest.{request_key}
use xchg.Remote.Calls.{Execute, regular_call, auth, call_with_key, call}
use xchg.Peer.{Peer, Session, Param, Draws, on_edge_received_call, reply, seal_reply}
use xchg.Peer.RoundTrip.{
  IsShared, answer_of, asked, after, served, sealed, reply_sent, build_frame-eq, served_call,
  seal_reply-eq, read_plain,
}
use xchg.Peer.Direct.{World, answered, answered-eq, IsTaken, next_world, called, counted}
use xchg.Peer.Auth.{IsCommuting, CanMeet}
use xchg.Peer.Meeting.{Met, auth-meets}

-- `regularCall` in a session.
regular_call-session :
    (y : Library) (sound : IsSound y) (gcm : IsGcm y) (w : World) (c : RemotePeer) (s : Session)
    (id : ℕ) (shared : IsShared y c w.peer s id) (callback : Param → Outcome (List ℕ))
    (function bytes nonce : List ℕ)
    → c.session_id ≡ id
    → w.peer.callback ≡ some callback
    → length function ≤ 255
    → length nonce ≡ y.gcm_nonce_size
    → length (w.draws w.time).seal_nonce ≡ y.gcm_nonce_size
    → length (y.gzip (reply (callback (asked y sound c w.peer s id shared function bytes)))) + 28
      ≤ max_transaction_size + 1024
    → (c' : RemotePeer) × (w' : World) × (regular_call y
          (answered y)
          w
          c
          function
          bytes
          s.aes_key
          nonce
        ≡ some (answer_of (callback (asked y sound c w.peer s id shared function bytes)), c', w'))
unfolding regular_call
regular_call-session y sound gcm w c s id shared callback function bytes nonce same there short size
      size' small =
    let r : Draws = w.draws w.time in
    let c1 : RemotePeer = record c { session_nonce_counter = add64 c.session_nonce_counter 1 } in
    let answer = callback (asked y sound c w.peer s id shared function bytes) in
    let frame =
      sealed y sound c w.peer s id shared nonce
        (counted_frame c.session_nonce_counter function bytes) in
    let p' = after y sound c w.peer s id shared callback function bytes r there short in
    let response =
      seal_reply y (served y sound c w.peer s id shared r.now) r.seal_nonce (reply answer) in
    let packed = y.gzip (reply answer) in
    let seals : response ≡ r.seal_nonce ++ y.seal s.aes_key r.seal_nonce packed =
      seal_reply-eq y sound c w.peer s id shared callback function bytes r there short
        (reply answer) in
    let taken : IsTaken (length response) =
      let parts =
        ap length seals ∙ length-append r.seal_nonce (y.seal s.aes_key r.seal_nonce packed) in
      (
        omega (arith, parts, gcm.nonce_size, size'),
        omega (
          arith,
          parts,
          gcm.nonce_size,
          size',
          gcm.seal_size s.aes_key r.seal_nonce packed,
          small,
        ),
      ) in
    let built = build_frame-eq y sound c w.peer s id shared function bytes nonce short in
    let on_edge : on_edge_received_call y w.peer c.session_id frame c.public_key r
        ≡ some (record { response = response; dont_send_response = false }, p') =
      rw same (
        served_call y sound c w.peer s id shared callback function bytes r there short nonce
          c.public_key size) in
    let sent : answered y w c1 frame function s.aes_key
        ≡ some (done response, called c, next_world w p') =
      answered-eq y w c1 p' frame function s.aes_key response taken on_edge in
    let read : (read_result y (called c) (done response) true s.aes_key).0 ≡ answer_of answer =
      ap (λ t. (read_result y (called c) (done t) true s.aes_key).0)
        (seal_reply-eq y sound c w.peer s id shared callback function bytes r there short
          (reply answer))
      ∙ read_plain y sound c w.peer s id shared callback function bytes r there short (called c)
          answer size' in
    (
      (read_result y (called c) (done response) true s.aes_key).1,
      next_world w p',
      rw (built, built, sent, read, regular_call) refl,
    )

-- `Call` of a client that knows the server's key and authenticates.
call-joins :
    {X : Type 0} (y : Library) (execute : Execute X) (b : Base64)
    (post : X → List ℕ → List ℕ → Outcome (List ℕ) × X) (sleep : X → RemotePeer → RemotePeer × X)
    (w w1 : X) (c c1 : RemotePeer) (id : ℕ) (function bytes auth_nonce nonce : List ℕ)
    → length c.remote_transport_public_key ≢ 0
    → c.session_id ≡ 0
    → auth y execute w c auth_nonce ≡ some (done id, c1, w1)
    → call y execute b post sleep w c function bytes auth_nonce nonce
      ≡ regular_call y execute w1 c1 function bytes c1.aes_key nonce
unfolding call call_with_key request_key
call-joins y execute b post sleep w w1 c c1 id function bytes auth_nonce nonce known none_yet met =
    let zero_id : (c.session_id == 0) ≡ true = ap (λ n. n == 0) none_yet in
    let key = ==_ne (length c.remote_transport_public_key) 0 known in
    rw (key, key, zero_id, met, call, call_with_key) refl

-- A client without a session, and a server with a callback that accepts the client's
-- authentication, each with its pair of keys of X25519 and the client with the server's public one,
-- when each transaction is one step of the server (`answered`: a response that is empty or longer
-- than 1 MB and 1 KB is not taken): `Call` gets a nonce, authenticates, and returns what the callback
-- answers to the function and the parameter, asked with the client's address and the data of its
-- authentication; an error of the callback comes back as an error with its text. (The answer, packed,
-- leaves 28 bytes of 1 MB and 1 KB for a nonce of 12 and a tag of at most 16.)
pub call-answers :
    (y : Library) (sound : IsSound y) (gcm : IsGcm y) (commutes : IsCommuting y) (w : World)
    (c : RemotePeer) (key : List ℕ) (callback : Param → Outcome (List ℕ)) (x : List ℕ) (b : Base64)
    (post : World → List ℕ → List ℕ → Outcome (List ℕ) × World)
    (sleep : World → RemotePeer → RemotePeer × World) (function bytes auth_nonce nonce : List ℕ)
    → CanMeet y c w.peer key
    → c.session_id ≡ 0
    → c.auth_processing ≡ false
    → w.peer.callback ≡ some callback
    → callback (record {
      function = [];
      parameter = [];
      auth_data = c.auth_data;
      remote_address = c.public_key;
    })
      ≡ done x
    → ((t : ℕ) → length (w.draws t).seal_nonce ≡ y.gcm_nonce_size)
    → length function ≤ 255
    → length (
          y.gzip (
            reply (
              callback (record {
                function = function;
                parameter = bytes;
                auth_data = c.auth_data;
                remote_address = c.public_key;
              }))))
        + 28
      ≤ max_transaction_size + 1024
    → length auth_nonce ≡ y.gcm_nonce_size
    → length nonce ≡ y.gcm_nonce_size
    → (c' : RemotePeer) × (w' : World) × (call y
          (answered y)
          b
          post
          sleep
          w
          c
          function
          bytes
          auth_nonce
          nonce
        ≡ some (
          answer_of (
              callback (record {
                function = function;
                parameter = bytes;
                auth_data = c.auth_data;
                remote_address = c.public_key;
              })),
          c',
          w',
        ))
call-answers y sound gcm commutes w c key callback x b post sleep function bytes auth_nonce nonce
      meet none_yet free there accepted sizes short small size size' =
    let known : length c.remote_transport_public_key ≢ 0 =
      λ e. absurd (omega (arith, ap length meet.server_key, meet.server_size)) in
    let (c1, w1, met, m) =
      auth-meets y sound gcm commutes w c key meet none_yet callback x there accepted sizes
        auth_nonce size free in
    let ok : length (w1.draws w1.time).seal_nonce ≡ y.gcm_nonce_size =
      rw m.draws_kept (sizes w1.time) in
    let asks : asked y sound c1 w1.peer m.s w.peer.next_session_id m.shared function bytes
        ≡ record {
          function = function;
          parameter = bytes;
          auth_data = c.auth_data;
          remote_address = c.public_key;
        } =
      rw (m.auth_data, m.remote) refl in
    let (c2, w2, ok_call) =
      regular_call-session y sound gcm w1 c1 m.s w.peer.next_session_id m.shared callback function
        bytes nonce m.id m.callback_kept short size' ok (rw asks small) in
    let keyed : regular_call y (answered y) w1 c1 function bytes c1.aes_key nonce
        ≡ some (
          answer_of (
              callback
                (asked y sound c1 w1.peer m.s w.peer.next_session_id m.shared function bytes)),
          c2,
          w2,
        ) =
      ap (λ k. regular_call y (answered y) w1 c1 function bytes k nonce)
        (m.client_key ∙ sym m.server_key)
      ∙ ok_call in
    let asked_for : call y (answered y) b post sleep w c function bytes auth_nonce nonce
        ≡ regular_call y (answered y) w1 c1 function bytes c1.aes_key nonce =
      call-joins y (answered y) b post sleep w w1 c c1 w.peer.next_session_id function bytes
        auth_nonce nonce known none_yet met in
    (c2, w2, asked_for ∙ keyed ∙ ap (λ p. some (answer_of (callback p), c2, w2)) asks)
