-- ===== src/Peer.antt =====
-- xchg/peer_server.go and xchg/peer_processing.go: a peer as a server of calls, and
-- what it does with the frames that it receives. `none` is a panic, also of an index or a slice
-- behind the length of its array: each is tested again where the code reads.
pub mod Posting
pub mod Rounds
pub mod Relay
pub mod Clients
pub mod RoundTrip
pub mod Processing
pub mod KeyExchange
pub mod Replay
pub mod Sessions
pub mod Table
pub mod Purge
pub mod Serving
pub mod Direct
pub mod Auth
pub mod Meeting
pub mod Called
pub mod Lifecycle
pub mod Polling
pub mod Assembly
pub mod Delivered
pub mod Responses
pub mod Line
mod Tests
pub use xchg.Sessions.{
  Param, Session, Code, Peer, Draws, Reply, Served, internal_error, public_key_size,
}
unfoldable pub use xchg.Sessions.{
  prepare_response_error, prepare_response, add_session, check_auth, process_auth,
}
use xchg.Base.{
  ℕ, zero, suc, ◌+◌, Bool, true, false, Option, none, some, List, [], ◌∷◌, ◌++◌, ltb, ◌==◌, ◌&&◌,
  bytes_eq, if◌then◌else◌, length, get_or, take, drop, replicate, map,
}
use xchg.Base.Words.{add64}
use xchg.Bytes.{copy_at, put_uint64, uint64_at}
use xchg.Maps.{find, remove, store}
use xchg.Texts.{
  Outcome, done, failed, codes, err_srv_conn_wrong_session, err_srv_conn_decr, err_srv_conn_unpack,
  err_srv_conn_wrong_len9, err_srv_conn_wrong_nonce, err_srv_conn_wrong_len1,
  err_srv_conn_wrong_len_fn,
}
use xchg.Crypto.{Library, encrypt, decrypt, pack, unpack, get_shared_key}
use xchg.SnakeCounter.{SnakeCounter, new_snake_counter, test_and_declare}
use xchg.Nonces.{Nonces, next, check}
use xchg.Storage.{elapsed, seconds}
use xchg.Transaction.{
  Frame, Transaction, header_size, new_frame, new_transaction, parse, append_received_data,
}
use xchg.Transaction.Message.{message_blocks}
use xchg.Remote as Remote
use xchg.Remote.{RemotePeer, set_remote_transport_public_key}

-- What a call is cut into: the function's name and its parameter; an error; or a panic.
pub data Split : Type 0 where
  out_of_range too_short : Split
  parts : List ℕ → List ℕ → Split

unfoldable pub split_call : List ℕ → Split
split_call bytes =
    if ltb (length bytes) 1
    then out_of_range
    else (let n = get_or bytes 0 0 in
        if ltb (length bytes) (1 + n)
        then too_short
        else (if ltb (length bytes) (1 + n)
            then out_of_range
            else parts (take n (drop 1 bytes)) (drop (1 + n) bytes)))

unfoldable pub reply_error : Peer → List ℕ → Served
unfolding prepare_response_error
reply_error c err =
    some (record { response = prepare_response_error err; dont_send_response = false }, c)

unfoldable pub reply : Outcome (List ℕ) → List ℕ
unfolding prepare_response_error prepare_response
reply (failed e) = prepare_response_error e
reply (done bytes) = prepare_response bytes

-- A call without a session, of a function by its name. An error of `processAuth` leaves the
-- response nil.
unfoldable pub open_call : Library → Peer → List ℕ → List ℕ → List ℕ → Draws → Served
unfolding process_auth prepare_response
open_call y c function parameter remote r =
    if bytes_eq function (codes "/xchg-get-nonce")
    then elim (next c.auth_nonces r.nonce_bytes) [
      | none ↦ none
      | some (nonce, nonces) ↦ some (
        record { response = prepare_response nonce; dont_send_response = false },
        record c { auth_nonces = nonces },
      )
    ]
    else (if bytes_eq function (codes "/xchg-auth")
        then elim (process_auth y c parameter remote r) [
          | none ↦ none
          | some (failed e, c') ↦
              some (record { response = []; dont_send_response = bytes_eq e internal_error }, c')
          | some (done resp, c') ↦
              some (record { response = prepare_response resp; dont_send_response = false }, c')
        ]
        else some (record { response = prepare_response []; dont_send_response = false }, c))

-- The answer in a session. If it cannot be encrypted it is nil.
unfoldable pub seal_reply : Library → Session → List ℕ → List ℕ → List ℕ
seal_reply y s nonce response = elim (encrypt y nonce (pack y response) s.aes_key) [
  | failed e ↦ []
  | done sealed ↦ sealed
]

-- A call in a session, from the function's name on.
unfoldable pub session_call : Library → Peer → Session → List ℕ → Draws → Served
unfolding split_call reply_error reply seal_reply
session_call y c s bytes r = elim (split_call bytes) [
  | out_of_range ↦ none
  | too_short ↦ reply_error c err_srv_conn_wrong_len_fn
  | parts function parameter ↦ elim c.callback [
    | none ↦ none
    | some callback ↦
        let answer = callback (record {
          function = function;
          parameter = parameter;
          auth_data = s.auth_data;
          remote_address = s.remote_real_public_key;
        }) in
        some (
          record {
            response = seal_reply y s r.seal_nonce (reply answer);
            dont_send_response = false;
          },
          c,
        )
  ]
]

-- What `onEdgeReceivedCall` does with the decrypted data of a session: the counter, the time.
unfoldable pub count_call : Library → Peer → ℕ → Session → List ℕ → Draws → Served
unfolding session_call reply_error prepare_response_error
count_call y c id s bytes r =
    if ltb (length bytes) 9
    then reply_error c err_srv_conn_wrong_len9
    else (if ltb (length bytes) 8
        then none
        else (let (counter, err) = test_and_declare s.snake_counter (uint64_at bytes 0) in
            let s' = record s { snake_counter = counter } in
            let s'' = record s' { last_access = r.now } in
            elim err [
              | some e ↦ some (
                record {
                  response = prepare_response_error err_srv_conn_wrong_nonce;
                  dont_send_response = true;
                },
                record c { sessions_by_id = store id s' c.sessions_by_id },
              )
              | none ↦
                  session_call y (record c { sessions_by_id = store id s'' c.sessions_by_id }) s''
                    (drop 8 bytes) r
            ]))

-- `onEdgeReceivedCall`, in a session.
unfoldable pub call_in_session : Library → Peer → ℕ → List ℕ → Draws → Served
unfolding count_call reply_error
call_in_session y c id bytes r = elim (find id c.sessions_by_id) [
  | none ↦ reply_error c err_srv_conn_wrong_session
  | some s ↦ elim (decrypt y bytes s.aes_key) [
    | failed e ↦ reply_error c (err_srv_conn_decr ++ codes ":" ++ e)
    | done packed ↦ elim (unpack y packed) [
      | failed e ↦ reply_error c (err_srv_conn_unpack ++ codes ":" ++ e)
      | done plain ↦ count_call y c id s plain r
    ]
  ]
]

-- `onEdgeReceivedCall`.
unfoldable pub on_edge_received_call : Library → Peer → ℕ → List ℕ → List ℕ → Draws → Served
unfolding call_in_session open_call split_call reply_error
on_edge_received_call y c session_id bytes remote r =
    if session_id == 0
    then (if ltb (length bytes) 1
        then reply_error c err_srv_conn_wrong_len1
        else elim (split_call bytes) [
          | out_of_range ↦ none
          | too_short ↦ reply_error c err_srv_conn_wrong_len_fn
          | parts function parameter ↦ open_call y c function parameter remote r
        ])
    else call_in_session y c session_id bytes r

-- The loop of `purgeSessions`.
unfoldable pub recent_sessions : ℕ → List (ℕ × Session) → List (ℕ × Session)
recent_sessions now [] = []
recent_sessions now ((id, s) ∷ m) =
    if ltb (seconds 60) (elapsed now s.last_access)
    then recent_sessions now m
    else (id, s) ∷ recent_sessions now m

-- `purgeSessions`; `later` is the second reading of the clock.
unfoldable pub purge_sessions : Peer → ℕ → ℕ → Peer
unfolding recent_sessions
purge_sessions c now later =
    if ltb (seconds 60) (elapsed now c.last_purge_sessions_time)
    then record c {
      sessions_by_id = recent_sessions now c.sessions_by_id;
      last_purge_sessions_time = later;
    }
    else c
