-- ===== src/Peer/Tests.antt =====
-- The theorems at concrete inputs, with ciphers that leave the text as it is.
use xchg.Base.{ℕ, ◌≡◌, refl, true, false, some, List, [], ◌∷◌, ◌==◌, arith, length, replicate}
use xchg.Texts.{Outcome, done, codes}
use xchg.Crypto.{Library, IsSound}
use xchg.SnakeCounter.{new_snake_counter, test_and_declare}
use xchg.Nonces.{new_nonces}
use xchg.Remote.{RemotePeer, build_frame, read_result}
use xchg.Peer.{Peer, Session, Param, Draws, Reply, on_edge_received_call}
use xchg.Base.{if◌then◌else◌}
use xchg.Transaction.{marshal}
use xchg.Remote.{set_remote_transport_public_key}
use xchg.Peer.Processing.{process_frame_get_public_key_response, public_key_frame}
use xchg.Peer.KeyExchange.{change_first, public_key_learnt}
use xchg.Texts.{failed}
use xchg.Maps.{find}
use xchg.Crypto.{decrypt}
use xchg.Nonces.Table as Table
use xchg.Nonces.Fill.{new_nonces-IsValid}
use xchg.Peer.{check_auth, internal_error}
use xchg.Peer.Sessions.{auth_once}
use xchg.Peer.Replay.{refusal, replayed_call}
use xchg.SnakeCounter.Replay.{new_window, new-Refines}
use xchg.Peer.RoundTrip.{IsShared, answer_of, asked, call_in_session-answers}

abbrev clear_text : Library
clear_text = record {
  key_ok = λ key. length key == 32;
  key_error = λ key. codes "invalid key size";
  gcm_nonce_size = 12;
  seal = λ key nonce text. text;
  unseal = λ key nonce text. done text;
  gzip = λ bytes. bytes;
  gunzip = λ bytes. done bytes;
  x25519 = λ private public. some private;
  sign = λ private message. replicate 64 0;
  verify = λ public message signature. true;
}

clear_text-IsSound : IsSound clear_text
clear_text-IsSound = record {
  unseal-seal = λ key nonce text ok size. refl;
  gunzip-gzip = λ bytes. refl;
}

abbrev key : List ℕ
key = replicate 32 9

abbrev client : RemotePeer
client = record {
  remote_address = replicate 32 2;
  auth_data = [];
  transport_private_key = key;
  transport_public_key = key;
  private_key = replicate 64 1;
  public_key = replicate 32 1;
  remote_transport_public_key = key;
  auth_processing = false;
  aes_key = key;
  session_id = 1;
  session_nonce_counter = 2;
  outgoing_transactions = [];
  next_transaction_id = 5;
}

abbrev session : Session
session = record {
  id = 1;
  aes_key = key;
  auth_data = [];
  remote_real_public_key = replicate 32 1;
  last_access = 0;
  snake_counter = new_snake_counter 100 0;
}

-- A callback that returns the parameter.
abbrev echo : Param → Outcome (List ℕ)
echo p = done p.parameter

abbrev server : Peer
server = record {
  private_key = replicate 64 2;
  public_key = replicate 32 2;
  transport_private_key = key;
  transport_public_key = key;
  local_address = replicate 32 2;
  remote_peers = client ∷ [];
  incoming_transactions = [];
  sessions_by_id = (1, session) ∷ [];
  auth_nonces = new_nonces 3 (λ i. replicate 11 i);
  next_session_id = 2;
  callback = some echo;
  last_purge_sessions_time = 0;
}

abbrev draws : Draws
draws = record { now = 7; nonce_bytes = replicate 11 8; seal_nonce = replicate 12 3 }

session-IsShared : IsShared clear_text client server session 1
unfolding xchg.Maps.find test_and_declare new_snake_counter
session-IsShared = record {
  some_id = omega arith;
  known = refl;
  key_size = refl;
  key_ok = refl;
  private_key = omega arith;
  word = omega arith;
  fresh = refl;
}

call_in_session-answers_example :
    (frame : List ℕ) × (c' : RemotePeer) × (sent : Reply) × (p' : Peer) × (build_frame clear_text
        client
        (codes "hello")
        (1 ∷ 2 ∷ [])
        key
        (replicate 12 4)
      ≡ (done (frame, true), c'))
    × (on_edge_received_call clear_text server 1 frame [] draws ≡ some (sent, p'))
    × (sent.dont_send_response ≡ false)
    × ((read_result clear_text c' (done sent.response) true key).0
        ≡ answer_of (
            echo (
              asked clear_text clear_text-IsSound client server session 1 session-IsShared
                (codes "hello")
                (1 ∷ 2 ∷ []))))
call_in_session-answers_example =
    call_in_session-answers clear_text clear_text-IsSound client server session 1 session-IsShared
      echo (codes "hello") (1 ∷ 2 ∷ []) draws refl (omega arith) (replicate 12 4) [] refl refl

replayed_call_example :
    (message : List ℕ) × (c' : RemotePeer) × (sent : Reply) × (p1 p2 : Peer) × (build_frame
        clear_text client
        (codes "hello")
        (1 ∷ 2 ∷ [])
        key
        (replicate 12 4)
      ≡ (done (message, true), c'))
    × (on_edge_received_call clear_text server 1 message [] draws ≡ some (sent, p1))
    × (sent.dont_send_response ≡ false)
    × (on_edge_received_call clear_text p1 1 message [] draws ≡ some (refusal, p2))
replayed_call_example =
    replayed_call clear_text clear_text-IsSound client server session 1 session-IsShared echo
      (codes "hello") (1 ∷ 2 ∷ []) draws refl (omega arith) (new_window 100 0) (replicate 12 4) []
      [] draws (new-Refines 100 0 (omega arith) (omega arith) (omega arith)) refl

public_key_learnt_example :
    process_frame_get_public_key_response clear_text server
      (marshal (public_key_frame clear_text server (replicate 32 1)))
    ≡ some (
        if clear_text.verify server.local_address server.transport_public_key
          (clear_text.sign server.private_key server.transport_public_key)
        then record server {
          remote_peers =
              change_first server.local_address
                (λ p. set_remote_transport_public_key p server.transport_public_key)
                server.remote_peers;
        }
        else server)
public_key_learnt_example =
    public_key_learnt clear_text server (replicate 32 1) refl refl refl server

abbrev zeros : List ℕ
zeros = replicate 16 0

auth_run :
    (resp : List ℕ) × (c1 : Peer) × (check_auth clear_text server key zeros [] draws
      ≡ some (done resp, c1))
unfolding check_auth xchg.Nonces.check new_nonces xchg.Bytes.uint32_at xchg.Bytes.le_value
    xchg.Bytes.copy_at xchg.Bytes.put_uint32 xchg.Bytes.le_bytes xchg.Crypto.encrypt
auth_run = (_, _, refl)

server_nonces-IsValid : Table.IsValid server.auth_nonces
server_nonces-IsValid = (new_nonces-IsValid 3 (λ i. replicate 11 i) (omega arith) (omega arith)).0

auth_once_example :
    (c2 : Peer) × (check_auth clear_text auth_run.1 key zeros [] draws
      ≡ some (failed internal_error, c2))
    × (c2.sessions_by_id ≡ auth_run.1.sessions_by_id)
auth_once_example =
    auth_once clear_text server auth_run.1 key zeros [] [] auth_run.0 draws draws
      server_nonces-IsValid refl (λ e. cc e) auth_run.2
