-- ===== src/Sessions.antt =====
-- xchg/peer.go and xchg/peer_server.go: the state of a peer, its sessions, and `processAuth`, by
-- which a session begins. `none` is a panic.
use xchg.Base.{
  ℕ, ◌+◌, Bool, Option, none, some, List, [], ◌∷◌, ltb, if◌then◌else◌, length, take, drop,
  replicate,
}
use xchg.Base.Words.{add64}
use xchg.Bytes.{copy_at, put_uint64}
use xchg.Maps.{store}
use xchg.Texts.{Outcome, done, failed, codes}
use xchg.Crypto.{Library, encrypt, decrypt, get_shared_key}
use xchg.SnakeCounter.{SnakeCounter, new_snake_counter}
use xchg.Nonces.{Nonces, check}
use xchg.Transaction.{Transaction}
use xchg.Remote.{RemotePeer}

-- `Param`, without the peer itself.
pub record Param : Type 0 where
  pub function : List ℕ
  pub parameter : List ℕ
  pub auth_data : List ℕ
  pub remote_address : List ℕ

pub record Session : Type 0 where
  pub id : ℕ
  pub aes_key : List ℕ
  pub auth_data : List ℕ
  pub remote_real_public_key : List ℕ
  pub last_access : ℕ
  pub snake_counter : SnakeCounter

-- The key of an incoming transaction: the code joins the source address and the id to a text.
pub record Code : Type 0 where
  pub address : List ℕ
  pub id : ℕ

-- `Peer`, without its clients of HTTP and its logger. `callback` is `none` where it is nil; the
-- user's code is a function of its parameter.
pub record Peer : Type 0 where
  pub private_key : List ℕ
  pub public_key : List ℕ
  pub transport_private_key : List ℕ
  pub transport_public_key : List ℕ
  pub local_address : List ℕ
  pub remote_peers : List RemotePeer
  pub incoming_transactions : List (Code × Transaction)
  pub sessions_by_id : List (ℕ × Session)
  pub auth_nonces : Nonces
  pub next_session_id : ℕ
  pub callback : Option (Param → Outcome (List ℕ))
  pub last_purge_sessions_time : ℕ

-- What one call reads from the clock and from the source of random bytes.
pub record Draws : Type 0 where
  pub now : ℕ
  pub nonce_bytes : List ℕ
  pub seal_nonce : List ℕ

-- The results of `onEdgeReceivedCall`.
pub record Reply : Type 0 where
  pub response : List ℕ
  pub dont_send_response : Bool

abbrev pub Served : Type 0
Served = Option (Reply × Peer)

-- `INTERNAL_ERROR`.
abbrev pub internal_error : List ℕ
internal_error = codes "#internal_error#"

-- `XchgPublicKeySize`.
abbrev pub public_key_size : ℕ
public_key_size = 32

unfoldable pub prepare_response_error : List ℕ → List ℕ
prepare_response_error err = copy_at (copy_at (replicate (1 + length err) 0) 0 (1 ∷ [])) 1 err

unfoldable pub prepare_response : List ℕ → List ℕ
prepare_response bytes = copy_at (copy_at (replicate (1 + length bytes) 0) 0 (0 ∷ [])) 1 bytes

-- The part of a `processAuth` that succeeds, which enters the session.
unfoldable pub add_session :
    Library → Peer → List ℕ → List ℕ → List ℕ → Draws → Outcome (List ℕ) × Peer
add_session y c aes_key auth_data remote r =
    let id = c.next_session_id in
    let session : Session = record {
      id = id;
      aes_key = aes_key;
      auth_data = auth_data;
      remote_real_public_key = remote;
      last_access = r.now;
      snake_counter = new_snake_counter 100 0;
    } in
    (
      encrypt y r.seal_nonce (put_uint64 (replicate 8 0) 0 id) aes_key,
      record c { next_session_id = add64 id 1; sessions_by_id = store id session c.sessions_by_id },
    )

-- `processAuth`, from the decrypted parameter on.
unfoldable pub check_auth :
    Library → Peer → List ℕ → List ℕ → List ℕ → Draws → Option (Outcome (List ℕ) × Peer)
unfolding add_session
check_auth y c aes_key parameter remote r =
    if ltb (length parameter) 16
    then some (failed internal_error, c)
    else (if ltb (length parameter) 16
        then none
        else (let (ok, nonces) = check c.auth_nonces (take 16 parameter) r.nonce_bytes in
            let c' = record c { auth_nonces = nonces } in
            let auth_data = drop 16 parameter in
            let p : Param = record {
              function = [];
              parameter = [];
              auth_data = auth_data;
              remote_address = remote;
            } in
            if ok
            then elim c.callback [
              | none ↦ none
              | some callback ↦ elim (callback p) [
                | failed e ↦ some (failed e, c')
                | done x ↦ some (add_session y c' aes_key auth_data remote r)
              ]
            ]
            else some (failed internal_error, c')))

-- `processAuth`.
unfoldable pub process_auth :
    Library → Peer → List ℕ → List ℕ → Draws → Option (Outcome (List ℕ) × Peer)
unfolding check_auth
process_auth y c parameter remote r =
    if ltb (length parameter) public_key_size
    then some (failed internal_error, c)
    else (if ltb (length parameter) public_key_size
        then none
        else (let aes_key =
              get_shared_key y c.transport_private_key (take public_key_size parameter) in
            elim (decrypt y (drop public_key_size parameter) aes_key) [
              | failed e ↦ some (failed internal_error, c)
              | done secret ↦ check_auth y c aes_key secret remote r
            ]))
