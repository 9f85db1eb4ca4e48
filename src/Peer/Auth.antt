-- ===== src/Peer/Auth.antt =====
-- A client that begins a session with a server: the nonce, the keys, the id of the session.
use xchg.Base.{
  ℕ, ◌+◌, ◌^◌, ◌<◌, ◌≡◌, ◌≢◌, refl, ap, ◌∙◌, inl, inr, true, false, none, some, List, [], ◌∷◌, ◌++◌,
  arith, length, length-append, take, drop, bytes_eq, le→not-ltb, ==_ne, take-length-append,
  drop-length-append, Option-cases,
}
use xchg.Base.Words.{half_mod, add64}
use mathlib.Core.List.{append-nil}
use xchg.Bytes.{le_bytes, length-le_bytes, uint64-le_bytes, uint64_at, put_uint64, copy_next}
use xchg.Maps.{store}
use xchg.Texts.{Outcome, done, codes}
use xchg.Crypto.{Library, IsSound, encrypt, decrypt, get_shared_key, decrypt-encrypt}
use xchg.Keys.{basepoint}
use xchg.SnakeCounter.{new_snake_counter, test_and_declare}
use xchg.SnakeCounter.Window.{is_fresh, contains}
use xchg.SnakeCounter.Refine.{is_nil, test_and_declare_refines}
use xchg.SnakeCounter.Replay.{new_window, new-Refines}
use xchg.Nonces.{Nonces, check, next}
use xchg.Nonces.Table as Entries
use xchg.Remote.{RemotePeer, build_auth, end_auth}
use xchg.Peer.{
  Peer, Session, Param, Draws, open_call, process_auth, check_auth, add_session, prepare_response,
  public_key_size,
}

-- What is relied on of X25519: two parties get the same key, each from its own private key and the
-- other's public one.
abbrev pub IsCommuting : Library → Type 0
IsCommuting y =
    (a b A B : List ℕ)
    → y.x25519 a basepoint ≡ some A
    → y.x25519 b basepoint ≡ some B
    → y.x25519 a B ≡ y.x25519 b A

-- A counter above that of a new session is accepted.
pub new-accepts :
    (n : ℕ) → 0 < n → n < half_mod → (test_and_declare (new_snake_counter 100 0) n).1 ≡ none
new-accepts n pos small =
    let r = new-Refines 100 0 (omega arith) (omega arith) (omega arith) in
    let fresh : is_fresh (new_window 100 0) n ≡ true = unfold is_fresh contains in ground arith in
    let nil : is_nil (test_and_declare (new_snake_counter 100 0) n).1 ≡ true =
      (test_and_declare_refines (new_snake_counter 100 0) (new_window 100 0) r n (omega arith)).1
      ∙ fresh in
    elim (Option-cases (test_and_declare (new_snake_counter 100 0) n).1) [
      | inl e ↦ e
      | inr (x, e) ↦ absurd (cc (ap is_nil e, nil))
    ]

put_id : (id : ℕ) → put_uint64 (0 ∷ 0 ∷ 0 ∷ 0 ∷ 0 ∷ 0 ∷ 0 ∷ 0 ∷ []) 0 id ≡ le_bytes 8 id
unfolding put_uint64
put_id id =
    copy_next [] (le_bytes 8 id) 0 8 0 refl (omega (arith, length-le_bytes 8 id))
    ∙ append-nil (le_bytes 8 id)

id_back : (id : ℕ) → id < 2 ^ 64 → uint64_at (le_bytes 8 id) 0 ≡ id
unfolding uint64_at le_bytes
id_back id h = uint64-le_bytes id h

shared_key :
    (y : Library) (private_key public_key key : List ℕ)
    → y.x25519 private_key public_key ≡ some key
    → get_shared_key y private_key public_key ≡ key
unfolding get_shared_key
shared_key y private_key public_key key e = rw (e, get_shared_key) refl

-- What a client and a server have before a session: each its pair of keys, the client the server's
-- public key, and both a key that they share.
pub record CanMeet (y : Library) (c : RemotePeer) (p : Peer) (key : List ℕ) : Type 0 where
  pub server_key : c.remote_transport_public_key ≡ p.transport_public_key
  pub server_pair : y.x25519 p.transport_private_key basepoint ≡ some p.transport_public_key
  pub client_pair : y.x25519 c.transport_private_key basepoint ≡ some c.transport_public_key
  pub shared : y.x25519 c.transport_private_key p.transport_public_key ≡ some key
  pub key_size : length key ≡ 32
  pub key_ok : y.key_ok key ≡ true
  pub client_size : length c.transport_public_key ≡ 32
  pub server_size : length p.transport_public_key ≡ 32
  pub private_key : length c.private_key ≢ 0
  pub nonces : Entries.IsValid p.auth_nonces
  pub next : 0 < p.next_session_id
  pub room : p.next_session_id < 2 ^ 64
  pub counter : c.session_nonce_counter + 2 < half_mod

module _ (y : Library) (sound : IsSound y) (c : RemotePeer) (p : Peer) (key nonce : List ℕ)
    (key_ok : y.key_ok key ≡ true) (nonce_size : length nonce ≡ 16) where
  abbrev pub secret : List ℕ → List ℕ
  secret seal_nonce =
      c.transport_public_key ++ (seal_nonce ++ y.seal key seal_nonce (nonce ++ c.auth_data))

  pub build_auth-eq :
      (seal_nonce : List ℕ)
      → length c.private_key ≢ 0
      → length c.remote_transport_public_key ≢ 0
      → y.x25519 c.transport_private_key c.remote_transport_public_key ≡ some key
      → build_auth y c nonce seal_nonce ≡ (done (secret seal_nonce), record c { aes_key = key })
  unfolding build_auth encrypt
  build_auth-eq seal_nonce private known shared =
      rw
        (
          nonce_size,
          ==_ne (length c.private_key) 0 private,
          ==_ne (length c.remote_transport_public_key) 0 known,
          shared_key y c.transport_private_key c.remote_transport_public_key key shared,
          key_ok,
          shared_key y c.transport_private_key c.remote_transport_public_key key shared,
        )
        refl

  -- The session that the server enters.
  abbrev pub session : List ℕ → Draws → Session
  session remote r = record {
    id = p.next_session_id;
    aes_key = key;
    auth_data = c.auth_data;
    remote_real_public_key = remote;
    last_access = r.now;
    snake_counter = new_snake_counter 100 0;
  }

  abbrev pub entered : List ℕ → Draws → Peer
  entered remote r = record p {
    auth_nonces = (check p.auth_nonces nonce r.nonce_bytes).1;
    next_session_id = add64 p.next_session_id 1;
    sessions_by_id = store p.next_session_id (session remote r) p.sessions_by_id;
  }

  abbrev pub sealed_id : Draws → List ℕ
  sealed_id r = r.seal_nonce ++ y.seal key r.seal_nonce (le_bytes 8 p.next_session_id)

  module _ (callback : Param → Outcome (List ℕ)) (x remote : List ℕ) (r : Draws)
      (there : p.callback ≡ some callback)
      (accepted : callback (record {
        function = [];
        parameter = [];
        auth_data = c.auth_data;
        remote_address = remote;
      })
        ≡ done x)
      (issued : (check p.auth_nonces nonce r.nonce_bytes).0 ≡ true) where
    check_auth-eq :
        check_auth y p key (nonce ++ c.auth_data) remote r
        ≡ some (done (sealed_id r), entered remote r)
    unfolding check_auth add_session encrypt
    check_auth-eq =
        let e : take 16 (nonce ++ c.auth_data) ≡ nonce =
          rw (← nonce_size) (take-length-append nonce c.auth_data) in
        let d : drop 16 (nonce ++ c.auth_data) ≡ c.auth_data =
          rw (← nonce_size) (drop-length-append nonce c.auth_data) in
        rw
          (
            le→not-ltb (length (nonce ++ c.auth_data)) 16
                (omega (arith, length-append nonce c.auth_data)),
            e,
            issued,
          )
          (simp (there, d, e, accepted, key_ok, put_id p.next_session_id) refl)

    pub process_auth-eq :
        (seal_nonce : List ℕ)
        → length c.transport_public_key ≡ 32
        → length seal_nonce ≡ y.gcm_nonce_size
        → y.x25519 p.transport_private_key c.transport_public_key ≡ some key
        → process_auth y p (secret seal_nonce) remote r
          ≡ some (done (sealed_id r), entered remote r)
    unfolding process_auth
    process_auth-eq seal_nonce size nonce_ok shared =
        let sealed : List ℕ = seal_nonce ++ y.seal key seal_nonce (nonce ++ c.auth_data) in
        let e : take public_key_size (secret seal_nonce) ≡ c.transport_public_key =
          rw (← size) (take-length-append c.transport_public_key sealed) in
        let key_eq : get_shared_key y p.transport_private_key
              (take public_key_size (secret seal_nonce))
            ≡ key =
          ap (get_shared_key y p.transport_private_key) e
          ∙ shared_key y p.transport_private_key c.transport_public_key key shared in
        let d : drop 32 (secret seal_nonce) ≡ sealed =
          rw (← size) (drop-length-append c.transport_public_key sealed) in
        rw
          (
            le→not-ltb (length (secret seal_nonce)) 32
                (omega (arith, length-append c.transport_public_key sealed)),
            key_eq,
            d,
            decrypt-encrypt y sound seal_nonce (nonce ++ c.auth_data) key key_ok nonce_ok,
          )
          (ap (λ k. check_auth y p k (nonce ++ c.auth_data) remote r) key_eq ∙ check_auth-eq)

  pub end_auth-eq :
      (c' : RemotePeer) (r : Draws)
      → c'.aes_key ≡ key
      → length r.seal_nonce ≡ y.gcm_nonce_size
      → p.next_session_id < 2 ^ 64
      → end_auth y c' (sealed_id r)
        ≡ (done p.next_session_id, record c' { session_id = p.next_session_id })
  unfolding end_auth
  end_auth-eq c' r same size room =
      let opened : decrypt y (sealed_id r) c'.aes_key ≡ done (le_bytes 8 p.next_session_id) =
        rw same
          (decrypt-encrypt y sound r.seal_nonce (le_bytes 8 p.next_session_id) key key_ok size) in
      rw (opened, length-le_bytes 8 p.next_session_id, id_back p.next_session_id room, end_auth)
        refl

-- The two calls outside a session, as the server answers them.
pub open_call-nonce :
    (y : Library) (p : Peer) (bytes remote nonce : List ℕ) (t : Nonces) (r : Draws)
    → next p.auth_nonces r.nonce_bytes ≡ some (nonce, t)
    → open_call y p (codes "/xchg-get-nonce") bytes remote r
      ≡ some (
        record { response = prepare_response nonce; dont_send_response = false },
        record p { auth_nonces = t },
      )
unfolding open_call bytes_eq
open_call-nonce y p bytes remote nonce t r e = rw (e, open_call) refl

pub open_call-auth :
    (y : Library) (p p' : Peer) (bytes remote resp : List ℕ) (r : Draws)
    → process_auth y p bytes remote r ≡ some (done resp, p')
    → open_call y p (codes "/xchg-auth") bytes remote r
      ≡ some (record { response = prepare_response resp; dont_send_response = false }, p')
unfolding open_call bytes_eq
open_call-auth y p p' bytes remote resp r e = rw (e, open_call) refl
