-- ===== src/Peer/Meeting.antt =====
-- `auth` and `Call` of a client whose messages reach the server.
use xchg.Base.{
  ℕ, ◌<◌, length-append, ◌+◌, ◌≡◌, ◌≢◌, refl, ap, ◌∙◌, true, false, some, List, [], arith, length,
}
use xchg.Maps.{store, find-store_self}
use xchg.Texts.{Outcome, done, codes}
use xchg.Bytes.{le_bytes, length-le_bytes}
use xchg.Crypto.{Library, IsSound, IsGcm}
use xchg.Nonces.{Nonces, check}
use xchg.Nonces.Issue.{next-accepted}
use xchg.Remote.{RemotePeer, max_transaction_size, build_auth, end_auth}
use xchg.Remote.Calls.{regular_call, present, auth_body, auth}
use xchg.Peer.{Peer, Session, Param, Draws}
use xchg.Peer.RoundTrip.{IsShared}
use xchg.Peer.Direct.{World, answered, next_world, called, regular_call-open}
use xchg.Peer.Auth.{
  IsCommuting, CanMeet, new-accepts, secret, session, entered, sealed_id, build_auth-eq,
  process_auth-eq, end_auth-eq, open_call-nonce, open_call-auth,
}

module _ (y : Library) (sound : IsSound y) (gcm : IsGcm y) (commutes : IsCommuting y) (w : World)
    (c : RemotePeer) (key : List ℕ) (meet : CanMeet y c w.peer key) (none_yet : c.session_id ≡ 0)
    (callback : Param → Outcome (List ℕ)) (x : List ℕ) (there : w.peer.callback ≡ some callback)
    (accepted : callback (record {
      function = [];
      parameter = [];
      auth_data = c.auth_data;
      remote_address = c.public_key;
    })
      ≡ done x)
    (sizes : (t : ℕ) → length (w.draws t).seal_nonce ≡ y.gcm_nonce_size) where
  -- The client and the server after `auth`: the session is shared.
  pub record Met (c' : RemotePeer) (w' : World) : Type 0 where
    pub s : Session
    pub shared : IsShared y c' w'.peer s w.peer.next_session_id
    pub server_key : s.aes_key ≡ key
    pub client_key : c'.aes_key ≡ key
    pub id : c'.session_id ≡ w.peer.next_session_id
    pub auth_data : s.auth_data ≡ c.auth_data
    pub remote : s.remote_real_public_key ≡ c.public_key
    pub callback_kept : w'.peer.callback ≡ some callback
    pub draws_kept : w'.draws ≡ w.draws

  abbrev asking : RemotePeer
  asking = called (record c { auth_processing = true })

  -- From the nonce on.
  module _ (nonce seal_nonce : List ℕ) (t : Nonces) (nonce_size : length nonce ≡ 16)
      (fresh : (check t nonce (w.draws (w.time + 1)).nonce_bytes).0 ≡ true)
      (size : length seal_nonce ≡ y.gcm_nonce_size) where
    abbrev p1 : Peer
    p1 = record w.peer { auth_nonces = t }

    abbrev w1 : World
    w1 = next_world w p1

    abbrev r1 : Draws
    r1 = w.draws (w.time + 1)

    abbrev keyed : RemotePeer
    keyed = record asking { aes_key = key }

    abbrev frame : List ℕ
    frame = secret y sound asking p1 key nonce meet.key_ok nonce_size seal_nonce

    abbrev resp : List ℕ
    resp = sealed_id y sound asking p1 key nonce meet.key_ok nonce_size r1

    abbrev p2 : Peer
    p2 = entered y sound asking p1 key nonce meet.key_ok nonce_size c.public_key r1

    abbrev w2 : World
    w2 = next_world w1 p2

    abbrev joined : RemotePeer
    joined = record (called keyed) { session_id = w.peer.next_session_id }

    same_key : y.x25519 w.peer.transport_private_key c.transport_public_key ≡ some key
    same_key =
        commutes w.peer.transport_private_key c.transport_private_key w.peer.transport_public_key
          c.transport_public_key meet.server_pair meet.client_pair
        ∙ meet.shared

    resp_small : length resp < max_transaction_size + 1024
    resp_small = omega (
      arith,
      length-append r1.seal_nonce (y.seal key r1.seal_nonce (le_bytes 8 w.peer.next_session_id)),
      gcm.seal_size key r1.seal_nonce (le_bytes 8 w.peer.next_session_id),
      length-le_bytes 8 w.peer.next_session_id,
      sizes (w.time + 1),
      gcm.nonce_size,
    )

    present-eq :
        present y (answered y) w1 asking nonce seal_nonce
        ≡ some (done w.peer.next_session_id, joined, w2)
    unfolding present
    present-eq =
        let known : length c.remote_transport_public_key ≢ 0 =
          λ e. absurd (omega (arith, ap length meet.server_key, meet.server_size)) in
        let shared : y.x25519 c.transport_private_key c.remote_transport_public_key ≡ some key =
          ap (y.x25519 c.transport_private_key) meet.server_key ∙ meet.shared in
        let built : build_auth y asking nonce seal_nonce ≡ (done frame, keyed) =
          build_auth-eq y sound asking p1 key nonce meet.key_ok nonce_size seal_nonce
            meet.private_key known shared in
        let served =
          process_auth-eq y sound asking p1 key nonce meet.key_ok nonce_size callback x c.public_key
            r1 there accepted fresh seal_nonce meet.client_size size same_key in
        let let_in : regular_call y (answered y) w1 keyed (codes "/xchg-auth") frame [] []
            ≡ some (done resp, called keyed, w2) =
          regular_call-open y w1 keyed (codes "/xchg-auth") frame [] resp p2 none_yet
            meet.private_key (omega arith) resp_small
            (open_call-auth y p1 p2 frame c.public_key resp r1 served) in
        let ended : end_auth y (called keyed) resp ≡ (done w.peer.next_session_id, joined) =
          end_auth-eq y sound asking p1 key nonce meet.key_ok nonce_size (called keyed) r1 refl
            (sizes (w.time + 1)) meet.room in
        rw (built, built, let_in, ended, present) refl

    joined-Met : Met (record joined { auth_processing = false }) w2
    unfolding store
    joined-Met = record {
      s = session y sound asking p1 key nonce meet.key_ok nonce_size c.public_key r1;
      shared = record {
        some_id = λ e. absurd (omega (arith, meet.next));
        known = find-store_self w.peer.next_session_id _ w.peer.sessions_by_id;
        key_size = meet.key_size;
        key_ok = meet.key_ok;
        private_key = meet.private_key;
        word = omega (arith, meet.counter);
        fresh = new-accepts _ (omega (arith, meet.counter)) (omega (arith, meet.counter));
      };
      server_key = refl;
      client_key = refl;
      id = refl;
      auth_data = refl;
      remote = refl;
      callback_kept = there;
      draws_kept = refl;
    }

  -- `auth` succeeds.
  pub auth-meets :
      (seal_nonce : List ℕ)
      → length seal_nonce ≡ y.gcm_nonce_size
      → c.auth_processing ≡ false
      → (c' : RemotePeer) × (w' : World) × (auth y (answered y) w c seal_nonce
          ≡ some (done w.peer.next_session_id, c', w'))
        × Met c' w'
  unfolding auth auth_body
  auth-meets seal_nonce size free =
      let (nonce, t, given, nonce_size, fresh) =
        next-accepted w.peer.auth_nonces (w.draws w.time).nonce_bytes
          (w.draws (w.time + 1)).nonce_bytes meet.nonces in
      let asked : regular_call y (answered y) w (record c { auth_processing = true })
            (codes "/xchg-get-nonce") [] [] []
          ≡ some (done nonce, asking, next_world w (record w.peer { auth_nonces = t })) =
        regular_call-open y w (record c { auth_processing = true }) (codes "/xchg-get-nonce") [] []
          nonce (record w.peer { auth_nonces = t }) none_yet meet.private_key (omega arith)
          (omega (arith, nonce_size))
          (open_call-nonce y w.peer [] c.public_key nonce t (w.draws w.time) given) in
      (
        record (joined nonce seal_nonce t nonce_size fresh size) { auth_processing = false },
        w2 nonce seal_nonce t nonce_size fresh size,
        rw (free, asked, present-eq nonce seal_nonce t nonce_size fresh size, auth, auth_body) refl,
        joined-Met nonce seal_nonce t nonce_size fresh size,
      )
