-- ===== src/Peer/Table.antt =====
-- The table of the sessions: what holds of it after every message and every purge.
pub mod Calls
use xchg.Base.{
  ℕ, ◌+◌, ◌%◌, ◌≤◌, ◌<◌, ◌≡◌, refl, inl, inr, false, Option, none, some, List, [], ◌∷◌, ◌==◌, arith,
  ltb, bytes_eq, length, take, drop, All, Bool-cases, Option-cases,
}
use xchg.Base.Words.{IsWord, word_mod}
use xchg.Bytes.{IsByte, uint64_at, uint64_at-IsWord}
use xchg.Maps.{find, store, HasOneOfEach, store-HasOneOfEach, store-All, find-All}
use xchg.Texts.{Outcome, done, failed, codes, Outcome-cases}
use xchg.Crypto.{Library, decrypt, get_shared_key, unpack}
use xchg.SnakeCounter.{test_and_declare, new_snake_counter}
use xchg.SnakeCounter.Window.{Window}
use xchg.SnakeCounter.Refine.{Refines, test_and_declare_refines}
use xchg.SnakeCounter.Replay.{new_window, new-Refines}
use xchg.Nonces.{Nonces, check}
use xchg.Nonces.Table as Entries
use xchg.Nonces.Table.{check-IsValid}
use xchg.Nonces.Issue.{next-IsValid}
use xchg.Peer.{
  Peer, Session, Draws, Reply, Param, on_edge_received_call, call_in_session, count_call,
  session_call, open_call, reply_error, process_auth, check_auth, add_session, split_call,
  internal_error, public_key_size, prepare_response,
}

-- A session stands under its own id, which was given out before, and its counters are those of
-- some replay window.
abbrev pub IsSession : ℕ → ℕ × Session → Type 0
IsSession limit (id, s) =
    (s.id ≡ id) × (0 < id) × (id < limit) × ((w : Window) × Refines s.snake_counter w)

pub record IsValid (c : Peer) : Type 0 where
  pub nonces : Entries.IsValid c.auth_nonces
  pub next : 0 < c.next_session_id
  pub keys : HasOneOfEach c.sessions_by_id
  pub session : All (IsSession c.next_session_id) c.sessions_by_id

-- A peer that serves is valid after a message, has its callback, and gave out few ids.
abbrev pub After : {A : Type 0} → (Param → Outcome (List ℕ)) → ℕ → Option (A × Peer) → Type 0
After callback limit none = ⊥
After callback limit (some (sent, c')) =
    IsValid c' × (c'.callback ≡ some callback) × (c'.next_session_id ≤ limit)

-- The ids that were given out stay below a limit that grows.
later : (n n' : ℕ) (m : List (ℕ × Session)) → n ≤ n' → All (IsSession n) m → All (IsSession n') m
later n n' [] h v = tt
later n n' ((id, s) ∷ m) h ((e, pos, lt, w), v) = ((e, pos, omega arith, w), later n n' m h v)

pub store-IsValid :
    (c : Peer) (id : ℕ) (s : Session)
    → IsValid c
    → IsSession c.next_session_id (id, s)
    → IsValid (record c { sessions_by_id = store id s c.sessions_by_id })
store-IsValid c id s v h = record {
  nonces = v.nonces;
  next = v.next;
  keys = store-HasOneOfEach id s c.sessions_by_id v.keys;
  session = store-All (IsSession c.next_session_id) id s c.sessions_by_id h v.session;
}

nonces-IsValid :
    (c : Peer) (t : Nonces) → IsValid c → Entries.IsValid t → IsValid (record c { auth_nonces = t })
nonces-IsValid c t v h = record { nonces = h; next = v.next; keys = v.keys; session = v.session }

add_session-IsValid :
    (y : Library) (c : Peer) (key auth_data remote : List ℕ) (r : Draws)
    → IsValid c
    → c.next_session_id + 1 < word_mod
    → IsValid (add_session y c key auth_data remote r).1
unfolding add_session
add_session-IsValid y c key auth_data remote r v h =
    let id = c.next_session_id in
    let s : Session = record {
      id = id;
      aes_key = key;
      auth_data = auth_data;
      remote_real_public_key = remote;
      last_access = r.now;
      snake_counter = new_snake_counter 100 0;
    } in
    let grown = later id (id + 1) c.sessions_by_id (omega arith) v.session in
    let new : IsSession (id + 1) (id, s) = (
      refl,
      v.next,
      omega arith,
      (new_window 100 0, new-Refines 100 0 (omega arith) (omega arith) (omega arith)),
    ) in
    let e : (id + 1) % word_mod ≡ id + 1 = omega arith in
    rw e (record {
      nonces = v.nonces;
      next = omega arith;
      keys = store-HasOneOfEach id s c.sessions_by_id v.keys;
      session = store-All (IsSession (id + 1)) id s c.sessions_by_id new grown;
    })

module _ (y : Library) (callback : Param → Outcome (List ℕ)) (r : Draws) where
  module _ (c : Peer) (there : c.callback ≡ some callback) (v : IsValid c)
      (room : c.next_session_id + 1 < word_mod) (remote : List ℕ) where
    check_auth-After :
        (key secret : List ℕ)
        → After callback (c.next_session_id + 1) (check_auth y c key secret remote r)
    unfolding check_auth
    check_auth-After key secret = elim (Bool-cases (ltb (length secret) 16)) [
      | inl short ↦ rw (short, check_auth) (v, there, omega arith)
      | inr long ↦ elim (Bool-cases (check c.auth_nonces (take 16 secret) r.nonce_bytes).0) [
        | inl ok ↦ rw (long, ok, there, check_auth) (asked (callback p))
        | inr other ↦ rw (long, other, check_auth) (v1, there, omega arith)
      ]
    ]
      where
        t : Nonces
        t = (check c.auth_nonces (take 16 secret) r.nonce_bytes).1

        c1 : Peer
        c1 = record c { auth_nonces = t }

        v1 : IsValid c1
        v1 =
            nonces-IsValid c t v
              (check-IsValid c.auth_nonces (take 16 secret) r.nonce_bytes v.nonces)

        p : Param
        p = record {
          function = [];
          parameter = [];
          auth_data = drop 16 secret;
          remote_address = remote;
        }

        asked :
            (a : Outcome (List ℕ))
            → After callback (c.next_session_id + 1) (elim a [
              | failed e ↦ some (failed e, c1)
              | done x ↦ some (add_session y c1 key (drop 16 secret) remote r)
            ])
        asked (failed e) = (v1, there, omega arith)
        asked (done x) =
            (add_session-IsValid y c1 key (drop 16 secret) remote r v1 room, there, omega arith)

    process_auth-After :
        (parameter : List ℕ)
        → After callback (c.next_session_id + 1) (process_auth y c parameter remote r)
    unfolding process_auth
    process_auth-After parameter = elim (Bool-cases (ltb (length parameter) public_key_size)) [
      | inl short ↦ rw (short, process_auth) (v, there, omega arith)
      | inr long ↦ rw (long, process_auth) (opened (decrypt y (drop public_key_size parameter) key))
    ]
      where
        key : List ℕ
        key = get_shared_key y c.transport_private_key (take public_key_size parameter)

        opened :
            (a : Outcome (List ℕ))
            → After callback (c.next_session_id + 1) (elim a [
              | failed e ↦ some (failed internal_error, c)
              | done secret ↦ check_auth y c key secret remote r
            ])
        opened (failed e) = (v, there, omega arith)
        opened (done secret) = check_auth-After key secret

    pub open_call-After :
        (function parameter : List ℕ)
        → After callback (c.next_session_id + 1) (open_call y c function parameter remote r)
    unfolding open_call
    open_call-After function parameter =
        elim (Bool-cases (bytes_eq function (codes "/xchg-get-nonce"))) [
          | inl nonce_asked ↦
              let (nonce, t, eq, vt) = next-IsValid c.auth_nonces r.nonce_bytes v.nonces in
              rw (nonce_asked, eq, open_call) (nonces-IsValid c t v vt, there, omega arith)
          | inr named ↦ elim (Bool-cases (bytes_eq function (codes "/xchg-auth"))) [
            | inl auth ↦
                rw (named, auth, open_call)
                  (sent (process_auth y c parameter remote r) (process_auth-After parameter))
            | inr other ↦ rw (named, other, open_call) (v, there, omega arith)
          ]
        ]
      where
        sent :
            (a : Option (Outcome (List ℕ) × Peer))
            → After callback (c.next_session_id + 1) a
            → After {A = Reply} callback (c.next_session_id + 1) (elim a [
              | none ↦ none
              | some (failed e, c') ↦
                  some
                    (record { response = []; dont_send_response = bytes_eq e internal_error }, c')
              | some (done resp, c') ↦
                  some (record { response = prepare_response resp; dont_send_response = false }, c')
            ])
        sent none h = h
        sent (some (failed e, c')) h = h
        sent (some (done resp, c')) h = h
        -- A session after its counter took a number.
