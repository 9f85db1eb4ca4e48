-- ===== src/Peer/Serving.antt =====
-- xchg/peer.go: a server from `StartServerPeer` on, through its messages and its purges.
mod Tests
use xchg.Base.{
  ℕ, suc, ◌+◌, ◌≤◌, ◌<◌, ◌≡◌, refl, none, some, Option, List, [], ◌∷◌, arith, length, drop, All,
}
use xchg.Base.Words.{word_mod}
use xchg.Bytes.{IsByte}
use xchg.Texts.{Outcome, done}
use xchg.Crypto.{Library, unpack}
use xchg.Nonces.{new_nonces}
use xchg.Nonces.Fill.{new_nonces-IsValid}
use xchg.Keys.{generate_curve25519_key_pair}
use xchg.Peer.{Peer, Param, Draws, Served, on_edge_received_call, purge_sessions}
use xchg.Peer.Table.{IsValid, After}
use xchg.Peer.Table.Calls.{on_edge_received_call-IsValid}
use xchg.Peer.Purge.{purge_sessions-IsValid}

-- `NewPeer`, for a private key that is not nil, whose public key (`ExtractPublicKey`) is its second
-- half; without a pair of keys (an error of their generation, which is ignored) both are nil.
unfoldable pub new_peer :
    List ℕ → Option (List ℕ × List ℕ) → (ℕ → List ℕ) → Option (Param → Outcome (List ℕ)) → Peer
new_peer private_key pair random callback = record {
  private_key = private_key;
  public_key = drop 32 private_key;
  transport_private_key = elim pair [ none ↦ [] | some (priv, pub_key) ↦ priv ];
  transport_public_key = elim pair [ none ↦ [] | some (priv, pub_key) ↦ pub_key ];
  local_address = [];
  remote_peers = [];
  incoming_transactions = [];
  sessions_by_id = [];
  auth_nonces = new_nonces 100 random;
  next_session_id = 1;
  callback = callback;
  last_purge_sessions_time = 0;
}

-- What comes to a server: a call, with the session id and the sender of its frame, or its turn to
-- purge.
pub data Event : Type 0 where
  call : ℕ → List ℕ → List ℕ → Draws → Event
  purge : ℕ → ℕ → Event

unfoldable pub handle : Library → Peer → Event → Option Peer
handle y c (call session_id bytes remote r) =
    elim (on_edge_received_call y c session_id bytes remote r) [
      | none ↦ none
      | some (sent, c') ↦ some c'
    ]
handle y c (purge now later) = some (purge_sessions c now later)

-- A row of events; `none` is a panic.
unfoldable pub handle_all : Library → Peer → List Event → Option Peer
handle_all y c [] = some c
handle_all y c (e ∷ es) = elim (handle y c e) [ none ↦ none | some c' ↦ handle_all y c' es ]

pub new_peer-IsValid :
    (private_key : List ℕ) (pair : Option (List ℕ × List ℕ)) (random : ℕ → List ℕ)
    (callback : Option (Param → Outcome (List ℕ)))
    → IsValid (new_peer private_key pair random callback)
unfolding new_peer
new_peer-IsValid private_key pair random callback = record {
  nonces = (new_nonces-IsValid 100 random (omega arith) (omega arith)).0;
  next = omega arith;
  keys = tt;
  session = tt;
}

module _ (y : Library) (callback : Param → Outcome (List ℕ))
    (words : (x t : List ℕ) → unpack y x ≡ done t → All IsByte t) where
  -- A server that is valid, has its callback, and gave out ids below a limit.
  abbrev pub Serves : ℕ → Peer → Type 0
  Serves limit c = IsValid c × (c.callback ≡ some callback) × (c.next_session_id ≤ limit)

  handle-Serves :
      (n : ℕ) (c : Peer) (e : Event)
      → n + 1 < word_mod
      → Serves n c
      → (c' : Peer) × (handle y c e ≡ some c') × Serves (n + 1) c'
  unfolding handle purge_sessions
  handle-Serves n c (call id bytes remote r) room (v, there, low) =
      served (on_edge_received_call y c id bytes remote r)
        (on_edge_received_call-IsValid y callback r c id bytes remote there v (omega arith) words)
    where
      served :
          (a : Served)
          → After callback (c.next_session_id + 1) a
          → (c' : Peer) × ((elim a [ none ↦ none | some (sent, c') ↦ some c' ]) ≡ some c')
            × Serves (n + 1) c'
      served none h = absurd h
      served (some (sent, c')) (v', there', low') = (c', refl, (v', there', omega arith))
  handle-Serves n c (purge now later) room (v, there, low) = (
    purge_sessions c now later,
    refl,
    (purge_sessions-IsValid c now later v, ground arith, ground arith),
  )

  handle_all-Serves :
      (es : List Event) (n : ℕ) (c : Peer)
      → n + length es < word_mod
      → Serves n c
      → (c' : Peer) × (handle_all y c es ≡ some c') × Serves (n + length es) c'
  unfolding handle_all
  handle_all-Serves [] n c room (v, there, low) = (c, refl, (v, there, omega arith))
  handle_all-Serves (e ∷ es) n c room s =
      let (c1, eq, s1) = handle-Serves n c e (omega arith) s in
      let (c2, eq2, s2) = handle_all-Serves es (n + 1) c1 (omega arith) s1 in
      let h : n + suc (length es) ≡ n + 1 + length es = omega arith in
      (c2, rw (eq, handle_all) eq2, rw h s2)

  -- A peer that was made by `NewPeer` and has a callback answers or drops whatever comes, call after
  -- call and purge after purge, fewer than 2 ^ 64 - 1 of them, without a panic; its sessions then
  -- stand under their own ids, each once, with the counters of some replay window, and its nonces
  -- under their indexes. (What `Unpack` returns are bytes.)
  pub handle_all-IsValid :
      (private_key : List ℕ) (pair : Option (List ℕ × List ℕ)) (random : ℕ → List ℕ)
      (es : List Event)
      → 1 + length es < word_mod
      → (c' : Peer) × (handle_all y (new_peer private_key pair random (some callback)) es ≡ some c')
        × IsValid c'
  unfolding new_peer
  handle_all-IsValid private_key pair random es few =
      let c : Peer = new_peer private_key pair random (some callback) in
      let (c', run, s) =
        handle_all-Serves es 1 c few
          (new_peer-IsValid private_key pair random (some callback), refl, omega arith) in
      (c', run, s.0)
