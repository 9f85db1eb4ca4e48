-- ===== src/Peer/Purge.antt =====
-- xchg/peer_server.go: which sessions `purgeSessions` forgets.
use xchg.Base.{
  ℕ, ◌≤◌, ◌<◌, ◌≡◌, ◌↔◌, refl, inl, inr, none, some, List, [], ◌∷◌, arith, ltb, lt→ltb, All,
  Bool-cases,
}
use xchg.Maps.{find, HasOneOfEach}
use xchg.Storage.{elapsed, seconds}
use xchg.Peer.{Peer, Session, recent_sessions, purge_sessions}
use xchg.Peer.Table.{IsValid, IsSession}

module _ (now : ℕ) where
  -- The session was used in the last minute.
  abbrev pub IsRecent : Session → Type 0
  IsRecent s = elapsed now s.last_access ≤ seconds 60

  recent_sessions-none :
      (k : ℕ) (m : List (ℕ × Session)) → find k m ≡ none → find k (recent_sessions now m) ≡ none
  unfolding find recent_sessions
  recent_sessions-none k [] e = refl
  recent_sessions-none k ((j, s) ∷ m) e = ground (arith, recent_sessions-none k m)

  recent_sessions-HasOneOfEach :
      (m : List (ℕ × Session)) → HasOneOfEach m → HasOneOfEach (recent_sessions now m)
  unfolding recent_sessions
  recent_sessions-HasOneOfEach [] h = tt
  recent_sessions-HasOneOfEach ((j, s) ∷ m) (e, h) =
      elim (Bool-cases (ltb (seconds 60) (elapsed now s.last_access))) [
        | inl old ↦ rw old (recent_sessions-HasOneOfEach m h)
        | inr new ↦ rw new (recent_sessions-none j m e, recent_sessions-HasOneOfEach m h)
      ]

  recent_sessions-All :
      (P : ℕ × Session → Type 0) (m : List (ℕ × Session)) → All P m → All P (recent_sessions now m)
  unfolding recent_sessions
  recent_sessions-All P [] h = tt
  recent_sessions-All P ((j, s) ∷ m) (p, h) =
      elim (Bool-cases (ltb (seconds 60) (elapsed now s.last_access))) [
        | inl old ↦ rw old (recent_sessions-All P m h)
        | inr new ↦ rw new (p, recent_sessions-All P m h)
      ]

  recent_sessions_iff :
      (m : List (ℕ × Session)) (k : ℕ) (s : Session)
      → HasOneOfEach m
      → (find k (recent_sessions now m) ≡ some s) ↔ ((find k m ≡ some s) × IsRecent s)
  unfolding find recent_sessions
  recent_sessions_iff [] k s h = (λ e. absurd cc, λ (e, r). absurd cc)
  recent_sessions_iff ((j, t) ∷ m) k s (e, h) =
      let (to, from) = recent_sessions_iff m k s h in
      let gone = recent_sessions-none k m in ground arith

-- `purgeSessions` keeps the table of the sessions well formed.
pub purge_sessions-IsValid :
    (c : Peer) (now later : ℕ) → IsValid c → IsValid (purge_sessions c now later)
unfolding purge_sessions
purge_sessions-IsValid c now later v =
    elim (Bool-cases (ltb (seconds 60) (elapsed now c.last_purge_sessions_time))) [
      | inr wait ↦ rw wait v
      | inl due ↦ rw due (record {
        nonces = v.nonces;
        next = v.next;
        keys = recent_sessions-HasOneOfEach now c.sessions_by_id v.keys;
        session = recent_sessions-All now (IsSession c.next_session_id) c.sessions_by_id v.session;
      })
    ]

-- A purge that is due (the last one was more than a minute ago) keeps exactly the sessions that
-- were used in the last minute, each under its id and unchanged.
pub purge_sessions_iff :
    (c : Peer) (now later k : ℕ) (s : Session)
    → IsValid c
    → seconds 60 < elapsed now c.last_purge_sessions_time
    → (find k (purge_sessions c now later).sessions_by_id ≡ some s)
      ↔ ((find k c.sessions_by_id ≡ some s) × IsRecent now s)
unfolding purge_sessions
purge_sessions_iff c now later k s v due =
    rw (lt→ltb (seconds 60) (elapsed now c.last_purge_sessions_time) due)
      (recent_sessions_iff now c.sessions_by_id k s v.keys)
