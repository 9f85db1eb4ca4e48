-- ===== src/Peer/Table/Calls.antt =====
-- The sessions stay valid over the calls of xchg/peer_server.go: those in a session, and all.
use xchg.Base.{
  ℕ, ◌⊎◌, refl, get_or, take, ◌+◌, ◌<◌, ◌≡◌, inl, inr, some, List, ◌==◌, arith, ltb, length, drop,
  All, Bool-cases, Option-cases, ◌≤◌, false, le→not-ltb, length-drop,
}
use xchg.Base.Words.{IsWord, word_mod}
use xchg.Bytes.{IsByte, uint64_at, uint64_at-IsWord}
use xchg.Maps.{find, store, find-All}
use xchg.Texts.{Outcome, done, Outcome-cases}
use xchg.Crypto.{Library, decrypt, unpack}
use xchg.SnakeCounter.{test_and_declare}
use xchg.SnakeCounter.Refine.{test_and_declare_refines}
use xchg.Peer.{
  Peer, Session, Draws, Param, on_edge_received_call, call_in_session, count_call, session_call,
  reply_error, split_call, too_short, parts,
}
use xchg.Peer.Table.{IsSession, IsValid, After, store-IsValid, open_call-After}

-- A call of at least one byte is cut without a panic.
split_call-cases :
    (bytes : List ℕ)
    → 1 ≤ length bytes
    → (split_call bytes ≡ too_short)
      ⊎ ((function : List ℕ) × (parameter : List ℕ) × (split_call bytes ≡ parts function parameter))
unfolding split_call
split_call-cases bytes some_bytes = elim (Bool-cases (ltb (length bytes) (1 + get_or bytes 0 0))) [
  | inl short ↦ inl (rw (le→not-ltb (length bytes) 1 some_bytes, short, split_call) refl)
  | inr long ↦ inr (
    take (get_or bytes 0 0) (drop 1 bytes),
    drop (1 + get_or bytes 0 0) bytes,
    rw (le→not-ltb (length bytes) 1 some_bytes, long, split_call) refl,
  )
]

module _ (y : Library) (callback : Param → Outcome (List ℕ)) (r : Draws) where
  counted-IsSession :
      (limit id n now : ℕ) (s : Session)
      → IsWord n
      → IsSession limit (id, s)
      → IsSession limit (
        id,
        record s { snake_counter = (test_and_declare s.snake_counter n).0; last_access = now },
      )
  counted-IsSession limit id n now s word (e, pos, lt, (w, ok)) =
      (e, pos, lt, (_, (test_and_declare_refines s.snake_counter w ok n word).0))

  session_call-After :
      (c : Peer) (s : Session) (bytes : List ℕ)
      → c.callback ≡ some callback
      → IsValid c
      → 1 ≤ length bytes
      → After callback (c.next_session_id + 1) (session_call y c s bytes r)
  unfolding session_call reply_error
  session_call-After c s bytes there v some_bytes = elim (split_call-cases bytes some_bytes) [
    | inl e ↦ rw (e, session_call) (v, there, omega arith)
    | inr (function, parameter, e) ↦ rw (e, there, session_call) (v, there, omega arith)
  ]

  module _ (c : Peer) (there : c.callback ≡ some callback) (v : IsValid c) (id : ℕ) where
    count_call-After :
        (s : Session) (bytes : List ℕ)
        → find id c.sessions_by_id ≡ some s
        → All IsByte bytes
        → After callback (c.next_session_id + 1) (count_call y c id s bytes r)
    unfolding count_call reply_error
    count_call-After s bytes known words = elim (Bool-cases (ltb (length bytes) 9)) [
      | inl short ↦ rw (short, count_call) (v, there, omega arith)
      | inr long ↦ elim (Option-cases (test_and_declare s.snake_counter (uint64_at bytes 0)).1) [
        | inl fresh ↦
            rw (long, eight long, fresh, count_call)
              (session_call-After (kept r.now) (counted r.now) (drop 8 bytes) there (stored r.now)
                (named long))
        | inr (e, refused) ↦
            rw (long, eight long, refused, count_call) (stored s.last_access, there, omega arith)
      ]
    ]
      where
        eight : ltb (length bytes) 9 ≡ false → ltb (length bytes) 8 ≡ false
        eight long = ground arith

        named : ltb (length bytes) 9 ≡ false → 1 ≤ length (drop 8 bytes)
        named long = ground (arith, length-drop 8 bytes)

        counted : ℕ → Session
        counted now = record s {
          snake_counter = (test_and_declare s.snake_counter (uint64_at bytes 0)).0;
          last_access = now;
        }

        kept : ℕ → Peer
        kept now = record c { sessions_by_id = store id (counted now) c.sessions_by_id }

        stored : (now : ℕ) → IsValid (kept now)
        stored now = store-IsValid c id (counted now) v (
            counted-IsSession c.next_session_id id (uint64_at bytes 0) now s
              (uint64_at-IsWord bytes 0 words)
              (find-All (IsSession c.next_session_id) id s c.sessions_by_id known v.session))

    call_in_session-After :
        (bytes : List ℕ)
        → ((x t : List ℕ) → unpack y x ≡ done t → All IsByte t)
        → After callback (c.next_session_id + 1) (call_in_session y c id bytes r)
    unfolding call_in_session reply_error
    call_in_session-After bytes words = elim (Option-cases (find id c.sessions_by_id)) [
      | inl e ↦ rw (e, call_in_session) (v, there, omega arith)
      | inr (s, known) ↦ elim (Outcome-cases (decrypt y bytes s.aes_key)) [
        | inl (e, garbled) ↦ rw (known, garbled, call_in_session) (v, there, omega arith)
        | inr (packed, opened) ↦ elim (Outcome-cases (unpack y packed)) [
          | inl (e, broken) ↦ rw (known, opened, broken, call_in_session) (v, there, omega arith)
          | inr (plain, unpacked) ↦
              rw (known, opened, unpacked, call_in_session)
                (count_call-After s plain known (words packed plain unpacked))
        ]
      ]
    ]

  -- A server with a callback, whose sessions stand under their own ids with the counters of some
  -- replay window, handles every message without a panic, whatever its session id, its bytes and
  -- its sender: the sessions and the table of nonces stay so, and the callback is kept. (What
  -- `Unpack` returns are bytes, and the ids have not run out.)
  pub on_edge_received_call-IsValid :
      (c : Peer) (session_id : ℕ) (bytes remote : List ℕ)
      → c.callback ≡ some callback
      → IsValid c
      → c.next_session_id + 1 < word_mod
      → ((x t : List ℕ) → unpack y x ≡ done t → All IsByte t)
      → After callback (c.next_session_id + 1) (on_edge_received_call y c session_id bytes remote r)
  unfolding on_edge_received_call reply_error
  on_edge_received_call-IsValid c id bytes remote there v room words = elim (Bool-cases (id == 0)) [
    | inr in_session ↦ rw in_session (call_in_session-After c there v id bytes words)
    | inl outside ↦ elim (Bool-cases (ltb (length bytes) 1)) [
      | inl empty ↦ rw (outside, empty, on_edge_received_call) (v, there, omega arith)
      | inr some_bytes ↦ elim (split_call-cases bytes (ground arith)) [
        | inl e ↦ rw (outside, e, some_bytes, on_edge_received_call) (v, there, omega arith)
        | inr (function, parameter, e) ↦
            rw (outside, e, some_bytes, on_edge_received_call)
              (open_call-After y callback r c there v room remote function parameter)
      ]
    ]
  ]
