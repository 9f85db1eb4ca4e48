-- ===== src/Peer/Replay.antt =====
-- A call that comes again.
use xchg.Base.{
  ℕ, ◌≤◌, ◌≡◌, refl, ap, ◌∙◌, inl, inr, true, false, some, List, length, ==_ne, Option-cases,
}
use xchg.Maps.{store, find-store_self}
use xchg.Texts.{Outcome, done, err_srv_conn_wrong_nonce}
use xchg.Crypto.{Library, IsSound}
use xchg.SnakeCounter.{Error, test_and_declare}
use xchg.SnakeCounter.Window.{Window}
use xchg.SnakeCounter.Refine.{Refines, is_nil}
use xchg.SnakeCounter.Replay.{refused_again}
use xchg.Remote.{RemotePeer, build_frame, counted_frame}
use xchg.Remote.Frames.{counted_frame-eq}
use xchg.Peer.{
  Peer, Session, Param, Draws, Reply, prepare_response_error, count_call, call_in_session,
  on_edge_received_call,
}
use xchg.Peer.RoundTrip.{
  IsShared, counter, sealed, served, after, reply_sent, build_frame-eq, served_call, frame_counter,
  frame_long, frame_reads, opened,
}

-- What `onEdgeReceivedCall` returns for a counter that its window refuses.
abbrev pub refusal : Reply
refusal = record {
  response = prepare_response_error err_srv_conn_wrong_nonce;
  dont_send_response = true;
}

module _ (y : Library) (sound : IsSound y) (c : RemotePeer) (p : Peer) (s : Session) (id : ℕ)
    (shared : IsShared y c p s id) (callback : Param → Outcome (List ℕ)) (function bytes : List ℕ)
    (r : Draws) (there : p.callback ≡ some callback) (short : length function ≤ 255) where
  abbrev n : ℕ
  n = counter y sound c p s id shared

  abbrev first : Session
  first = served y sound c p s id shared r.now

  abbrev p1 : Peer
  p1 = after y sound c p s id shared callback function bytes r there short

  abbrev again : Draws → Peer
  again r' = record p1 {
    sessions_by_id =
        store id (record first { snake_counter = (test_and_declare first.snake_counter n).0 })
          p1.sessions_by_id;
  }

  second_refused :
      (w : Window)
      → Refines s.snake_counter w
      → (e : Error) × ((test_and_declare first.snake_counter n).1 ≡ some e)
  second_refused w ok =
      let no : is_nil (test_and_declare first.snake_counter n).1 ≡ false =
        refused_again s.snake_counter w n ok shared.word (ap is_nil shared.fresh) in
      elim (Option-cases (test_and_declare first.snake_counter n).1) [
        | inr (e, eq) ↦ (e, eq)
        | inl eq ↦ absurd (cc (ap is_nil eq, no))
      ]

  count_again :
      (e : Error) (r' : Draws)
      → (test_and_declare first.snake_counter n).1 ≡ some e
      → count_call y p1 id first (counted_frame n function bytes) r' ≡ some (refusal, again r')
  count_again e r' eq =
      ap (λ t. count_call y p1 id first t r') (counted_frame-eq function bytes n)
      ∙ (unfold count_call in
          rw
            (
              frame_long y sound c p s id shared callback function bytes r there short,
              frame_reads y sound c p s id shared callback function bytes r there short,
              frame_counter y sound c p s id shared callback function bytes r there short,
              eq,
              frame_counter y sound c p s id shared callback function bytes r there short,
            )
            refl)

  session_again :
      (nonce : List ℕ) (e : Error) (r' : Draws)
      → length nonce ≡ y.gcm_nonce_size
      → (test_and_declare first.snake_counter n).1 ≡ some e
      → call_in_session y p1 id
          (sealed y sound c p s id shared nonce (counted_frame n function bytes))
          r'
        ≡ some (refusal, again r')
  unfolding call_in_session
  session_again nonce e r' size eq =
      let (unsealed, unpacked) =
        opened y sound c p s id shared nonce (counted_frame n function bytes) size in
      rw (find-store_self id first p.sessions_by_id, unsealed, unpacked, call_in_session)
        (count_again e r' eq)

  edge_again :
      (nonce remote : List ℕ) (e : Error) (r' : Draws)
      → length nonce ≡ y.gcm_nonce_size
      → (test_and_declare first.snake_counter n).1 ≡ some e
      → on_edge_received_call y p1 id
          (sealed y sound c p s id shared nonce (counted_frame n function bytes))
          remote
          r'
        ≡ some (refusal, again r')
  unfolding on_edge_received_call
  edge_again nonce remote e r' size eq =
      rw (==_ne id 0 shared.some_id) (session_again nonce e r' size eq)

  -- A call in a shared session whose counters are those of some replay window, of a function whose
  -- name has at most 255 bytes, under sound ciphers and with a nonce of their size: the first time
  -- that its message comes it is answered; when the same message comes again, from whatever
  -- address, the server refuses it and sends nothing, and the callback is not asked.
  pub replayed_call :
      (w : Window) (nonce remote remote' : List ℕ) (r' : Draws)
      → Refines s.snake_counter w
      → length nonce ≡ y.gcm_nonce_size
      → (message : List ℕ) × (c' : RemotePeer) × (sent : Reply) × (p1 p2 : Peer) × (build_frame y c
            function bytes s.aes_key nonce
          ≡ (done (message, true), c'))
        × (on_edge_received_call y p id message remote r ≡ some (sent, p1))
        × (sent.dont_send_response ≡ false)
        × (on_edge_received_call y p1 id message remote' r' ≡ some (refusal, p2))
  replayed_call w nonce remote remote' r' ok size =
      let (e, eq) = second_refused w ok in
      (
        sealed y sound c p s id shared nonce (counted_frame n function bytes),
        _,
        reply_sent y sound c p s id shared callback function bytes r there short,
        p1,
        again r',
        build_frame-eq y sound c p s id shared function bytes nonce short,
        served_call y sound c p s id shared callback function bytes r there short nonce remote size,
        refl,
        edge_again nonce remote' e r' size eq,
      )
