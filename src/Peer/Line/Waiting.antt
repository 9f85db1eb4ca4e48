-- ===== src/Peer/Line/Waiting.antt =====
-- The client at the end of the line, while it waits for the answer.
use xchg.Base.{
  ℕ, zero, suc, ◌+◌, ◌^◌, ◌<◌, ◌≡◌, refl, ap, ◌∙◌, inl, inr, true, false, none, some, List, [], ◌∷◌,
  arith, length, map, ltb, ltb→lt, ◌==◌, ==_refl, ==_iff, not-ltb→le, if◌then◌else◌, Bool-cases,
}
use xchg.Texts.{done}
use xchg.Maps.{find, remove, remove-absent}
use xchg.Transaction.{Transaction, header_size, marshal}
use xchg.Transaction.Message.{message_blocks}
use xchg.Remote.{RemotePeer, end_transaction, time_out, max_transaction_size}
use xchg.Remote.Calls.{Ended}
use xchg.Remote.Execution.{receive, wait}
use xchg.Peer.{Peer}
use xchg.Peer.Processing.{response_frames}
use xchg.Peer.Direct.{World, is_lost}
use xchg.Peer.Responses.{waiting, response_frames-taken, response_frames-refused}
use xchg.Peer.Line.{Line, idle, sleep}

module _ (d : RemotePeer) (id : ℕ) (m : List (ℕ × Transaction)) (once : find id m ≡ none)
    (key : List ℕ) where
  there : (t : Transaction) → find id ((id, t) ∷ m) ≡ some t
  unfolding find
  there t = rw (==_refl id) refl

  gone : (t : Transaction) → remove id ((id, t) ∷ m) ≡ m
  unfolding remove
  gone t = rw (==_refl id) (remove-absent id m once)

  -- The client when it no longer waits.
  abbrev pub released : RemotePeer
  released = record d { outgoing_transactions = m }

  not_yet : (t : Transaction) → t.complete ≡ false → end_transaction (waiting d id m t) id ≡ none
  unfolding end_transaction
  not_yet t part = rw (there t, part, end_transaction) refl

  ended :
      (t : Transaction)
      → t.complete ≡ true
      → t.err ≡ none
      → end_transaction (waiting d id m t) id ≡ some (done t.result, released)
  unfolding end_transaction
  ended t whole clean = simp (there t, whole, clean, gone t, end_transaction) refl

  pub wait-complete :
      (n : ℕ) (l : Line) (t : Transaction)
      → t.complete ≡ true
      → t.err ≡ none
      → wait sleep (suc n) l (waiting d id m t) id key ≡ some (done t.result, released, l)
  unfolding wait
  wait-complete n l t whole clean = rw (ended t whole clean, wait) refl

  -- One round, in which frames come.
  pub wait-received :
      (n : ℕ) (l : Line) (t t1 : Transaction)
      → t.complete ≡ false
      → receive (waiting d id m t) (map marshal l.inbox) ≡ some (waiting d id m t1)
      → wait sleep (suc n) l (waiting d id m t) id key
        ≡ wait sleep n (idle l.world) (waiting d id m t1) id key
  unfolding wait sleep
  wait-received n l t t1 part e = rw (not_yet t part, e, wait) refl

  -- Nothing more comes.
  pub wait-silent :
      (n : ℕ) (w : World) (t : Transaction)
      → t.complete ≡ false
      → wait sleep n (idle w) (waiting d id m t) id key
        ≡ (let (e, c) = time_out released id key in some (e, c, idle w))
  wait-silent zero w t part = unfold wait time_out in rw (gone t, remove-absent id m once) refl
  wait-silent (suc n) w t part =
      wait-received n (idle w) t t part (unfold receive in refl) ∙ wait-silent n w t part

-- A fresh transaction waits while the frames of a response are on the line.
module _ (d : RemotePeer) (m : List (ℕ × Transaction)) (key : List ℕ) (w : World) (p : Peer)
    (tr : Transaction) (src resp : List ℕ) (fits : header_size + length resp < 2 ^ 32)
    (id : tr.transaction_id < 2 ^ 64) (session : tr.session_id < 2 ^ 64)
    (once : find tr.transaction_id m ≡ none) (t : Transaction) (empty : t.received_frames ≡ [])
    (undone : t.complete ≡ false) (clean : t.err ≡ none) where
  abbrev line : Line
  line = record { world = w; inbox = response_frames p tr src resp }

  abbrev client : Transaction → RemotePeer
  client u = waiting d tr.transaction_id m u

  abbrev after : RemotePeer
  after = released d tr.transaction_id m once key

  abbrev timed_out : Ended (List ℕ) Line
  timed_out = let (e, c) = time_out after tr.transaction_id key in some (e, c, idle w)

  -- Frames that leave the transaction as it is.
  in_vain :
      (n : ℕ)
      → receive (client t) (map marshal (response_frames p tr src resp)) ≡ some (client t)
      → wait sleep (suc n) line (client t) tr.transaction_id key ≡ timed_out
  in_vain n e =
      wait-received d tr.transaction_id m once key n line t t undone e
      ∙ wait-silent d tr.transaction_id m once key n w t undone

  no_bytes : (xs : List ℕ) → length xs ≡ 0 → xs ≡ []
  no_bytes [] e = refl
  no_bytes (x ∷ xs) e = absurd (omega arith)

  no_frames : length resp ≡ 0 → response_frames p tr src resp ≡ []
  unfolding response_frames message_blocks
  no_frames e = rw (no_bytes resp e) refl

  pub wait-response :
      (n : ℕ)
      → wait sleep (suc (suc n)) line (client t) tr.transaction_id key
        ≡ (if is_lost (length resp) then timed_out else some (done resp, after, idle w))
  wait-response n = elim (Bool-cases (length resp == 0)) [
    | inl e ↦
        let nothing : length resp ≡ 0 = (==_iff (length resp) 0).0 e in
        rw e (in_vain (suc n) (rw (no_frames nothing) (unfold receive in refl)))
    | inr e ↦ elim (Bool-cases (ltb (max_transaction_size + 1024) (length resp))) [
      | inl large ↦
          let over : max_transaction_size + 1024 < length resp =
            ltb→lt (max_transaction_size + 1024) (length resp) large in
          rw (e, large)
            (in_vain (suc n)
              (response_frames-refused p tr src resp fits id session d m t once over))
      | inr short ↦
          let (u, taken, whole, result, same) =
            response_frames-taken p tr src resp fits id session d m t once empty undone
              (ground (arith, e)) (not-ltb→le (max_transaction_size + 1024) (length resp) short) in
          rw (e, short)
            (wait-received d tr.transaction_id m once key (suc n) line t u undone taken
              ∙ wait-complete d tr.transaction_id m once key n (idle w) u whole (same ∙ clean)
              ∙ ap (λ r. some (done r, after, idle w)) result)
    ]
  ]
