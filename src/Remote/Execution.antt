-- ===== src/Remote/Execution.antt =====
-- xchg/remote_peer.go: `executeTransaction` as a whole, over a network that is a parameter. `send`
-- is what `Send` does with a frame (its errors are lost there), `sleep` what happens in ten
-- milliseconds, with the frames that come for this client meanwhile; `none` is a panic.
use xchg.Base.{ℕ, zero, suc, ◌/◌, Option, none, some, List, [], ◌∷◌}
use xchg.Transaction.{Frame, marshal}
use xchg.Remote.{RemotePeer, process_frame, begin_transaction, end_transaction, time_out}
use xchg.Remote.Calls.{Ended, Execute}

-- Frames that the peer hands on to its client.
unfoldable pub receive : RemotePeer → List (List ℕ) → Option RemotePeer
receive c [] = some c
receive c (f ∷ fs) = elim (process_frame c f) [ none ↦ none | some c' ↦ receive c' fs ]

module _ {X : Type 0} (send : X → List ℕ → Option X) where
  -- The loop that sends a frame for each block.
  unfoldable pub send_all : X → List Frame → Option X
  send_all x [] = some x
  send_all x (f ∷ fs) = elim (send x (marshal f)) [ none ↦ none | some x' ↦ send_all x' fs ]

module _ {X : Type 0} (sleep : X → List (List ℕ) × X) where
  -- The loop that waits: a test of `Complete` in each round, and the timeout after the last.
  unfoldable pub wait : ℕ → X → RemotePeer → ℕ → List ℕ → Ended (List ℕ) X
  unfolding receive
  wait zero x c id aes_key = let (e, c') = time_out c id aes_key in some (e, c', x)
  wait (suc n) x c id aes_key = elim (end_transaction c id) [
    | some (result, c') ↦ some (result, c', x)
    | none ↦
        let (frames, x') = sleep x in
        elim (receive c frames) [ none ↦ none | some c' ↦ wait n x' c' id aes_key ]
  ]

  -- `executeTransaction`, with its timeout in milliseconds.
  unfoldable pub execute_transaction : (X → List ℕ → Option X) → ℕ → Execute X
  unfolding send_all wait
  execute_transaction send timeout x c bytes comment aes_key =
      let ((id, frames), c1) = begin_transaction c bytes comment in
      elim (send_all send x frames) [ none ↦ none | some x' ↦ wait (timeout / 10) x' c1 id aes_key ]
