-- ===== src/Peer/Lifecycle.antt =====
-- xchg/peer.go: `Start`, `Stop` and `thWork` of a peer, as steps. What a round of `thWork` does to
-- the frames and sessions is in the other modules; here it is counted.
mod Tests
use xchg.Base.{
  ℕ, suc, ◌+◌, ◌≤◌, ◌≡◌, inl, inr, Bool, true, false, Option, none, some, List, [], ◌∷◌, ◌++◌,
  length, if◌then◌else◌, Bool-cases,
}
use xchg.Texts.{codes}
use xchg.Storage.{elapsed, seconds}
use xchg.Router.{Router, new_router}
use xchg.Router.Lifecycle as Router

-- The fields of `Peer` for its life, and how often `thWork` asked the routers for frames.
pub record Life : Type 0 where
  pub started : Bool
  pub stopping : Bool
  pub router1 : Option Router
  pub rounds : ℕ

-- `NewPeer`.
abbrev pub new_life : Life
new_life = record { started = false; stopping = false; router1 = none; rounds = 0 }

-- `Start` at the time `now`: its error, and the peer. Without an error it begins `thWork`; that of
-- the router's `Start` is dropped.
unfoldable pub start : ℕ → Life → Option (List ℕ) × Life
start now c =
    if c.started
    then (some (codes "already started"), c)
    else (none, record c { router1 = some (Router.start (new_router now)).1 })

-- `Stop`, up to the loop that waits for `started` to be false.
unfoldable pub stop : Life → Option (List ℕ) × Life
stop c =
    if c.started
    then (none, record c { stopping = true; router1 = none })
    else (some (codes "already stopped"), c)

-- What `Stop` returns after the wait of at most a second, when it reads `started` again.
unfoldable pub stop_result : Bool → Option (List ℕ)
stop_result started = if started then some (codes "timeout") else none

-- A goroutine of `thWork`: before its first instruction; at the head of its loop; when it has read
-- that `stopping` is not set, and when it has read that it is. The mutex is free between the two.
pub data Worker : Type 0 where
  created looping asking ending : Worker

pub record System : Type 0 where
  pub life : Life
  pub workers : List Worker

-- `thWork`, instruction by instruction, beside the calls of the owner.
pub data Step : System → System → Type 0 where
  starts :
      (now : ℕ) (c c' : Life) (ws : List Worker)
      → start now c ≡ (none, c')
      → Step (record { life = c; workers = ws }) (record { life = c'; workers = created ∷ ws })
  stops :
      (c : Life) (ws : List Worker)
      → Step (record { life = c; workers = ws }) (record { life = (stop c).1; workers = ws })
  enters :
      (c : Life) (before after : List Worker)
      → Step
          (record { life = c; workers = before ++ created ∷ after })
          (record { life = record c { started = true }; workers = before ++ looping ∷ after })
  reads :
      (c : Life) (before after : List Worker)
      → Step
          (record { life = c; workers = before ++ looping ∷ after })
          (record { life = c; workers = before ++ (if c.stopping then ending else asking) ∷ after })
  asks :
      (c : Life) (before after : List Worker)
      → Step
          (record { life = c; workers = before ++ asking ∷ after })
          (record {
            life = record c { rounds = c.rounds + 1 };
            workers = before ++ looping ∷ after;
          })
  leaves :
      (c : Life) (before after : List Worker)
      → Step
          (record { life = c; workers = before ++ ending ∷ after })
          (record { life = record c { started = false }; workers = before ++ after })

pub data Reach (s : System) : System → Type 0 where
  here : Reach s s
  then_step : (t u : System) → Reach s t → Step t u → Reach s u

-- The goroutines that are about to ask.
unfoldable pub about_to_ask : List Worker → ℕ
about_to_ask [] = 0
about_to_ask (created ∷ ws) = about_to_ask ws
about_to_ask (looping ∷ ws) = about_to_ask ws
about_to_ask (asking ∷ ws) = 1 + about_to_ask ws
about_to_ask (ending ∷ ws) = about_to_ask ws

-- What stays of a peer that was told to stop: it is stopping, and what it asked with what it is
-- about to ask are `n`.
abbrev Idle : ℕ → System → Type 0
Idle n s = (s.life.stopping ≡ true) × (s.life.rounds + about_to_ask s.workers ≡ n)
