-- ===== src/Router/Lifecycle.antt =====
-- router/router.go: `Start`, `Stop` and the background loops that they begin and end, as steps.
-- What the loops do to the addresses is `th_clear_addresses`, which leaves these fields.
use xchg.Base.{
  ℕ, ◌≡◌, ◌≢◌, true, false, Option, none, some, List, ◌∷◌, ◌++◌, length, arith, if◌then◌else◌, ◌+◌,
  zero, suc,
}
use xchg.Texts.{codes}
use xchg.Router.{Router, th_clear_addresses}

-- `Start`: its error, and whether it begins a background loop.
unfoldable pub start : Router → Option (List ℕ) × Router
start c =
    if c.started
    then (some (codes "already started"), c)
    else (if c.stopping
        then (some (codes "it is stopping"), c)
        else (none, record c { http_server = true }))

-- `Stop`, up to the loop that waits for `started` to be false.
unfoldable pub stop : Router → Option (List ℕ) × Router
stop c =
    let c' = record c { http_server = false } in
    if c.started
    then (if c.stopping
        then (some (codes "already stopping"), c')
        else (none, record c' { stopping = true }))
    else (some (codes "already stopped"), c')

-- A goroutine of `thBackgroundOperations`: before its first instruction, or in its loop.
pub data Worker : Type 0 where
  created looping : Worker

pub record System : Type 0 where
  pub router : Router
  pub workers : List Worker

-- `thBackgroundOperations`, instruction by instruction, beside the calls of the owner.
pub data Step : System → System → Type 0 where
  starts :
      (c c' : Router) (ws : List Worker)
      → start c ≡ (none, c')
      → Step (record { router = c; workers = ws }) (record { router = c'; workers = created ∷ ws })
  stops :
      (c : Router) (ws : List Worker)
      → Step (record { router = c; workers = ws }) (record { router = (stop c).1; workers = ws })
  enters :
      (c : Router) (before after : List Worker)
      → Step
          (record { router = c; workers = before ++ created ∷ after })
          (record { router = record c { started = true }; workers = before ++ looping ∷ after })
  works :
      (c : Router) (ws : List Worker) (now later : ℕ)
      → c.stopping ≡ false
      → Step
          (record { router = c; workers = ws })
          (record { router = th_clear_addresses c now later; workers = ws })
  leaves :
      (c : Router) (before after : List Worker)
      → c.stopping ≡ true
      → Step
          (record { router = c; workers = before ++ looping ∷ after })
          (record { router = record c { started = false }; workers = before ++ after })

pub data Reach (s : System) : System → Type 0 where
  here : Reach s s
  then_step : (t u : System) → Reach s t → Step t u → Reach s u

stop-keeps : (c : Router) → c.stopping ≡ true → (stop c).1.stopping ≡ true
unfolding stop
stop-keeps c h = ground arith

start-keeps : (c c' : Router) → start c ≡ (none, c') → c.stopping ≡ true → c'.stopping ≡ true
unfolding start
start-keeps c c' e h = ground arith

Step-keeps : (s t : System) → Step s t → s.router.stopping ≡ true → t.router.stopping ≡ true
unfolding th_clear_addresses
Step-keeps _ _ (starts c c' ws e) h = start-keeps c c' e h
Step-keeps _ _ (stops c ws) h = stop-keeps c h
Step-keeps _ _ (enters c before after) h = h
Step-keeps _ _ (works c ws now later e) h = ground arith
Step-keeps _ _ (leaves c before after e) h = h

Reach-keeps : (s t : System) → Reach s t → s.router.stopping ≡ true → t.router.stopping ≡ true
Reach-keeps s _ here h = h
Reach-keeps s _ (then_step t u r step) h = Step-keeps t u step (Reach-keeps s t r h)

refused : (c : Router) → c.stopping ≡ true → (start c).0 ≢ none
unfolding start
refused c h e = ground arith

-- A router that was told to stop cannot be started again, whatever happens meanwhile: each later
-- `Start` returns an error.
pub stopped_for_good :
    (s t : System) → s.router.stopping ≡ true → Reach s t → (start t.router).0 ≢ none
stopped_for_good s t h r = refused t.router (Reach-keeps s t r h)

start_ok :
    (c : Router)
    → c.started ≡ false
    → c.stopping ≡ false
    → start c ≡ (none, record c { http_server = true })
unfolding start
start_ok c hs hp = ground arith

-- `started` is set by the background loop and not by `Start`: from a router that is neither started
-- nor stopping, a state can be reached for any `n` that has `n` more background loops, and in which
-- the router still is neither.
pub repeated_start :
    (c : Router) (ws : List Worker) (n : ℕ)
    → c.started ≡ false
    → c.stopping ≡ false
    → (t : System) × Reach (record { router = c; workers = ws }) t
      × (length t.workers ≡ length ws + n)
      × (t.router.started ≡ false)
      × (t.router.stopping ≡ false)
repeated_start c ws zero hs hp = (record { router = c; workers = ws }, here, omega arith, hs, hp)
repeated_start c ws (suc n) hs hp =
    let (t, r, len, ts, tp) = repeated_start c ws n hs hp in
    let c' : Router = record t.router { http_server = true } in
    (
      record { router = c'; workers = created ∷ t.workers },
      then_step t _ r (starts t.router c' t.workers (start_ok t.router ts tp)),
      omega (arith, len),
      ts,
      tp,
    )
