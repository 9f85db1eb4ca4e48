-- ===== src/Peer/Rounds.antt =====
-- xchg/peer_receiving.go: `getFramesFromRouter` as a whole. `X` is the rest of the world, and `post`
-- the HTTP request. The goroutine that processes the answer runs at once.
use xchg.Base.{ℕ, ◌≡◌, ap, ◌∙◌, Option, none, some, List, length}
use xchg.Texts.{Outcome, done, codes}
use xchg.Crypto.{Library}
use xchg.Framing.{Run, finished, panicked, running}
use xchg.Router.{hex_encode}
use xchg.Network.{get_router_addr}
use xchg.HttpServer.Requests.{Base64}
use xchg.Peer.{Peer, Draws}
use xchg.Peer.Processing.{Receipt, process_frames_from_internet}
use xchg.Peer.Polling.{Source, begin_poll, end_poll}
use xchg.Peer.Posting.{http_call, send_responses}

module _ {X : Type 0} (b : Base64) (post : X → List ℕ → List ℕ → Outcome (List ℕ) × X) (y : Library)
    (draws : ℕ → Draws) (rounds : ℕ) where
  -- The end of `processFramesFromInternet`.
  abbrev pub respond : X → Source → Run Receipt → Run (X × Peer × Source)
  respond x src (finished s) = finished (send_responses b post x s.responses, s.peer, src)
  respond x src panicked = panicked
  respond x src (running s) = running (x, s.peer, src)

  -- What `getFramesFromRouter` does with the answer, if there is one, and with its request, if no
  -- other is under way.
  abbrev pub hear : X → Peer → Option (List ℕ) × Source → Run (X × Peer × Source)
  hear x p (none, src) = finished (x, p, src)
  hear x p (some res, src) =
      respond x src
        (process_frames_from_internet y draws rounds p (record { array = res; len = length res }))

  abbrev pub ask : X → Peer → List ℕ → Option (List ℕ) × Source → Run (X × Peer × Source)
  ask x p router (none, src) = finished (x, p, src)
  ask x p router (some request, src) =
      let (result, x') = http_call b post x router (codes "r") request in
      hear x' p (end_poll src result)

  -- `getFramesFromRouter` of a router, with the address of the peer.
  unfoldable pub get_frames_from_router :
      X → Peer → Source → List ℕ → List ℕ → Run (X × Peer × Source)
  get_frames_from_router x p src router address = ask x p router (begin_poll address src)

  -- `getFramesFromRouters`: the network has one router.
  unfoldable pub get_frames_from_routers : X → Peer → Source → List ℕ → Run (X × Peer × Source)
  unfolding get_frames_from_router
  get_frames_from_routers x p src address =
      get_frames_from_router x p src (get_router_addr (hex_encode address)) address

  -- A round that is told something ends with the processing of the answer.
  pub get_frames_from_router-told :
      (x x' : X) (p : Peer) (src src' src'' : Source) (router address request res : List ℕ)
      → begin_poll address src ≡ (some request, src')
      → http_call b post x router (codes "r") request ≡ (done res, x')
      → end_poll src' (done res) ≡ (some res, src'')
      → get_frames_from_router x p src router address
        ≡ respond x' src'' (
            process_frames_from_internet y draws rounds p
              (record { array = res; len = length res }))
  unfolding get_frames_from_router
  get_frames_from_router-told x x' p src src' src'' router address request res begun called ended =
      ap (ask x p router) begun
      ∙ ap (λ r. hear r.1 p (end_poll src' r.0)) called
      ∙ ap (hear x' p) ended
