-- ===== src/Peer/Posting.antt =====
-- xchg/peer_utils.go `httpCall`, and the sending of the responses in xchg/peer_receiving.go.
use xchg.Base.{ℕ, List, [], ◌∷◌, ◌++◌, ◌==◌, if◌then◌else◌, length}
use xchg.Texts.{Outcome, done, codes}
use xchg.Transaction.{Frame, marshal}
use xchg.Transaction.Summary.{dest_address_string}
use xchg.Network.{get_router_addr}
use xchg.HttpServer.Requests.{Base64}
use xchg.Remote.Sending.{read_response}

module _ {X : Type 0} (b : Base64) (post : X → List ℕ → List ℕ → Outcome (List ℕ) × X) where
  -- `httpCall`: without a host it returns nothing.
  unfoldable pub http_call : X → List ℕ → List ℕ → List ℕ → Outcome (List ℕ) × X
  http_call x router_host function frame =
      if length router_host == 0
      then (done [], x)
      else (let addr = codes "http://" ++ router_host in
          let (response, x') =
            post x (addr ++ (codes "/api/" ++ function)) (b.encode_to_string frame) in
          (read_response b response, x'))

  -- The loop over the responses to the frames of a router: a goroutine for each, here in the order
  -- of the list.
  unfoldable pub send_responses : X → List Frame → X
  unfolding http_call
  send_responses x [] = x
  send_responses x (f ∷ fs) =
      let x' = (http_call x (get_router_addr (dest_address_string f)) (codes "w") (marshal f)).1 in
      send_responses x' fs
