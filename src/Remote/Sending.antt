-- ===== src/Remote/Sending.antt =====
-- xchg/remote_peer.go: `httpCall` and `Send`. `X` is the rest of the world, and `post` the HTTP
-- request with the field "d" of its form: the body of the response, or an error.
pub mod Puts
use xchg.Base.{ℕ, Option, none, some, List, [], ◌∷◌, ◌++◌, ltb, ◌==◌, if◌then◌else◌, length}
use xchg.Texts.{Outcome, done, failed, codes}
use xchg.Transaction.{Frame, header_size, marshal}
use xchg.Router.{Slice, slice_bytes, hex_encode}
use xchg.Network.{get_router_addr}
use xchg.HttpServer.Requests.{Base64}

-- What `httpCall` makes of the response.
unfoldable pub read_response : Base64 → Outcome (List ℕ) → Outcome (List ℕ)
read_response b (failed e) = failed e
read_response b (done content) = elim (b.decode_string content) [
  | none ↦ failed (codes "illegal base64 data")
  | some result ↦ done (slice_bytes result)
]

module _ {X : Type 0} (b : Base64) (post : X → List ℕ → List ℕ → Outcome (List ℕ) × X) where
  -- `httpCall`: without a host, or with a frame that is too short, it returns nothing.
  unfoldable pub http_call : X → List ℕ → List ℕ → List ℕ → Outcome (List ℕ) × X
  unfolding read_response
  http_call x router_host function frame =
      if length router_host == 0
      then (done [], x)
      else (if ltb (length frame) header_size
          then (done [], x)
          else (let addr = codes "http://" ++ router_host in
              let uri = addr ++ (codes "/api/" ++ function) in
              let (response, x') = post x uri (b.encode_to_string frame) in
              (read_response b response, x')))

  -- `Send`: what `httpCall` returns is dropped, so that it never fails.
  unfoldable pub send : X → Frame → X
  unfolding http_call
  send x tr =
      (http_call x (get_router_addr (hex_encode tr.dest_address)) (codes "w") (marshal tr)).1

  -- The frames of a message, each by `Send`.
  unfoldable pub send_frames : X → List Frame → X
  unfolding send
  send_frames x [] = x
  send_frames x (f ∷ fs) = send_frames (send x f) fs
