-- ===== src/Remote/KeyRequest.antt =====
-- xchg/remote_peer.go `Call`: how a client asks for the transport key of its peer. `post` is the HTTP
-- request of `httpCall`, and `sleep` what comes for the client in ten milliseconds.
use xchg.Base.{ℕ, zero, suc, List, [], ◌==◌, if◌then◌else◌, length}
use xchg.Texts.{Outcome, codes}
use xchg.Bytes.{copy_at}
use xchg.Transaction.{Frame, new_transaction, marshal}
use xchg.Router.{hex_encode}
use xchg.Network.{get_router_addr}
use xchg.HttpServer.Requests.{Base64}
use xchg.Remote.{RemotePeer}
use xchg.Remote.Sending.{http_call}

-- `XchgFrameGetPublicKeyRequest`.
abbrev pub frame_type_get_public_key_request : ℕ
frame_type_get_public_key_request = 0x20

-- The frame that asks.
unfoldable pub key_frame : RemotePeer → Frame
key_frame c =
    let t =
      new_transaction frame_type_get_public_key_request c.public_key c.remote_address 0 0 0 0 [] in
    record t.frame { comment = copy_at t.comment 0 (codes "GET_KEY") }

module _ {X : Type 0} (sleep : X → RemotePeer → RemotePeer × X) where
  -- The loop that waits: the key is tested after each sleep.
  unfoldable pub wait_key : ℕ → X → RemotePeer → RemotePeer × X
  wait_key zero x c = (c, x)
  wait_key (suc n) x c =
      let (c', x') = sleep x c in
      let rest = wait_key n x' c' in
      if length c'.remote_transport_public_key == 0 then rest else (c', x')

  -- A client without the key sends the request, whatever becomes of it, and waits for two seconds.
  unfoldable pub request_key :
      Base64 → (X → List ℕ → List ℕ → Outcome (List ℕ) × X) → X → RemotePeer → RemotePeer × X
  unfolding key_frame wait_key http_call
  request_key b post x c =
      if length c.remote_transport_public_key == 0
      then (let addr = get_router_addr (hex_encode c.remote_address) in
          let (result, x') = http_call b post x addr (codes "w") (marshal (key_frame c)) in
          wait_key 200 x' c)
      else (c, x)
