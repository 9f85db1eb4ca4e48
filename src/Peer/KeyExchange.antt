-- ===== src/Peer/KeyExchange.antt =====
-- The exchange of the transport keys: a request, the signed response, and the client that learns
-- the key.
use xchg.Base.{
  ℕ, ◌≡◌, refl, sym, ap, ◌∙◌, inl, inr, some, List, [], ◌∷◌, ◌++◌, arith, length, take, drop,
  replicate, bytes_eq, if◌then◌else◌, take-all, take-length-append, drop-length-append,
  length-append, Bool-cases,
}
use mathlib.Core.List.{append-nil}
use xchg.Bytes.{copy_at, copy_next, copy_at-replicate, length-copy_at}
use xchg.Crypto.{Library}
use xchg.Transaction.{Frame, marshal, new_frame}
use xchg.Transaction.Wire.{FitsWire, parse-marshal}
use xchg.Router.{hex_encode}
use xchg.Remote.{RemotePeer, set_remote_transport_public_key}
use xchg.Peer.{Peer}
use xchg.Peer.Processing.{at_address, public_key_frame, process_frame_get_public_key_response}

-- The first client for an address is changed.
unfoldable pub change_first : List ℕ → (RemotePeer → RemotePeer) → List RemotePeer → List RemotePeer
change_first address g [] = []
change_first address g (p ∷ ps) =
    if bytes_eq (hex_encode p.remote_address) (hex_encode address)
    then g p ∷ ps
    else p ∷ change_first address g ps

at_address-eq :
    (address : List ℕ) (g : RemotePeer → RemotePeer) (ps : List RemotePeer)
    → at_address address (λ p. some (g p)) ps ≡ some (change_first address g ps)
unfolding at_address change_first
at_address-eq address g [] = refl
at_address-eq address g (p ∷ ps) =
    elim (Bool-cases (bytes_eq (hex_encode p.remote_address) (hex_encode address))) [
      | inl e ↦ rw e refl
      | inr e ↦ rw (e, at_address-eq address g ps) refl
    ]

module _ (y : Library) (server : Peer) (src_address : List ℕ)
    (address_size : length server.local_address ≡ 32)
    (key_size : length server.transport_public_key ≡ 32)
    (signature_size : length (y.sign server.private_key server.transport_public_key) ≡ 64) where
  abbrev signature : List ℕ
  signature = y.sign server.private_key server.transport_public_key

  abbrev response : Frame
  response = public_key_frame y server src_address

  payload-eq : response.payload ≡ server.transport_public_key ++ signature
  unfolding public_key_frame
  payload-eq =
      ap (λ s. copy_at s 32 signature)
        (copy_next [] server.transport_public_key 0 96 64 refl (omega arith))
      ∙ copy_next server.transport_public_key signature 32 64 0 (omega arith) (omega arith)
      ∙ append-nil (server.transport_public_key ++ signature)

  src-eq : response.src_address ≡ server.local_address
  unfolding public_key_frame new_frame
  src-eq =
      copy_at-replicate 32 0 server.local_address (omega arith)
      ∙ take-all 32 server.local_address (omega arith)

  response-FitsWire : FitsWire response
  unfolding public_key_frame new_frame
  response-FitsWire = record {
    frame_type = omega arith;
    transaction_id = omega arith;
    session_id = omega arith;
    offset = omega arith;
    total_size = omega arith;
    src_address = length-copy_at (replicate 32 0) 0 server.local_address;
    dest_address = length-copy_at (replicate 32 0) 0 src_address;
    comment = refl;
    payload =
        omega (arith, ap length payload-eq, length-append server.transport_public_key signature);
  }

  payload_parts :
      (length response.payload ≡ 96)
      × (take 32 response.payload ≡ server.transport_public_key)
      × (drop 32 response.payload ≡ signature)
  payload_parts = (
    omega (arith, ap length payload-eq, length-append server.transport_public_key signature),
    ap (take 32) payload-eq
        ∙ ap (λ n. take n (server.transport_public_key ++ signature)) (sym key_size)
        ∙ take-length-append server.transport_public_key signature,
    ap (drop 32) payload-eq
        ∙ ap (λ n. drop n (server.transport_public_key ++ signature)) (sym key_size)
        ∙ drop-length-append server.transport_public_key signature,
  )

  set_keys :
      (ps : List RemotePeer)
      → at_address response.src_address
          (λ p. some (set_remote_transport_public_key p (take 32 response.payload)))
          ps
        ≡ some (
            change_first server.local_address
              (λ p. set_remote_transport_public_key p server.transport_public_key)
              ps)
  set_keys ps =
      at_address-eq response.src_address
        (λ p. set_remote_transport_public_key p (take 32 response.payload)) ps
      ∙ ap
          (λ k.
            some (change_first response.src_address (λ p. set_remote_transport_public_key p k) ps))
          payload_parts.1
      ∙ ap
          (λ a. some (
            change_first a (λ p. set_remote_transport_public_key p server.transport_public_key) ps))
          src-eq

  -- The response of a server, sent over the wire, to a client: if the signature verifies for the
  -- server's address, the client for that address learns the server's key; otherwise nothing
  -- changes. (Addresses, keys and signatures have the sizes of ed25519.)
  pub public_key_learnt :
      (client : Peer)
      → process_frame_get_public_key_response y client (marshal response)
        ≡ some (
            if y.verify server.local_address server.transport_public_key signature
            then record client {
              remote_peers =
                  change_first server.local_address
                    (λ p. set_remote_transport_public_key p server.transport_public_key)
                    client.remote_peers;
            }
            else client)
  unfolding process_frame_get_public_key_response
  public_key_learnt client =
      let (size, front, back) = payload_parts in
      let given = parse-marshal response response-FitsWire in
      elim (Bool-cases (y.verify server.local_address server.transport_public_key signature)) [
        | inl e ↦
            rw
              (
                given,
                size,
                front,
                back,
                src-eq,
                e,
                set_keys client.remote_peers,
                process_frame_get_public_key_response,
              )
              refl
        | inr e ↦
            rw (given, size, front, back, src-eq, e, process_frame_get_public_key_response) refl
      ]
