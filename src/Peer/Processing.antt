-- ===== src/Peer/Processing.antt =====
-- xchg/peer_processing.go and xchg/peer_receiving.go: what a peer does with the frames that come
-- from its router. `none` is a panic.
use xchg.Base.{
  ℕ, ◌+◌, Bool, Option, none, some, List, [], ◌∷◌, ◌++◌, ltb, ◌==◌, ◌&&◌, bytes_eq, if◌then◌else◌,
  length, get_or, take, drop, replicate, map,
}
use xchg.Bytes.{copy_at}
use xchg.Crypto.{Library}
use xchg.Storage.{elapsed, seconds}
use xchg.Transaction.{
  Frame, Transaction, header_size, address_size, new_frame, new_transaction, parse,
  append_received_data,
}
use xchg.Transaction.Message.{message_blocks}
use xchg.Router.{Slice, slice_bytes, hex_encode}
use xchg.Framing.{Run, frames_loop}
use xchg.Remote.{RemotePeer, set_remote_transport_public_key}
use xchg.Remote as Remote
use xchg.Peer.{Peer, Code, Draws, on_edge_received_call}

-- `XchgFrameGetPublicKeyRequest` and its kin.
abbrev pub frame_call_request : ℕ
frame_call_request = 0x10

abbrev pub frame_call_response : ℕ
frame_call_response = 0x11

abbrev pub frame_get_public_key_request : ℕ
frame_get_public_key_request = 0x20

abbrev pub frame_get_public_key_response : ℕ
frame_get_public_key_response = 0x21

abbrev pub Incoming : Type 0
Incoming = List (Code × Transaction)

unfoldable pub same_code : Code → Code → Bool
same_code a b = bytes_eq a.address b.address && (a.id == b.id)

unfoldable pub find_incoming : Code → Incoming → Option Transaction
unfolding same_code
find_incoming k [] = none
find_incoming k ((j, t) ∷ m) = if same_code j k then some t else find_incoming k m

unfoldable pub remove_incoming : Code → Incoming → Incoming
unfolding same_code
remove_incoming k [] = []
remove_incoming k ((j, t) ∷ m) =
    if same_code j k then remove_incoming k m else (j, t) ∷ remove_incoming k m

-- The loop that drops the transactions that began more than ten seconds ago.
unfoldable pub recent_incoming : ℕ → Incoming → Incoming
recent_incoming now [] = []
recent_incoming now ((k, t) ∷ m) =
    if ltb (seconds 10) (elapsed now t.begin_dt)
    then recent_incoming now m
    else (k, t) ∷ recent_incoming now m

-- The frames of a response.
unfoldable pub response_frames : Peer → Transaction → List ℕ → List ℕ → List Frame
response_frames c t src_address resp =
    let block : ℕ × List ℕ → Frame = λ b.
      record (new_frame frame_call_response c.public_key src_address t.transaction_id t.session_id
        b.0 (length resp) b.1) { from_local_node = t.from_local_node } in
    map block (message_blocks resp)

-- The transaction that a frame belongs to, or a new one.
unfoldable pub transaction_of : Peer → Frame → Incoming → ℕ → Transaction
unfolding find_incoming
transaction_of c tr incoming now =
    elim (find_incoming (record { address = tr.src_address; id = tr.transaction_id }) incoming) [
      | some t ↦ t
      | none ↦
          let t =
            new_transaction tr.frame_type tr.src_address c.public_key tr.transaction_id
              tr.session_id 0 tr.total_size [] in
          record t { frame = record t.frame { begin_dt = now } }
    ]

-- The answer to a call that is complete.
unfoldable pub answer_call :
    Library → Peer → Transaction → List ℕ → Draws → Option (List Frame × Peer)
unfolding response_frames
answer_call y c t src_address r =
    elim (on_edge_received_call y c t.session_id t.result t.src_address r) [
      | none ↦ none
      | some (sent, c') ↦
          if sent.dont_send_response
          then some ([], c')
          else some (response_frames c' t src_address sent.response, c')
    ]

-- `processFrameCallRequest`.
unfoldable pub process_frame_call_request :
    Library → Peer → List ℕ → Draws → Option (List Frame × Peer)
unfolding transaction_of recent_incoming remove_incoming answer_call
process_frame_call_request y c frame r = elim (parse frame) [
  | none ↦ some ([], c)
  | some tr ↦
      let incoming = recent_incoming r.now c.incoming_transactions in
      let code : Code = record { address = tr.src_address; id = tr.transaction_id } in
      let others = remove_incoming code incoming in
      elim (append_received_data (transaction_of c tr incoming r.now) tr) [
        | none ↦ none
        | some t ↦
            if t.complete
            then answer_call y (record c { incoming_transactions = others }) t tr.src_address r
            else some ([], record c { incoming_transactions = (code, t) ∷ others })
      ]
]

-- What happens to the client that talks to an address, if there is one.
unfoldable pub at_address :
    List ℕ → (RemotePeer → Option RemotePeer) → List RemotePeer → Option (List RemotePeer)
at_address address f [] = some []
at_address address f (p ∷ ps) =
    let rest : Option (List RemotePeer) = elim (at_address address f ps) [
      | none ↦ none
      | some ps' ↦ some (p ∷ ps')
    ] in
    if bytes_eq (hex_encode p.remote_address) (hex_encode address)
    then elim (f p) [ none ↦ none | some p' ↦ some (p' ∷ ps) ]
    else rest

-- `processFrameCallResponse`.
unfoldable pub process_frame_call_response : Peer → List ℕ → Option Peer
unfolding at_address
process_frame_call_response c frame = elim (parse frame) [
  | none ↦ some c
  | some tr ↦ elim (at_address tr.src_address (λ p. Remote.process_frame p frame) c.remote_peers) [
    | none ↦ none
    | some ps ↦ some (record c { remote_peers = ps })
  ]
]

-- The response to a request for the public key.
unfoldable pub public_key_frame : Library → Peer → List ℕ → Frame
public_key_frame y c src_address =
    record (new_frame frame_get_public_key_response c.local_address src_address 0 0 0 0 []) {
      payload =
          copy_at (copy_at (replicate (32 + 64) 0) 0 c.transport_public_key) 32
            (y.sign c.private_key c.transport_public_key);
    }

-- `processFrameGetPublicKeyRequest`.
unfoldable pub process_frame_get_public_key_request : Library → Peer → List ℕ → List Frame
unfolding public_key_frame
process_frame_get_public_key_request y c frame = elim (parse frame) [
  | none ↦ []
  | some tr ↦
      if length c.local_address == address_size
      then public_key_frame y c tr.src_address ∷ []
      else []
]

-- `processFrameGetPublicKeyResponse`.
unfoldable pub process_frame_get_public_key_response : Library → Peer → List ℕ → Option Peer
unfolding at_address
process_frame_get_public_key_response y c frame = elim (parse frame) [
  | none ↦ some c
  | some tr ↦
      let key = take 32 tr.payload in
      if length tr.payload == 32 + 64
      then (if y.verify tr.src_address key (drop 32 tr.payload)
          then elim (at_address tr.src_address (λ p. some (set_remote_transport_public_key p key))
              c.remote_peers) [ none ↦ none | some ps ↦ some (record c { remote_peers = ps }) ]
          else some c)
      else some c
]

-- A step that sends nothing.
silent : Option Peer → Option (List Frame × Peer)
silent none = none
silent (some c) = some ([], c)

-- `Peer.processFrame`.
unfoldable pub process_frame : Library → Peer → List ℕ → Draws → Option (List Frame × Peer)
unfolding silent process_frame_call_request process_frame_call_response
    process_frame_get_public_key_request process_frame_get_public_key_response
process_frame y c frame r =
    let type = get_or frame 4 0 in
    if ltb (length frame) header_size
    then some ([], c)
    else (if type == frame_call_request
        then process_frame_call_request y c frame r
        else (if type == frame_call_response
            then silent (process_frame_call_response c frame)
            else (if type == frame_get_public_key_request
                then some (process_frame_get_public_key_request y c frame, c)
                else (if type == frame_get_public_key_response
                    then silent (process_frame_get_public_key_response y c frame)
                    else some ([], c)))))

-- The variables of `processFramesFromInternet`: `responses`, `framesCount`, and the peer.
pub record Receipt : Type 0 where
  pub responses : List Frame
  pub frames_count : ℕ
  pub peer : Peer

-- One frame in the loop of `processFramesFromInternet`; `draws n` is what frame `n` draws.
unfoldable pub receive_frame : Library → (ℕ → Draws) → Receipt → Slice → Option Receipt
unfolding process_frame
receive_frame y draws s frame =
    elim (process_frame y s.peer (slice_bytes frame) (draws s.frames_count)) [
      | none ↦ none
      | some (sent, c) ↦
          some (record {
            responses = s.responses ++ sent;
            frames_count = s.frames_count + 1;
            peer = c;
          })
    ]

-- `processFramesFromInternet`, up to the frames that it sends: the answer of a router starts with
-- the id of the last message.
unfoldable pub process_frames_from_internet : Library → (ℕ → Draws) → ℕ → Peer → Slice → Run Receipt
unfolding receive_frame
process_frames_from_internet y draws fuel c res =
    frames_loop (receive_frame y draws) fuel (record { responses = []; frames_count = 0; peer = c })
      res 8
