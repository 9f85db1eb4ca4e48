-- ===== src/Remote.antt =====
-- xchg/remote_peer.go: the client's side of a connection to one peer.
-- `regularCall` waits for the answer, so its parts come first: `build_frame`,
-- `begin_transaction`, the frames that come in meanwhile (`process_frame11`), `end_transaction` or
-- `time_out`, and `read_result`.
pub mod Frames
pub mod Delivery
pub mod KeyRequest
pub mod Calls
pub mod Execution
pub mod Sending
use xchg.Base.{
  ℕ, zero, suc, ◌+◌, ◌*◌, ◌%◌, Bool, true, false, Option, none, some, List, [], ◌∷◌, ◌++◌, ltb,
  ◌==◌, ◌&&◌, bytes_eq, if◌then◌else◌, length, get_or, drop, replicate, map, not,
}
use xchg.Base.Words.{add64}
use xchg.Bytes.{copy_at, put_uint64, uint64_at}
use xchg.Maps.{find, remove, store}
use xchg.Texts.{
  Outcome, done, failed, codes, need_to_make_session, need_to_change_node,
  err_cl_conn_call_wrong_function_len, err_cl_conn_call_no_local_private_key, err_cl_conn_call_enc,
  err_cl_conn_call_err, err_cl_conn_call_decrypt, err_cl_conn_call_unpack,
  err_cl_conn_call_resp_len, err_cl_conn_call_from_peer, err_cl_conn_call_resp_status_byte,
  err_peer_conn_tr_timeout, err_cl_conn_auth_wrong_nonce_len, err_cl_conn_auth_no_local_private_key,
  err_cl_conn_auth_no_remote_public_key, err_cl_conn_auth_enc, err_cl_conn_auth_decr,
  err_cl_conn_auth_wrong_auth_resp_len,
}
use xchg.Crypto.{Library, encrypt, decrypt, pack, unpack, get_shared_key}
use xchg.Transaction.{
  Frame, Transaction, header_size, new_frame, new_transaction, parse, append_received_data,
}
use xchg.Transaction.Message.{message_blocks}

-- `XchgMaxTransactionSize`.
abbrev pub max_transaction_size : ℕ
max_transaction_size = 1024 * 1024

-- `FrameTypeCall` and `FrameTypeResponse`.
abbrev pub frame_type_call : ℕ
frame_type_call = 0x10

abbrev pub frame_type_response : ℕ
frame_type_response = 0x11

-- `RemotePeer`. A nil slice of a key is `[]`, and `public_key` is what `ExtractPublicKey` returns.
pub record RemotePeer : Type 0 where
  pub remote_address : List ℕ
  pub auth_data : List ℕ
  pub transport_private_key : List ℕ
  pub transport_public_key : List ℕ
  pub private_key : List ℕ
  pub public_key : List ℕ
  pub remote_transport_public_key : List ℕ
  pub auth_processing : Bool
  pub aes_key : List ℕ
  pub session_id : ℕ
  pub session_nonce_counter : ℕ
  pub outgoing_transactions : List (ℕ × Transaction)
  pub next_transaction_id : ℕ

-- `NewRemotePeer`, with the keys that it generates.
unfoldable pub new_remote_peer : List ℕ → List ℕ → List ℕ → List ℕ → List ℕ → List ℕ → RemotePeer
new_remote_peer remote_address auth_data private_key public_key transport_private transport_public =
    record {
      remote_address = remote_address;
      auth_data = auth_data;
      transport_private_key = transport_private;
      transport_public_key = transport_public;
      private_key = private_key;
      public_key = public_key;
      remote_transport_public_key = [];
      auth_processing = false;
      aes_key = [];
      session_id = 0;
      session_nonce_counter = 0;
      outgoing_transactions = [];
      next_transaction_id = 1;
    }

-- `setRemoteTransportPublicKey`.
unfoldable pub set_remote_transport_public_key : RemotePeer → List ℕ → RemotePeer
set_remote_transport_public_key c key = record c { remote_transport_public_key = key }

-- `reset`.
unfoldable pub reset : RemotePeer → RemotePeer
reset c = record c { session_id = 0; aes_key = [] }

-- `processFrame11`: a frame of a response, for the transaction that waits for it. A frame that
-- `Parse` returned has no `Err`; `none` is a panic of `AppendReceivedData`.
unfoldable pub process_frame11 : RemotePeer → List ℕ → Option RemotePeer
process_frame11 c frame = elim (parse frame) [
  | none ↦ some c
  | some tr ↦
      if ltb (max_transaction_size + 1024) tr.total_size
      then some c
      else elim (find tr.transaction_id c.outgoing_transactions) [
        | none ↦ some c
        | some t ↦ elim (append_received_data t tr) [
          | none ↦ none
          | some t' ↦ some (record c {
            outgoing_transactions = store tr.transaction_id t' c.outgoing_transactions;
          })
        ]
      ]
]

-- `RemotePeer.processFrame`.
unfoldable pub process_frame : RemotePeer → List ℕ → Option RemotePeer
unfolding process_frame11
process_frame c frame =
    if get_or frame 4 0 == frame_type_response then process_frame11 c frame else some c

-- The frame of a call without a session: the function's name, after its length, and the data.
unfoldable pub plain_frame : List ℕ → List ℕ → List ℕ
plain_frame function bytes =
    let frame = replicate (1 + length function + length bytes) 0 in
    let frame = copy_at frame 0 ((length function % 256) ∷ []) in
    let frame = copy_at frame 1 function in copy_at frame (1 + length function) bytes

-- That of a call in a session, before it is packed: the counter comes first.
unfoldable pub counted_frame : ℕ → List ℕ → List ℕ → List ℕ
counted_frame counter function bytes =
    let frame = replicate (8 + 1 + length function + length bytes) 0 in
    let frame = put_uint64 frame 0 counter in
    let frame = copy_at frame 8 ((length function % 256) ∷ []) in
    let frame = copy_at frame 9 function in copy_at frame (9 + length function) bytes

-- The first part of `regularCall`: the frame to send, whether it is encrypted, and the state.
unfoldable pub build_frame :
    Library → RemotePeer → List ℕ → List ℕ → List ℕ → List ℕ → Outcome (List ℕ × Bool) × RemotePeer
unfolding plain_frame counted_frame
build_frame y c function bytes aes_key nonce =
    if ltb 255 (length function)
    then (failed err_cl_conn_call_wrong_function_len, c)
    else (if length c.private_key == 0
        then (failed err_cl_conn_call_no_local_private_key, c)
        else (let counter = c.session_nonce_counter in
            let c' = record c { session_nonce_counter = add64 counter 1 } in
            if length aes_key == 32
            then elim (encrypt y nonce (pack y (counted_frame counter function bytes)) aes_key) [
              | failed e ↦ (failed (err_cl_conn_call_enc ++ codes ":" ++ e), reset c')
              | done frame ↦ (done (frame, true), c')
            ]
            else (done (plain_frame function bytes, false), c')))

-- The first part of `executeTransaction`: the transaction is entered, and the frames are sent.
-- (`Send` never returns an error.)
unfoldable pub begin_transaction : RemotePeer → List ℕ → List ℕ → (ℕ × List Frame) × RemotePeer
begin_transaction c bytes comment =
    let id = c.next_transaction_id in
    let named : Frame → Frame = λ f. record f { comment = copy_at f.comment 0 comment } in
    let t =
      new_transaction frame_type_call c.public_key c.remote_address id c.session_id 0 (length bytes)
        bytes in
    let block : ℕ × List ℕ → Frame = λ b. named (
      new_frame frame_type_call c.public_key c.remote_address id c.session_id b.0 (length bytes)
        b.1) in
    (
      (id, map block (message_blocks bytes)),
      record c {
        next_transaction_id = add64 id 1;
        outgoing_transactions =
            store id (record t { frame = named t.frame }) c.outgoing_transactions;
      },
    )

-- A round of the loop that waits for the response: `none` while it is not complete.
unfoldable pub end_transaction : RemotePeer → ℕ → Option (Outcome (List ℕ) × RemotePeer)
end_transaction c id = elim (find id c.outgoing_transactions) [
  | none ↦ none
  | some t ↦
      if t.complete
      then some (
        elim t.err [ none ↦ done t.result | some e ↦ failed e ],
        record c { outgoing_transactions = remove id c.outgoing_transactions },
      )
      else none
]

-- What `executeTransaction` does when it gave up waiting.
unfoldable pub time_out : RemotePeer → ℕ → List ℕ → Outcome (List ℕ) × RemotePeer
time_out c id aes_key =
    let c' = record c { outgoing_transactions = remove id c.outgoing_transactions } in
    (
      failed err_peer_conn_tr_timeout,
      if (length aes_key == 32) && (length c.aes_key == 32) && not (bytes_eq aes_key c.aes_key)
          then c'
          else reset c',
    )

-- The rest of `regularCall`: an answer becomes a result or an error.
read_status : RemotePeer → List ℕ → Outcome (List ℕ) × RemotePeer
read_status c [] = (failed err_cl_conn_call_resp_len, reset c)
read_status c (status ∷ result) =
    let err = err_cl_conn_call_from_peer ++ codes ":" ++ result in
    if status == 0
    then (done result, c)
    else (if status == 1
        then (
          failed err,
          if need_to_make_session (some err) then record c { session_id = 0 } else c,
        )
        else (failed err_cl_conn_call_resp_status_byte, reset c))

unfoldable pub read_result :
    Library → RemotePeer → Outcome (List ℕ) → Bool → List ℕ → Outcome (List ℕ) × RemotePeer
unfolding read_status reset
read_result y c (failed e) encrypted aes_key =
    if need_to_change_node (some e)
    then (failed e, reset c)
    else (failed (err_cl_conn_call_err ++ codes ":" ++ e), c)
read_result y c (done result) encrypted aes_key =
    if encrypted
    then elim (decrypt y result aes_key) [
      | failed e ↦ (failed (err_cl_conn_call_decrypt ++ codes ":" ++ e), reset c)
      | done packed ↦ elim (unpack y packed) [
        | failed e ↦ (failed (err_cl_conn_call_unpack ++ codes ":" ++ e), reset c)
        | done bytes ↦ read_status c bytes
      ]
    ]
    else read_status c result

-- `auth`, from the nonce that the peer sent to the frame of its call of "/xchg-auth".
-- The copies into fresh slices are written as `++`.
unfoldable pub build_auth : Library → RemotePeer → List ℕ → List ℕ → Outcome (List ℕ) × RemotePeer
build_auth y c nonce seal_nonce =
    if not (length nonce == 16)
    then (failed err_cl_conn_auth_wrong_nonce_len, c)
    else (if length c.private_key == 0
        then (failed err_cl_conn_auth_no_local_private_key, c)
        else (if length c.remote_transport_public_key == 0
            then (failed err_cl_conn_auth_no_remote_public_key, c)
            else (let key =
                  get_shared_key y c.transport_private_key c.remote_transport_public_key in
                let c' = record c { aes_key = key } in
                elim (encrypt y seal_nonce (nonce ++ c.auth_data) key) [
                  | failed e ↦ (failed (err_cl_conn_auth_enc ++ codes ":" ++ e), c')
                  | done sealed ↦ (done (c.transport_public_key ++ sealed), c')
                ])))

-- The end of `auth`: the answer holds the id of the session.
unfoldable pub end_auth : Library → RemotePeer → List ℕ → Outcome ℕ × RemotePeer
end_auth y c result = elim (decrypt y result c.aes_key) [
  | failed e ↦ (failed (err_cl_conn_auth_decr ++ codes ":" ++ e), c)
  | done bytes ↦
      if length bytes == 8
      then (done (uint64_at bytes 0), record c { session_id = uint64_at bytes 0 })
      else (failed err_cl_conn_auth_wrong_auth_resp_len, c)
]
