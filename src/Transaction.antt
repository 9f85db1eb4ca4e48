-- ===== src/Transaction.antt =====
-- xchg/transaction.go: the frame of the transport protocol, its wire format, and the reassembly
-- of a message from the frames that carry its blocks. The proofs are in the modules below.
pub mod Summary
pub mod Wire
pub mod Pieces
pub mod Held
pub mod Copying
pub mod Reassembly
pub mod Message
pub mod Sent
pub mod Completing
mod Tests
use xchg.Base.{
  ℕ, ◌+◌, ◌-◌, ◌%◌, ◌^◌, Bool, true, false, Option, none, some, List, [], ◌∷◌, ◌++◌, ltb, leb, ◌==◌,
  if◌then◌else◌, length, get_or, drop, replicate, ◌||◌,
}
use xchg.Bytes.{copy_at, put_uint32, put_uint64, uint32_at, uint64_at}

-- `TransactionHeaderSize`.
abbrev pub header_size : ℕ
header_size = 32 + 32 + 32 + 32

-- `XchgAddressSize`.
abbrev pub address_size : ℕ
address_size = 32

-- A `Transaction` without `ReceivedFrames`: what `Parse` returns has none.
-- `payload` is the field `Data`, and `err` holds the text of an error.
pub record Frame : Type 0 where
  pub length : ℕ
  pub frame_type : ℕ
  pub transaction_id : ℕ
  pub session_id : ℕ
  pub offset : ℕ
  pub total_size : ℕ
  pub src_address : List ℕ
  pub dest_address : List ℕ
  pub comment : List ℕ
  pub payload : List ℕ
  pub from_local_node : Bool
  pub begin_dt : ℕ
  pub complete : Bool
  pub result : List ℕ
  pub err : Option (List ℕ)

pub record Transaction : Type 0 where
  pub frame : Frame
  pub open frame use *
  pub received_frames : List Frame

-- `Transaction{}`.
abbrev pub zero_frame : Frame
zero_frame = record {
  length = 0;
  frame_type = 0;
  transaction_id = 0;
  session_id = 0;
  offset = 0;
  total_size = 0;
  src_address = replicate address_size 0;
  dest_address = replicate address_size 0;
  comment = replicate 32 0;
  payload = [];
  from_local_node = false;
  begin_dt = 0;
  complete = false;
  result = [];
  err = none;
}

abbrev pub uint32 : ℕ → ℕ
uint32 n = n % 2 ^ 32

-- The conversions of `offset` and `totalSize` to uint32 wrap.
unfoldable pub new_frame : ℕ → List ℕ → List ℕ → ℕ → ℕ → ℕ → ℕ → List ℕ → Frame
new_frame type src dest transaction_id session_id offset total_size bytes = record zero_frame {
  length = uint32 (header_size + length bytes);
  frame_type = type;
  transaction_id = transaction_id;
  session_id = session_id;
  offset = uint32 offset;
  total_size = uint32 total_size;
  src_address = copy_at (replicate address_size 0) 0 src;
  dest_address = copy_at (replicate address_size 0) 0 dest;
  payload = bytes;
}

-- `NewTransaction`.
unfoldable pub new_transaction : ℕ → List ℕ → List ℕ → ℕ → ℕ → ℕ → ℕ → List ℕ → Transaction
new_transaction type src dest transaction_id session_id offset total_size bytes = record {
  frame = new_frame type src dest transaction_id session_id offset total_size bytes;
  received_frames = [];
}

parsed : List ℕ → Frame
parsed frame = record zero_frame {
  length = uint32_at frame 0;
  frame_type = get_or frame 4 0;
  transaction_id = uint64_at frame 5;
  session_id = uint64_at frame 13;
  offset = uint32_at frame 21;
  total_size = uint32_at frame 25;
  src_address = copy_at (replicate address_size 0) 0 (drop 32 frame);
  dest_address = copy_at (replicate address_size 0) 0 (drop 64 frame);
  comment = copy_at (replicate 32 0) 0 (drop 96 frame);
  payload = copy_at (replicate (length frame - header_size) 0) 0 (drop header_size frame);
}

-- `Parse`; `none` is the error "wrong frame".
unfoldable pub parse : List ℕ → Option Frame
unfolding parsed
parse frame = if ltb (length frame) header_size then none else some (parsed frame)

-- `Marshal`: the writes into one buffer, in the order of the code.
unfoldable pub marshal : Frame → List ℕ
marshal c =
    let buf = replicate (header_size + length c.payload) 0 in
    let buf = put_uint32 buf 0 (uint32 (length buf)) in
    let buf = copy_at buf 4 (c.frame_type ∷ []) in
    let buf = put_uint64 buf 5 c.transaction_id in
    let buf = put_uint64 buf 13 c.session_id in
    let buf = put_uint32 buf 21 c.offset in
    let buf = put_uint32 buf 25 c.total_size in
    let buf = copy_at buf 32 c.src_address in
    let buf = copy_at buf 64 c.dest_address in
    let buf = copy_at buf 96 c.comment in copy_at buf header_size c.payload

-- The loop that sets `found`.
pub found : ℕ → List Frame → Bool
found offset [] = false
found offset (f ∷ fs) = (f.offset == offset) || found offset fs

-- The loop that sums up `receivedDataLen`.
pub received_data_len : List Frame → ℕ
received_data_len [] = 0
received_data_len (f ∷ fs) = length f.payload + received_data_len fs

-- `copy(c.Result[trvTr.Offset:], trvTr.Data)` for each frame; `none` is the panic of a slice
-- expression whose start is past the end.
pub copy_frames : List ℕ → List Frame → Option (List ℕ)
copy_frames result [] = some result
copy_frames result (f ∷ fs) =
    let rest = copy_frames (copy_at result f.offset f.payload) fs in
    if leb f.offset (length result) then rest else none

-- The cap on `ReceivedFrames`.
abbrev pub max_received_frames : ℕ
max_received_frames = 100000

-- The first half of `AppendReceivedData`: the frame joins the list unless its offset is known.
pub add_frame : Transaction → Frame → Transaction
add_frame c f =
    let kept =
      if ltb (length c.received_frames) max_received_frames
      then (if found f.offset c.received_frames
          then c.received_frames
          else c.received_frames ++ (f ∷ []))
      else c.received_frames in
    record c {
      frame = record c.frame {
        from_local_node = if f.from_local_node then true else c.from_local_node;
      };
      received_frames = kept;
    }

-- The second half: when the lengths add up, the frames are copied together.
pub try_complete : Transaction → ℕ → Option Transaction
try_complete c total =
    if received_data_len c.received_frames == total
    then elim (copy_frames (if length c.result == total then c.result else replicate total 0)
        c.received_frames) [
          | none ↦ none
          | some out ↦ some (record c { frame = record c.frame { result = out; complete = true } })
        ]
    else some c

-- `AppendReceivedData`; `none` is a panic.
unfoldable pub append_received_data : Transaction → Frame → Option Transaction
unfolding add_frame try_complete
append_received_data c f = try_complete (add_frame c f) f.total_size
