-- ===== src/Transaction/Message.antt =====
-- A whole message, cut by the send loops and put together by `AppendReceivedData`.
use xchg.Base.{
  ℕ, zero, suc, ◌+◌, ◌*◌, ◌^◌, ◌≤◌, ◌<◌, ◌≡◌, refl, ap, ◌∙◌, true, false, some, List, [], ◌++◌,
  arith, length, All,
}
use xchg.Transaction.{Frame, Transaction, max_received_frames, received_data_len}
use xchg.Transaction.Pieces.{
  block_len, blocks, blocks-Tiles, blocks-SlicesOf, Among, SlicesOf, Tiles,
}
use xchg.Transaction.Held.{all_found, held-nil, all_found-nil}
use xchg.Transaction.Reassembly.{receive_all, receive_all_lem, Receiving}

-- `XchgMaxFrameSize`.
abbrev pub max_frame_size : ℕ
max_frame_size = 64 * 1024

-- The blocks of a message, as both send loops cut it. Each round takes a byte at least, so as
-- many rounds as there are bytes are enough.
unfoldable pub message_blocks : List ℕ → List (ℕ × List ℕ)
unfolding blocks
message_blocks bytes = blocks max_frame_size (length bytes) bytes 0

length-blocks :
    (fuel : ℕ) (bytes : List ℕ) (offset : ℕ)
    → offset ≤ length bytes
    → max_frame_size * length (blocks max_frame_size fuel bytes offset) + offset
      < length bytes + max_frame_size
unfolding blocks
length-blocks zero bytes offset h = omega arith
length-blocks (suc fuel) bytes offset h =
    ground
      (arith, length-blocks fuel bytes (offset + block_len max_frame_size (length bytes) offset))

-- The frame carries a block of the message, and says how long the message is.
abbrev pub Carries : List ℕ → Frame → Type 0
Carries bytes f = Among f.offset f.payload (message_blocks bytes) × (f.total_size ≡ length bytes)

pub message_blocks-Tiles : (bytes : List ℕ) → Tiles 0 (message_blocks bytes) (length bytes)
unfolding message_blocks
message_blocks-Tiles bytes =
    blocks-Tiles max_frame_size (length bytes) bytes 0 (omega arith) (omega arith) (omega arith)

pub message_blocks-SlicesOf : (bytes : List ℕ) → SlicesOf bytes (message_blocks bytes)
unfolding message_blocks
message_blocks-SlicesOf bytes = blocks-SlicesOf max_frame_size (length bytes) bytes 0

pub length-message_blocks :
    (bytes : List ℕ) → length bytes < 2 ^ 32 → length (message_blocks bytes) ≤ max_received_frames
unfolding message_blocks
length-message_blocks bytes h = omega (arith, length-blocks (length bytes) bytes 0 (omega arith))

pub fresh-Receiving :
    (bytes : List ℕ) (c : Transaction)
    → 0 < length bytes
    → c.received_frames ≡ []
    → c.complete ≡ false
    → Receiving bytes (message_blocks bytes) c
fresh-Receiving bytes c pos empty undone = record {
  from = rw empty tt;
  sum = rw (empty, held-nil length) (unfold received_data_len in refl);
  count = rw (empty, held-nil (λ _. 1));
  done = rw (empty, undone, all_found-nil _ 0 (length bytes) (message_blocks-Tiles bytes) pos);
  whole = λ h. cc (undone, h);
}

-- The frames of a message may come in any order, and more than once: no call panics, the
-- transaction is complete exactly when every block has come, and then its result is the message.
pub receive_all_message :
    (bytes : List ℕ) (c : Transaction) (fs : List Frame)
    → 0 < length bytes
    → length bytes < 2 ^ 32
    → c.received_frames ≡ []
    → c.complete ≡ false
    → All (Carries bytes) fs
    → (c' : Transaction) × (receive_all c fs ≡ some c')
      × (c'.complete ≡ all_found (message_blocks bytes) fs)
      × (c'.complete ≡ true → c'.result ≡ bytes)
receive_all_message bytes c fs pos small empty undone a =
    let (c', run, done, whole) =
      receive_all_lem bytes (message_blocks bytes) (message_blocks-Tiles bytes)
        (message_blocks-SlicesOf bytes) (length-message_blocks bytes small) c fs
        (fresh-Receiving bytes c pos empty undone) a in
    (c', run, done ∙ ap (λ l. all_found (message_blocks bytes) (l ++ fs)) empty, whole)
