-- ===== src/Transaction/Wire.antt =====
-- The wire format: what `Parse` reads back of what `Marshal` wrote.
use xchg.Base.{
  ℕ, suc, ◌+◌, ◌-◌, ◌^◌, ◌≤◌, ◌<◌, ◌≡◌, refl, sym, ap, ◌∙◌, some, List, [], ◌∷◌, ◌++◌, arith,
  length, get_or, take, drop, replicate, le→not-ltb, length-replicate, length-drop,
}
use xchg.Bytes.{
  bytes_at, copy_at, put_uint32, put_uint64, uint32_at, uint64_at, le_bytes, le_value,
  uint32-le_bytes, uint64-le_bytes, writes, length-writes, bytes_at-writes, copy_at-replicate,
  get_or-bytes_at, Apart,
}
use xchg.Transaction.{Frame, header_size, zero_frame, uint32, parsed, parse, marshal}

-- A frame whose fields fit their places on the wire.
pub record FitsWire (f : Frame) : Type 0 where
  pub frame_type : f.frame_type < 256
  pub transaction_id : f.transaction_id < 2 ^ 64
  pub session_id : f.session_id < 2 ^ 64
  pub offset : f.offset < 2 ^ 32
  pub total_size : f.total_size < 2 ^ 32
  pub src_address : length f.src_address ≡ 32
  pub dest_address : length f.dest_address ≡ 32
  pub comment : length f.comment ≡ 32
  pub payload : header_size + length f.payload < 2 ^ 32

-- The part of a frame that is on the wire, with the length that `Marshal` puts there.
abbrev pub wire_part : Frame → Frame
wire_part f = record zero_frame {
  length = header_size + length f.payload;
  frame_type = f.frame_type;
  transaction_id = f.transaction_id;
  session_id = f.session_id;
  offset = f.offset;
  total_size = f.total_size;
  src_address = f.src_address;
  dest_address = f.dest_address;
  comment = f.comment;
  payload = f.payload;
}

module _ (f : Frame) where
  abbrev buffer : List ℕ
  buffer = replicate (header_size + length f.payload) 0

  abbrev all_writes : List (ℕ × List ℕ)
  all_writes =
      (0, le_bytes 4 (uint32 (length buffer)))
      ∷ (4, f.frame_type ∷ [])
      ∷ (5, le_bytes 8 f.transaction_id)
      ∷ (13, le_bytes 8 f.session_id)
      ∷ (21, le_bytes 4 f.offset)
      ∷ (25, le_bytes 4 f.total_size)
      ∷ (32, f.src_address)
      ∷ (64, f.dest_address)
      ∷ (96, f.comment)
      ∷ (header_size, f.payload)
      ∷ []

  marshal-writes : marshal f ≡ writes buffer all_writes
  unfolding marshal put_uint32 put_uint64 writes
  marshal-writes = refl

  pub length-marshal : length (marshal f) ≡ header_size + length f.payload
  length-marshal =
      ap length marshal-writes
      ∙ length-writes buffer all_writes
      ∙ length-replicate (header_size + length f.payload) 0

  module _ (w : FitsWire f) where
    -- The range of the `k`-th write, which no later one touches.
    at_write :
        (k o : ℕ) (src : List ℕ) (n : ℕ)
        → take k all_writes ++ (o, src) ∷ drop (suc k) all_writes ≡ all_writes
        → n ≡ length src
        → o + n ≤ header_size + length f.payload
        → Apart o n (drop (suc k) all_writes)
        → bytes_at (marshal f) o n ≡ src
    at_write k o src n e en h p =
        ap (λ s. bytes_at s o n) (marshal-writes ∙ ap (writes buffer) (sym e))
        ∙ bytes_at-writes buffer (take k all_writes) o src (drop (suc k) all_writes) n en
            (omega (arith, length-replicate {A = ℕ} (header_size + length f.payload) 0)) p

    payload_at : bytes_at (marshal f) header_size (length f.payload) ≡ f.payload
    payload_at = at_write 9 header_size f.payload (length f.payload) refl refl (omega arith) tt

    comment_at : bytes_at (marshal f) 96 32 ≡ f.comment
    comment_at = at_write 8 96 f.comment 32 refl (omega arith) (omega arith) (omega arith)

    pub dest_at : bytes_at (marshal f) 64 32 ≡ f.dest_address
    dest_at = at_write 7 64 f.dest_address 32 refl (omega arith) (omega arith) (omega arith)

    src_at : bytes_at (marshal f) 32 32 ≡ f.src_address
    src_at = at_write 6 32 f.src_address 32 refl (omega arith) (omega arith) (omega arith)

    total_at : uint32_at (marshal f) 25 ≡ f.total_size
    unfolding uint32_at le_bytes
    total_at =
        ap le_value
          (at_write 5 25 (le_bytes 4 f.total_size) 4 refl refl (omega arith) (omega arith))
        ∙ uint32-le_bytes f.total_size w.total_size

    offset_at : uint32_at (marshal f) 21 ≡ f.offset
    unfolding uint32_at le_bytes
    offset_at =
        ap le_value (at_write 4 21 (le_bytes 4 f.offset) 4 refl refl (omega arith) (omega arith))
        ∙ uint32-le_bytes f.offset w.offset

    sid_at : uint64_at (marshal f) 13 ≡ f.session_id
    unfolding uint64_at le_bytes
    sid_at =
        ap le_value
          (at_write 3 13 (le_bytes 8 f.session_id) 8 refl refl (omega arith) (omega arith))
        ∙ uint64-le_bytes f.session_id w.session_id

    tid_at : uint64_at (marshal f) 5 ≡ f.transaction_id
    unfolding uint64_at le_bytes
    tid_at =
        ap le_value
          (at_write 2 5 (le_bytes 8 f.transaction_id) 8 refl refl (omega arith) (omega arith))
        ∙ uint64-le_bytes f.transaction_id w.transaction_id

    pub type_at : get_or (marshal f) 4 0 ≡ f.frame_type
    unfolding le_bytes
    type_at =
        sym (get_or-bytes_at (marshal f) 4 1 0 0 (omega arith))
        ∙ ap (λ s. get_or s 0 0)
            (at_write 1 4 (f.frame_type ∷ []) 1 refl refl (omega arith) (omega arith))

    pub length_at : uint32_at (marshal f) 0 ≡ header_size + length f.payload
    unfolding uint32_at le_bytes
    length_at =
        ap le_value (
          at_write 0 0 (le_bytes 4 (uint32 (length buffer))) 4 refl refl (omega arith)
            (omega arith))
        ∙ uint32-le_bytes (uint32 (length buffer)) (omega arith)
        ∙ omega (arith, length-replicate {A = ℕ} (header_size + length f.payload) 0)

    array_at :
        (n o : ℕ)
        → o + n ≤ header_size + length f.payload
        → copy_at (replicate n 0) 0 (drop o (marshal f)) ≡ bytes_at (marshal f) o n
    array_at n o h =
        copy_at-replicate n 0 (drop o (marshal f))
          (omega (arith, length-drop o (marshal f), length-marshal))

    parsed-marshal : parsed (marshal f) ≡ wire_part f
    unfolding parsed
    parsed-marshal = rw (
      length_at,
      type_at,
      tid_at,
      sid_at,
      offset_at,
      total_at,
      array_at 32 32 (omega arith),
      src_at,
      array_at 32 64 (omega arith),
      dest_at,
      array_at 32 96 (omega arith),
      comment_at,
      length-marshal,
      payload_rest,
    )
      where
        size : header_size + length f.payload - header_size ≡ length f.payload
        size = omega arith

        payload_rest :
            copy_at
              (replicate (header_size + length f.payload - header_size) 0)
              0
              (drop header_size (marshal f))
            ≡ f.payload
        payload_rest = rw size (array_at (length f.payload) header_size (omega arith) ∙ payload_at)

    -- `Parse` reads every field back from what `Marshal` wrote; its `Length` is the whole length.
    pub parse-marshal : parse (marshal f) ≡ some (wire_part f)
    unfolding parse
    parse-marshal =
        rw (le→not-ltb (length (marshal f)) header_size (omega (arith, length-marshal)))
          (ap some parsed-marshal)
