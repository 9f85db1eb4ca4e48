-- ===== src/Transaction/Tests.antt =====
-- Concrete frames, and the theorems at concrete inputs.
use xchg.Base.{ℕ, ◌≡◌, refl, inl, true, false, some, List, [], ◌∷◌, arith}
use xchg.Transaction.{Frame, Transaction, new_frame, new_transaction, parse, marshal}
use xchg.Transaction.Wire.{FitsWire, wire_part, parse-marshal}
use xchg.Transaction.Held.{all_found}
use xchg.Transaction.Reassembly.{receive_all}
use xchg.Transaction.Message.{message_blocks, Carries, receive_all_message}

abbrev two_bytes : Frame
two_bytes = new_frame 0x10 (1 ∷ 2 ∷ []) (3 ∷ []) 7 300 0 2 (5 ∷ 6 ∷ [])

two_bytes-FitsWire : FitsWire two_bytes
unfolding new_frame xchg.Bytes.copy_at
two_bytes-FitsWire = record {
  frame_type = omega arith;
  transaction_id = omega arith;
  session_id = omega arith;
  offset = omega arith;
  total_size = omega arith;
  src_address = refl;
  dest_address = refl;
  comment = refl;
  payload = omega arith;
}

parse-marshal_example : parse (marshal two_bytes) ≡ some (wire_part two_bytes)
parse-marshal_example = parse-marshal two_bytes two_bytes-FitsWire

abbrev waiting : Transaction
waiting = new_transaction 0x10 [] [] 7 300 0 0 []

abbrev message : List ℕ
message = 5 ∷ 6 ∷ []

two_bytes-Carries : Carries message two_bytes
unfolding new_frame message_blocks
two_bytes-Carries = (inl (refl, refl), refl)

waiting_empty : (waiting.received_frames ≡ []) × (waiting.complete ≡ false)
unfolding new_transaction new_frame
waiting_empty = (refl, refl)

receive_all_message_example :
    (c' : Transaction) × (receive_all waiting (two_bytes ∷ two_bytes ∷ []) ≡ some c')
    × (c'.complete ≡ all_found (message_blocks message) (two_bytes ∷ two_bytes ∷ []))
    × (c'.complete ≡ true → c'.result ≡ message)
receive_all_message_example =
    receive_all_message message waiting (two_bytes ∷ two_bytes ∷ []) (omega arith) (omega arith)
      waiting_empty.0 waiting_empty.1 (two_bytes-Carries, (two_bytes-Carries, tt))
