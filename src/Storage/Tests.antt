-- ===== src/Storage/Tests.antt =====
-- The theorems at concrete inputs.
use xchg.Base.{◌<◌, ◌≡◌, List, [], ◌∷◌, arith, length}
use xchg.Storage.{Message, Storage, new_message, put, get_message}
use xchg.Storage.Order.{Ids, IsValid}
use xchg.Storage.Collect.{contents}
use xchg.Storage.Delivery.{pending, batch_of}
use xchg.Storage.Polls.{put_all, get_message_in_turn}
use xchg.Base.{◌*◌}
use xchg.Storage.{new_storage}
use xchg.Storage.Race.{received, received-swapped}

abbrev long_frame : Message
long_frame = new_message 3 (1 ∷ 2 ∷ 3 ∷ []) 0

abbrev short_frame : Message
short_frame = new_message 5 (4 ∷ []) 0

abbrev two_messages : Storage
two_messages = record {
  touch_dt = 0;
  messages = long_frame ∷ short_frame ∷ [];
  max_messages = 1000;
}

two_messages-IsValid : IsValid 6 two_messages
unfolding new_message
two_messages-IsValid = record {
  ids = (omega arith, (omega arith, omega arith));
  room = omega arith;
}

after_first_fits : length (contents (pending two_messages.messages 3)) < 10
unfolding contents pending new_message
after_first_fits = omega arith

abbrev one_more : List Message
one_more = new_message 6 (9 ∷ []) 4 ∷ []

one_more-Ids : Ids 6 one_more 7
unfolding new_message
one_more-Ids = (omega arith, omega arith)

both_fit :
    (length (contents (pending two_messages.messages 0)) < 10) × (length (contents one_more) < 10)
unfolding contents pending new_message
both_fit = (omega arith, omega arith)

get_message_in_turn_example :
    get_message (put_all two_messages one_more) (get_message two_messages 0 10).last_id 10
    ≡ batch_of (get_message two_messages 0 10).last_id one_more
get_message_in_turn_example =
    get_message_in_turn 6 7 two_messages one_more 0 10 two_messages-IsValid one_more-Ids
      (omega arith) (λ e. cc e) (omega arith) both_fit.0 both_fit.1

received-swapped_example :
    received (put (put (new_storage 0) 2 (7 ∷ []) 1) 1 (8 ∷ 9 ∷ []) 1) 100 (2 * 5) 2 ≡ 3 * 5
received-swapped_example =
    received-swapped 0 1 1 (7 ∷ []) (8 ∷ 9 ∷ []) 1 2 100 (omega arith) (omega arith) (omega arith)
      (omega arith) 5
