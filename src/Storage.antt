-- ===== src/Storage.antt =====
-- router/address_storage.go and router/message.go: the messages that wait for one address.
-- A point in time is a number of nanoseconds, and the clock is an argument of each call.
pub mod Collect
pub mod Order
pub mod Delivery
pub mod Polls
pub mod Fresh
pub mod Race
mod Tests
use xchg.Base.{
  ℕ, zero, suc, ◌+◌, ◌-◌, ◌*◌, Bool, true, false, ◌&&◌, ◌||◌, List, [], ◌∷◌, ◌++◌, ltb, ◌==◌,
  if◌then◌else◌, length,
}
use xchg.Base.Words.{slt}

pub record Message : Type 0 where
  pub id : ℕ
  pub bytes : List ℕ
  pub touch_dt : ℕ

pub record Storage : Type 0 where
  pub touch_dt : ℕ
  pub max_messages : ℕ
  pub messages : List Message

-- `n * time.Second`.
abbrev pub seconds : ℕ → ℕ
seconds n = n * 1000000000

abbrev pub max_messages : ℕ
max_messages = 100000000

-- `NewMessage`. The field `bytes` is `data`.
unfoldable pub new_message : ℕ → List ℕ → ℕ → Message
new_message id bytes now = record { id = id; bytes = bytes; touch_dt = now }

unfoldable pub new_storage : ℕ → Storage
new_storage now = record { touch_dt = now; max_messages = max_messages; messages = [] }

-- `now.Sub(t)`. It stops at 0 here; the code compares it with positive bounds only.
abbrev pub elapsed : ℕ → ℕ → ℕ
elapsed now t = now - t

-- The loop of `Clear`: the messages younger than five seconds.
unfoldable pub young : ℕ → List Message → List Message
young now [] = []
young now (m ∷ ms) =
    if ltb (elapsed now m.touch_dt) (seconds 5) then m ∷ young now ms else young now ms

unfoldable pub clear : Storage → ℕ → Storage
unfolding young
clear c now = record c { messages = young now c.messages }

unfoldable pub messages_count : Storage → ℕ
messages_count c = length c.messages

-- `c.messages[1:]`.
abbrev drop_first : List Message → List Message
drop_first [] = []
drop_first (m ∷ ms) = ms

unfoldable pub put : Storage → ℕ → List ℕ → ℕ → Storage
unfolding new_message
put c id frame now =
    let messages = c.messages ++ (new_message id frame now ∷ []) in
    record c {
      messages = if ltb c.max_messages (length messages) then drop_first messages else messages;
      touch_dt = now;
    }

-- `c.messages[len(c.messages)-1]`, of the messages `m ∷ ms`.
unfoldable pub last_message : Message → List Message → Message
last_message m [] = m
last_message m (x ∷ xs) = last_message x xs

-- What `GetMessage` returns.
pub record Batch : Type 0 where
  pub bytes : List ℕ
  pub last_id : ℕ
  pub count : ℕ

-- The loop of `GetMessage`. The size test compares signed integers: `maxSize` is converted.
unfoldable pub collect : List Message → ℕ → Bool → ℕ → Batch → Batch
collect [] after_id send_all max_size b = b
collect (m ∷ ms) after_id send_all max_size b = collect ms after_id send_all max_size (
    if (ltb after_id m.id || send_all) && slt (length b.bytes + length m.bytes) max_size
    then record { bytes = b.bytes ++ m.bytes; last_id = m.id; count = b.count + 1 }
    else b)

-- The last correction of `lastId`.
abbrev fix_last_id : Batch → ℕ → ℕ → ℕ → Batch
fix_last_id b after_id first_id last_id =
    if (length b.bytes == 0) && ltb last_id after_id then record b { last_id = first_id } else b

get_from : List Message → ℕ → ℕ → Batch
unfolding collect last_message
get_from [] after_id max_size = record { bytes = []; last_id = after_id; count = 0 }
get_from (m ∷ ms) after_id max_size =
    let last = (last_message m ms).id in
    let send_all = ltb last after_id in
    let after = if send_all then m.id else after_id in
    fix_last_id
      (collect (m ∷ ms) after send_all max_size
        (record { bytes = []; last_id = after_id; count = 0 }))
      after m.id last

-- `GetMessage`.
unfoldable pub get_message : Storage → ℕ → ℕ → Batch
unfolding get_from
get_message c after_id max_size = get_from c.messages after_id max_size
