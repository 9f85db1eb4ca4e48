-- ===== src/Storage/Order.antt =====
-- The order of the ids in a storage, and its capacity.
use xchg.Base.{
  ℕ, ◌+◌, ◌≤◌, ◌<◌, List, [], ◌∷◌, ◌++◌, arith, ltb, if◌then◌else◌, length, length-append, inl, inr,
  Bool-cases,
}
use xchg.Storage.{
  Message, Storage, young, clear, put, new_message, drop_first, last_message, new_storage,
}

-- The ids rise from `lo` on, and stay below `hi`.
abbrev pub Ids : ℕ → List Message → ℕ → Type 0
Ids lo [] hi = lo ≤ hi
Ids lo (m ∷ ms) hi = (lo ≤ m.id) × Ids (m.id + 1) ms hi

pub Ids-le : (lo : ℕ) (ms : List Message) (hi : ℕ) → Ids lo ms hi → lo ≤ hi
Ids-le lo [] hi h = h
Ids-le lo (m ∷ ms) hi (a, h) = omega (arith, Ids-le (m.id + 1) ms hi h)

pub Ids-weaken :
    (lo lo' : ℕ) (ms : List Message) (hi hi' : ℕ)
    → lo' ≤ lo
    → hi ≤ hi'
    → Ids lo ms hi
    → Ids lo' ms hi'
Ids-weaken lo lo' [] hi hi' a b h = omega arith
Ids-weaken lo lo' (m ∷ ms) hi hi' a b (c, h) =
    (omega arith, Ids-weaken (m.id + 1) (m.id + 1) ms hi hi' (omega arith) b h)

pub Ids-append :
    (lo mid hi : ℕ) (xs ys : List Message) → Ids lo xs mid → Ids mid ys hi → Ids lo (xs ++ ys) hi
Ids-append lo mid hi [] ys h k = Ids-weaken mid lo ys hi hi h (omega arith) k
Ids-append lo mid hi (x ∷ xs) ys (a, h) k = (a, Ids-append (x.id + 1) mid hi xs ys h k)

young-Ids : (now lo : ℕ) (ms : List Message) (hi : ℕ) → Ids lo ms hi → Ids lo (young now ms) hi
unfolding young
young-Ids now lo [] hi h = h
young-Ids now lo (m ∷ ms) hi (a, h) =
    ground (arith, young-Ids now (m.id + 1) ms hi h, Ids-weaken (m.id + 1) lo (young now ms) hi hi)

drop_first-Ids : (lo : ℕ) (ms : List Message) (hi : ℕ) → Ids lo ms hi → Ids lo (drop_first ms) hi
drop_first-Ids lo [] hi h = h
drop_first-Ids lo (m ∷ ms) hi (a, h) =
    Ids-weaken (m.id + 1) lo ms hi hi (omega arith) (omega arith) h

trim-Ids :
    (n lo : ℕ) (ms : List Message) (hi : ℕ)
    → Ids lo ms hi
    → Ids lo (if ltb n (length ms) then drop_first ms else ms) hi
trim-Ids n lo ms hi h = elim (Bool-cases (ltb n (length ms))) [
  | inl e ↦ rw e (drop_first-Ids lo ms hi h)
  | inr e ↦ rw e h
]

-- What holds of a storage whose router has given out the ids below `hi`.
pub record IsValid (hi : ℕ) (c : Storage) : Type 0 where
  pub ids : Ids 0 c.messages hi
  pub room : length c.messages ≤ c.max_messages

pub new_storage-IsValid : (hi now : ℕ) → IsValid hi (new_storage now)
unfolding new_storage
new_storage-IsValid hi now = record { ids = omega arith; room = omega arith }

length-young : (now : ℕ) (ms : List Message) → length (young now ms) ≤ length ms
unfolding young
length-young now [] = omega arith
length-young now (m ∷ ms) = ground (arith, length-young now ms)

length-drop_first : (ms : List Message) (n : ℕ) → length ms ≤ n + 1 → length (drop_first ms) ≤ n
length-drop_first [] n h = omega arith
length-drop_first (m ∷ ms) n h = omega arith

-- `Clear` keeps the order of the ids and the capacity.
pub clear-IsValid : (hi : ℕ) (c : Storage) (now : ℕ) → IsValid hi c → IsValid hi (clear c now)
unfolding clear
clear-IsValid hi c now v = record {
  ids = young-Ids now 0 c.messages hi v.ids;
  room = omega (arith, length-young now c.messages, v.room);
}

-- `Put` with an id that is new keeps the order of the ids and the capacity.
pub put-IsValid :
    (hi : ℕ) (c : Storage) (id : ℕ) (frame : List ℕ) (now : ℕ)
    → hi ≤ id
    → IsValid hi c
    → IsValid (id + 1) (put c id frame now)
unfolding put new_message
put-IsValid hi c id frame now h v = record {
  ids =
      trim-Ids c.max_messages 0 (c.messages ++ (new_message id frame now ∷ [])) (id + 1)
        (Ids-append 0 hi (id + 1) c.messages (new_message id frame now ∷ []) v.ids (omega arith));
  room = ground (
    arith,
    length-append c.messages (new_message id frame now ∷ []),
    v.room,
    length-drop_first (c.messages ++ (new_message id frame now ∷ [])) c.max_messages,
  );
}

pub last_message-bounds :
    (m : Message) (ms : List Message) (lo hi : ℕ)
    → Ids lo (m ∷ ms) hi
    → (m.id ≤ (last_message m ms).id) × ((last_message m ms).id < hi)
unfolding last_message
last_message-bounds m [] lo hi (a, h) = omega arith
last_message-bounds m (x ∷ xs) lo hi (a, (b, h)) =
    omega (arith, last_message-bounds x xs (m.id + 1) hi (b, h))
