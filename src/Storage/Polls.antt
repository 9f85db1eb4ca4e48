-- ===== src/Storage/Polls.antt =====
-- A reader that polls with the id that it was given last.
use xchg.Base.{
  ℕ, ◌+◌, ◌≤◌, ◌<◌, ◌≡◌, ◌≢◌, refl, ap, ◌∙◌, sym, inl, inr, false, List, [], ◌∷◌, ◌++◌, arith, ltb,
  length, length-append, le→not-ltb, Bool-cases,
}
use mathlib.Core.Path.{subst}
use mathlib.Core.List.{append-nil, append_assoc}
use xchg.Base.Words.{IsNonneg}
use xchg.Storage.{Message, Storage, Batch, get_message, last_message, put, new_message}
use xchg.Storage.Collect.{wanted, contents, last_id_or}
use xchg.Storage.Order.{Ids, IsValid, Ids-le, Ids-append, last_message-bounds}
use xchg.Storage.Delivery.{pending, batch_of, get_message-pending}

-- Messages that are put one after the other.
unfoldable pub put_all : Storage → List Message → Storage
put_all c [] = c
put_all c (m ∷ ms) = put_all (put c m.id m.bytes m.touch_dt) ms

put-messages :
    (c : Storage) (m : Message)
    → length c.messages < c.max_messages
    → put c m.id m.bytes m.touch_dt
      ≡ record c { messages = c.messages ++ (m ∷ []); touch_dt = m.touch_dt }
unfolding put new_message
put-messages c m h = ground (arith, length-append c.messages (m ∷ []))

pub put_all-messages :
    (c : Storage) (ms : List Message)
    → length (c.messages ++ ms) ≤ c.max_messages
    → ((put_all c ms).messages ≡ c.messages ++ ms) × ((put_all c ms).max_messages ≡ c.max_messages)
unfolding put_all
put_all-messages c [] h = (sym (append-nil c.messages), refl)
put_all-messages c (m ∷ ms) h =
    let len = length-append c.messages (m ∷ ms) in
    let len' = length-append (c.messages ++ (m ∷ [])) ms in
    let len'' = length-append c.messages (m ∷ []) in
    let c1 : Storage = record c { messages = c.messages ++ (m ∷ []); touch_dt = m.touch_dt } in
    let (e, k) = put_all-messages c1 ms (omega arith) in
    rw (put-messages c m (omega arith), put_all) (e ∙ append_assoc c.messages (m ∷ []) ms, k)

-- Ids above the reader's are all wanted, ids up to the reader's are not.
pub wanted-above :
    (after_id lo : ℕ) (ms : List Message) (hi : ℕ)
    → after_id < lo
    → Ids lo ms hi
    → wanted after_id false ms ≡ ms
unfolding wanted
wanted-above after_id lo [] hi h ids = refl
wanted-above after_id lo (m ∷ ms) hi h (a, ids) =
    ground (arith, wanted-above after_id (m.id + 1) ms hi (omega arith) ids)

pub wanted-below :
    (after_id lo : ℕ) (ms : List Message) (hi : ℕ)
    → hi ≤ after_id + 1
    → Ids lo ms hi
    → wanted after_id false ms ≡ []
unfolding wanted
wanted-below after_id lo [] hi h ids = refl
wanted-below after_id lo (m ∷ ms) hi h (a, ids) =
    ground (arith, Ids-le (m.id + 1) ms hi ids, wanted-below after_id (m.id + 1) ms hi h ids)

pub wanted-append :
    (after_id : ℕ) (xs ys : List Message)
    → wanted after_id false (xs ++ ys) ≡ wanted after_id false xs ++ wanted after_id false ys
unfolding wanted
wanted-append after_id [] ys = refl
wanted-append after_id (x ∷ xs) ys = ground (arith, wanted-append after_id xs ys)

pub last_id_or-cons :
    (d : ℕ) (m : Message) (ms : List Message) → last_id_or d (m ∷ ms) ≡ (last_message m ms).id
unfolding last_id_or last_message
last_id_or-cons d m [] = refl
last_id_or-cons d m (x ∷ xs) = last_id_or-cons m.id x xs

last_id_or-wanted :
    (after_id lo : ℕ) (m : Message) (ms : List Message) (hi : ℕ)
    → Ids lo (m ∷ ms) hi
    → after_id ≤ (last_message m ms).id
    → last_id_or after_id (wanted after_id false (m ∷ ms)) ≡ (last_message m ms).id
unfolding wanted last_message
last_id_or-wanted after_id lo m [] hi (a, ids) le = unfold last_id_or in ground arith
last_id_or-wanted after_id lo m (x ∷ xs) hi (a, ids) le = elim (Bool-cases (ltb after_id m.id)) [
  | inl above ↦
      rw (above, wanted-above after_id (m.id + 1) (x ∷ xs) hi (ground arith) ids)
        (last_id_or-cons after_id m (x ∷ xs))
  | inr below ↦ rw below (last_id_or-wanted after_id (m.id + 1) x xs hi ids le)
]

-- The reader's next id is that of the last message in the storage.
last_id_or-pending :
    (after_id : ℕ) (m : Message) (ms : List Message) (hi : ℕ)
    → Ids 0 (m ∷ ms) hi
    → last_id_or after_id (pending (m ∷ ms) after_id) ≡ (last_message m ms).id
unfolding pending
last_id_or-pending after_id m ms hi ids = elim (Bool-cases (ltb (last_message m ms).id after_id)) [
  | inl reset ↦ rw (reset, pending) (last_id_or-cons after_id m ms)
  | inr keep ↦ rw (keep, pending) (last_id_or-wanted after_id 0 m ms hi ids (ground arith))
]

pub Ids-last :
    (lo : ℕ) (m : Message) (ms : List Message) (hi : ℕ)
    → Ids lo (m ∷ ms) hi
    → Ids lo (m ∷ ms) ((last_message m ms).id + 1)
unfolding last_message
Ids-last lo m [] hi (a, ids) = omega arith
Ids-last lo m (x ∷ xs) hi (a, ids) = (a, Ids-last (m.id + 1) x xs hi ids)

last_message-append :
    (m : Message) (ms news : List Message) (hi hi' : ℕ)
    → Ids 0 (m ∷ ms) hi
    → Ids hi news hi'
    → (last_message m ms).id ≤ (last_message m (ms ++ news)).id
unfolding last_message
last_message-append m [] news hi hi' (a, ids) n =
    (last_message-bounds m news 0 hi' (omega arith, Ids-append (m.id + 1) hi hi' [] news ids n)).0
last_message-append m (x ∷ xs) news hi hi' (a, (b, ids)) n =
    last_message-append x xs news hi hi' (omega arith, ids) n

-- What a reader at the last id of `m ∷ ms` has still to get when `news` have come.
pending-news :
    (m : Message) (ms news : List Message) (hi hi' : ℕ)
    → Ids 0 (m ∷ ms) hi
    → Ids hi news hi'
    → pending ((m ∷ ms) ++ news) (last_message m ms).id ≡ news
unfolding pending
pending-news m ms news hi hi' ids n =
    let last : ℕ = (last_message m ms).id in
    let stay : ltb (last_message m (ms ++ news)).id last ≡ false =
      le→not-ltb _ _ (last_message-append m ms news hi hi' ids n) in
    rw (stay, pending)
      (wanted-append last (m ∷ ms) news
        ∙ rw (
          wanted-below last 0 (m ∷ ms) (last + 1) (omega arith) (Ids-last 0 m ms hi ids),
          wanted-above last hi news hi' (last_message-bounds m ms 0 hi ids).1 n,
        ))

abbrev last_of : List Message → ℕ
last_of [] = 0
last_of (m ∷ ms) = (last_message m ms).id

-- After a poll that fits, the reader stands at an id from which only new messages are pending.
reader_at_last :
    (hi : ℕ) (c : Storage) (after_id max_size : ℕ) (ms : List Message)
    → c.messages ≡ ms
    → IsValid hi c
    → IsNonneg max_size
    → c.messages ≢ []
    → length (contents (pending c.messages after_id)) < max_size
    → ((get_message c after_id max_size).last_id ≡ last_of c.messages)
      × ((hi' : ℕ) (news : List Message)
          → Ids hi news hi'
          → pending (c.messages ++ news) (last_of c.messages) ≡ news)
reader_at_last hi c after_id max_size [] e v hm some_there fits = absurd (some_there e)
reader_at_last hi c after_id max_size (m ∷ ms) e v hm some_there fits =
    let ids : Ids 0 (m ∷ ms) hi = subst (λ l. Ids 0 l hi) e v.ids in
    (
      ap (λ (b : Batch). b.last_id) (get_message-pending hi c after_id max_size v hm fits)
          ∙ rw e (last_id_or-pending after_id m ms hi ids),
      λ hi' news n. rw e (pending-news m ms news hi hi' ids n),
    )

-- Two polls in turn, with new messages in between, neither lose nor repeat a message: the second,
-- asked with the id that the first returned, returns exactly the new messages. (The ids rise, what
-- is pending fits each answer, the storage has room for the new messages and is not empty at the
-- first poll, and nothing is cleared between the polls.)
pub get_message_in_turn :
    (hi hi' : ℕ) (c : Storage) (news : List Message) (after_id max_size : ℕ)
    → IsValid hi c
    → Ids hi news hi'
    → IsNonneg max_size
    → c.messages ≢ []
    → length (c.messages ++ news) ≤ c.max_messages
    → length (contents (pending c.messages after_id)) < max_size
    → length (contents news) < max_size
    → get_message (put_all c news) (get_message c after_id max_size).last_id max_size
      ≡ batch_of (get_message c after_id max_size).last_id news
get_message_in_turn hi hi' c news after_id max_size v n hm some_there room fits fits' =
    let at : ℕ = last_of c.messages in
    let (q, eq) = reader_at_last hi c after_id max_size c.messages refl v hm some_there fits in
    let (held, cap) = put_all-messages c news room in
    let w : IsValid hi' (put_all c news) = record {
      ids = rw held (Ids-append 0 hi hi' c.messages news v.ids n);
      room = rw (held, cap) room;
    } in
    let left : pending (put_all c news).messages at ≡ news =
      ap (λ l. pending l at) held ∙ eq hi' news n in
    rw q (
      get_message-pending hi' (put_all c news) at max_size w hm (rw left fits')
      ∙ ap (batch_of at) left)
