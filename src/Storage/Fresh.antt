-- ===== src/Storage/Fresh.antt =====
-- A reader that has everything, and messages that come then.
use xchg.Base.{
  ℕ, ◌+◌, ◌≤◌, ◌<◌, ◌≡◌, ◌≢◌, refl, ap, ◌∙◌, false, List, [], ◌∷◌, ◌++◌, arith, ltb, length,
  le→not-ltb,
}
use xchg.Base.Words.{IsNonneg}
use xchg.Storage.{Message, Storage, get_message, last_message}
use xchg.Storage.Collect.{contents, last_id_or}
use xchg.Storage.Order.{Ids, IsValid, Ids-append, Ids-weaken, last_message-bounds}
use xchg.Storage.Delivery.{pending, batch_of, get_message-pending}
use xchg.Storage.Polls.{
  put_all, put_all-messages, wanted-above, wanted-below, wanted-append, last_id_or-cons, Ids-last,
}

last_message-append :
    (m n : Message) (ms ns : List Message) → last_message m (ms ++ (n ∷ ns)) ≡ last_message n ns
unfolding last_message
last_message-append m n [] ns = refl
last_message-append m n (x ∷ xs) ns = last_message-append x n xs ns

-- What is pending are the messages that came after the reader's id.
pending-fresh :
    (after_id hi hi' : ℕ) (ms : List Message) (n : Message) (ns : List Message)
    → Ids 0 ms (after_id + 1)
    → Ids hi (n ∷ ns) hi'
    → after_id < hi
    → pending (ms ++ (n ∷ ns)) after_id ≡ n ∷ ns
unfolding pending
pending-fresh after_id hi hi' [] n ns ids new lt =
    let stay : ltb (last_message n ns).id after_id ≡ false =
      le→not-ltb _ _ (omega (arith, last_message-bounds n ns hi hi' new)) in
    rw (stay, pending) (wanted-above after_id hi (n ∷ ns) hi' lt new)
pending-fresh after_id hi hi' (m ∷ ms) n ns ids new lt =
    let stay : ltb (last_message m (ms ++ (n ∷ ns))).id after_id ≡ false = le→not-ltb _ _ (
      omega (
        arith,
        last_message-bounds n ns hi hi' new,
        ap (λ (x : Message). x.id) (last_message-append m n ms ns),
      )) in
    rw (stay, pending)
      (wanted-append after_id (m ∷ ms) (n ∷ ns)
        ∙ rw (
          wanted-below after_id 0 (m ∷ ms) (after_id + 1) (omega arith) ids,
          wanted-above after_id hi (n ∷ ns) hi' lt new,
        ))

pending-news_of :
    (after_id hi hi' : ℕ) (ms news : List Message)
    → Ids 0 ms (after_id + 1)
    → Ids hi news hi'
    → after_id < hi
    → news ≢ []
    → pending (ms ++ news) after_id ≡ news
pending-news_of after_id hi hi' ms [] ids new lt some_there = absurd (some_there refl)
pending-news_of after_id hi hi' ms (n ∷ ns) ids new lt some_there =
    pending-fresh after_id hi hi' ms n ns ids new lt

-- A reader that has every message of the storage, and then polls it after some news have come, gets
-- exactly those.
pub get_message-fresh :
    (hi hi' : ℕ) (c : Storage) (news : List Message) (after_id max_size : ℕ)
    → Ids 0 c.messages (after_id + 1)
    → Ids hi news hi'
    → after_id < hi
    → news ≢ []
    → IsNonneg max_size
    → length (c.messages ++ news) ≤ c.max_messages
    → length (contents news) < max_size
    → get_message (put_all c news) after_id max_size ≡ batch_of after_id news
get_message-fresh hi hi' c news after_id max_size ids new lt some_there hm room fits =
    let (held, cap) = put_all-messages c news room in
    let w : IsValid hi' (put_all c news) = record {
      ids = rw held (
          Ids-append 0 (after_id + 1) hi' c.messages news ids
            (Ids-weaken hi (after_id + 1) news hi' hi' (omega arith) (omega arith) new));
      room = rw (held, cap) room;
    } in
    let left : pending (put_all c news).messages after_id ≡ news =
      ap (λ l. pending l after_id) held
      ∙ pending-news_of after_id hi hi' c.messages news ids new lt some_there in
    get_message-pending hi' (put_all c news) after_id max_size w hm (rw left fits)
    ∙ ap (batch_of after_id) left

-- The id of the last of the news is the largest of them.
pub last_id_or-Ids :
    (d lo hi : ℕ) (news : List Message)
    → Ids lo news hi
    → news ≢ []
    → Ids lo news (last_id_or d news + 1) × (last_id_or d news < hi)
last_id_or-Ids d lo hi [] ids some_there = absurd (some_there refl)
last_id_or-Ids d lo hi (n ∷ ns) ids some_there =
    rw (last_id_or-cons d n ns) (Ids-last lo n ns hi ids, (last_message-bounds n ns lo hi ids).1)
