-- ===== src/Storage/Delivery.antt =====
-- What a reader gets from `GetMessage`, poll after poll.
use xchg.Base.{
  ℕ, ◌+◌, ◌≤◌, ◌<◌, ◌≡◌, refl, ap, ◌∙◌, inl, inr, true, false, List, [], ◌∷◌, ◌++◌, arith, ltb,
  if◌then◌else◌, length, Bool-cases,
}
use xchg.Base.Words.{IsNonneg}
use xchg.Storage.{Message, Storage, Batch, get_from, get_message, last_message, fix_last_id}
use xchg.Storage.Collect.{wanted, contents, last_id_or, collect-fits}
use xchg.Storage.Order.{Ids, IsValid, last_message-bounds}

-- The messages that a reader who has read up to `after_id` still has to get. A reader whose id is
-- above all ids has read from an earlier router, and gets everything.
unfoldable pub pending : List Message → ℕ → List Message
unfolding wanted last_message
pending [] after_id = []
pending (m ∷ ms) after_id =
    if ltb (last_message m ms).id after_id then m ∷ ms else wanted after_id false (m ∷ ms)

wanted-all : (after_id : ℕ) (ms : List Message) → wanted after_id true ms ≡ ms
unfolding wanted
wanted-all after_id [] = refl
wanted-all after_id (m ∷ ms) = ground (arith, wanted-all after_id ms)

fix_last_id_none :
    (b : Batch) (after first last : ℕ) → after ≤ last → fix_last_id b after first last ≡ b
fix_last_id_none b after first last le = ground arith

abbrev start : ℕ → Batch
start after_id = record { bytes = []; last_id = after_id; count = 0 }

-- The batch of the messages `ms`, for a reader at `after_id`.
abbrev pub batch_of : ℕ → List Message → Batch
batch_of after_id ms = record {
  bytes = contents ms;
  last_id = last_id_or after_id ms;
  count = length ms;
}

batch_of-eq :
    (after_id : ℕ) (ms : List Message)
    → ◌≡◌ {A = Batch}
        (record {
          bytes = [] ++ contents ms;
          last_id = last_id_or after_id ms;
          count = 0 + length ms;
        })
        (batch_of after_id ms)
batch_of-eq after_id ms = ground arith

get_from-pending :
    (ms : List Message) (hi after_id max_size : ℕ)
    → Ids 0 ms hi
    → IsNonneg max_size
    → length (contents (pending ms after_id)) < max_size
    → get_from ms after_id max_size ≡ batch_of after_id (pending ms after_id)
unfolding get_from pending
get_from-pending [] hi after_id max_size ids hm fits = unfold contents last_id_or in refl
get_from-pending (m ∷ ms) hi after_id max_size ids hm fits =
    elim (Bool-cases (ltb (last_message m ms).id after_id)) [
      | inl reset ↦
          let fits' : length (contents (wanted m.id true (m ∷ ms))) < max_size =
            rw wanted-all (rw (reset, pending) at fits) in
          rw (reset, pending)
            (ap (λ b. fix_last_id b m.id m.id (last_message m ms).id)
                (collect-fits (m ∷ ms) m.id true max_size (start after_id) hm (omega arith))
              ∙ fix_last_id_none _ m.id m.id (last_message m ms).id
                  (last_message-bounds m ms 0 hi ids).0
              ∙ batch_of-eq after_id (wanted m.id true (m ∷ ms))
              ∙ ap (batch_of after_id) (wanted-all m.id (m ∷ ms)))
      | inr keep ↦
          let fits' : length (contents (wanted after_id false (m ∷ ms))) < max_size =
            rw (keep, pending) at fits in
          rw (keep, pending)
            (ap (λ b. fix_last_id b after_id m.id (last_message m ms).id)
                (collect-fits (m ∷ ms) after_id false max_size (start after_id) hm (omega arith))
              ∙ fix_last_id_none _ after_id m.id (last_message m ms).id (ground arith)
              ∙ batch_of-eq after_id (wanted after_id false (m ∷ ms)))
    ]

-- When what is pending fits, a poll returns exactly that, in order, with the id of its last message.
pub get_message-pending :
    (hi : ℕ) (c : Storage) (after_id max_size : ℕ)
    → IsValid hi c
    → IsNonneg max_size
    → length (contents (pending c.messages after_id)) < max_size
    → get_message c after_id max_size ≡ batch_of after_id (pending c.messages after_id)
unfolding get_message
get_message-pending hi c after_id max_size v hm h =
    get_from-pending c.messages hi after_id max_size v.ids hm h
