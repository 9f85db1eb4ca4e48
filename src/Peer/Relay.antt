-- ===== src/Peer/Relay.antt =====
-- From a sender to the peer that a frame is for: router/http_server.go `processW`, then
-- xchg/peer_receiving.go `getFramesFromRouter` and `processFramesFromInternet`.
pub mod Round
pub mod Sent
pub mod Http
pub mod Served
mod Taken
pub mod Answered
use xchg.Base.{
  ℕ, ◌+◌, ◌^◌, ◌≤◌, ◌<◌, ◌≡◌, ◌≢◌, refl, sym, ap, ◌∙◌, inl, inr, false, Option, none, some, List,
  [], ◌∷◌, ◌++◌, arith, length, length-append, map, All, Option-cases, take, drop, take-all,
  drop-length-append,
}
use mathlib.Core.Path.{subst}
use mathlib.Core.List.{append_assoc}
use xchg.Base.Words.{word_mod, add64}
use xchg.Bytes.{IsByte, le_bytes, length-le_bytes}
use xchg.Texts.{done}
use xchg.Crypto.{Library}
use xchg.Transaction.{Frame, marshal}
use xchg.Transaction.Wire.{FitsWire}
use xchg.Storage.{Message, Storage, Batch, get_message, new_storage}
use xchg.Storage.Collect.{contents, last_id_or}
use xchg.Storage.Order.{Ids, Ids-append, Ids-weaken}
use xchg.Storage.Polls.{put_all, put_all-messages}
use xchg.Storage.Fresh.{get_message-fresh}
use xchg.Framing.{Run, handle_all}
use xchg.Framing.Split.{IsFramed, end_to_end, frames_loop_splits}
use xchg.Router.{
  Router, Addresses, Slice, slice_bytes, Answer, answer, hex_encode, lookup, storage_of,
  get_messages, answer_batch,
}
use xchg.HttpServer.Posted.{
  post_frames, frames_for, messages_for, contents-messages_for, messages_for-Ids,
  length-messages_for, length-frames_for, storage_of-post_frames,
}
use xchg.Peer.{Peer, Draws}
use xchg.Peer.Processing.{Receipt, receive_frame, process_frames_from_internet}
use xchg.Peer.Polling.{Source, answer_size, batch_of, begin_poll, end_poll, poll_answered}

-- A frame's bytes in a slice of their own.
abbrev pub whole : List ℕ → Slice
whole bytes = record { array = bytes; len = length bytes }

receive_frame-whole :
    (y : Library) (draws : ℕ → Draws) (s : Receipt) (frame : Slice) (bytes : List ℕ)
    → slice_bytes frame ≡ bytes
    → receive_frame y draws s frame ≡ receive_frame y draws s (whole bytes)
unfolding receive_frame
receive_frame-whole y draws s frame bytes e =
    rw (e, take-all (length bytes) bytes (omega arith), receive_frame) refl

handle_all-whole :
    (y : Library) (draws : ℕ → Draws) (sl : List Slice) (fs : List (List ℕ)) (s : Receipt)
    → map slice_bytes sl ≡ fs
    → handle_all (receive_frame y draws) s sl ≡ handle_all (receive_frame y draws) s (map whole fs)
unfolding handle_all
handle_all-whole y draws [] [] s e = refl
handle_all-whole y draws [] (f ∷ fs) s e = cc e
handle_all-whole y draws (x ∷ sl) [] s e = cc e
handle_all-whole y draws (x ∷ sl) (f ∷ fs) s e =
    let same : receive_frame y draws s x ≡ receive_frame y draws s (whole f) =
      receive_frame-whole y draws s x f (cc e) in
    elim (Option-cases (receive_frame y draws s (whole f))) [
      | inl stop ↦ rw (same, stop, handle_all) refl
      | inr (s', go) ↦ rw (same, go, handle_all) (handle_all-whole y draws sl fs s' (cc e))
    ]

-- The messages that a router holds for an address.
abbrev pub held : List ℕ → Addresses → List Message
held key m = elim (lookup key m) [ none ↦ [] | some s ↦ s.messages ]

storage_of-held :
    (key : List ℕ) (m : Addresses) (now : ℕ) → (storage_of key m now).messages ≡ held key m
unfolding storage_of new_storage
storage_of-held key m now = elim (Option-cases (lookup key m)) [
  | inl e ↦ rw (e, storage_of, held) refl
  | inr (s, e) ↦ rw (e, storage_of, held) refl
]

lookup-storage_of :
    (key : List ℕ) (m : Addresses) (now : ℕ)
    → held key m ≢ []
    → lookup key m ≡ some (storage_of key m now)
unfolding storage_of
lookup-storage_of key m now some_there = elim (Option-cases (lookup key m)) [
  | inl e ↦ absurd (some_there (rw (e, held) refl))
  | inr (s, e) ↦ e ∙ rw (e, storage_of) refl
]

get_messages-addresses :
    (c c' : Router) (request : Slice) (a : Answer)
    → get_messages c request ≡ some (a, c')
    → (c'.addresses ≡ c.addresses) × (c'.next_id ≡ c.next_id)
unfolding get_messages answer_batch
get_messages-addresses c c' request a e = ground arith

pub length-map {ℓ κ} :
    {A : Type ℓ} {B : Type κ} (f : A → B) (xs : List A) → length (map f xs) ≡ length xs
length-map f [] = refl
length-map f (x ∷ xs) = omega (arith, length-map f xs)

length-zero {ℓ} : {A : Type ℓ} (xs : List A) → length xs ≡ 0 → xs ≡ []
length-zero [] e = refl
length-zero (x ∷ xs) e = absurd (omega arith)

pub positive_length {ℓ} : {A : Type ℓ} (xs : List A) → xs ≢ [] → 0 < length xs
positive_length [] some_there = absurd (some_there refl)
positive_length (x ∷ xs) some_there = omega arith

-- The peer with this address is not asking the router, and has every message that the router holds
-- for it.
pub record IsCaughtUp (address : List ℕ) (c : Router) (src : Source) : Type 0 where
  pub free : src.getting ≡ false
  pub below : src.last_received < c.next_id
  pub all : Ids 0 (held (hex_encode address) c.addresses) (src.last_received + 1)

module _ (address : List ℕ) (bytes : All IsByte address) (size : length address ≡ 32) (c : Router)
    (src : Source) (up : IsCaughtUp address c src) (fs : List Frame) (now : ℕ)
    (to : All (λ (f : Frame). All IsByte f.dest_address) fs)
    (ids : c.next_id + length fs < word_mod) (mine : frames_for address fs ≢ []) where
  abbrev key : List ℕ
  key = hex_encode address

  abbrev news : List Message
  news = messages_for address c.next_id fs now

  abbrev before : Storage
  before = storage_of key c.addresses now

  some_news : news ≢ []
  some_news e =
      mine
        (length-zero _ (omega (arith, length-messages_for address c.next_id fs now, ap length e)))

  abbrev posted : Router
  posted = post_frames c fs now

  stored : storage_of key posted.addresses now ≡ put_all before news
  stored = storage_of-post_frames address bytes fs c now to ids

  module _ (room : length before.messages + length (frames_for address fs) ≤ before.max_messages)
      (fits : length (end_to_end (map marshal (frames_for address fs))) < answer_size) where
    room_for_news : length (before.messages ++ news) ≤ before.max_messages
    room_for_news = omega (
      arith,
      length-append before.messages news,
      length-messages_for address c.next_id fs now,
      room,
    )

    held-posted : held key posted.addresses ≡ before.messages ++ news
    held-posted =
        sym (storage_of-held key posted.addresses now)
        ∙ ap (λ (s : Storage). s.messages) stored
        ∙ (put_all-messages before news room_for_news).0

    known : lookup key posted.addresses ≡ some (put_all before news)
    known =
        lookup-storage_of key posted.addresses now (λ e. some_news (
          length-zero news
            (omega (arith, ap length (sym held-posted ∙ e), length-append before.messages news))))
        ∙ ap some stored

    before-ids : Ids 0 before.messages (src.last_received + 1)
    before-ids =
        subst (λ l. Ids 0 l (src.last_received + 1)) (sym (storage_of-held key c.addresses now))
          up.all

    batch-posted : batch_of (lookup key posted.addresses) src.last_received ≡ record {
      bytes = end_to_end (map marshal (frames_for address fs));
      last_id = last_id_or src.last_received news;
      count = length news;
    }
    batch-posted =
        let bytes-eq = contents-messages_for address c.next_id fs now in
        ap (λ (o : Option Storage). batch_of o src.last_received) known
        ∙ get_message-fresh c.next_id (c.next_id + length fs) before news src.last_received
            answer_size before-ids (messages_for-Ids address c.next_id fs now) up.below some_news
            (omega arith) room_for_news (rw bytes-eq fits)
        ∙ ap
            (λ b. record {
              bytes = b;
              last_id = last_id_or src.last_received news;
              count = length news;
            })
            bytes-eq
