-- ===== src/HttpServer/Posted.antt =====
-- The storages of a router after a row of frames that were posted to router/http_server.go
-- `processW`, one in each request.
use xchg.Base.{
  ℕ, true, ap, suc, ◌+◌, ◌≤◌, ◌<◌, ◌≡◌, ◌≢◌, refl, ◌∙◌, inl, inr, List, [], ◌∷◌, arith, length, map,
  All, bytes_eq, bytes_eq→eq, bytes_eq_refl, Bool-cases, if◌then◌else◌,
}
use mathlib.Core.Path.{subst}
use xchg.Base.Words.{word_mod}
use xchg.Bytes.{IsByte}
use xchg.Transaction.{Frame, marshal}
use xchg.Storage.{Message, Storage, new_message, put}
use xchg.Storage.Collect.{contents}
use xchg.Storage.Order.{Ids, Ids-weaken}
use xchg.Storage.Polls.{put_all}
use xchg.Framing.Split.{end_to_end}
use xchg.Router.{Router, Addresses, hex_encode, insert, storage_of, put_to, declare_http_request_w}
use xchg.Router.Addresses.{lookup-insert_self, lookup-insert_ne, hex_encode-injective}

-- A request for each frame, all at the time `now`.
unfoldable pub post_frames : Router → List Frame → ℕ → Router
post_frames c [] now = c
post_frames c (f ∷ fs) now =
    post_frames (put_to (declare_http_request_w c) (hex_encode f.dest_address) (marshal f) now) fs
      now

-- The frames for one address.
unfoldable pub frames_for : List ℕ → List Frame → List Frame
frames_for address [] = []
frames_for address (f ∷ fs) =
    if bytes_eq f.dest_address address then f ∷ frames_for address fs else frames_for address fs

pub frames_for-own :
    (address : List ℕ) (fs : List Frame)
    → All (λ (f : Frame). f.dest_address ≡ address) fs
    → frames_for address fs ≡ fs
unfolding frames_for
frames_for-own address [] a = refl
frames_for-own address (f ∷ fs) (at, a) =
    let mine : bytes_eq f.dest_address address ≡ true =
      ap (λ d. bytes_eq d address) at ∙ bytes_eq_refl address in
    rw (mine, frames_for-own address fs a) refl

pub frames_for-All :
    (P : Frame → Type 0) (address : List ℕ) (fs : List Frame)
    → All P fs
    → All P (frames_for address fs)
unfolding frames_for
frames_for-All P address [] a = tt
frames_for-All P address (f ∷ fs) (p, a) = ground (arith, frames_for-All P address fs a)

-- The messages that they are, when the next id is `id`.
unfoldable pub messages_for : List ℕ → ℕ → List Frame → ℕ → List Message
messages_for address id [] now = []
messages_for address id (f ∷ fs) now =
    if bytes_eq f.dest_address address
    then new_message id (marshal f) now ∷ messages_for address (id + 1) fs now
    else messages_for address (id + 1) fs now

pub contents-messages_for :
    (address : List ℕ) (id : ℕ) (fs : List Frame) (now : ℕ)
    → contents (messages_for address id fs now) ≡ end_to_end (map marshal (frames_for address fs))
unfolding messages_for frames_for contents new_message
contents-messages_for address id [] now = refl
contents-messages_for address id (f ∷ fs) now =
    ground (arith, contents-messages_for address (id + 1) fs now)

pub length-messages_for :
    (address : List ℕ) (id : ℕ) (fs : List Frame) (now : ℕ)
    → length (messages_for address id fs now) ≡ length (frames_for address fs)
unfolding messages_for frames_for
length-messages_for address id [] now = refl
length-messages_for address id (f ∷ fs) now =
    ground (arith, length-messages_for address (id + 1) fs now)

pub length-frames_for :
    (address : List ℕ) (fs : List Frame) → length (frames_for address fs) ≤ length fs
unfolding frames_for
length-frames_for address [] = omega arith
length-frames_for address (f ∷ fs) = ground (arith, length-frames_for address fs)

pub messages_for-Ids :
    (address : List ℕ) (id : ℕ) (fs : List Frame) (now : ℕ)
    → Ids id (messages_for address id fs now) (id + length fs)
unfolding messages_for new_message
messages_for-Ids address id [] now = omega arith
messages_for-Ids address id (f ∷ fs) now =
    let rest = messages_for address (id + 1) fs now in
    let ids : Ids (id + 1) rest (id + suc (length fs)) =
      Ids-weaken (id + 1) (id + 1) rest (id + 1 + length fs) (id + suc (length fs)) (omega arith)
        (omega arith) (messages_for-Ids address (id + 1) fs now) in
    elim (Bool-cases (bytes_eq f.dest_address address)) [
      | inl same ↦ rw same (omega arith, ids)
      | inr other ↦ rw other (Ids-weaken (id + 1) id rest _ _ (omega arith) (omega arith) ids)
    ]

storage_of-insert_self :
    (key : List ℕ) (s : Storage) (m : Addresses) (now : ℕ) → storage_of key (insert key s m) now ≡ s
unfolding storage_of
storage_of-insert_self key s m now = rw (lookup-insert_self key s m, storage_of) refl

storage_of-insert_ne :
    (key key' : List ℕ) (s : Storage) (m : Addresses) (now : ℕ)
    → key ≢ key'
    → storage_of key' (insert key s m) now ≡ storage_of key' m now
unfolding storage_of
storage_of-insert_ne key key' s m now ne = rw (lookup-insert_ne key key' s m ne, storage_of) refl

-- The router after one request.
abbrev pub after_post : Router → Frame → ℕ → Router
after_post c f now = put_to (declare_http_request_w c) (hex_encode f.dest_address) (marshal f) now

after_post-next_id :
    (c : Router) (f : Frame) (now : ℕ)
    → c.next_id + 1 < word_mod
    → (after_post c f now).next_id ≡ c.next_id + 1
unfolding put_to declare_http_request_w
after_post-next_id c f now room = omega arith

pub post_frames-next_id :
    (c : Router) (fs : List Frame) (now : ℕ)
    → c.next_id + length fs < word_mod
    → (post_frames c fs now).next_id ≡ c.next_id + length fs
unfolding post_frames
post_frames-next_id c [] now room = omega arith
post_frames-next_id c (f ∷ fs) now room =
    let id = after_post-next_id c f now (omega arith) in
    omega (arith, id, post_frames-next_id (after_post c f now) fs now (omega (arith, id)))

after_post-stores :
    (c : Router) (f : Frame) (now : ℕ)
    → storage_of (hex_encode f.dest_address) (after_post c f now).addresses now
      ≡ put (storage_of (hex_encode f.dest_address) c.addresses now) c.next_id (marshal f) now
unfolding put_to declare_http_request_w
after_post-stores c f now = storage_of-insert_self (hex_encode f.dest_address) _ c.addresses now

after_post-keeps :
    (c : Router) (f : Frame) (key : List ℕ) (now : ℕ)
    → hex_encode f.dest_address ≢ key
    → storage_of key (after_post c f now).addresses now ≡ storage_of key c.addresses now
unfolding put_to declare_http_request_w
after_post-keeps c f key now ne =
    storage_of-insert_ne (hex_encode f.dest_address) key _ c.addresses now ne

module _ (address : List ℕ) (bytes : All IsByte address) where
  abbrev key : List ℕ
  key = hex_encode address

  -- The frames for the address are put to its storage, in order, with rising ids, and no others.
  pub storage_of-post_frames :
      (fs : List Frame) (c : Router) (now : ℕ)
      → All (λ (f : Frame). All IsByte f.dest_address) fs
      → c.next_id + length fs < word_mod
      → storage_of key (post_frames c fs now).addresses now
        ≡ put_all (storage_of key c.addresses now) (messages_for address c.next_id fs now)
  unfolding post_frames messages_for put_all new_message
  storage_of-post_frames [] c now a room = refl
  storage_of-post_frames (f ∷ fs) c now (b, a) room =
      let id = after_post-next_id c f now (omega arith) in
      let rest = storage_of-post_frames fs (after_post c f now) now a (omega (arith, id)) in
      elim (Bool-cases (bytes_eq f.dest_address address)) [
        | inl same ↦
            let at : f.dest_address ≡ address = bytes_eq→eq f.dest_address address same in
            let stored : storage_of key (after_post c f now).addresses now
                ≡ put (storage_of key c.addresses now) c.next_id (marshal f) now =
              subst
                (λ a.
                  storage_of (hex_encode a) (after_post c f now).addresses now
                  ≡ put (storage_of (hex_encode a) c.addresses now) c.next_id (marshal f) now)
                at (after_post-stores c f now) in
            rw same (rest ∙ rw (stored, id) refl)
        | inr other ↦
            let apart : hex_encode f.dest_address ≢ key = λ e. ground (
              arith,
              hex_encode-injective f.dest_address address b bytes e,
              bytes_eq_refl address,
            ) in
            rw other (rest ∙ rw (after_post-keeps c f key now apart, id) refl)
      ]
