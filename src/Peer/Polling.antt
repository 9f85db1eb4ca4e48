-- ===== src/Peer/Polling.antt =====
-- xchg/peer_receiving.go: how a peer asks a router for its frames, and router/router.go: what it is
-- told.
pub mod Pending
mod Tests
use xchg.Base.{
  ℕ, ◌+◌, ◌-◌, ◌*◌, ◌^◌, ◌≤◌, ◌<◌, ◌≡◌, refl, sym, ap, ◌∙◌, Bool, true, false, Option, none, some,
  List, [], ◌∷◌, ◌++◌, ltb, arith, if◌then◌else◌, length, take, drop, replicate, length-append,
  take-all, drop-length-append, take-length-append, le→not-ltb, inl, inr, Option-cases,
}
use mathlib.Core.List.{append-nil, append_assoc}
use xchg.Base.Words.{add64}
use xchg.Bytes.{
  le_bytes, le_value, length-le_bytes, uint64-le_bytes, uint64_at, put_uint64, copy_at, copy_next,
  bytes_at,
}
use xchg.Texts.{Outcome, done, failed}
use xchg.Storage.{Storage, Batch, get_message}
use xchg.Router.{
  Router, Slice, Answer, answer, wrong_frame_size, get_messages, hex_encode, lookup, answer_batch,
}

-- What a peer keeps of one router: `gettingFromInternet`, `routerStatRead` and
-- `lastReceivedMessageId` at its address.
pub record Source : Type 0 where
  pub getting : Bool
  pub reads : ℕ
  pub last_received : ℕ

-- The size of an answer that a peer asks for.
abbrev pub answer_size : ℕ
answer_size = 10 * 1024 * 1024

-- The request: the last id, the size, and the peer's address.
unfoldable pub poll_request : ℕ → List ℕ → List ℕ
poll_request from_id address =
    let request = replicate (8 + 8 + 32) 0 in
    let request = put_uint64 request 0 from_id in
    let request = put_uint64 request 8 answer_size in copy_at request 16 address

-- `getFramesFromRouter`, up to the request; `none` if another one is under way.
unfoldable pub begin_poll : List ℕ → Source → Option (List ℕ) × Source
unfolding poll_request
begin_poll address c = if c.getting then (none, c) else (
  some (poll_request c.last_received address),
  record c { getting = true; reads = add64 c.reads 1 },
)

-- The rest of `getFramesFromRouter`, and the deferred reset: the answer for
-- `processFramesFromInternet`, if there is one.
unfoldable pub end_poll : Source → Outcome (List ℕ) → Option (List ℕ) × Source
end_poll c (failed e) = (none, record c { getting = false })
end_poll c (done res) =
    let c' = record c { getting = false } in
    if ltb (length res) 8
    then (none, c')
    else (some res, record c' { last_received = uint64_at res 0 })

module _ (from_id : ℕ) (address : List ℕ) (word : from_id < 2 ^ 64)
    (size : length address ≡ 32) where
  abbrev head : List ℕ
  head = le_bytes 8 from_id

  abbrev limit : List ℕ
  limit = le_bytes 8 answer_size

  poll_request-eq : poll_request from_id address ≡ head ++ limit ++ address
  unfolding poll_request put_uint64 le_bytes
  poll_request-eq =
      ap (λ s. copy_at (copy_at s 8 limit) 16 address)
        (copy_next [] head 0 48 40 refl (omega (arith, length-le_bytes 8 from_id)))
      ∙ ap (λ s. copy_at s 16 address)
          (copy_next head limit 8 40 32 (omega (arith, length-le_bytes 8 from_id))
            (omega (arith, length-le_bytes 8 answer_size)))
      ∙ copy_next (head ++ limit) address 16 32 0
          (omega (
            arith,
            length-append head limit,
            length-le_bytes 8 from_id,
            length-le_bytes 8 answer_size,
          ))
          (omega (arith, size))
      ∙ append-nil ((head ++ limit) ++ address)
      ∙ append_assoc head limit address

  abbrev request : List ℕ
  request = poll_request from_id address

  abbrev slice : Slice
  slice = record { array = request; len = length request }

  pub length-request : length request ≡ 48
  unfolding le_bytes
  length-request = rw poll_request-eq (omega (arith, size))

  from_sent : uint64_at request 0 ≡ from_id
  unfolding uint64_at le_bytes
  from_sent = rw poll_request-eq (uint64-le_bytes from_id word)

  size_sent : uint64_at request 8 ≡ answer_size
  unfolding uint64_at le_bytes
  size_sent = rw poll_request-eq (uint64-le_bytes answer_size (omega arith))

  address_sent : bytes_at request 16 32 ≡ address
  unfolding le_bytes
  address_sent = rw poll_request-eq (take-all 32 address (omega (arith, size)))

response-eq :
    (id : ℕ) (bytes : List ℕ)
    → copy_at (put_uint64 (replicate (8 + length bytes) 0) 0 id) 8 bytes ≡ le_bytes 8 id ++ bytes
unfolding put_uint64 le_bytes
response-eq id bytes =
    ap (λ s. copy_at s 8 bytes)
      (copy_next [] (le_bytes 8 id) 0 (8 + length bytes) (length bytes) refl
        (omega (arith, length-le_bytes 8 id)))
    ∙ copy_next (le_bytes 8 id) bytes 8 (length bytes) 0 (length-le_bytes 8 id) (omega arith)
    ∙ append-nil (le_bytes 8 id ++ bytes)

id_read : (id : ℕ) (bytes : List ℕ) → id < 2 ^ 64 → uint64_at (le_bytes 8 id ++ bytes) 0 ≡ id
unfolding uint64_at le_bytes
id_read id bytes word = uint64-le_bytes id word

end_poll-eq :
    (c : Source) (id : ℕ) (bytes : List ℕ)
    → id < 2 ^ 64
    → end_poll c (done (le_bytes 8 id ++ bytes))
      ≡ (some (le_bytes 8 id ++ bytes), record c { getting = false; last_received = id })
unfolding end_poll
end_poll-eq c id bytes word =
    let long : ltb (length (le_bytes 8 id ++ bytes)) 8 ≡ false =
      le→not-ltb (length (le_bytes 8 id ++ bytes)) 8
        (omega (arith, length-append (le_bytes 8 id) bytes, length-le_bytes 8 id)) in
    rw (long, id_read id bytes word, end_poll) refl

-- What a storage, if there is one, has for a peer after an id.
abbrev pub batch_of : Option Storage → ℕ → Batch
batch_of none after_id = record { bytes = []; last_id = 0; count = 0 }
batch_of (some s) after_id = get_message s after_id answer_size

module _ (c : Router) (src : Source) (address : List ℕ) (size : length address ≡ 32)
    (word : src.last_received < 2 ^ 64) where
  abbrev sent : Slice
  sent = slice src.last_received address word size

  long_enough : ltb sent.len 46 ≡ false
  long_enough =
      le→not-ltb sent.len 46 (omega (arith, length-request src.last_received address word size))

  in_reach : ltb (length sent.array) 48 ≡ false
  in_reach =
      le→not-ltb (length sent.array) 48
        (omega (arith, length-request src.last_received address word size))

  looked_up :
      lookup (hex_encode (bytes_at sent.array 16 32)) c.addresses
      ≡ lookup (hex_encode address) c.addresses
  looked_up =
      ap (λ a. lookup (hex_encode a) c.addresses) (address_sent src.last_received address word size)

  get_messages-known :
      (s : Storage)
      → lookup (hex_encode address) c.addresses ≡ some s
      → get_messages c sent ≡ some (answer_batch c (get_message s src.last_received answer_size))
  unfolding get_messages
  get_messages-known s known =
      rw
        (
          long_enough,
          in_reach,
          looked_up ∙ known,
          from_sent src.last_received address word size,
          size_sent src.last_received address word size,
          get_messages,
        )
        refl

  get_messages-unknown :
      lookup (hex_encode address) c.addresses ≡ none
      → get_messages c sent ≡ some (answer (le_bytes 8 0) 0, c)
  unfolding get_messages put_uint64 le_bytes copy_at
  get_messages-unknown unknown = rw (long_enough, in_reach, looked_up ∙ unknown, get_messages) refl

  abbrev batch : Batch
  batch = batch_of (lookup (hex_encode address) c.addresses) src.last_received

  abbrev told_bytes : List ℕ
  told_bytes = le_bytes 8 batch.last_id ++ batch.bytes

  answered : (c' : Router) × (get_messages c sent ≡ some (answer told_bytes batch.count, c'))
  answered = elim (Option-cases (lookup (hex_encode address) c.addresses)) [
    | inl unknown ↦ (c, get_messages-unknown unknown ∙ rw (unknown, append-nil (le_bytes 8 0)) refl)
    | inr (s, known) ↦
        let b = get_message s src.last_received answer_size in
        (
          (answer_batch c b).1,
          get_messages-known s known
              ∙ (unfold answer_batch in rw (known, response-eq b.last_id b.bytes) refl),
        )
  ]

  -- A peer that is not asking a router already asks it with the id of the last message that it
  -- received; the router answers with the messages of the peer's address after that id, in at most
  -- 10 MB, and none and the id 0 if it does not know the address; the peer takes the last id of the
  -- answer as its own, hands on its frames, and can ask again. (The ids fit 64 bits.)
  pub poll_answered :
      src.getting ≡ false
      → batch.last_id < 2 ^ 64
      → (request : List ℕ) × (src' : Source) × (c' : Router) × (begin_poll address src
          ≡ (some request, src'))
        × (get_messages c (record { array = request; len = length request })
            ≡ some (answer told_bytes batch.count, c'))
        × (end_poll src' (done told_bytes) ≡ (
          some (le_bytes 8 batch.last_id ++ batch.bytes),
          record src { getting = false; reads = add64 src.reads 1; last_received = batch.last_id },
        ))
  unfolding begin_poll
  poll_answered free fits =
      let src' : Source = record src { getting = true; reads = add64 src.reads 1 } in
      (
        poll_request src.last_received address,
        src',
        answered.0,
        rw (free, begin_poll) refl,
        answered.1,
        end_poll-eq src' batch.last_id batch.bytes fits,
      )
