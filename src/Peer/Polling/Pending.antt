-- ===== src/Peer/Polling/Pending.antt =====
-- What a peer gets of the messages that a router holds for it, when it asks.
use xchg.Base.{ℕ, ◌*◌, ◌<◌, ◌^◌, ◌≡◌, ap, ◌∙◌, false, some, List, ◌++◌, arith, length}
use mathlib.Core.Path.{subst}
use xchg.Base.Words.{add64}
use xchg.Bytes.{le_bytes}
use xchg.Texts.{done}
use xchg.Storage.{Message, Storage, Batch}
use xchg.Storage.Collect.{contents, last_id_or}
use xchg.Storage.Order.{IsValid}
use xchg.Storage.Delivery.{pending, get_message-pending}
use xchg.Storage.Delivery as Delivery
use xchg.Router.{Router, answer, get_messages, hex_encode, lookup}
use xchg.Peer.Polling.{Source, answer_size, batch_of, begin_poll, end_poll, poll_answered}

-- The answer that delivers messages to a reader at an id.
abbrev pub delivery : ℕ → List Message → List ℕ
delivery after_id ms = le_bytes 8 (last_id_or after_id ms) ++ contents ms

module _ (c : Router) (src : Source) (address : List ℕ) (s : Storage) where
  abbrev due : List Message
  due = pending s.messages src.last_received

  -- A peer that is not asking a router already asks it, and the router has a storage for the peer's
  -- address, in which the ids rise and what the peer has still to get (the messages after the last id
  -- that it received, or all when that is above the ids of all) is less than 10 MB. Then the router
  -- answers with the bytes of exactly these messages, in order, and the id of the last of them; the
  -- peer hands on these bytes, takes this id as its own, and can ask again. (The ids fit 64 bits.)
  pub poll_pending :
      (hi : ℕ)
      → length address ≡ 32
      → src.last_received < 2 ^ 64
      → src.getting ≡ false
      → lookup (hex_encode address) c.addresses ≡ some s
      → IsValid hi s
      → length (contents (pending s.messages src.last_received)) < 10 * 1024 * 1024
      → last_id_or src.last_received (pending s.messages src.last_received) < 2 ^ 64
      → (request : List ℕ) × (src' : Source) × (c' : Router) × (begin_poll address src
          ≡ (some request, src'))
        × (get_messages c (record { array = request; len = length request })
            ≡ some (
              answer
                  (delivery src.last_received (pending s.messages src.last_received))
                  (length (pending s.messages src.last_received)),
              c',
            ))
        × (end_poll src' (done (delivery src.last_received (pending s.messages src.last_received)))
            ≡ (
              some (delivery src.last_received (pending s.messages src.last_received)),
              record src {
                getting = false;
                reads = add64 src.reads 1;
                last_received = last_id_or src.last_received (pending s.messages src.last_received);
              },
            ))
  poll_pending hi size word free known v fits last =
      let got : batch_of (lookup (hex_encode address) c.addresses) src.last_received
          ≡ Delivery.batch_of src.last_received due =
        ap (λ o. batch_of o src.last_received) known
        ∙ get_message-pending hi s src.last_received answer_size v (omega arith)
            (omega (arith, fits)) in
      subst
        (λ (b : Batch).
          (request : List ℕ) × (src' : Source) × (c' : Router) × (begin_poll address src
            ≡ (some request, src'))
          × (get_messages c (record { array = request; len = length request })
              ≡ some (answer (le_bytes 8 b.last_id ++ b.bytes) b.count, c'))
          × (end_poll src' (done (le_bytes 8 b.last_id ++ b.bytes)) ≡ (
            some (le_bytes 8 b.last_id ++ b.bytes),
            record src { getting = false; reads = add64 src.reads 1; last_received = b.last_id },
          )))
        got (poll_answered c src address size word free (rw got last))
