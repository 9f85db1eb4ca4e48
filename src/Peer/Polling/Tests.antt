-- ===== src/Peer/Polling/Tests.antt =====
-- A poll at a concrete input.
use xchg.Base.{
  ℕ, ◌+◌, ◌*◌, ◌^◌, ◌<◌, ◌≡◌, refl, false, some, List, [], ◌∷◌, arith, length, replicate,
}
use xchg.Base.Words.{add64}
use xchg.Texts.{done}
use xchg.Storage.{Message, Storage, new_message}
use xchg.Storage.Collect.{contents, last_id_or}
use xchg.Storage.Order.{IsValid}
use xchg.Storage.Delivery.{pending}
use xchg.Router.{Router, answer, new_router, hex_encode, lookup, get_messages}
use xchg.Peer.Polling.{Source, begin_poll, end_poll}
use xchg.Peer.Polling.Pending.{delivery, poll_pending}

abbrev address : List ℕ
address = replicate 32 5

abbrev held : Storage
held = record {
  touch_dt = 0;
  messages = new_message 4 (1 ∷ 2 ∷ []) 0 ∷ new_message 6 (3 ∷ []) 0 ∷ [];
  max_messages = 1000;
}

abbrev router : Router
router = record (new_router 0) { addresses = (hex_encode address, held) ∷ [] }

abbrev source : Source
source = record { getting = false; reads = 7; last_received = 4 }

abbrev due : List Message
due = new_message 6 (3 ∷ []) 0 ∷ []

is_due : pending held.messages 4 ≡ due
unfolding pending new_message
is_due = refl

held-IsValid : IsValid 7 held
unfolding new_message
held-IsValid = record { ids = (omega arith, (omega arith, omega arith)); room = omega arith }

known : lookup (hex_encode address) router.addresses ≡ some held
unfolding lookup new_router hex_encode xchg.Base.bytes_eq
known = refl

fits :
    (length (contents (pending held.messages 4)) < 10 * 1024 * 1024)
    × (last_id_or 4 (pending held.messages 4) < 2 ^ 64)
unfolding contents last_id_or pending new_message
fits = (omega arith, omega arith)

poll_pending_example :
    (request : List ℕ) × (src' : Source) × (c' : Router) × (begin_poll address source
      ≡ (some request, src'))
    × (get_messages router (record { array = request; len = length request })
        ≡ some
            (answer (delivery 4 (pending held.messages 4)) (length (pending held.messages 4)), c'))
    × (end_poll src' (done (delivery 4 (pending held.messages 4))) ≡ (
      some (delivery 4 (pending held.messages 4)),
      record source {
        getting = false;
        reads = add64 7 1;
        last_received = last_id_or 4 (pending held.messages 4);
      },
    ))
poll_pending_example =
    poll_pending router source address held 7 refl (omega arith) refl known held-IsValid fits.0
      fits.1
