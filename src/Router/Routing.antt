-- ===== src/Router/Routing.antt =====
-- Frames go to the storage of their address and to no other.
use xchg.Base.{
  ℕ, ◌+◌, ◌≤◌, ◌<◌, ◌≡◌, ◌≢◌, ap, ◌∙◌, sym, ◌⊎◌, inl, inr, Option, none, some, List, [], ◌∷◌, arith,
  ltb, bytes_eq, length, All, Bool-cases, le→not-ltb,
}
use xchg.Base.Words.{word_mod}
use xchg.Bytes.{IsByte, bytes_at}
use xchg.Storage.{Storage, put}
use xchg.Storage.Order.{Ids, Ids-weaken, new_storage-IsValid, put-IsValid, clear-IsValid}
use xchg.Storage.Order
use xchg.Router.{
  new_router, Router, Addresses, Slice, slice_bytes, Answer, hex_encode, lookup, insert, storage_of,
  put_to, put_frame, get_messages, live_addresses, th_clear_addresses,
}
use xchg.Router.Addresses.{lookup-insert_ne, hex_encode-injective}

-- Every storage of the table is valid for the ids below `hi`.
abbrev pub AllValid : ℕ → Addresses → Type 0
AllValid hi [] = Unit
AllValid hi ((k, s) ∷ m) = Order.IsValid hi s × AllValid hi m

Storage-weaken : (hi hi' : ℕ) (s : Storage) → hi ≤ hi' → Order.IsValid hi s → Order.IsValid hi' s
Storage-weaken hi hi' s h v = record {
  ids = Ids-weaken 0 0 s.messages hi hi' (omega arith) h v.ids;
  room = v.room;
}

AllValid-weaken : (hi hi' : ℕ) (m : Addresses) → hi ≤ hi' → AllValid hi m → AllValid hi' m
AllValid-weaken hi hi' [] h v = tt
AllValid-weaken hi hi' ((k, s) ∷ m) h (v, vs) =
    (Storage-weaken hi hi' s h v, AllValid-weaken hi hi' m h vs)

insert-AllValid :
    (hi : ℕ) (key : List ℕ) (s : Storage) (m : Addresses)
    → Order.IsValid hi s
    → AllValid hi m
    → AllValid hi (insert key s m)
unfolding insert
insert-AllValid hi key s [] v vs = (v, tt)
insert-AllValid hi key s ((k, t) ∷ m) v (w, vs) = elim (Bool-cases (bytes_eq k key)) [
  | inl e ↦ rw e (v, vs)
  | inr e ↦ rw e (w, insert-AllValid hi key s m v vs)
]

storage_of-IsValid :
    (hi : ℕ) (key : List ℕ) (m : Addresses) (now : ℕ)
    → AllValid hi m
    → Order.IsValid hi (storage_of key m now)
unfolding storage_of lookup
storage_of-IsValid hi key [] now vs = new_storage-IsValid hi now
storage_of-IsValid hi key ((k, s) ∷ m) now (v, vs) = elim (Bool-cases (bytes_eq k key)) [
  | inl e ↦ rw (e, storage_of, lookup) v
  | inr e ↦ rw (e, storage_of, lookup) (storage_of-IsValid hi key m now vs)
]

-- The ids of each storage rise, and are below the next one.
pub record IsValid (c : Router) : Type 0 where
  pub storages : AllValid c.next_id c.addresses

pub new_router-IsValid : (now : ℕ) → IsValid (new_router now)
unfolding new_router
new_router-IsValid now = record { storages = tt }

-- The destination that a frame names, and the address that a request is for.
abbrev pub dest_of : Slice → List ℕ
dest_of frame = bytes_at frame.array 64 32

abbrev pub requester : Slice → List ℕ
requester request = bytes_at request.array 16 32

pub put_frame_ok :
    (c : Router) (frame : Slice) (now : ℕ)
    → 96 ≤ length frame.array
    → put_frame c frame now ≡ some (put_to c (hex_encode (dest_of frame)) (slice_bytes frame) now)
unfolding put_frame
put_frame_ok c frame now h = rw (le→not-ltb (length frame.array) 96 h, put_frame)

-- `Put` panics exactly when the destination lies past the capacity. Otherwise it keeps the
-- invariant and takes the next id. (The counter of ids does not wrap.)
pub put_frame-IsValid :
    (c : Router) (frame : Slice) (now : ℕ)
    → IsValid c
    → c.next_id + 1 < word_mod
    → ((length frame.array < 96) × (put_frame c frame now ≡ none))
      ⊎ ((96 ≤ length frame.array)
          × (c' : Router) × (put_frame c frame now ≡ some c')
          × IsValid c'
          × (c'.next_id ≡ c.next_id + 1))
put_frame-IsValid c frame now v room = elim (Bool-cases (ltb (length frame.array) 96)) [
  | inl short ↦ inl (ground arith, unfold put_frame in rw (short, put_frame))
  | inr long ↦ inr (
    ground arith,
    put_to c (hex_encode (dest_of frame)) (slice_bytes frame) now,
    put_frame_ok c frame now (ground arith),
    record { storages = rw next (unfold put_to in stored) },
    next,
  )
]
  where
    next : (put_to c (hex_encode (dest_of frame)) (slice_bytes frame) now).next_id ≡ c.next_id + 1
    next = unfold put_to in omega arith

    key : List ℕ
    key = hex_encode (dest_of frame)

    stored : AllValid (c.next_id + 1) (
        insert key
          (put (storage_of key c.addresses now) c.next_id (slice_bytes frame) now)
          c.addresses)
    stored =
        insert-AllValid (c.next_id + 1) key _ c.addresses
          (put-IsValid c.next_id (storage_of key c.addresses now) c.next_id (slice_bytes frame) now
            (omega arith) (storage_of-IsValid c.next_id key c.addresses now v.storages))
          (AllValid-weaken c.next_id (c.next_id + 1) c.addresses (omega arith) v.storages)

-- What a requester is told.
abbrev pub told : Option (Answer × Router) → Option Answer
told none = none
told (some (a, c)) = some a

told-get_messages :
    (c c' : Router) (request : Slice)
    → lookup (hex_encode (requester request)) c.addresses
      ≡ lookup (hex_encode (requester request)) c'.addresses
    → told (get_messages c request) ≡ told (get_messages c' request)
unfolding get_messages
told-get_messages c c' request e = ground arith

-- A frame does not show to another address than its destination: a request for that address is
-- answered as it was before.
pub put_frame_isolated :
    (c c' : Router) (frame request : Slice) (now : ℕ)
    → put_frame c frame now ≡ some c'
    → All IsByte (dest_of frame)
    → All IsByte (requester request)
    → requester request ≢ dest_of frame
    → told (get_messages c' request) ≡ told (get_messages c request)
put_frame_isolated c c' frame request now e hd hr ne =
    told-get_messages c' c request
      (ap (lookup other) table ∙ lookup-insert_ne key other _ c.addresses apart)
  where
    key : List ℕ
    key = hex_encode (dest_of frame)

    other : List ℕ
    other = hex_encode (requester request)

    apart : key ≢ other
    apart q = ne (sym (hex_encode-injective (dest_of frame) (requester request) hd hr q))

    table :
        c'.addresses
        ≡ insert key
            (put (storage_of key c.addresses now) c.next_id (slice_bytes frame) now)
            c.addresses
    table = unfold put_frame put_to in ground arith

live_addresses-AllValid :
    (hi : ℕ) (m : Addresses) (now later : ℕ)
    → AllValid hi m
    → AllValid hi (live_addresses m now later)
unfolding live_addresses
live_addresses-AllValid hi [] now later vs = tt
live_addresses-AllValid hi ((k, s) ∷ m) now later (v, vs) =
    ground (arith, clear-IsValid hi s later v, live_addresses-AllValid hi m now later vs)

-- `thClearAddresses` keeps the invariant.
pub th_clear_addresses-IsValid :
    (c : Router) (now later : ℕ) → IsValid c → IsValid (th_clear_addresses c now later)
unfolding th_clear_addresses
th_clear_addresses-IsValid c now later v =
    ground (arith, live_addresses-AllValid c.next_id c.addresses now later v.storages)
