-- ===== src/Router.antt =====
-- router/router.go: the state of a router, and what it does with frames and requests. Each method
-- is one step: the statistics are updated in the same step although the code does that unlocked.
pub mod Addresses
pub mod Routing
pub mod Lifecycle
pub mod Hash
pub mod Reports
mod Tests
use xchg.Base.{
  ℕ, zero, suc, ◌+◌, ◌-◌, ◌*◌, ◌%◌, ◌/◌, ◌<◌, Bool, true, false, Option, none, some, List, [], ◌∷◌,
  ltb, bytes_eq, if◌then◌else◌, length, take, drop, replicate, map,
}
use xchg.Base.Words.{add64}
use xchg.Bytes.{bytes_at, copy_at, put_uint64, uint64_at}
use xchg.Storage.{Storage, Message, Batch, new_storage, clear, put, get_message, elapsed, seconds}

-- A slice with its capacity: `array` is the underlying array from the slice's start to the end of
-- its capacity, and `len` the length.
pub record Slice : Type 0 where
  pub array : List ℕ
  pub len : ℕ

-- The bytes of a slice.
abbrev pub slice_bytes : Slice → List ℕ
slice_bytes s = take s.len s.array

-- `s[low : high]` for low ≤ high; Go allows `high` up to the capacity, and panics (`none`) beyond.
abbrev pub slice_range : Slice → ℕ → ℕ → Option (List ℕ)
slice_range s low high =
    if ltb (length s.array) high then none else some (bytes_at s.array low (high - low))

-- `RouterStatistics`.
pub record Statistics : Type 0 where
  pub frames_in : ℕ
  pub frames_out : ℕ
  pub bytes_in : ℕ
  pub bytes_out : ℕ
  pub http_requests : ℕ
  pub http_requests_r : ℕ
  pub http_requests_w : ℕ
  pub http_requests_n : ℕ
  pub http_requests_ns : ℕ
  pub http_requests_d : ℕ
  pub http_requests_s : ℕ
  pub http_requests_f : ℕ

abbrev pub zero_statistics : Statistics
zero_statistics = record {
  frames_in = 0;
  frames_out = 0;
  bytes_in = 0;
  bytes_out = 0;
  http_requests = 0;
  http_requests_r = 0;
  http_requests_w = 0;
  http_requests_n = 0;
  http_requests_ns = 0;
  http_requests_d = 0;
  http_requests_s = 0;
  http_requests_f = 0;
}

-- `map[string]*Storage`, by the hexadecimal text of the address, newest first.
abbrev pub Addresses : Type 0
Addresses = List (List ℕ × Storage)

pub record Router : Type 0 where
  pub started : Bool
  pub stopping : Bool
  pub next_id : ℕ
  pub addresses : Addresses
  pub stat : Statistics
  pub stat_last : Statistics
  pub stat_last_dt : ℕ
  pub clear_addresses_last_dt : ℕ
  pub http_server : Bool

-- `NewRouter`. `http_server` says that the field is not nil.
unfoldable pub new_router : ℕ → Router
new_router now = record {
  started = false;
  stopping = false;
  next_id = 1;
  addresses = [];
  stat = zero_statistics;
  stat_last = zero_statistics;
  stat_last_dt = now;
  clear_addresses_last_dt = now;
  http_server = false;
}

-- `hex.EncodeToString`.
unfoldable pub hex_digit : ℕ → ℕ
hex_digit n = if ltb n 10 then b'0' + n else b'a' + (n - 10)

unfoldable pub hex_encode : List ℕ → List ℕ
unfolding hex_digit
hex_encode [] = []
hex_encode (b ∷ bs) = hex_digit (b / 16) ∷ hex_digit (b % 16) ∷ hex_encode bs

unfoldable pub lookup : List ℕ → Addresses → Option Storage
lookup key [] = none
lookup key ((k, s) ∷ m) = if bytes_eq k key then some s else lookup key m

-- The write of a map entry.
unfoldable pub insert : List ℕ → Storage → Addresses → Addresses
insert key s [] = (key, s) ∷ []
insert key s ((k, t) ∷ m) = if bytes_eq k key then (k, s) ∷ m else (k, t) ∷ insert key s m

-- The storage of an address, or a new one.
unfoldable pub storage_of : List ℕ → Addresses → ℕ → Storage
unfolding lookup
storage_of key m now = elim (lookup key m) [ none ↦ new_storage now | some s ↦ s ]

unfoldable pub put_to : Router → List ℕ → List ℕ → ℕ → Router
unfolding storage_of insert
put_to c key frame now = record c {
  addresses = insert key (put (storage_of key c.addresses now) c.next_id frame now) c.addresses;
  next_id = add64 c.next_id 1;
  stat = record c.stat {
    frames_in = add64 c.stat.frames_in 1;
    bytes_in = add64 c.stat.bytes_in (length frame);
  };
}

-- `Put`; `none` is the panic of `frame[64 : 96]` past the capacity.
unfoldable pub put_frame : Router → Slice → ℕ → Option Router
unfolding put_to hex_encode
put_frame c frame now = elim (slice_range frame 64 (64 + 32)) [
  | none ↦ none
  | some dest ↦ some (put_to c (hex_encode dest) (slice_bytes frame) now)
]

-- The results of `GetMessages`.
pub data Answer : Type 0 where
  wrong_frame_size : Answer
  answer : List ℕ → ℕ → Answer

unfoldable pub answer_batch : Router → Batch → Answer × Router
answer_batch c b = (
  answer (copy_at (put_uint64 (replicate (8 + length b.bytes) 0) 0 b.last_id) 8 b.bytes) b.count,
  record c {
    stat = record c.stat {
      frames_out = add64 c.stat.frames_out b.count;
      bytes_out = add64 c.stat.bytes_out (length b.bytes);
    };
  },
)

-- `GetMessages`; `none` is the panic of `frame[16 : 48]` past the capacity.
unfoldable pub get_messages : Router → Slice → Option (Answer × Router)
unfolding answer_batch hex_encode lookup
get_messages c frame =
    if ltb frame.len 46 then some (wrong_frame_size, c) else elim (slice_range frame 16 (16 + 32)) [
      | none ↦ none
      | some src ↦ elim (lookup (hex_encode src) c.addresses) [
        | none ↦ some (answer (put_uint64 (replicate 8 0) 0 0) 0, c)
        | some s ↦
            some
              (answer_batch c (get_message s (uint64_at frame.array 0) (uint64_at frame.array 8)))
      ]
    ]

-- `DeclareHttpRequestR` and its kin: each counts the request and one kind of it.
unfoldable pub declare_http_request_r : Router → Router
declare_http_request_r c = record c {
  stat = record c.stat {
    http_requests = add64 c.stat.http_requests 1;
    http_requests_r = add64 c.stat.http_requests_r 1;
  };
}

unfoldable pub declare_http_request_w : Router → Router
declare_http_request_w c = record c {
  stat = record c.stat {
    http_requests = add64 c.stat.http_requests 1;
    http_requests_w = add64 c.stat.http_requests_w 1;
  };
}

unfoldable pub declare_http_request_n : Router → Router
declare_http_request_n c = record c {
  stat = record c.stat {
    http_requests = add64 c.stat.http_requests 1;
    http_requests_n = add64 c.stat.http_requests_n 1;
  };
}

unfoldable pub declare_http_request_ns : Router → Router
declare_http_request_ns c = record c {
  stat = record c.stat {
    http_requests = add64 c.stat.http_requests 1;
    http_requests_ns = add64 c.stat.http_requests_ns 1;
  };
}

unfoldable pub declare_http_request_d : Router → Router
declare_http_request_d c = record c {
  stat = record c.stat {
    http_requests = add64 c.stat.http_requests 1;
    http_requests_d = add64 c.stat.http_requests_d 1;
  };
}

unfoldable pub declare_http_request_s : Router → Router
declare_http_request_s c = record c {
  stat = record c.stat {
    http_requests = add64 c.stat.http_requests 1;
    http_requests_s = add64 c.stat.http_requests_s 1;
  };
}

unfoldable pub declare_http_request_f : Router → Router
declare_http_request_f c = record c {
  stat = record c.stat {
    http_requests = add64 c.stat.http_requests 1;
    http_requests_f = add64 c.stat.http_requests_f 1;
  };
}

-- The loop of `thClearAddresses`: addresses with no message for more than ten seconds go, and the
-- storages of the others are cleared (at `later`, when `Clear` reads the clock).
unfoldable pub live_addresses : Addresses → ℕ → ℕ → Addresses
live_addresses [] now later = []
live_addresses ((k, s) ∷ m) now later =
    if ltb (seconds 10) (elapsed now s.touch_dt)
    then live_addresses m now later
    else (k, clear s later) ∷ live_addresses m now later

-- `thClearAddresses`.
unfoldable pub th_clear_addresses : Router → ℕ → ℕ → Router
unfolding live_addresses
th_clear_addresses c now later =
    if ltb (elapsed now c.clear_addresses_last_dt) (seconds 1) then c else record c {
      addresses = live_addresses c.addresses now later;
      clear_addresses_last_dt = now;
    }
