-- ===== src/Router/Tests.antt =====
-- The theorems at concrete inputs.
use xchg.Base.{
  map, ◌≤◌, ◌+◌, ◌<◌, ◌≡◌, ◌⊎◌, refl, true, false, none, some, [], ◌∷◌, ◌++◌, arith, length,
  replicate, All,
}
use xchg.Base.Words.{word_mod}
use xchg.Bytes.{IsByte}
use xchg.Router.{Router, Slice, new_router, put_frame, get_messages}
use xchg.Base.{ℕ, List, ◌*◌, ◌^◌, ltb, ◌==◌, ◌&&◌}
use xchg.Router.Hash.{check_hash}
use xchg.Router.Hash.Masks.{be_value, check_hash_iff}
use xchg.Router.Lifecycle.{System, Reach, looping, repeated_start}
use mathlib.Core.List.{Permᴰ}
use xchg.Router.{zero_statistics}
use xchg.Storage.{new_storage, put}
use xchg.Router.Reports.{Speed, address_text, speed_of, debug_info}
use xchg.Router.Reports.Sorted.{entry, debug_info-IsSorted}
use xchg.Sorting.{IsSorted}
use xchg.Router.Routing.{
  IsValid, told, dest_of, requester, new_router-IsValid, put_frame-IsValid, put_frame_isolated,
}

-- A frame for the address of 32 sevens, and a request for that of 32 fives.
abbrev frame : Slice
frame = record { array = replicate 64 0 ++ replicate 64 7; len = 128 }

abbrev request : Slice
request = record { array = replicate 16 0 ++ replicate 32 5; len = 48 }

new_router_room : (new_router 0).next_id + 1 < word_mod
unfolding new_router
new_router_room = omega arith

put_frame-IsValid_example :
    ((length frame.array < 96) × (put_frame (new_router 0) frame 3 ≡ none))
    ⊎ ((96 ≤ length frame.array)
        × (c' : Router) × (put_frame (new_router 0) frame 3 ≡ some c')
        × IsValid c'
        × (c'.next_id ≡ (new_router 0).next_id + 1))
put_frame-IsValid_example =
    put_frame-IsValid (new_router 0) frame 3 (new_router-IsValid 0) new_router_room

frame_run : (c' : Router) × (put_frame (new_router 0) frame 3 ≡ some c')
unfolding put_frame
frame_run = (_, refl)

sevens : All IsByte (dest_of frame)
sevens = ground arith

fives : All IsByte (requester request)
fives = ground arith

put_frame_isolated_example :
    told (get_messages frame_run.0 request) ≡ told (get_messages (new_router 0) request)
put_frame_isolated_example =
    put_frame_isolated (new_router 0) frame_run.0 frame request 3 frame_run.1 sevens fives
      (λ e. cc e)

idle_router : (c : Router) × (c.started ≡ false) × (c.stopping ≡ false)
unfolding new_router
idle_router = (new_router 0, refl, refl)

repeated_start_example :
    (t : System) × Reach (record { router = idle_router.0; workers = [] }) t
    × (length t.workers ≡ 0 + 3)
    × (t.router.started ≡ false)
    × (t.router.stopping ≡ false)
repeated_start_example = repeated_start idle_router.0 [] 3 idle_router.1 idle_router.2

abbrev stopping_system : System
stopping_system = record {
  router = record (new_router 0) { stopping = true; started = true };
  workers = looping ∷ [];
}

-- A hash with twelve zero bits at its start.
abbrev hash : List ℕ
hash = 0 ∷ 15 ∷ replicate 30 255

check_hash_iff_example :
    check_hash hash 12 ≡ some ((length hash == 32) && ltb (be_value hash * 2 ^ 12) (2 ^ 256))
check_hash_iff_example = check_hash_iff hash 12 (omega arith) (omega arith)

check_hash_runs : (check_hash hash 12 ≡ some true) × (check_hash hash 13 ≡ some false)
unfolding check_hash
check_hash_runs = (refl, refl)

abbrev two_addresses : Router
two_addresses = record (new_router 0) {
  addresses = (b'b' ∷ [], new_storage 0) ∷ (b'a' ∷ [], put (new_storage 0) 1 (4 ∷ []) 0) ∷ [];
}

abbrev speed : Speed
speed = speed_of (λ n. n) zero_statistics

debug_info-IsSorted_example :
    IsSorted address_text (debug_info two_addresses speed).addresses
    × Permᴰ (debug_info two_addresses speed).addresses (map entry two_addresses.addresses)
debug_info-IsSorted_example = debug_info-IsSorted two_addresses speed
