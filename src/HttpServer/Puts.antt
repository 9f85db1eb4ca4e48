-- ===== src/HttpServer/Puts.antt =====
-- `processW` on the frames that a peer sends.
use xchg.Base.{
  ℕ, zero, suc, ◌+◌, ◌≤◌, ◌<◌, ◌≡◌, refl, sym, ap, ◌∙◌, some, List, [], ◌∷◌, ◌++◌, map, arith,
  length, take, All, length-take, take-nil, min,
}
use xchg.Bytes.{bytes_at}
use xchg.Transaction.{Frame, marshal}
use xchg.Transaction.Wire.{FitsWire, length-marshal, length_at, dest_at}
use xchg.Router.{Router, Slice, slice_bytes, hex_encode, put_to, put_frame, declare_http_request_w}
use xchg.Router.Routing.{dest_of, put_frame_ok}
use xchg.Framing.{finished, handle_all}
use xchg.Framing.Split.{IsFramed, end_to_end, frames_loop_splits}
use xchg.HttpServer.{process_w}

pub bytes_at-take : (s : List ℕ) (n o k : ℕ) → o + k ≤ n → bytes_at (take n s) o k ≡ bytes_at s o k
bytes_at-take [] n o k h = rw (take-nil {A = ℕ} n) refl
bytes_at-take (x ∷ s) zero zero zero h = refl
bytes_at-take (x ∷ s) zero zero (suc k) h = absurd (omega arith)
bytes_at-take (x ∷ s) zero (suc o) k h = absurd (omega arith)
bytes_at-take (x ∷ s) (suc n) zero zero h = refl
bytes_at-take (x ∷ s) (suc n) zero (suc k) h =
    ap (λ t. x ∷ t) (bytes_at-take s n zero k (omega arith))
bytes_at-take (x ∷ s) (suc n) (suc o) k h = bytes_at-take s n o k (omega arith)

-- Each frame, in order, goes to the storage of its destination.
unfoldable pub put_frames : Router → List Frame → ℕ → Router
put_frames c [] now = c
put_frames c (f ∷ fs) now = put_frames (put_to c (hex_encode f.dest_address) (marshal f) now) fs now

marshal-IsFramed : (f : Frame) → FitsWire f → IsFramed (marshal f)
marshal-IsFramed f w = record {
  long = omega (arith, length-marshal f);
  own_length = length_at f w ∙ sym (length-marshal f);
}

pub All-IsFramed : (fs : List Frame) → All FitsWire fs → All IsFramed (map marshal fs)
All-IsFramed [] a = tt
All-IsFramed (f ∷ fs) (w, a) = (marshal-IsFramed f w, All-IsFramed fs a)

put_marshalled :
    (c : Router) (s : Slice) (f : Frame) (now : ℕ)
    → FitsWire f
    → slice_bytes s ≡ marshal f
    → put_frame c s now ≡ some (put_to c (hex_encode f.dest_address) (marshal f) now)
put_marshalled c s f now w e =
    let size : min s.len (length s.array) ≡ length (marshal f) =
      sym (length-take s.len s.array) ∙ ap length e in
    let dest : dest_of s ≡ f.dest_address =
      sym (bytes_at-take s.array s.len 64 32 (omega (arith, size, length-marshal f)))
      ∙ ap (λ t. bytes_at t 64 32) e
      ∙ dest_at f w in
    put_frame_ok c s now (omega (arith, size, length-marshal f))
    ∙ ap (λ d. some (put_to c (hex_encode d) (slice_bytes s) now)) dest
    ∙ ap (λ b. some (put_to c (hex_encode f.dest_address) b now)) e

handle_marshalled :
    (sl : List Slice) (fs : List Frame) (c : Router) (now : ℕ)
    → All FitsWire fs
    → map slice_bytes sl ≡ map marshal fs
    → handle_all (λ c s. put_frame c s now) c sl ≡ finished (put_frames c fs now)
unfolding handle_all put_frames
handle_marshalled [] [] c now a e = refl
handle_marshalled [] (f ∷ fs) c now a e = cc e
handle_marshalled (s ∷ sl) [] c now a e = cc e
handle_marshalled (s ∷ sl) (f ∷ fs) c now (w, a) e =
    rw (put_marshalled c s f now w (cc e), handle_all)
      (handle_marshalled sl fs (put_to c (hex_encode f.dest_address) (marshal f) now) now a (cc e))

-- A request of `processW` that holds marshalled frames end to end, in a slice that may have more
-- capacity, with fuel for each: the loop ends, nothing panics, the request is counted, and each
-- frame, in order, is put to the storage of its destination.
pub process_w_puts :
    (fs : List Frame) (spare : List ℕ) (fuel : ℕ) (c : Router) (now : ℕ)
    → All FitsWire fs
    → length (map marshal fs) < fuel
    → process_w fuel c
        (some (record {
          array = end_to_end (map marshal fs) ++ spare;
          len = length (end_to_end (map marshal fs));
        }))
        now
      ≡ finished (put_frames (declare_http_request_w c) fs now)
unfolding process_w
process_w_puts fs spare fuel c now a few =
    let body : Slice = record {
      array = end_to_end (map marshal fs) ++ spare;
      len = length (end_to_end (map marshal fs));
    } in
    let (sl, e, run) =
      frames_loop_splits (λ c s. put_frame c s now) (map marshal fs) fuel (declare_http_request_w c)
        body 0 spare (All-IsFramed fs a) few refl (omega arith) in
    run ∙ handle_marshalled sl fs (declare_http_request_w c) now a e
