-- ===== src/HttpServer/Stalled.antt =====
-- router/http_server.go `processW`: a body that claims a frame of length 0.
use xchg.Base.{ℕ, ◌≤◌, ◌≡◌, ◌≢◌, none, some, arith, length}
use xchg.Bytes.{uint32_at}
use xchg.Router.{Router, Slice, put_frame, declare_http_request_w}
use xchg.Router.Routing.{put_frame_ok}
use xchg.Framing.{running, sub_slice, min_frame}
use xchg.Framing.Stall.{frames_loop_stalls}
use xchg.HttpServer.{process_w}

-- `Put` does not panic on an empty slice before at least 96 bytes.
put_empty :
    (body : Slice) (now : ℕ) (c : Router)
    → 96 ≤ length body.array
    → put_frame c (sub_slice body 0 0) now ≢ none
put_empty body now c room e = cc (put_frame_ok c (sub_slice body 0 0) now room, e)

-- A body of at least 69 bytes, in an array of at least 96, whose first four bytes are the length 0:
-- the loop of `processW` goes round for ever, no fuel is enough for it to end.
pub process_w_stalls :
    (fuel : ℕ) (c : Router) (body : Slice) (now : ℕ)
    → uint32_at body.array 0 ≡ 0
    → min_frame ≤ body.len
    → 96 ≤ length body.array
    → (c' : Router) × (process_w fuel c (some body) now ≡ running c')
unfolding process_w
process_w_stalls fuel c body now e long room =
    frames_loop_stalls (λ c frame. put_frame c frame now) fuel (declare_http_request_w c) body 0 e
      (omega arith) (λ s. put_empty body now s room)
