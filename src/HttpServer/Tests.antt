-- ===== src/HttpServer/Tests.antt =====
-- The theorems at concrete inputs.
use xchg.Base.{replicate, ℕ, List, ◌≡◌, refl, some, [], ◌∷◌, ◌++◌, map, arith, length}
use xchg.Transaction.{Frame, new_frame, marshal}
use xchg.Transaction.Wire.{FitsWire}
use xchg.Router.{Slice, Router, new_router, declare_http_request_w}
use xchg.Framing.{Run, finished, panicked, running}
use xchg.Framing.Split.{end_to_end}
use xchg.HttpServer.{process_w}
use xchg.HttpServer.Stalled.{process_w_stalls}
use xchg.Bytes.{uint32_at}
use xchg.HttpServer.Puts.{put_frames, process_w_puts}
use xchg.HttpServer.Requests.{Base64}
use xchg.Router.Reports.{Report, speed_of, build_debug_string}
use xchg.Texts.{Outcome, done, failed}

abbrev pub call : Frame
call = new_frame 0x10 (1 ∷ 2 ∷ []) (3 ∷ []) 7 300 0 2 (5 ∷ 6 ∷ [])

pub call-FitsWire : FitsWire call
unfolding new_frame xchg.Bytes.copy_at
call-FitsWire = record {
  frame_type = omega arith;
  transaction_id = omega arith;
  session_id = omega arith;
  offset = omega arith;
  total_size = omega arith;
  src_address = refl;
  dest_address = refl;
  comment = refl;
  payload = omega arith;
}

process_w_puts_example :
    process_w 3
      (new_router 0)
      (some (record {
        array = end_to_end (map marshal (call ∷ call ∷ [])) ++ (0 ∷ []);
        len = length (end_to_end (map marshal (call ∷ call ∷ [])));
      }))
      4
    ≡ finished (put_frames (declare_http_request_w (new_router 0)) (call ∷ call ∷ []) 4)
process_w_puts_example =
    process_w_puts (call ∷ call ∷ []) (0 ∷ []) 3 (new_router 0) 4
      (call-FitsWire, (call-FitsWire, tt)) (omega arith)

abbrev pub no_report : Report
no_report =
    build_debug_string (λ n time. n) (λ info. []) (λ speed. []) (new_router 0)
      (speed_of (λ n. n) (new_router 0).stat)

-- An encoding that changes nothing.
abbrev pub plain : Base64
plain = record {
  encode_to_string = λ bytes. bytes;
  decode_string = λ text. some (record { array = text ++ (0 ∷ []); len = length text });
}

abbrev pub response : Router → Run (List ℕ × Router) → Outcome (List ℕ) × Router
response c (finished (out, c')) = (done out, c')
response c panicked = (failed [], c)
response c (running r) = (failed [], c)

-- A hundred zeros.
abbrev zeros : Slice
zeros = record { array = replicate 100 0; len = 100 }

zeros_length : uint32_at zeros.array 0 ≡ 0
unfolding uint32_at xchg.Bytes.le_value
zeros_length = refl

process_w_stalls_example :
    (c' : Router) × (process_w 1000 (new_router 0) (some zeros) 4 ≡ running c')
process_w_stalls_example =
    process_w_stalls 1000 (new_router 0) zeros 4 zeros_length (omega arith) (omega arith)
