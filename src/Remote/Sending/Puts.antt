-- ===== src/Remote/Sending/Puts.antt =====
-- `Send` of a peer, up to the storages of the router that `GetRouterAddr` names.
use mathlib.Core.List.{append-nil}
use xchg.Base.{
  ℕ, ◌<◌, ◌≡◌, refl, false, ltb, ◌==◌, sym, bytes_eq, Option, ap, ◌∙◌, true, some, List, [], ◌∷◌,
  ◌++◌, arith, length, le→not-ltb,
}
use xchg.Texts.{Outcome, done, codes}
use xchg.Transaction.{Frame, header_size, marshal}
use xchg.Transaction.Wire.{FitsWire, length-marshal}
use xchg.Router.{Router, Slice, hex_encode, put_to, declare_http_request_w}
use xchg.Router.Reports.{Report}
use xchg.Framing.{finished}
use xchg.HttpServer.Puts.{put_frames, process_w_puts}
use xchg.HttpServer.Requests.{Base64, Request, form_data, serve_http}
use xchg.Remote.Sending.{send, http_call}

-- A form with the field "d", posted to `/api/w`.
abbrev pub posted : List ℕ → Request
posted d = record { method = codes "POST"; request_uri = codes "/api/w"; form_ok = true; d = d }

abbrev pub url : List ℕ
url = codes "http://localhost:8084/api/w"

http_call-posts :
    {X : Type 0} (b : Base64) (post : X → List ℕ → List ℕ → Outcome (List ℕ) × X) (x : X)
    (host function frame : List ℕ)
    → (length host == 0) ≡ false
    → ltb (length frame) header_size ≡ false
    → (http_call b post x host function frame).1
      ≡ (post x
          ((codes "http://" ++ host) ++ (codes "/api/" ++ function))
          (b.encode_to_string frame)).1
unfolding http_call
http_call-posts b post x host function frame e long = rw (e, long) refl

module _ (b : Base64) (fuel now : ℕ) (report : Report) where
  pub serve_http-puts :
      (c : Router) (f : Frame) (spare : List ℕ)
      → 1 < fuel
      → FitsWire f
      → b.decode_string (b.encode_to_string (marshal f))
        ≡ some (record { array = marshal f ++ spare; len = length (marshal f) })
      → serve_http b fuel now [] report c (posted (b.encode_to_string (marshal f)))
        ≡ finished
            ([], put_to (declare_http_request_w c) (hex_encode f.dest_address) (marshal f) now)
  unfolding serve_http xchg.HttpServer.route form_data bytes_eq put_frames
  serve_http-puts c f spare few w back =
      let decoded : List ℕ → Option Slice =
        λ bytes. some (record { array = bytes ++ spare; len = length bytes }) in
      rw
        (
          back ∙ ap decoded (sym (append-nil (marshal f))),
          process_w_puts (f ∷ []) spare fuel c now (w, tt) few,
        )
        refl

  -- Base64 decodes what it encoded, and the router serves what is posted to its address. Then
  -- `Send` of a frame that fits the wire counts a request and puts the frame to the storage of its
  -- destination.
  pub send-puts :
      (post : Router → List ℕ → List ℕ → Outcome (List ℕ) × Router)
      → ((bytes : List ℕ)
          → (spare : List ℕ) × (b.decode_string (b.encode_to_string bytes)
              ≡ some (record { array = bytes ++ spare; len = length bytes })))
      → ((c c' : Router) (d out : List ℕ)
          → serve_http b fuel now [] report c (posted d) ≡ finished (out, c')
          → post c url d ≡ (done out, c'))
      → (c : Router) (f : Frame) → 1 < fuel
      → FitsWire f
      → send b post c f
        ≡ put_to (declare_http_request_w c) (hex_encode f.dest_address) (marshal f) now
  unfolding send
  send-puts post decodes served c f few w =
      let (spare, back) = decodes (marshal f) in
      let sent =
        served c (put_to (declare_http_request_w c) (hex_encode f.dest_address) (marshal f) now)
          (b.encode_to_string (marshal f)) [] (serve_http-puts c f spare few w back) in
      http_call-posts b post c (codes "localhost:8084") (codes "w") (marshal f) refl
        (le→not-ltb (length (marshal f)) header_size (omega (arith, length-marshal f)))
      ∙ ap (λ r. r.1) sent
