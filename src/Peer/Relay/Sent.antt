-- ===== src/Peer/Relay/Sent.antt =====
-- The frames that a peer sends over HTTP, at the router: xchg/peer_receiving.go, xchg/peer_utils.go
-- and router/http_server.go.
use xchg.Base.{ℕ, ◌<◌, ◌≡◌, refl, ap, ◌∙◌, false, some, List, [], ◌∷◌, ◌++◌, ◌==◌, length, All}
use xchg.Texts.{Outcome, done, codes}
use xchg.Transaction.{Frame, marshal}
use xchg.Transaction.Wire.{FitsWire}
use xchg.Framing.{finished}
use xchg.Router.{Router}
use xchg.Router.Reports.{Report}
use xchg.HttpServer.Requests.{Base64, serve_http}
use xchg.HttpServer.Posted.{post_frames, after_post}
use xchg.Remote.Sending.Puts.{posted, url, serve_http-puts, send-puts}
use xchg.Remote.Sending.{send_frames}
use xchg.Peer.Posting.{http_call, send_responses}

http_call-posts :
    {X : Type 0} (b : Base64) (post : X → List ℕ → List ℕ → Outcome (List ℕ) × X) (x : X)
    (host function frame : List ℕ)
    → (length host == 0) ≡ false
    → (http_call b post x host function frame).1
      ≡ (post x
          ((codes "http://" ++ host) ++ (codes "/api/" ++ function))
          (b.encode_to_string frame)).1
unfolding http_call
http_call-posts b post x host function frame e = rw e refl

-- What `DecodeString` promises of what was encoded.
abbrev pub Decodes : Base64 → Type 0
Decodes b =
    (bytes : List ℕ)
    → (spare : List ℕ) × (b.decode_string (b.encode_to_string bytes)
        ≡ some (record { array = bytes ++ spare; len = length bytes }))

module _ (b : Base64) (fuel now : ℕ) (report : Report) where
  -- The router serves what is posted to its address.
  abbrev pub Serves : (Router → List ℕ → List ℕ → Outcome (List ℕ) × Router) → Type 0
  Serves post =
      (c c' : Router) (d out : List ℕ)
      → serve_http b fuel now [] report c (posted d) ≡ finished (out, c')
      → post c url d ≡ (done out, c')

  module _ (post : Router → List ℕ → List ℕ → Outcome (List ℕ) × Router) (decodes : Decodes b)
      (served : Serves post) (few : 1 < fuel) where
    http_call-puts :
        (c : Router) (f : Frame)
        → FitsWire f
        → (http_call b post c (codes "localhost:8084") (codes "w") (marshal f)).1
          ≡ after_post c f now
    http_call-puts c f w =
        let (spare, back) = decodes (marshal f) in
        http_call-posts b post c (codes "localhost:8084") (codes "w") (marshal f) refl
        ∙ ap (λ r. r.1)
            (served c (after_post c f now) (b.encode_to_string (marshal f)) []
              (serve_http-puts b fuel now report c f spare few w back))

    -- Responses that are sent are put one by one.
    pub send_responses-puts :
        (fs : List Frame) (c : Router)
        → All FitsWire fs
        → send_responses b post c fs ≡ post_frames c fs now
    unfolding send_responses post_frames
    send_responses-puts [] c a = refl
    send_responses-puts (f ∷ fs) c (w, a) =
        rw (http_call-puts c f w) (send_responses-puts fs (after_post c f now) a)

    -- So are frames that are sent one by one.
    pub send_frames-puts :
        (fs : List Frame) (c : Router)
        → All FitsWire fs
        → send_frames b post c fs ≡ post_frames c fs now
    unfolding send_frames post_frames
    send_frames-puts [] c a = refl
    send_frames-puts (f ∷ fs) c (w, a) =
        rw (send-puts b fuel now report post decodes served c f few w)
          (send_frames-puts fs (after_post c f now) a)
