-- ===== src/Peer/Relay/Taken.antt =====
-- What a peer does with the frames of a response that it received: xchg/peer_processing.go
-- `processFrameCallResponse` and xchg/remote_peer.go `processFrame11`.
use xchg.Base.{
  ℕ, ◌+◌, ◌^◌, ◌<◌, ◌≡◌, refl, sym, ap, ◌∙◌, inl, inr, true, Option, none, some, List, [], ◌∷◌,
  arith, get_or, length, map, All, Option-cases, take-all, bytes_eq, bytes_eq_refl, le→not-ltb,
}
use mathlib.Core.List.{append-nil}
use xchg.Crypto.{Library}
use xchg.Transaction.{Frame, Transaction, header_size, marshal}
use xchg.Transaction.Wire.{FitsWire, parse-marshal, type_at, length-marshal}
use xchg.Framing.{finished, handle_all}
use xchg.Router.{hex_encode}
use xchg.Remote.{RemotePeer, frame_type_response, process_frame, process_frame11}
use xchg.Remote.Execution.{receive}
use xchg.Peer.{Peer, Draws}
use xchg.Peer.Processing as Processing
use xchg.Peer.Processing.{
  Receipt, receive_frame, at_address, process_frame_call_response, response_frames,
}
use xchg.Peer.Responses.{IsFor, IsBetween}
use xchg.Peer.Relay.{whole}

process_frame-remote_address :
    (rp rp' : RemotePeer) (frame : List ℕ)
    → process_frame rp frame ≡ some rp'
    → rp'.remote_address ≡ rp.remote_address
unfolding process_frame process_frame11
process_frame-remote_address rp rp' frame e = ground arith

-- A frame of a response from `address`.
abbrev pub IsResponse : List ℕ → Frame → Type 0
IsResponse address f = FitsWire f × (f.frame_type ≡ frame_type_response) × (f.src_address ≡ address)

-- A peer whose first client talks to some address.
abbrev pub hosting : Peer → RemotePeer → List RemotePeer → Peer
hosting q rp ps = record q { remote_peers = rp ∷ ps }

at_address-own :
    (f : RemotePeer → Option RemotePeer) (address : List ℕ) (rp rp' : RemotePeer)
    (ps : List RemotePeer)
    → address ≡ rp.remote_address
    → f rp ≡ some rp'
    → at_address address f (rp ∷ ps) ≡ some (rp' ∷ ps)
unfolding at_address
at_address-own f address rp rp' ps from e =
    let mine : bytes_eq (hex_encode rp.remote_address) (hex_encode address) ≡ true =
      ap (λ a. bytes_eq (hex_encode rp.remote_address) (hex_encode a)) from
      ∙ bytes_eq_refl (hex_encode rp.remote_address) in
    rw (mine, e, at_address) refl

process_frame_call_response-own :
    (q : Peer) (rp rp' : RemotePeer) (ps : List RemotePeer) (f : Frame)
    → IsResponse rp.remote_address f
    → process_frame rp (marshal f) ≡ some rp'
    → process_frame_call_response (hosting q rp ps) (marshal f) ≡ some (hosting q rp' ps)
unfolding process_frame_call_response
process_frame_call_response-own q rp rp' ps f (w, type, from) e =
    rw
      (
        parse-marshal f w,
        at_address-own (λ p. process_frame p (marshal f)) f.src_address rp rp' ps from e,
        process_frame_call_response,
      )
      refl

process_frame-response :
    (y : Library) (q : Peer) (rp rp' : RemotePeer) (ps : List RemotePeer) (f : Frame) (r : Draws)
    → IsResponse rp.remote_address f
    → process_frame rp (marshal f) ≡ some rp'
    → Processing.process_frame y (hosting q rp ps) (marshal f) r ≡ some ([], hosting q rp' ps)
unfolding Processing.process_frame
process_frame-response y q rp rp' ps f r (w, type, from) e =
    let call : get_or (marshal f) 4 0 ≡ frame_type_response = type_at f w ∙ type in
    rw
      (
        le→not-ltb (length (marshal f)) header_size (omega (arith, length-marshal f)),
        call,
        process_frame_call_response-own q rp rp' ps f (w, type, from) e,
      )
      refl

receive_frame-response :
    (y : Library) (draws : ℕ → Draws) (s : Receipt) (q : Peer) (rp rp' : RemotePeer)
    (ps : List RemotePeer) (f : Frame)
    → s.peer ≡ hosting q rp ps
    → IsResponse rp.remote_address f
    → process_frame rp (marshal f) ≡ some rp'
    → receive_frame y draws s (whole (marshal f))
      ≡ some (record {
        responses = s.responses;
        frames_count = s.frames_count + 1;
        peer = hosting q rp' ps;
      })
unfolding receive_frame
receive_frame-response y draws s q rp rp' ps f at i e =
    rw
      (
        take-all (length (marshal f)) (marshal f) (omega arith),
        at,
        process_frame-response y q rp rp' ps f (draws s.frames_count) i e,
        append-nil s.responses,
        receive_frame,
      )
      refl

-- A row of them goes to the client, and nothing is sent.
pub handle_all-responses :
    (y : Library) (draws : ℕ → Draws) (q : Peer) (ps : List RemotePeer) (address : List ℕ)
    (fs : List Frame) (rp rp' : RemotePeer) (s : Receipt)
    → s.peer ≡ hosting q rp ps
    → rp.remote_address ≡ address
    → All (IsResponse address) fs
    → receive rp (map marshal fs) ≡ some rp'
    → (n : ℕ) × (handle_all (receive_frame y draws) s (map whole (map marshal fs))
        ≡ finished (record { responses = s.responses; frames_count = n; peer = hosting q rp' ps }))
unfolding handle_all receive
handle_all-responses y draws q ps address [] rp rp' s at own a e = (
  s.frames_count,
  ap (λ p. finished (record s { peer = p })) (at ∙ ap (λ c. hosting q c ps) (cc e)),
)
handle_all-responses y draws q ps address (f ∷ fs) rp rp' s at own ((w, type, from), a) e =
    elim (Option-cases (process_frame rp (marshal f))) [
      | inl stop ↦
          let panic : receive rp (map marshal (f ∷ fs)) ≡ none = rw (stop, receive) refl in
          absurd (cc (panic, e))
      | inr (rp1, go) ↦
          let s1 : Receipt = record {
            responses = s.responses;
            frames_count = s.frames_count + 1;
            peer = hosting q rp1 ps;
          } in
          let left : receive rp (map marshal (f ∷ fs)) ≡ receive rp1 (map marshal fs) =
            rw (go, receive) refl in
          let one =
            receive_frame-response y draws s q rp rp1 ps f at (w, type, from ∙ sym own) go in
          let (n, rest) =
            handle_all-responses y draws q ps address fs rp1 rp' s1 refl
              (process_frame-remote_address rp rp1 (marshal f) go ∙ own) a (sym left ∙ e) in
          (n, rw (one, handle_all) rest)
    ]

pub all-IsResponse :
    (p : Peer) (asked : Transaction) (address resp : List ℕ)
    (fits : header_size + length resp < 2 ^ 32) (id : asked.transaction_id < 2 ^ 64)
    (session : asked.session_id < 2 ^ 64) (public : length p.public_key ≡ 32)
    (size : length address ≡ 32) (fs : List Frame)
    → All (IsFor asked.transaction_id (length resp)) fs
    → All (IsBetween p asked address resp fits id session public size) fs
    → All (IsResponse p.public_key) fs × All (λ (f : Frame). f.dest_address ≡ address) fs
all-IsResponse p asked address resp fits id session public size [] a e = (tt, tt)
all-IsResponse p asked address resp fits id session public size (f ∷ fs) ((w, type, mine, total), a)
      ((from, to), e) =
    let (r, d) = all-IsResponse p asked address resp fits id session public size fs a e in
    (((w, type, from), r), (to, d))
