-- ===== src/Peer/Line/Sending.antt =====
-- The frames of a call, sent one after another over the line.
use xchg.Base.{
  ℕ, suc, ◌+◌, ◌≡◌, refl, ◌∙◌, Option, none, some, List, [], ◌∷◌, ◌++◌, arith, length, get_or, All,
  le→not-ltb,
}
use mathlib.Core.List.{append-nil, append_assoc}
use xchg.Crypto.{Library}
use xchg.Transaction.{Frame, header_size, marshal}
use xchg.Transaction.Wire.{type_at, length-marshal}
use xchg.Remote.{frame_type_call}
use xchg.Remote.Execution.{send_all}
use xchg.Peer.{Peer, Draws}
use xchg.Peer.Direct.{next_world}
use xchg.Peer.Processing.{process_frame, process_frame_call_request}
use xchg.Peer.Assembly.{process_frames}
use xchg.Peer.Delivered.{IsCall}
use xchg.Peer.Line.{Line, send}

pub process_frame-call :
    (y : Library) (c : Peer) (f : Frame) (r : Draws)
    → IsCall f
    → process_frame y c (marshal f) r ≡ process_frame_call_request y c (marshal f) r
unfolding process_frame
process_frame-call y c f r (w, type) =
    let call : get_or (marshal f) 4 0 ≡ frame_type_call = type_at f w ∙ type in
    rw (le→not-ltb (length (marshal f)) header_size (omega (arith, length-marshal f)), call) refl

-- The line after a row of frames was sent, by what became of them.
abbrev pub arrived : Line → ℕ → Option (List Frame × Peer) → Option Line
arrived l n none = none
arrived l n (some (sent, p)) = some (record {
  world = record l.world { peer = p; time = l.world.time + n };
  inbox = l.inbox ++ sent;
})

pub send_all-arrived :
    (y : Library) (fs : List Frame) (l : Line)
    → All IsCall fs
    → send_all (send y) l fs
      ≡ arrived l (length fs) (process_frames y l.world.draws l.world.time l.world.peer fs)
unfolding send_all process_frames
send_all-arrived y [] l a = joined (l.world.time + 0) (omega arith)
  where
    joined :
        (n : ℕ)
        → l.world.time ≡ n
        → some l ≡ some (record { world = record l.world { time = n }; inbox = l.inbox ++ [] })
    joined n e = rw (← e, append-nil l.inbox) refl
send_all-arrived y (f ∷ fs) l (i, a) =
    one (process_frame_call_request y l.world.peer (marshal f) (l.world.draws l.world.time))
      (process_frame-call y l.world.peer f (l.world.draws l.world.time) i) refl
      (λ p s. send_all-arrived y fs (record { world = next_world l.world p; inbox = s }) a)
  where
    later :
        (sent : List Frame) (p : Peer) (o : Option (List Frame × Peer))
        → arrived (record { world = next_world l.world p; inbox = l.inbox ++ sent }) (length fs) o
          ≡ arrived l
              (suc (length fs))
              (elim o [ none ↦ none | some (more, c) ↦ some (sent ++ more, c) ])
    later sent p none = refl
    later sent p (some (more, c)) =
        let e : l.world.time + 1 + length fs ≡ l.world.time + suc (length fs) = omega arith in
        rw (e, append_assoc l.inbox sent more) refl

    one :
        (o : Option (List Frame × Peer))
        → process_frame y l.world.peer (marshal f) (l.world.draws l.world.time) ≡ o
        → process_frame_call_request y l.world.peer (marshal f) (l.world.draws l.world.time) ≡ o
        → ((p : Peer) (s : List Frame)
            → send_all (send y) (record { world = next_world l.world p; inbox = s }) fs
              ≡ arrived
                  (record { world = next_world l.world p; inbox = s })
                  (length fs)
                  (process_frames y l.world.draws (l.world.time + 1) p fs))
        → send_all (send y) l (f ∷ fs)
          ≡ arrived l
              (length (f ∷ fs))
              (process_frames y l.world.draws l.world.time l.world.peer (f ∷ fs))
    one none e e2 ih =
        let s : send y l (marshal f) ≡ none = unfold send in rw (e, send) refl in
        rw (e2, s, send_all, process_frames) refl
    one (some (sent, p)) e e2 ih =
        let s : send y l (marshal f)
            ≡ some (record { world = next_world l.world p; inbox = l.inbox ++ sent }) =
          unfold send in rw (e, send) refl in
        rw (e2, s, send_all, process_frames)
          (ih p (l.inbox ++ sent)
            ∙ later sent p (process_frames y l.world.draws (l.world.time + 1) p fs))
