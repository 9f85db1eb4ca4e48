-- ===== src/Framing.antt =====
-- The loop that cuts a buffer into frames, by the length in the first four bytes of each
-- (`processW` of router/http_server.go, `processFramesFromInternet` of xchg/peer_receiving.go).
pub mod Split
pub mod Stall
mod Tests
use xchg.Base.{ℕ, zero, suc, ◌+◌, Option, none, some, List, [], ◌∷◌, ltb, leb, if◌then◌else◌, drop}
use xchg.Bytes.{uint32_at}
use xchg.Router.{Slice}

-- How a run of the loop ends: by its test or a `break`, by a panic, or not within the fuel.
pub data Run {ℓ} (S : Type ℓ) : Type ℓ where
  finished : S → Run S
  panicked : Run S
  running : S → Run S

-- `buf[offset : offset+n]`, with the capacity that it keeps.
abbrev pub sub_slice : Slice → ℕ → ℕ → Slice
sub_slice buf offset n = record { array = drop offset buf.array; len = n }

-- The size that the loop asks for before it reads a length.
abbrev pub min_frame : ℕ
min_frame = 69

module _ {ℓ} {S : Type ℓ} (handle : S → Slice → Option S) where
  -- `for offset < len(buf)`; `none` of the handler is a panic.
  unfoldable pub frames_loop : ℕ → S → Slice → ℕ → Run S
  frames_loop zero s buf offset = running s
  frames_loop (suc fuel) s buf offset =
      let n = uint32_at buf.array offset in
      let next : Run S = elim (handle s (sub_slice buf offset n)) [
        | none ↦ panicked
        | some s' ↦ frames_loop fuel s' buf (offset + n)
      ] in
      if ltb offset buf.len
      then (if leb (offset + min_frame) buf.len
          then (if leb (offset + n) buf.len then next else finished s)
          else finished s)
      else finished s

  -- The handler on a list of frames in turn.
  unfoldable pub handle_all : S → List Slice → Run S
  handle_all s [] = finished s
  handle_all s (f ∷ fs) = elim (handle s f) [ none ↦ panicked | some s' ↦ handle_all s' fs ]
