-- ===== src/Peer/Line.antt =====
-- xchg/remote_peer.go and xchg/peer_processing.go: `executeTransaction` with a server at the other
-- end of a line that brings every frame in order, the answers in the next ten milliseconds.
pub mod Sending
mod Waiting
pub mod Transacted
use xchg.Base.{
  ℕ, ◌+◌, Bool, Option, none, some, List, [], ◌++◌, ltb, ◌==◌, ◌||◌, if◌then◌else◌, length, map,
}
use xchg.Texts.{done}
use xchg.Crypto.{Library}
use xchg.Transaction.{Frame, marshal}
use xchg.Remote.{RemotePeer, time_out, max_transaction_size}
use xchg.Remote.Calls.{Ended, Execute}
use xchg.Remote.Execution.{execute_transaction}
use xchg.Peer.{Peer, on_edge_received_call}
use xchg.Peer.Processing.{process_frame}
use xchg.Peer.Direct.{World, next_world, counted}

-- The server, and the frames that are on their way to the client.
pub record Line : Type 0 where
  pub world : World
  pub inbox : List Frame

abbrev pub idle : World → Line
idle w = record { world = w; inbox = [] }

-- A frame comes to the server.
unfoldable pub send : Library → Line → List ℕ → Option Line
unfolding process_frame
send y l frame = elim (process_frame y l.world.peer frame (l.world.draws l.world.time)) [
  | none ↦ none
  | some (sent, p) ↦ some (record { world = next_world l.world p; inbox = l.inbox ++ sent })
]

-- The frames come to the client.
unfoldable pub sleep : Line → List (List ℕ) × Line
sleep l = (map marshal l.inbox, idle l.world)

unfoldable pub over_line : Library → ℕ → Execute Line
unfolding execute_transaction send sleep
over_line y = execute_transaction sleep (send y)

-- The end of a transaction, with nothing left on the line.
abbrev pub on_line : {A : Type 0} → Ended A World → Ended A Line
on_line none = none
on_line (some (result, c, w)) = some (result, c, idle w)
