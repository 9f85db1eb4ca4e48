-- ===== src/Peer/Line/Transacted/Tests.antt =====
-- A call of an unknown function over the line.
use xchg.Base.{
  ℕ, ◌≡◌, ◌<◌, ◌+◌, ◌^◌, refl, ap, bytes_eq, none, some, List, [], ◌∷◌, arith, Option, length,
}
use xchg.Maps.{find}
use xchg.Bytes.{copy_at}
use xchg.Transaction.{header_size}
use xchg.Remote.{new_remote_peer}
use xchg.Peer.Serving.{new_peer}
use xchg.Peer.{Peer, Reply, on_edge_received_call}
use xchg.Peer.Processing.{Incoming}
use xchg.Peer.Direct.{World, answered}
use xchg.Peer.Delivered.Tests.{
  clear_text, client, server, draws, unknown, id_fits, session_fits, public_size, remote_size,
}
use xchg.Peer.Line.{idle, over_line, on_line}
use xchg.Peer.Line.Transacted.{over_line-answered}

abbrev message : List ℕ
message = 1 ∷ 120 ∷ []

abbrev world : World
world = record { peer = server; draws = draws; time = 0 }

none_waits : find client.next_transaction_id client.outgoing_transactions ≡ none
unfolding find new_remote_peer
none_waits = refl

short :
    (m : Incoming) (k : ℕ) (sent : Reply) (p : Peer)
    → on_edge_received_call clear_text
        (record server { incoming_transactions = m })
        client.session_id
        message
        client.public_key
        (draws k)
      ≡ some (sent, p)
    → header_size + length sent.response < 2 ^ 32
unfolding on_edge_received_call new_remote_peer new_peer bytes_eq copy_at
short m k sent p e =
    let one : 1 ≡ length sent.response =
      ap (λ (o : Option (Reply × Peer)). elim o [ none ↦ 0 | some (s, q) ↦ length s.response ]) e in
    omega arith

over_line-answered_example :
    (m : Incoming) × (k : ℕ) × (over_line clear_text 1000 (idle world) client message [] []
      ≡ on_line (
          answered clear_text
            (record world { peer = record server { incoming_transactions = m }; time = k })
            client
            message
            []
            []))
over_line-answered_example =
    over_line-answered client message [] [] (omega arith) (omega arith) id_fits session_fits
      public_size remote_size none_waits clear_text 1000 (omega arith) world unknown
      (λ k. omega arith) short
