-- ===== src/Peer/Relay/Served/Tests.antt =====
-- The theorem at a concrete input: a message of five bytes, over a new router.
use xchg.Base.{ℕ, ◌+◌, ◌≡◌, refl, ap, All, [], ◌∷◌, arith, bytes_eq}
use xchg.Bytes.{IsByte, copy_at}
use xchg.Transaction.{Transaction, new_frame, marshal}
use xchg.Router.{Router}
use xchg.HttpServer.Posted.{frames_for}
use xchg.HttpServer.Tests.{no_report, plain, response}
use xchg.HttpServer.Requests.{serve_http}
use xchg.Remote.{begin_transaction, new_remote_peer}
use xchg.Remote.Sending.{send_frames}
use xchg.Peer.Processing.{Incoming, answer_call}
use xchg.Peer.Polling.{Source}
use xchg.Peer.Rounds.{respond, get_frames_from_routers}
use xchg.Peer.Delivered.{begin_transaction-IsCall}
use xchg.Peer.Delivered.Tests.{
  clear_text, client, server, draws, message, unknown, id_fits, session_fits, public_size,
  remote_size,
}
use xchg.Peer.Relay.{IsCaughtUp}
use xchg.Peer.Relay.Round.{unread}
use xchg.Peer.Relay.Http.{Fits}
use xchg.Peer.Relay.Http.Tests.{replicate-IsByte, idle, router, post}
use xchg.Peer.Relay.Served.{received, call_served}

address-IsByte : All IsByte client.remote_address
unfolding new_remote_peer
address-IsByte = replicate-IsByte 32 2 (omega arith)

idle-IsCaughtUp : IsCaughtUp client.remote_address router idle
unfolding new_remote_peer xchg.Router.new_router xchg.Router.lookup
idle-IsCaughtUp = record { free = refl; below = omega arith; all = omega arith }

call-Fits : Fits client.remote_address router (begin_transaction client message []).0.1 4
unfolding begin_transaction xchg.Transaction.Message.message_blocks xchg.Transaction.Pieces.blocks
    xchg.Router.new_router xchg.Router.storage_of xchg.Router.lookup xchg.Storage.new_storage
    frames_for bytes_eq marshal new_remote_peer new_frame copy_at xchg.Bytes.put_uint32
    xchg.Bytes.put_uint64 xchg.Bytes.le_bytes
call-Fits = record {
  wire = (
    (begin_transaction-IsCall client message [] (omega arith) (omega arith) id_fits session_fits
        public_size remote_size).0.0,
    tt,
  );
  to = (address-IsByte, tt);
  ids = omega arith;
  room = omega arith;
  one_answer = omega arith;
}

call_served_example :
    (t : Transaction) × (m : Incoming) × (k : ℕ) × (src' : Source) × (c' : Router)
    × (get_frames_from_routers plain post clear_text draws 3
          (send_frames plain post router (begin_transaction client message []).0.1)
          server
          idle
          client.remote_address
        ≡ respond plain post clear_text draws 3 c' src' (
            received (unread server) (k + 1) (
              answer_call clear_text
                (record server { incoming_transactions = m })
                t
                client.public_key
                (draws k))))
    × (t.result ≡ message)
    × (t.session_id ≡ client.session_id)
    × (t.src_address ≡ client.public_key)
    × (t.transaction_id ≡ client.next_transaction_id)
    × IsCaughtUp client.remote_address c' src'
unfolding bytes_eq serve_http begin_transaction xchg.Transaction.Message.message_blocks
    xchg.Transaction.Pieces.blocks
call_served_example =
    call_served plain 2 4 no_report (λ c. c) [] post router idle client message [] clear_text draws
      3 server (λ bytes. ((0 ∷ []), refl)) (λ c c' d out e. ap (response c) e)
      (λ c c' d out e. ap (response c) e) (omega arith) address-IsByte remote_size public_size
      id_fits session_fits (omega arith) (omega arith) idle-IsCaughtUp call-Fits (omega arith)
      unknown (λ k. omega arith)
