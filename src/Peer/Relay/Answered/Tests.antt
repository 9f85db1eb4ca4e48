-- ===== src/Peer/Relay/Answered/Tests.antt =====
-- The theorem at a concrete input: a response of two bytes, over a new router.
use xchg.Base.{ℕ, ◌≡◌, refl, ap, true, none, List, [], ◌∷◌, arith, bytes_eq, replicate}
use xchg.Bytes.{IsByte, copy_at}
use xchg.Transaction.{Transaction, Frame, new_frame, new_transaction, marshal}
use xchg.Framing.{finished}
use xchg.Router.{Router}
use xchg.HttpServer.Posted.{frames_for}
use xchg.HttpServer.Tests.{no_report, plain, response}
use xchg.HttpServer.Requests.{serve_http}
use xchg.Remote.{new_remote_peer}
use xchg.Peer.Serving.{new_peer}
use xchg.Peer.Processing.{response_frames}
use xchg.Peer.Responses.{waiting}
use xchg.Peer.Polling.{Source}
use xchg.Peer.Posting.{send_responses}
use xchg.Peer.Rounds.{get_frames_from_routers}
use xchg.Peer.Delivered.Tests.{clear_text, client, server, draws}
use xchg.Peer.Relay.{IsCaughtUp}
use xchg.Peer.Relay.Http.{Fits}
use xchg.Peer.Relay.Http.Tests.{replicate-IsByte, idle, router, post}
use xchg.Peer.Relay.Taken.{hosting}
use xchg.Peer.Relay.Answered.{answer_taken}

abbrev address : List ℕ
address = replicate 32 1

abbrev asked : Transaction
asked = new_transaction 16 address (replicate 32 2) 1 0 0 2 []

abbrev answer : List ℕ
answer = 0 ∷ 7 ∷ []

idle-IsCaughtUp : IsCaughtUp address router idle
unfolding xchg.Router.new_router xchg.Router.lookup
idle-IsCaughtUp = record { free = refl; below = omega arith; all = omega arith }

answer-Fits : Fits address router (response_frames server asked address answer) 4
unfolding response_frames xchg.Transaction.Message.message_blocks xchg.Transaction.Pieces.blocks
    new_peer xchg.Router.new_router xchg.Router.storage_of xchg.Router.lookup
    xchg.Storage.new_storage frames_for bytes_eq marshal new_frame new_transaction copy_at
    xchg.Bytes.put_uint32 xchg.Bytes.put_uint64 xchg.Bytes.le_bytes
answer-Fits = record {
  wire = (
    record {
      frame_type = omega arith;
      transaction_id = omega arith;
      session_id = omega arith;
      offset = omega arith;
      total_size = omega arith;
      src_address = refl;
      dest_address = refl;
      comment = refl;
      payload = omega arith;
    },
    tt,
  );
  to = (replicate-IsByte 32 1 (omega arith), tt);
  ids = omega arith;
  room = omega arith;
  one_answer = omega arith;
}

answer_taken_example :
    (t' : Transaction) × (src' : Source) × (c' : Router) × (get_frames_from_routers plain post
        clear_text draws 3
        (send_responses plain post router (response_frames server asked address answer))
        (hosting server (waiting client 1 [] asked) [])
        idle
        address
      ≡ finished (c', hosting server (waiting client 1 [] t') [], src'))
    × (t'.complete ≡ true)
    × (t'.result ≡ answer)
    × (t'.err ≡ none)
    × IsCaughtUp address c' src'
unfolding bytes_eq serve_http new_transaction new_frame new_remote_peer new_peer response_frames
    xchg.Transaction.Message.message_blocks xchg.Transaction.Pieces.blocks xchg.Maps.find copy_at
answer_taken_example =
    answer_taken plain 2 4 no_report (λ c. c) [] post router idle server asked address answer
      clear_text draws 3 server client [] [] asked (λ bytes. ((0 ∷ []), refl))
      (λ c c' d out e. ap (response c) e) (λ c c' d out e. ap (response c) e) (omega arith)
      (replicate-IsByte 32 1 (omega arith)) refl refl refl (omega arith) (omega arith) (omega arith)
      (omega arith) (omega arith) refl refl refl idle-IsCaughtUp answer-Fits (omega arith)
