-- ===== src/Peer/Relay/Round.antt =====
-- A round of a peer at a router: it asks for its frames, and processes what it is told.
use xchg.Base.{
  ℕ, ◌+◌, ◌≤◌, ◌<◌, ◌≡◌, ◌≢◌, refl, sym, ap, ◌∙◌, false, some, List, [], ◌++◌, arith, length,
  length-append, map, All,
}
use mathlib.Core.Path.{subst}
use xchg.Base.Words.{word_mod, add64}
use xchg.Bytes.{IsByte, le_bytes, length-le_bytes}
use xchg.Texts.{done}
use xchg.Crypto.{Library}
use xchg.Transaction.{Frame, marshal}
use xchg.Storage.{Message, Batch}
use xchg.Storage.Collect.{last_id_or}
use xchg.Storage.Order.{Ids, Ids-append, Ids-weaken}
use xchg.Storage.Fresh.{last_id_or-Ids}
use xchg.Framing.{handle_all}
use xchg.Framing.Split.{IsFramed, end_to_end, frames_loop_splits}
use xchg.Router.{Router, answer, hex_encode, lookup, storage_of, get_messages}
use xchg.HttpServer.Posted.{
  post_frames, frames_for, messages_for, messages_for-Ids, post_frames-next_id,
}
use xchg.Peer.{Peer, Draws}
use xchg.Peer.Processing.{Receipt, receive_frame, process_frames_from_internet}
use xchg.Peer.Polling.{Source, answer_size, batch_of, begin_poll, end_poll, poll_answered}
use xchg.Peer.Relay.{
  whole, handle_all-whole, get_messages-addresses, held, IsCaughtUp, some_news, before-ids,
  held-posted, batch-posted,
}

-- Nothing was received yet.
abbrev pub unread : Peer → Receipt
unread p = record { responses = []; frames_count = 0; peer = p }

-- An answer's frames are processed in order.
pub process_frames_from_internet-frames :
    (y : Library) (draws : ℕ → Draws) (fuel : ℕ) (p : Peer) (id : ℕ) (frames : List (List ℕ))
    (spare : List ℕ)
    → All IsFramed frames
    → length frames < fuel
    → process_frames_from_internet y draws fuel p (record {
      array = (le_bytes 8 id ++ end_to_end frames) ++ spare;
      len = length (le_bytes 8 id ++ end_to_end frames);
    })
      ≡ handle_all (receive_frame y draws) (unread p) (map whole frames)
unfolding process_frames_from_internet le_bytes
process_frames_from_internet-frames y draws fuel p id frames spare framed few =
    let (sl, e, run) =
      frames_loop_splits (receive_frame y draws) frames fuel (unread p)
        (record {
          array = (le_bytes 8 id ++ end_to_end frames) ++ spare;
          len = length (le_bytes 8 id ++ end_to_end frames);
        })
        8 spare framed few refl
        (omega (arith, length-append (le_bytes 8 id) (end_to_end frames), length-le_bytes 8 id)) in
    run ∙ handle_all-whole y draws sl frames (unread p) e

module _ (address : List ℕ) (bytes : All IsByte address) (size : length address ≡ 32) (c : Router)
    (src : Source) (up : IsCaughtUp address c src) (fs : List Frame) (now : ℕ)
    (to : All (λ (f : Frame). All IsByte f.dest_address) fs)
    (ids : c.next_id + length fs < word_mod) (mine : frames_for address fs ≢ [])
    (room : length (storage_of (hex_encode address) c.addresses now).messages
        + length (frames_for address fs)
      ≤ (storage_of (hex_encode address) c.addresses now).max_messages)
    (fits : length (end_to_end (map marshal (frames_for address fs))) < answer_size) where
  abbrev pub news : List Message
  news = messages_for address c.next_id fs now

  abbrev last : ℕ
  last = last_id_or src.last_received news

  abbrev pub told : List ℕ
  told = le_bytes 8 last ++ end_to_end (map marshal (frames_for address fs))

  abbrev pub caught_up : Source
  caught_up = record src { getting = false; reads = add64 src.reads 1; last_received = last }

  abbrev posted : Router
  posted = post_frames c fs now

  rising : Ids c.next_id news (last + 1) × (last < c.next_id + length fs)
  rising =
      last_id_or-Ids src.last_received c.next_id (c.next_id + length fs) news
        (messages_for-Ids address c.next_id fs now)
        (some_news address bytes size c src up fs now to ids mine)

  all_received :
      (c' : Router)
      → c'.addresses ≡ posted.addresses
      → c'.next_id ≡ posted.next_id
      → IsCaughtUp address c' caught_up
  all_received c' table id =
      let kept = held-posted address bytes size c src up fs now to ids mine room fits in
      record {
        free = refl;
        below = omega (arith, id, post_frames-next_id c fs now ids, rising.1);
        all =
            subst (λ l. Ids 0 l (last + 1)) (sym (ap (held (hex_encode address)) table ∙ kept))
              (Ids-append 0 (src.last_received + 1) (last + 1)
                (storage_of (hex_encode address) c.addresses now).messages news
                (before-ids address bytes size c src up fs now to ids mine room fits)
                (Ids-weaken c.next_id (src.last_received + 1) news (last + 1) (last + 1)
                  (omega (arith, up.below)) (omega arith) rising.0));
      }

  module _ (q : Router) (table : q.addresses ≡ posted.addresses)
      (next : q.next_id ≡ posted.next_id) where
    -- A poll that is told a batch.
    abbrev Told : Batch → Type 0
    Told b =
        (request : List ℕ) × (src' : Source) × (q' : Router) × (begin_poll address src
          ≡ (some request, src'))
        × (get_messages q (whole request)
            ≡ some (answer (le_bytes 8 b.last_id ++ b.bytes) b.count, q'))
        × (end_poll src' (done (le_bytes 8 b.last_id ++ b.bytes)) ≡ (
          some (le_bytes 8 b.last_id ++ b.bytes),
          record src { getting = false; reads = add64 src.reads 1; last_received = b.last_id },
        ))

    news-Told : Told (record {
      bytes = end_to_end (map marshal (frames_for address fs));
      last_id = last;
      count = length news;
    })
    news-Told =
        let at =
          ap (λ m. batch_of (lookup (hex_encode address) m) src.last_received) table
          ∙ batch-posted address bytes size c src up fs now to ids mine room fits in
        subst Told at (
          poll_answered q src address size (omega (arith, up.below)) up.free
            (omega (arith, ap (λ (b : Batch). b.last_id) at, rising.1)))

    -- The frames that were posted for a peer that had all the others reach it in one poll, also
    -- when the counters of the router have changed, and then it is up to date again.
    pub polled :
        (request : List ℕ) × (src' : Source) × (q' : Router) × (begin_poll address src
          ≡ (some request, src'))
        × (get_messages q (whole request) ≡ some (answer told (length news), q'))
        × (end_poll src' (done told) ≡ (some told, caught_up))
        × IsCaughtUp address q' caught_up
    polled =
        let (request, src', q', begun, asked, ended) = news-Told in
        let (table', next') = get_messages-addresses q q' (whole request) _ asked in
        (request, src', q', begun, asked, ended, all_received q' (table' ∙ table) (next' ∙ next))
