-- ===== src/Peer/Serving/Tests.antt =====
-- The theorems on a server at concrete inputs, with ciphers that leave the text as it is.
use xchg.Base.{
  ℕ, ◌%◌, ◌≡◌, ◌↔◌, refl, ap, true, none, some, List, [], ◌∷◌, ◌++◌, ◌==◌, arith, length, replicate,
  map, All,
}
use xchg.Bytes.{IsByte}
use xchg.Maps.{find}
use xchg.Texts.{Outcome, done, failed, codes}
use xchg.Crypto.{Library, unpack}
use xchg.SnakeCounter.{new_snake_counter}
use xchg.SnakeCounter.Replay.{new_window, new-Refines}
use xchg.Peer.{Peer, Session, Param, Draws, purge_sessions}
use xchg.Peer.Table.{IsValid}
use xchg.Peer.Purge.{IsRecent, purge_sessions_iff}
use xchg.Peer.Serving.{
  Event, call, purge, new_peer, handle_all, new_peer-IsValid, handle_all-IsValid,
}

abbrev low_bytes : List ℕ → List ℕ
low_bytes bytes = map (λ b. b % 256) bytes

abbrev clear_text : Library
clear_text = record {
  key_ok = λ key. length key == 32;
  key_error = λ key. codes "invalid key size";
  gcm_nonce_size = 12;
  seal = λ key nonce text. text;
  unseal = λ key nonce text. done text;
  gzip = λ bytes. bytes;
  gunzip = λ bytes. done (low_bytes bytes);
  x25519 = λ private public. some private;
  sign = λ private message. replicate 64 0;
  verify = λ public message signature. true;
}

low_bytes-IsByte : (bytes : List ℕ) → All IsByte (low_bytes bytes)
low_bytes-IsByte [] = tt
low_bytes-IsByte (b ∷ bytes) = (omega arith, low_bytes-IsByte bytes)

value : Outcome (List ℕ) → List ℕ
value (done bytes) = bytes
value (failed e) = []

words : (x t : List ℕ) → unpack clear_text x ≡ done t → All IsByte t
unfolding unpack value
words x t e = let eq : low_bytes x ≡ t = ap value e in rw (← eq) (low_bytes-IsByte x)

abbrev echo : Param → Outcome (List ℕ)
echo p = done p.parameter

abbrev draws : Draws
draws = record { now = 7; nonce_bytes = replicate 11 8; seal_nonce = replicate 12 3 }

abbrev events : List Event
events =
    call 0 (15 ∷ codes "/xchg-get-nonce") [] draws
    ∷ call 4 (1 ∷ 2 ∷ []) [] draws
    ∷ purge 8 9
    ∷ call 0 (10 ∷ codes "/xchg-auth" ++ replicate 40 1) [] draws
    ∷ []

handle_all-IsValid_example :
    (c' : Peer) × (handle_all clear_text
        (new_peer (replicate 64 1) none (λ i. replicate 11 i) (some echo))
        events
      ≡ some c')
    × IsValid c'
handle_all-IsValid_example =
    handle_all-IsValid clear_text echo words (replicate 64 1) none (λ i. replicate 11 i) events
      (omega arith)

abbrev session : Session
session = record {
  id = 1;
  aes_key = replicate 32 9;
  auth_data = [];
  remote_real_public_key = replicate 32 1;
  last_access = 90000000000;
  snake_counter = new_snake_counter 100 0;
}

abbrev server : Peer
server = record (new_peer (replicate 64 1) none (λ i. replicate 11 i) (some echo)) {
  sessions_by_id = (1, session) ∷ [];
  next_session_id = 2;
  last_purge_sessions_time = 0;
}

server-IsValid : IsValid server
unfolding new_peer find
server-IsValid =
    let v = new_peer-IsValid (replicate 64 1) none (λ i. replicate 11 i) (some echo) in
    record {
      nonces = v.nonces;
      next = omega arith;
      keys = (refl, tt);
      session = (
        (
          refl,
          omega arith,
          omega arith,
          (new_window 100 0, new-Refines 100 0 (omega arith) (omega arith) (omega arith)),
        ),
        tt,
      );
    }

purge_sessions_iff_example :
    (find 1 (purge_sessions server 100000000000 100000000001).sessions_by_id ≡ some session)
    ↔ ((find 1 server.sessions_by_id ≡ some session) × IsRecent 100000000000 session)
purge_sessions_iff_example =
    purge_sessions_iff server 100000000000 100000000001 1 session server-IsValid (omega arith)
