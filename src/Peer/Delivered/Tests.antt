-- ===== src/Peer/Delivered/Tests.antt =====
-- A call of five bytes at a concrete input, to a server that knows nothing of it.
use xchg.Base.{
  ℕ, ◌≡◌, ◌<◌, ◌^◌, ◌==◌, true, refl, none, some, List, [], ◌∷◌, arith, length, replicate,
}
use xchg.Texts.{codes, done}
use xchg.Crypto.{Library}
use xchg.Remote.{RemotePeer, new_remote_peer}
use xchg.Peer.{Peer, Draws, Code}
use xchg.Peer.Processing.{find_incoming, recent_incoming}
use xchg.Peer.Serving.{new_peer}

abbrev pub clear_text : Library
clear_text = record {
  key_ok = λ key. length key == 32;
  key_error = λ key. codes "invalid key size";
  gcm_nonce_size = 12;
  seal = λ key nonce text. text;
  unseal = λ key nonce text. done text;
  gzip = λ bytes. bytes;
  gunzip = λ bytes. done bytes;
  x25519 = λ private public. some private;
  sign = λ private message. replicate 64 0;
  verify = λ public message signature. true;
}

abbrev pub client : RemotePeer
client = new_remote_peer (replicate 32 2) [] (replicate 64 1) (replicate 32 1) [] []

abbrev pub server : Peer
server = new_peer (replicate 64 2) none (λ i. replicate 11 i) none

abbrev pub draws : ℕ → Draws
draws k = record { now = 7; nonce_bytes = []; seal_nonce = [] }

abbrev pub message : List ℕ
message = 1 ∷ 2 ∷ 3 ∷ 4 ∷ 5 ∷ []

abbrev pub code : Code
code = record { address = client.public_key; id = client.next_transaction_id }

pub unknown : find_incoming code (recent_incoming 7 server.incoming_transactions) ≡ none
unfolding find_incoming recent_incoming new_peer
unknown = refl

pub id_fits : client.next_transaction_id < 2 ^ 64
unfolding new_remote_peer
id_fits = omega arith

pub session_fits : client.session_id < 2 ^ 64
unfolding new_remote_peer
session_fits = omega arith

pub public_size : length client.public_key ≡ 32
unfolding new_remote_peer
public_size = refl

pub remote_size : length client.remote_address ≡ 32
unfolding new_remote_peer
remote_size = refl
