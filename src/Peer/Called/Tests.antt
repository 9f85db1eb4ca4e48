-- ===== src/Peer/Called/Tests.antt =====
-- A whole call at a concrete input, with ciphers that leave the text as it is and one key for all.
use xchg.Base.{
  ℕ, ◌≤◌, ◌+◌, ◌≡◌, refl, true, false, some, List, [], ◌∷◌, ◌==◌, arith, length, replicate,
}
use xchg.Texts.{Outcome, done, failed, codes}
use xchg.Crypto.{Library, IsSound, IsGcm}
use xchg.Remote.{RemotePeer, max_transaction_size, new_remote_peer}
use xchg.HttpServer.Requests.{Base64}
use xchg.Remote.Calls.{call}
use xchg.Peer.{Param, reply, prepare_response}
use xchg.Peer.RoundTrip.{answer_of}
use xchg.Peer.Direct.{World, answered}
use xchg.Peer.Auth.{IsCommuting, CanMeet}
use xchg.Peer.Serving.{new_peer, new_peer-IsValid}
use xchg.Peer.Called.{call-answers}

abbrev key : List ℕ
key = replicate 32 9

abbrev clear_text : Library
clear_text = record {
  key_ok = λ key. length key == 32;
  key_error = λ key. codes "invalid key size";
  gcm_nonce_size = 12;
  seal = λ key nonce text. text;
  unseal = λ key nonce text. done text;
  gzip = λ bytes. bytes;
  gunzip = λ bytes. done bytes;
  x25519 = λ private public. some key;
  sign = λ private message. replicate 64 0;
  verify = λ public message signature. true;
}

clear_text-IsSound : IsSound clear_text
clear_text-IsSound = record {
  unseal-seal = λ key nonce text ok size. refl;
  gunzip-gzip = λ bytes. refl;
}

clear_text-IsGcm : IsGcm clear_text
clear_text-IsGcm = record { nonce_size = refl; seal_size = λ key nonce text. omega arith }

-- Base64 and HTTP requests, which such a call does without.
abbrev plain : Base64
plain = record {
  encode_to_string = λ bytes. bytes;
  decode_string = λ text. some (record { array = text; len = length text });
}

abbrev silent : World → List ℕ → List ℕ → Outcome (List ℕ) × World
silent w uri text = (failed [], w)

clear_text-IsCommuting : IsCommuting clear_text
clear_text-IsCommuting = λ a b A B ha hb. refl

-- A callback that returns the parameter.
abbrev echo : Param → Outcome (List ℕ)
echo p = done p.parameter

abbrev client : RemotePeer
client =
    record (new_remote_peer (replicate 32 2) (codes "pass") (replicate 64 1) (replicate 32 1) key
      key) { remote_transport_public_key = key }

abbrev world : World
world = record {
  peer = new_peer (replicate 64 2) (some (key, key)) (λ i. replicate 11 i) (some echo);
  draws = λ t. record { now = t; nonce_bytes = replicate 11 8; seal_nonce = replicate 12 3 };
  time = 0;
}

can_meet : CanMeet clear_text client world.peer key
unfolding new_peer new_remote_peer
can_meet = record {
  server_key = refl;
  server_pair = refl;
  client_pair = refl;
  shared = refl;
  key_size = refl;
  key_ok = refl;
  client_size = refl;
  server_size = refl;
  private_key = omega arith;
  nonces =
      (new_peer-IsValid (replicate 64 2) (some (key, key)) (λ i. replicate 11 i)
        (some echo)).nonces;
  next = omega arith;
  room = omega arith;
  counter = omega arith;
}

no_session : client.session_id ≡ 0
unfolding new_remote_peer
no_session = refl

idle : client.auth_processing ≡ false
unfolding new_remote_peer
idle = refl

has_callback : world.peer.callback ≡ some echo
unfolding new_peer
has_callback = refl

echo_small :
    length (
        reply (
          echo (record {
            function = codes "hello";
            parameter = 1 ∷ 2 ∷ [];
            auth_data = client.auth_data;
            remote_address = client.public_key;
          })))
      + 28
    ≤ max_transaction_size + 1024
unfolding reply prepare_response xchg.Bytes.copy_at
echo_small = omega arith

call-answers_example :
    (c' : RemotePeer) × (w' : World) × (call clear_text
        (answered clear_text)
        plain
        silent
        (λ w c. (c, w))
        world
        client
        (codes "hello")
        (1 ∷ 2 ∷ [])
        (replicate 12 4)
        (replicate 12 5)
      ≡ some (
        answer_of (
            echo (record {
              function = codes "hello";
              parameter = 1 ∷ 2 ∷ [];
              auth_data = client.auth_data;
              remote_address = client.public_key;
            })),
        c',
        w',
      ))
call-answers_example =
    call-answers clear_text clear_text-IsSound clear_text-IsGcm clear_text-IsCommuting world client
      key echo [] plain silent (λ w c. (c, w)) (codes "hello") (1 ∷ 2 ∷ []) (replicate 12 4)
      (replicate 12 5) can_meet no_session idle has_callback refl (λ t. refl) (omega arith)
      echo_small refl refl
