-- ===== src/Peer/Clients/Tests.antt =====
-- Two calls of one address, at a concrete input.
use xchg.Base.{ℕ, ◌≡◌, refl, Option, some, List, [], ◌∷◌}
use xchg.Texts.{done}
use xchg.Remote.{RemotePeer, new_remote_peer}
use xchg.Remote.Calls.{Ended}
use xchg.Router.{hex_encode}
use xchg.Peer.Clients.{Clients, client_for, client_at, call_again}

abbrev fresh : List ℕ → List ℕ → RemotePeer
fresh remote_address auth_data =
    new_remote_peer remote_address auth_data (1 ∷ []) (2 ∷ []) (3 ∷ []) (4 ∷ [])

-- A call that moves the counter on.
abbrev run : ℕ → RemotePeer → Ended (List ℕ) ℕ
run x c = some (done c.auth_data, record c { session_nonce_counter = 1 }, x)

abbrev no_clients : Clients
no_clients = record { remote_peers = []; heap = [] }

abbrev after_one : Clients
after_one = record {
  remote_peers = (hex_encode (7 ∷ []), 0) ∷ [];
  heap = record (fresh (7 ∷ []) (5 ∷ [])) { session_nonce_counter = 1 } ∷ [];
}

call_again_example :
    (i : ℕ) × (c : RemotePeer) × (c' : RemotePeer) × (client_at i
        (client_for fresh no_clients (7 ∷ []) (5 ∷ [])).1.heap
      ≡ some c)
    × (run 9 c ≡ some (done (5 ∷ []), c', 9))
    × (client_for fresh after_one (7 ∷ []) (6 ∷ []) ≡ (i, after_one))
    × (client_at i after_one.heap ≡ some c')
unfolding xchg.Peer.Clients.call new_remote_peer xchg.Base.bytes_eq hex_encode
call_again_example =
    call_again fresh run 9 9 no_clients after_one (7 ∷ []) (5 ∷ []) (6 ∷ []) (done (5 ∷ [])) refl
