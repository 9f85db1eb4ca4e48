-- ===== src/Peer/Clients.antt =====
-- xchg/peer.go `Call`: the clients of a peer, one for each address.
mod Tests
use xchg.Base.{
  ℕ, zero, suc, ◌≡◌, refl, ap, sym, ◌∙◌, Option-cases, inl, inr, Option, none, some, List, [], ◌∷◌,
  ◌++◌, arith, bytes_eq, bytes_eq_refl, Bool-cases, if◌then◌else◌, length,
}
use xchg.Texts.{Outcome}
use xchg.Router.{hex_encode}
use xchg.Remote.{RemotePeer}
use xchg.Remote.Calls.{Ended}

-- `remotePeers` by the hexadecimal text of an address: its values are pointers, the places of the
-- clients in `heap`.
pub record Clients : Type 0 where
  pub remote_peers : List (List ℕ × ℕ)
  pub heap : List RemotePeer

unfoldable pub find_client : List ℕ → List (List ℕ × ℕ) → Option ℕ
find_client key [] = none
find_client key ((k, i) ∷ m) = if bytes_eq k key then some i else find_client key m

unfoldable pub store_client : List ℕ → ℕ → List (List ℕ × ℕ) → List (List ℕ × ℕ)
store_client key i [] = (key, i) ∷ []
store_client key i ((k, j) ∷ m) =
    if bytes_eq k key then (k, i) ∷ m else (k, j) ∷ store_client key i m

-- The client at a place, and a change of it.
unfoldable pub client_at : ℕ → List RemotePeer → Option RemotePeer
client_at i [] = none
client_at zero (c ∷ cs) = some c
client_at (suc i) (c ∷ cs) = client_at i cs

unfoldable pub set_client : ℕ → RemotePeer → List RemotePeer → List RemotePeer
set_client i c' [] = []
set_client zero c' (c ∷ cs) = c' ∷ cs
set_client (suc i) c' (c ∷ cs) = c ∷ set_client i c' cs

-- The place of the client for an address, and the clients with it: a `fresh` one (`NewRemotePeer`,
-- for the address and the data of the authentication) is put into the map if there is none.
unfoldable pub client_for : (List ℕ → List ℕ → RemotePeer) → Clients → List ℕ → List ℕ → ℕ × Clients
unfolding find_client store_client
client_for fresh m remote_address auth_data =
    elim (find_client (hex_encode remote_address) m.remote_peers) [
      | some i ↦ (i, m)
      | none ↦
          let i = length m.heap in
          (
            i,
            record {
              remote_peers = store_client (hex_encode remote_address) i m.remote_peers;
              heap = m.heap ++ (fresh remote_address auth_data ∷ []);
            },
          )
    ]

module _ {X : Type 0} (fresh : List ℕ → List ℕ → RemotePeer)
    (run : X → RemotePeer → Ended (List ℕ) X) where
  -- `Call`; `run` is `RemotePeer.Call` with the function and its parameter, which changes the client
  -- that the pointer leads to, and `none` a panic.
  unfoldable pub call : X → Clients → List ℕ → List ℕ → Option (Outcome (List ℕ) × Clients × X)
  unfolding client_for client_at set_client
  call x m remote_address auth_data =
      let (i, m') = client_for fresh m remote_address auth_data in
      elim (client_at i m'.heap) [
        | none ↦ none
        | some c ↦ elim (run x c) [
          | none ↦ none
          | some (result, c', x') ↦ some (result, record m' { heap = set_client i c' m'.heap }, x')
        ]
      ]

find-store_client :
    (key : List ℕ) (i : ℕ) (m : List (List ℕ × ℕ)) → find_client key (store_client key i m) ≡ some i
unfolding find_client store_client
find-store_client key i [] = rw (bytes_eq_refl key)
find-store_client key i ((k, j) ∷ m) = elim (Bool-cases (bytes_eq k key)) [
  | inl e ↦ rw (e, find_client, e)
  | inr e ↦ rw (e, find_client, e) (find-store_client key i m)
]

client_at-set :
    (i : ℕ) (c c' : RemotePeer) (cs : List RemotePeer)
    → client_at i cs ≡ some c
    → client_at i (set_client i c' cs) ≡ some c'
unfolding client_at set_client
client_at-set i c c' [] e = absurd (cc e)
client_at-set zero c c' (d ∷ cs) e = refl
client_at-set (suc i) c c' (d ∷ cs) e = client_at-set i c c' cs e

-- Once a client was looked up, or made, the map leads to it.
client_for-found :
    (fresh : List ℕ → List ℕ → RemotePeer) (m : Clients) (remote_address auth_data : List ℕ)
    → find_client
        (hex_encode remote_address)
        (client_for fresh m remote_address auth_data).1.remote_peers
      ≡ some (client_for fresh m remote_address auth_data).0
unfolding client_for
client_for-found fresh m remote_address auth_data =
    elim (Option-cases (find_client (hex_encode remote_address) m.remote_peers)) [
      | inl e ↦
          rw (e, client_for)
            (find-store_client (hex_encode remote_address) (length m.heap) m.remote_peers)
      | inr (i, e) ↦ rw (e, client_for) e
    ]

client_for-held :
    (fresh : List ℕ → List ℕ → RemotePeer) (m : Clients) (remote_address auth_data : List ℕ) (i : ℕ)
    → find_client (hex_encode remote_address) m.remote_peers ≡ some i
    → client_for fresh m remote_address auth_data ≡ (i, m)
unfolding client_for
client_for-held fresh m remote_address auth_data i e = rw (e, client_for) refl

module _ {X : Type 0} (fresh : List ℕ → List ℕ → RemotePeer)
    (run : X → RemotePeer → Ended (List ℕ) X) where
  -- When a call of an address has ended, it was made on the client to which the map leads for this
  -- address; and the next call of the same address, whatever data for the authentication it is given,
  -- makes no client and adds none to the map, but takes the same one, as the first call left it.
  pub call_again :
      (x x' : X) (m m' : Clients) (remote_address auth_data auth_data' : List ℕ)
      (result : Outcome (List ℕ))
      → call fresh run x m remote_address auth_data ≡ some (result, m', x')
      → (i : ℕ) × (c : RemotePeer) × (c' : RemotePeer) × (client_at i
            (client_for fresh m remote_address auth_data).1.heap
          ≡ some c)
        × (run x c ≡ some (result, c', x'))
        × (client_for fresh m' remote_address auth_data' ≡ (i, m'))
        × (client_at i m'.heap ≡ some c')
  unfolding call
  call_again x x' m m' remote_address auth_data auth_data' result e =
      let i : ℕ = (client_for fresh m remote_address auth_data).0 in
      let m1 : Clients = (client_for fresh m remote_address auth_data).1 in
      elim (Option-cases (client_at i m1.heap)) [
        | inl nil ↦
            let panic : call fresh run x m remote_address auth_data ≡ none =
              unfold call in rw (nil, call) refl in
            absurd (cc (e, panic))
        | inr (c, there) ↦ elim (Option-cases (run x c)) [
          | inl stop ↦
              let panic : call fresh run x m remote_address auth_data ≡ none =
                unfold call in rw (there, stop, call) refl in
              absurd (cc (e, panic))
          | inr ((r, c', x1), ran) ↦
              let m2 : Clients = record m1 { heap = set_client i c' m1.heap } in
              let ended : call fresh run x m remote_address auth_data ≡ some (r, m2, x1) =
                unfold call in rw (there, ran, call) refl in
              let same : ◌≡◌ {A = Option (Outcome (List ℕ) × Clients × X)} (some (r, m2, x1))
                  (some (result, m', x')) =
                sym ended ∙ e in
              let left : m2 ≡ m' = cc same in
              (
                i,
                c,
                c',
                there,
                cc (same, ran),
                client_for-held fresh m' remote_address auth_data' i (
                    ap (λ (l : Clients). find_client (hex_encode remote_address) l.remote_peers)
                      (sym left)
                    ∙ client_for-found fresh m remote_address auth_data),
                ap (λ (l : Clients). client_at i l.heap) (sym left)
                    ∙ client_at-set i c c' m1.heap there,
              )
        ]
      ]
