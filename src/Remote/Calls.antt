-- ===== src/Remote/Calls.antt =====
-- xchg/remote_peer.go: `regularCall`, `auth` and `Call` as wholes. What the network does while
-- `executeTransaction` waits is a parameter: it changes the client and the rest of the world `X`.
use xchg.Base.{ℕ, true, false, Option, none, some, List, [], ◌++◌, ◌==◌, if◌then◌else◌, length}
use xchg.Texts.{Outcome, done, failed, codes, err_cl_conn_auth_get_nonce, err_cl_conn_auth_auth}
use xchg.Crypto.{Library}
use xchg.HttpServer.Requests.{Base64}
use xchg.Remote.KeyRequest.{request_key}
use xchg.Remote.{RemotePeer, build_frame, read_result, build_auth, end_auth}

-- A result, or a panic.
abbrev pub Ended : Type 0 → Type 0 → Type 0
Ended A X = Option (Outcome A × RemotePeer × X)

-- `executeTransaction` with the data, the key of the call and the name of the function.
abbrev pub Execute : Type 0 → Type 0
Execute X = X → RemotePeer → List ℕ → List ℕ → List ℕ → Ended (List ℕ) X

module _ {X : Type 0} (y : Library) (execute : Execute X) where
  -- `regularCall`; `nonce` is what the encryption draws.
  unfoldable pub regular_call :
      X → RemotePeer → List ℕ → List ℕ → List ℕ → List ℕ → Ended (List ℕ) X
  regular_call x c function bytes aes_key nonce =
      let (built, c1) = build_frame y c function bytes aes_key nonce in
      elim built [
        | failed e ↦ some (failed e, c1, x)
        | done (frame, encrypted) ↦ elim (execute x c1 frame function aes_key) [
          | none ↦ none
          | some (answer, c2, x') ↦
              let (result, c3) = read_result y c2 answer encrypted aes_key in some (result, c3, x')
        ]
      ]

  -- `auth`, from the nonce of the peer on.
  unfoldable pub present : X → RemotePeer → List ℕ → List ℕ → Ended ℕ X
  present x c nonce seal_nonce =
      let (built, c1) = build_auth y c nonce seal_nonce in
      elim built [
        | failed e ↦ some (failed e, c1, x)
        | done frame ↦ elim (regular_call x c1 (codes "/xchg-auth") frame [] []) [
          | none ↦ none
          | some (failed e, c2, x') ↦
              some (failed (err_cl_conn_auth_auth ++ codes ":" ++ e), c2, x')
          | some (done result, c2, x') ↦ let (id, c3) = end_auth y c2 result in some (id, c3, x')
        ]
      ]

  -- `auth`, up to the deferred reset of `authProcessing`.
  unfoldable pub auth_body : X → RemotePeer → List ℕ → Ended ℕ X
  auth_body x c seal_nonce = elim (regular_call x c (codes "/xchg-get-nonce") [] [] []) [
    | none ↦ none
    | some (failed e, c1, x1) ↦ some (failed (err_cl_conn_auth_get_nonce ++ codes ":" ++ e), c1, x1)
    | some (done nonce, c1, x1) ↦ present x1 c1 nonce seal_nonce
  ]

  -- `auth`; its result is the id of the session, which is also in the client.
  unfoldable pub auth : X → RemotePeer → List ℕ → Ended ℕ X
  auth x c seal_nonce =
      if c.auth_processing
      then some (failed (codes "auth processing"), c, x)
      else elim (auth_body x (record c { auth_processing = true }) seal_nonce) [
        | none ↦ none
        | some (id, c1, x1) ↦ some (id, record c1 { auth_processing = false }, x1)
      ]

  -- `RemotePeer.Call`, from the point where the peer's public key was asked for. `session_id` is
  -- read before that.
  unfoldable pub call_with_key :
      X → RemotePeer → ℕ → List ℕ → List ℕ → List ℕ → List ℕ → Ended (List ℕ) X
  call_with_key x c session_id function bytes auth_nonce nonce =
      if length c.remote_transport_public_key == 0
      then some (failed (codes "NO remote transport public key KEY"), c, x)
      else (if session_id == 0
          then elim (auth x c auth_nonce) [
            | none ↦ none
            | some (failed e, c1, x1) ↦ some (failed e, c1, x1)
            | some (done id, c1, x1) ↦ regular_call x1 c1 function bytes c1.aes_key nonce
          ]
          else regular_call x c function bytes c.aes_key nonce)

  -- `RemotePeer.Call`; `post` and `sleep` are those of `request_key`.
  unfoldable pub call :
      Base64
      → (X → List ℕ → List ℕ → Outcome (List ℕ) × X)
      → (X → RemotePeer → RemotePeer × X)
      → X
      → RemotePeer
      → List ℕ
      → List ℕ
      → List ℕ
      → List ℕ
      → Ended (List ℕ) X
  unfolding request_key
  call b post sleep x c function bytes auth_nonce nonce =
      let (c1, x1) = request_key sleep b post x c in
      call_with_key x1 c1 c.session_id function bytes auth_nonce nonce
