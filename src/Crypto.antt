-- ===== src/Crypto.antt =====
-- utils/aes.go, utils/pack.go and utils/ec.go. The ciphers, gzip and the curves of Go's libraries
-- are parameters: what they do is in `Library`, and what is relied on in `IsSound`.
use xchg.Base.{
  ℕ, ◌≡◌, ◌≤◌, ◌+◌, sym, Bool, true, Option, none, some, List, [], ◌++◌, ltb, if◌then◌else◌, length,
  take, drop, arith, take-length-append, drop-length-append, length-append, le→not-ltb,
}
use xchg.Texts.{Outcome, done, failed, codes}

pub record Library : Type 0 where
  -- `aes.NewCipher` accepts the key; the text of its error.
  pub key_ok : List ℕ → Bool
  pub key_error : List ℕ → List ℕ
  -- `gcm.NonceSize`, `gcm.Seal` and `gcm.Open` (key, nonce, text), with the text of its error.
  pub gcm_nonce_size : ℕ
  pub seal : List ℕ → List ℕ → List ℕ → List ℕ
  pub unseal : List ℕ → List ℕ → List ℕ → Outcome (List ℕ)
  pub gzip : List ℕ → List ℕ
  pub gunzip : List ℕ → Outcome (List ℕ)
  -- `curve25519.X25519`; `none` is an error.
  pub x25519 : List ℕ → List ℕ → Option (List ℕ)
  -- `ed25519.Sign` (private key, message) and `ed25519.Verify` (public key, message, signature).
  pub sign : List ℕ → List ℕ → List ℕ
  pub verify : List ℕ → List ℕ → List ℕ → Bool

-- What is documented of the ciphers and of gzip: `Open` undoes `Seal`, the reader the writer.
pub record IsSound (y : Library) : Type 0 where
  pub unseal-seal :
      (key nonce text : List ℕ)
      → y.key_ok key ≡ true
      → length nonce ≡ y.gcm_nonce_size
      → y.unseal key nonce (y.seal key nonce text) ≡ done text
  pub gunzip-gzip : (bytes : List ℕ) → y.gunzip (y.gzip bytes) ≡ done bytes

-- What is documented of the sizes of GCM: its standard nonces, and a tag of at most 16 bytes.
pub record IsGcm (y : Library) : Type 0 where
  pub nonce_size : y.gcm_nonce_size ≡ 12
  pub seal_size : (key nonce text : List ℕ) → length (y.seal key nonce text) ≤ length text + 16

-- `EncryptAESGCM`; `nonce` is what `io.ReadFull` reads.
unfoldable pub encrypt : Library → List ℕ → List ℕ → List ℕ → Outcome (List ℕ)
encrypt y nonce text key =
    if y.key_ok key then done (nonce ++ y.seal key nonce text) else failed (y.key_error key)

-- `DecryptAESGCM`.
unfoldable pub decrypt : Library → List ℕ → List ℕ → Outcome (List ℕ)
decrypt y text key =
    if y.key_ok key
    then (if ltb (length text) y.gcm_nonce_size
        then failed (codes "wrong nonce")
        else y.unseal key (take y.gcm_nonce_size text) (drop y.gcm_nonce_size text))
    else failed (y.key_error key)

-- `Pack` and `Unpack`.
unfoldable pub pack : Library → List ℕ → List ℕ
pack y bytes = y.gzip bytes

unfoldable pub unpack : Library → List ℕ → Outcome (List ℕ)
unpack y bytes = y.gunzip bytes

-- `GetSharedKey`; with an error the key is nil.
unfoldable pub get_shared_key : Library → List ℕ → List ℕ → List ℕ
get_shared_key y private_key public_key = elim (y.x25519 private_key public_key) [
  | none ↦ []
  | some key ↦ key
]

module _ (y : Library) (s : IsSound y) (nonce text key : List ℕ) where
  -- What `EncryptAESGCM` returned, `DecryptAESGCM` with the same key turns back.
  pub decrypt-encrypt :
      y.key_ok key ≡ true
      → length nonce ≡ y.gcm_nonce_size
      → decrypt y (nonce ++ y.seal key nonce text) key ≡ done text
  unfolding decrypt
  decrypt-encrypt ok size =
      rw
        (
          ok,
          sym size,
          le→not-ltb (length (nonce ++ y.seal key nonce text)) (length nonce)
              (omega (arith, length-append nonce (y.seal key nonce text))),
          take-length-append nonce (y.seal key nonce text),
          drop-length-append nonce (y.seal key nonce text),
        )
        (s.unseal-seal key nonce text ok size)
