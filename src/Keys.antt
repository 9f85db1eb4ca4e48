-- ===== src/Keys.antt =====
-- utils/ec.go and utils/keys.go: the keys that a peer generates. What `rand.Read` reads, and its
-- error (`none`), are arguments.
pub mod Clamped
pub mod Addresses
mod Tests
use Prim.Native.Nat.{bit_and, bit_or}
use xchg.Base.{
  ℕ, ◌*◌, ◌+◌, ◌-◌, Bool, true, false, Option, none, some, List, [], ◌∷◌, leb, ltb, ◌&&◌, ◌||◌,
  if◌then◌else◌, length, get_or, set, replicate,
}
use xchg.Crypto.{Library}

-- The changes to the private key, for a slice of 32 bytes.
unfoldable pub clamp : List ℕ → List ℕ
clamp priv =
    let priv = set priv 0 (bit_and (get_or priv 0 0) 248) in
    let priv = set priv 31 (bit_and (get_or priv 31 0) 127) in
    set priv 31 (bit_or (get_or priv 31 0) 64)

-- `curve25519.Basepoint`: the point 9.
abbrev pub basepoint : List ℕ
basepoint = set (replicate 32 0) 0 9

-- `GenerateCurve25519KeyPair`: the private and the public key, or an error.
unfoldable pub generate_curve25519_key_pair : Library → Option (List ℕ) → Option (List ℕ × List ℕ)
unfolding clamp
generate_curve25519_key_pair y none = none
generate_curve25519_key_pair y (some random) = elim (y.x25519 (clamp random) basepoint) [
  | none ↦ none
  | some public_key ↦ some (clamp random, public_key)
]

-- A hexadecimal digit, in either case.
unfoldable pub digit_value : ℕ → Option ℕ
digit_value c =
    if leb b'0' c && leb c b'9'
    then some (c - b'0')
    else (if leb b'a' c && leb c b'f'
        then some (c - b'a' + 10)
        else (if leb b'A' c && leb c b'F' then some (c - b'A' + 10) else none))

-- `hex.DecodeString`; `none` is an error.
unfoldable pub hex_decode : List ℕ → Option (List ℕ)
unfolding digit_value
hex_decode [] = some []
hex_decode (c ∷ []) = none
hex_decode (c ∷ d ∷ s) = elim (digit_value c) [
  | none ↦ none
  | some high ↦ elim (digit_value d) [
    | none ↦ none
    | some low ↦ elim (hex_decode s) [ none ↦ none | some bytes ↦ some ((high * 16 + low) ∷ bytes) ]
  ]
]

-- `StringToAddress`.
unfoldable pub string_to_address : List ℕ → Option (List ℕ)
unfolding hex_decode
string_to_address address = hex_decode address
