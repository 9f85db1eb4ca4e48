-- ===== src/Router/Addresses.antt =====
-- The table of addresses: the laws of the map, and that distinct addresses have distinct keys.
use xchg.Base.{
  ℕ, ◌/◌, ◌%◌, ◌<◌, ◌≡◌, ◌≢◌, refl, inl, inr, some, List, [], ◌∷◌, arith, bytes_eq, bytes_eq→eq,
  bytes_eq_refl, All, Bool-cases,
}
use xchg.Bytes.{IsByte}
use xchg.Storage.{Storage}
use xchg.Router.{Addresses, hex_digit, hex_encode, lookup, insert}

pub lookup-insert_self :
    (key : List ℕ) (s : Storage) (m : Addresses) → lookup key (insert key s m) ≡ some s
unfolding lookup insert
lookup-insert_self key s [] = rw (bytes_eq_refl key)
lookup-insert_self key s ((k, t) ∷ m) = elim (Bool-cases (bytes_eq k key)) [
  | inl e ↦ rw (e, lookup, e)
  | inr e ↦ rw (e, lookup, e) (lookup-insert_self key s m)
]

pub lookup-insert_ne :
    (key key' : List ℕ) (s : Storage) (m : Addresses)
    → key ≢ key'
    → lookup key' (insert key s m) ≡ lookup key' m
unfolding lookup insert
lookup-insert_ne key key' s [] ne = ground (arith, bytes_eq→eq key key')
lookup-insert_ne key key' s ((k, t) ∷ m) ne =
    ground (arith, bytes_eq→eq k key, bytes_eq→eq k key', lookup-insert_ne key key' s m ne)

hex_digit-injective : (a b : ℕ) → a < 16 → b < 16 → hex_digit a ≡ hex_digit b → a ≡ b
unfolding hex_digit
hex_digit-injective a b ha hb e = ground arith

-- Distinct addresses have distinct keys.
pub hex_encode-injective :
    (xs ys : List ℕ) → All IsByte xs → All IsByte ys → hex_encode xs ≡ hex_encode ys → xs ≡ ys
unfolding hex_encode
hex_encode-injective [] [] hx hy e = refl
hex_encode-injective [] (y ∷ ys) hx hy e = cc
hex_encode-injective (x ∷ xs) [] hx hy e = cc
hex_encode-injective (x ∷ xs) (y ∷ ys) (bx, hx) (by, hy) e = ground (
  arith,
  hex_digit-injective (x / 16) (y / 16),
  hex_digit-injective (x % 16) (y % 16),
  hex_encode-injective xs ys hx hy,
)
