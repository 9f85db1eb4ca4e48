-- ===== src/Keys/Addresses.antt =====
-- Addresses as texts.
use xchg.Base.{
  ℕ, ◌+◌, ◌*◌, ◌/◌, ◌%◌, ◌<◌, ◌≡◌, refl, ap, Bool, true, false, Option, none, some, List, [], ◌∷◌,
  arith, All, ◌==◌, ==_iff,
}
use xchg.Bits.{each, each_at}
use xchg.Bytes.{IsByte}
use xchg.Router.{hex_digit, hex_encode}
use xchg.Keys.{digit_value, hex_decode, string_to_address}

reads : ℕ → Option ℕ → Bool
reads n none = false
reads n (some m) = m == n

reads-some : (n : ℕ) (o : Option ℕ) → reads n o ≡ true → o ≡ some n
unfolding reads
reads-some n none h = cc h
reads-some n (some m) h = ap some ((==_iff m n).0 h)

digit_table : each (λ n. reads n (digit_value (hex_digit n))) 16 ≡ true
unfolding each reads digit_value hex_digit
digit_table = refl

pub digit_value-hex_digit : (n : ℕ) → n < 16 → digit_value (hex_digit n) ≡ some n
digit_value-hex_digit n h =
    reads-some n (digit_value (hex_digit n))
      (each_at (λ n. reads n (digit_value (hex_digit n))) 16 n h digit_table)

hex_decode-hex_encode :
    (bytes : List ℕ) → All IsByte bytes → hex_decode (hex_encode bytes) ≡ some bytes
unfolding hex_decode hex_encode
hex_decode-hex_encode [] a = refl
hex_decode-hex_encode (b ∷ bs) (hb, a) =
    let whole : b / 16 * 16 + b % 16 ≡ b = omega arith in
    rw
      (
        digit_value-hex_digit (b / 16) (omega arith),
        digit_value-hex_digit (b % 16) (omega arith),
        hex_decode-hex_encode bs a,
        whole,
        hex_decode,
      )
      refl

-- The text of an address, `hex.EncodeToString` of its bytes, reads back as the address.
pub string_to_address-hex_encode :
    (bytes : List ℕ) → All IsByte bytes → string_to_address (hex_encode bytes) ≡ some bytes
unfolding string_to_address
string_to_address-hex_encode bytes a = hex_decode-hex_encode bytes a
