-- ===== src/Storage/Race.antt =====
-- router/router.go `Put` gives a message its id under the router's lock, and router/address_storage.go
-- `Put` enters it later under its own: two calls may enter their messages in the other order.
use xchg.Base.{ℕ, zero, suc, ◌+◌, ◌*◌, ◌<◌, ◌≡◌, refl, List, ◌++◌, arith, length, length-append}
use xchg.Base.Words.{half_mod}
use xchg.Storage.{
  Storage, new_storage, put, get_message, get_from, collect, last_message, new_message,
}

-- The messages that a client gets in a row of polls, each from the last id of the one before.
unfoldable pub received : Storage → ℕ → ℕ → ℕ → ℕ
received c max_size zero after_id = 0
received c max_size (suc polls) after_id =
    let b = get_message c after_id max_size in b.count + received c max_size polls b.last_id

module _ (t now now' : ℕ) (a b : List ℕ) (i j max_size : ℕ) (order : i < j)
    (some_bytes : 0 < length a) (fits : length a + length b < max_size)
    (small : max_size < half_mod) where
  -- The message with the id `j` came before that with the smaller id `i`.
  abbrev swapped : Storage
  swapped = put (put (new_storage t) j a now) i b now'

  from_later : get_message swapped j max_size ≡ record { bytes = a ++ b; last_id = i; count = 2 }
  unfolding get_message get_from put new_storage collect last_message new_message
  from_later = ground (arith, length-append a b)

  from_earlier : get_message swapped i max_size ≡ record { bytes = a; last_id = j; count = 1 }
  unfolding get_message get_from put new_storage collect last_message new_message
  from_earlier = ground (arith, length-append a b)

  -- Two messages of one address, the first of them not empty, whose ids `i < j` were given in one
  -- order and that were entered in the other, and that fit an answer together: from the id `j` on, a
  -- client that polls in turn gets three messages in every two polls, as often as it polls while the
  -- storage stays as it is (nothing is put, and nothing cleared).
  pub received-swapped :
      (n : ℕ) → received (put (put (new_storage t) j a now) i b now') max_size (2 * n) j ≡ 3 * n
  unfolding received
  received-swapped zero = refl
  received-swapped (suc n) =
      let two : 2 * suc n ≡ suc (suc (2 * n)) = omega arith in
      rw (two, from_later, from_earlier) (omega (arith, received-swapped n))
