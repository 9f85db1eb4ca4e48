-- ===== src/Blockchain/Account/Cheques.antt =====
-- The cheques that the main program applies.
use xchg.Base.{
  ℕ, zero, suc, ◌+◌, ◌-◌, ◌*◌, ◌/◌, ◌%◌, ◌≤◌, ◌≡◌, refl, sym, ap, ◌∙◌, inl, inr, some, List, [],
  ◌∷◌, ◌++◌, arith, length, length-append, length-replicate, take, take-all, take-nil, take-All,
  ltb→lt, not-ltb→le, replicate, map, All, ltb, le→not-ltb, Bool-cases,
}
use mathlib.Core.List.{append-nil, append_assoc}
use xchg.Texts.{done, codes}
use xchg.Bytes.{
  copy_at, copy_next, copy_at-replicate, put_uint64, le_bytes, length-le_bytes, IsByte,
}
use xchg.Crypto.{Library}
use xchg.Router.{hex_encode}
use xchg.Keys.Addresses.{digit_value-hex_digit}
use xchg.Blockchain.{RouterObject, fund_object_id, package_id}
use xchg.Blockchain.Account.{
  RouterAccount, Item, MoveCall, shared_object, vec_u8, cheque_message, apply_cheque,
  apply_checques, decode_prefix, items_from, main_cheques,
}

replicate_add : (m n : ℕ) → replicate (m + n) 0 ≡ replicate {A = ℕ} m 0 ++ replicate n 0
replicate_add zero n = ap (λ (i : ℕ). replicate {A = ℕ} i 0) (omega arith)
replicate_add (suc m) n =
    let e : suc m + n ≡ suc (m + n) = omega arith in
    ap (λ (i : ℕ). replicate {A = ℕ} i 0) e ∙ ap (λ l. 0 ∷ l) (replicate_add m n)

-- The message: the id, the key, the application padded with zeros, and the number 1.
abbrev pub signed : List ℕ → List ℕ → List ℕ → List ℕ
signed id key app = (((id ++ key) ++ app) ++ replicate (32 - length app) 0) ++ le_bytes 8 1

module _ (id key app : List ℕ) (id_size : length id ≡ 32) (key_size : length key ≡ 32)
    (app_size : length app ≤ 32) where
  cheque_message-signed :
      cheque_message key (record { cheque_id = id; app_id = app }) ≡ signed id key app
  unfolding cheque_message put_uint64
  cheque_message-signed =
      let n : ℕ = 32 - length app in
      let split : replicate {A = ℕ} (40 - length app) 0 ≡ replicate n 0 ++ replicate 8 0 =
        ap (λ (i : ℕ). replicate {A = ℕ} i 0) (omega arith) ∙ replicate_add n 8 in
      rw (take-all 32 app app_size) (
        ap (λ s. copy_at (copy_at (copy_at s 32 key) 64 app) 96 (le_bytes 8 1))
          (copy_next [] id 0 104 72 refl (omega arith))
        ∙ ap (λ s. copy_at (copy_at s 64 app) 96 (le_bytes 8 1))
            (copy_next id key 32 72 40 (omega arith) (omega arith))
        ∙ ap (λ s. copy_at s 96 (le_bytes 8 1))
            (copy_next (id ++ key) app 64 40 (40 - length app) (omega (arith, length-append id key))
                (omega arith)
              ∙ ap (λ s. ((id ++ key) ++ app) ++ s) split
              ∙ sym (append_assoc ((id ++ key) ++ app) (replicate n 0) (replicate 8 0)))
        ∙ copy_next (((id ++ key) ++ app) ++ replicate n 0) (le_bytes 8 1) 96 8 0
            (omega (
              arith,
              length-append ((id ++ key) ++ app) (replicate n 0),
              length-append (id ++ key) app,
              length-append id key,
              length-replicate {A = ℕ} n 0,
            ))
            (omega (arith, length-le_bytes 8 1))
        ∙ append-nil (signed id key app))

decode_prefix-hex_encode :
    (bytes : List ℕ) → All IsByte bytes → decode_prefix (hex_encode bytes) ≡ bytes
unfolding decode_prefix hex_encode
decode_prefix-hex_encode [] a = refl
decode_prefix-hex_encode (b ∷ bs) (hb, a) =
    let whole : b / 16 * 16 + b % 16 ≡ b = omega arith in
    rw
      (
        digit_value-hex_digit (b / 16) (omega arith),
        digit_value-hex_digit (b % 16) (omega arith),
        decode_prefix-hex_encode bs a,
        whole,
        decode_prefix,
      )
      refl

-- A cheque's id as the blockchain writes it.
abbrev pub id_text : List ℕ → List ℕ
id_text id = codes "0x" ++ hex_encode id

abbrev pub item_of : List ℕ → Item
item_of id = record { cheque_id = id; app_id = codes "app_id" }

items_from-take :
    (i : ℕ) (ids : List (List ℕ))
    → All (All IsByte) ids
    → items_from i (map id_text ids) ≡ some (map item_of (take (31 - i) ids))
unfolding items_from
items_from-take i [] a = rw (take-nil {A = List ℕ} (31 - i)) refl
items_from-take i (id ∷ ids) (h, a) = elim (Bool-cases (ltb 30 i)) [
  | inl over ↦
      let none_left : 31 - i ≡ 0 = omega (arith, ltb→lt 30 i over) in rw (over, none_left) refl
  | inr under ↦
      let one_more : 31 - i ≡ suc (31 - (i + 1)) = omega (arith, not-ltb→le 30 i under) in
      rw
        (
          under,
          le→not-ltb (suc (suc (length (hex_encode id)))) 2 (omega arith),
          items_from-take (i + 1) ids a,
          decode_prefix-hex_encode id h,
          one_more,
        )
        refl
]

abbrev pub IsChequeId : List ℕ → Type 0
IsChequeId id = All IsByte id × (length id ≡ 32)

bytes_only : (ids : List (List ℕ)) → All IsChequeId ids → All (All IsByte) ids
bytes_only [] a = tt
bytes_only (id ∷ ids) ((b, size), a) = (b, bytes_only ids a)

module _ {J : Type 0} (y : Library) (clock : List ℕ) (c : RouterAccount J) where
  -- The command that applies a cheque.
  abbrev pub applied : List ℕ → MoveCall
  applied id =
      let msg = signed id c.xchg_public_key (codes "app_id") in
      record {
        package_id = package_id;
        module_name = codes "fund";
        function_name = codes "apply_cheque";
        arguments =
            shared_object fund_object_id
            ∷ vec_u8 c.xchg_public_key
            ∷ vec_u8 msg
            ∷ vec_u8 (y.sign c.xchg_private_key msg)
            ∷ shared_object clock
            ∷ [];
      }

  apply_cheque-applied :
      (id : List ℕ)
      → length c.xchg_public_key ≡ 32
      → length id ≡ 32
      → apply_cheque y clock c (item_of id) ≡ applied id
  unfolding apply_cheque
  apply_cheque-applied id key_size size =
      let whole : copy_at (replicate 32 0) 0 c.xchg_public_key ≡ c.xchg_public_key =
        copy_at-replicate 32 0 c.xchg_public_key (omega (arith, key_size))
        ∙ take-all 32 c.xchg_public_key (omega (arith, key_size)) in
      let message : cheque_message c.xchg_public_key (item_of id)
          ≡ signed id c.xchg_public_key (codes "app_id") =
        cheque_message-signed id c.xchg_public_key (codes "app_id") size key_size (omega arith) in
      simp (whole, message) refl

  map-applied :
      (ids : List (List ℕ))
      → length c.xchg_public_key ≡ 32
      → All IsChequeId ids
      → map (apply_cheque y clock c) (map item_of ids) ≡ map applied ids
  map-applied [] key_size a = refl
  map-applied (id ∷ ids) key_size ((b, size), a) =
      cc (apply_cheque-applied id key_size size, map-applied ids key_size a)

  -- The main program, when the router was read, its cheques have ids of 32 bytes, written as "0x" and
  -- hexadecimal digits, and the public key has 32 bytes: it applies the
  -- first 31 of them, in order, each by a command with the public key, the message of the cheque
  -- (its id, the key, the application's name padded to 32 bytes, and the number 1) and its signature.
  pub main_cheques-applied :
      (router : RouterObject) (ids : List (List ℕ))
      → length c.xchg_public_key ≡ 32
      → router.cheque_ids ≡ map id_text ids
      → All IsChequeId ids
      → main_cheques y clock c (done router) ≡ some (map applied (take 31 ids))
  unfolding main_cheques apply_checques
  main_cheques-applied router ids key_size texts a =
      let items : items_from 0 router.cheque_ids ≡ some (map item_of (take 31 ids)) =
        ap (items_from 0) texts ∙ items_from-take 0 ids (bytes_only ids a) in
      rw (items, main_cheques)
        (ap some (map-applied (take 31 ids) key_size (take-All IsChequeId 31 ids a)))
