-- ===== src/Blockchain/Account.antt =====
-- blockchain/router_account.go and main.go: the account of a router, and the cheques that it
-- applies. The commands are what the Sui client is given; signing is that of Crypto.Library.
pub mod Cheques
mod Tests
use xchg.Base.{
  ℕ, zero, suc, ◌+◌, ◌*◌, Option, none, some, List, [], ◌∷◌, ◌++◌, ltb, if◌then◌else◌, length, take,
  drop, replicate, map,
}
use xchg.Texts.{Outcome, done, failed, codes}
use xchg.Bytes.{copy_at, put_uint64}
use xchg.Crypto.{Library}
use xchg.Router.{hex_encode}
use xchg.Keys.{digit_value}
use xchg.Blockchain.{
  Sui, Blockchain, RouterObject, new_blockchain, fund_object_id, package_id, get_router_object,
}

-- `RouterAccount`, without the client.
pub record RouterAccount (J : Type 0) : Type 0 where
  pub bc : Blockchain J
  pub xchg_private_key : List ℕ
  pub xchg_public_key : List ℕ
  pub xchg_address : List ℕ

-- `PrivateKey.Public`: the last 32 bytes; a key that is too short panics (`none`).
unfoldable pub public_of : List ℕ → Option (List ℕ)
public_of key =
    if ltb (length key) 32 then none else some (copy_at (replicate 32 0) 0 (drop 32 key))

-- `NewRouterAccount`, with the key of the seed phrase, which is nil (`[]`) after an error.
unfoldable pub new_router_account : {J : Type 0} → List ℕ → Option (RouterAccount J)
unfolding public_of
new_router_account private_key = elim (public_of private_key) [
  | none ↦ none
  | some public_key ↦ some (record {
    bc = new_blockchain;
    xchg_private_key = private_key;
    xchg_public_key = public_key;
    xchg_address = codes "0x" ++ hex_encode public_key;
  })
]

-- The arguments of a call of the package.
pub data Argument : Type 0 where
  shared_object : List ℕ → Argument
  arg_address : List ℕ → Argument
  arg_u32 : ℕ → Argument
  vec_u8 : List ℕ → Argument

pub record MoveCall : Type 0 where
  pub package_id : List ℕ
  pub module_name : List ℕ
  pub function_name : List ℕ
  pub arguments : List Argument

pub record Item : Type 0 where
  pub cheque_id : List ℕ
  pub app_id : List ℕ

-- The call of `GenerateCheques`; `clock` is `CLOCK_OBJECT_ID` of the Sui library.
unfoldable pub generate_cheques : {J : Type 0} → List ℕ → RouterAccount J → MoveCall
generate_cheques clock c = record {
  package_id = package_id;
  module_name = codes "fund";
  function_name = codes "get_cheques_ids";
  arguments =
      shared_object fund_object_id
      ∷ arg_address c.xchg_address
      ∷ arg_u32 10
      ∷ shared_object clock
      ∷ [];
}

-- The message of a cheque that is signed.
unfoldable pub cheque_message : List ℕ → Item → List ℕ
cheque_message public_key item =
    let msg = replicate 104 0 in
    let msg = copy_at msg 0 item.cheque_id in
    let msg = copy_at msg 32 public_key in
    let msg = copy_at msg 64 (take 32 item.app_id) in put_uint64 msg 96 1

unfoldable pub apply_cheque : {J : Type 0} → Library → List ℕ → RouterAccount J → Item → MoveCall
unfolding cheque_message
apply_cheque y clock c item =
    let pk = copy_at (replicate 32 0) 0 c.xchg_public_key in
    let msg = cheque_message c.xchg_public_key item in
    let sig = y.sign c.xchg_private_key msg in
    record {
      package_id = package_id;
      module_name = codes "fund";
      function_name = codes "apply_cheque";
      arguments =
          shared_object fund_object_id
          ∷ vec_u8 pk
          ∷ vec_u8 msg
          ∷ vec_u8 sig
          ∷ shared_object clock
          ∷ [];
    }

-- `ApplyChecques`: the commands of the transaction that is executed.
unfoldable pub apply_checques :
    {J : Type 0} → Library → List ℕ → RouterAccount J → List Item → List MoveCall
unfolding apply_cheque
apply_checques y clock c items = map (apply_cheque y clock c) items

-- `FetchRouterObject`.
unfoldable pub fetch_router_object :
    {X J : Type 0} → Sui X J → X → RouterAccount J → Outcome RouterObject × RouterAccount J × X
unfolding get_router_object
fetch_router_object y x c =
    let (router, bc, x') = get_router_object y x c.bc c.xchg_address in
    (router, record c { bc = bc }, x')

-- `hex.DecodeString` as far as it succeeds.
unfoldable pub decode_prefix : List ℕ → List ℕ
unfolding digit_value
decode_prefix [] = []
decode_prefix (c ∷ []) = []
decode_prefix (c ∷ d ∷ s) =
    let rest = decode_prefix s in
    elim (digit_value c) [
      | none ↦ []
      | some high ↦ elim (digit_value d) [ none ↦ [] | some low ↦ (high * 16 + low) ∷ rest ]
    ]

-- The loop of `main`, from its round `i` on; `ch[2:]` panics (`none`) on a shorter text.
unfoldable pub items_from : ℕ → List (List ℕ) → Option (List Item)
unfolding decode_prefix
items_from i [] = some []
items_from i (ch ∷ chs) =
    let rest = items_from (i + 1) chs in
    if ltb 30 i
    then some []
    else (if ltb (length ch) 2 then none else elim rest [
      | none ↦ none
      | some items ↦
          some (record { cheque_id = decode_prefix (drop 2 ch); app_id = codes "app_id" } ∷ items)
    ])

-- `main`, after `GenerateCheques`: the nil router of an error is read before the error is tested.
unfoldable pub main_cheques :
    {J : Type 0}
    → Library
    → List ℕ
    → RouterAccount J
    → Outcome RouterObject
    → Option (List MoveCall)
unfolding items_from apply_checques
main_cheques y clock c (failed e) = none
main_cheques y clock c (done router) = elim (items_from 0 router.cheque_ids) [
  | none ↦ none
  | some items ↦ some (apply_checques y clock c items)
]
