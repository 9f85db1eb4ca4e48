-- ===== src/Blockchain.antt =====
-- blockchain/blockchain.go and blockchain/network.go: what a router reads of the fund on the Sui
-- blockchain. The client of a Sui node and `encoding/json` are a parameter.
pub mod Moves
pub mod Cached
pub mod Stakes
pub mod Account
mod Tests
use xchg.Base.{ℕ, Option, none, some, List, []}
use mathlib.Core.List.{filter_map}
use xchg.Texts.{Outcome, done, failed, codes}
use xchg.Maps.{find}
use xchg.Decimal.{parse_uint}
use xchg.Blockchain.Moves.{MoveFundSuiObj, MoveNetworkSegment, MoveRouterInfo, MoveRouterObject}

-- `FUND_OBJECT_ID` and `PACKAGE_ID`.
abbrev pub fund_object_id : List ℕ
fund_object_id = codes "0xfe53b68fbce0daa159c7abe893633584835bd398f9b6b8612a6d72fd72e9f1ff"

abbrev pub package_id : List ℕ
package_id = codes "0x7674735315216af4fc71ef20bb5775ad3b1e1f162c19150f0da9772f142528dd"

-- The name of a dynamic field.
pub data FieldName : Type 0 where
  of_u32 : ℕ → FieldName
  of_address : List ℕ → FieldName

-- `GetObject` and `GetDynamicFieldObject`, which change the rest of the world `X`, and return the
-- content of an object; `MarshalIndent`; and `Unmarshal` into each of the types, which returns what
-- it filled in also when it fails.
pub record Sui (X J : Type 0) : Type 0 where
  pub get_object : X → List ℕ → Outcome J × X
  pub get_dynamic_field_object : X → List ℕ → FieldName → Outcome J × X
  pub marshal_indent : J → Outcome (List ℕ)
  pub unmarshal_fund : List ℕ → MoveFundSuiObj J × Option (List ℕ)
  pub unmarshal_segment : List ℕ → MoveNetworkSegment × Option (List ℕ)
  pub unmarshal_router : List ℕ → MoveRouterObject × Option (List ℕ)

-- `Router` and `Network`.
pub record Router : Type 0 where
  pub xchg_addr : List ℕ
  pub current_stake : ℕ
  pub ip_addr : List ℕ

pub record Network : Type 0 where
  pub segment : ℕ
  pub routers : List Router

pub record RouterObject : Type 0 where
  pub name : List ℕ
  pub segment : ℕ
  pub ip_addr : List ℕ
  pub xchg_addr : List ℕ
  pub owner : List ℕ
  pub total_stake_amount : ℕ
  pub cheque_ids : List (List ℕ)

-- `Blockchain`, without its client.
pub record Blockchain (J : Type 0) : Type 0 where
  pub fund_obj : Option (MoveFundSuiObj J)
  pub networks : List (ℕ × Network)

abbrev pub new_blockchain : {J : Type 0} → Blockchain J
new_blockchain = record { fund_obj = none; networks = [] }

-- `GetRouterForAddress`.
unfoldable pub get_router_for_address : List ℕ → List ℕ
get_router_for_address address = codes "localhost:8084"

-- A router of a segment; one whose stake is no number is passed over.
unfoldable pub router_of : MoveRouterInfo → Option Router
router_of router = elim (parse_uint router.fields.current_stake) [
  | none ↦ none
  | some stake ↦ some (record {
    xchg_addr = router.fields.xchg_address;
    current_stake = stake;
    ip_addr = router.fields.ip_addr;
  })
]

unfoldable pub network_of : MoveNetworkSegment → Network
unfolding router_of
network_of net0 = record {
  segment = net0.fields.value.fields.index;
  routers = filter_map router_of net0.fields.value.fields.routers;
}

-- What `GetRouterObject` returns of the object that it read. The text of the error is cut short.
unfoldable pub router_object_of : MoveRouterObject → Outcome RouterObject
router_object_of r = elim (parse_uint r.fields.value.fields.total_stake_amnt) [
  | none ↦ failed (codes "strconv.ParseUint")
  | some stake ↦ done (record {
    name = r.fields.value.fields.name;
    segment = r.fields.value.fields.segment;
    ip_addr = r.fields.value.fields.ip_addr;
    xchg_addr = codes "---";
    owner = r.fields.value.fields.owner;
    total_stake_amount = stake;
    cheque_ids = r.fields.value.fields.cheque_ids.fields.contents;
  })
]

module _ {X J : Type 0} (y : Sui X J) where
  -- `MarshalIndent` and `Unmarshal` of the content of an object.
  unfoldable pub read : {A : Type 0} → (List ℕ → A × Option (List ℕ)) → J → Outcome A
  read unmarshal content = elim (y.marshal_indent content) [
    | failed e ↦ failed e
    | done bytes ↦ let (a, err) = unmarshal bytes in elim err [ none ↦ done a | some e ↦ failed e ]
  ]

  -- `GetFundObject`; the error of `Unmarshal` is not looked at.
  unfoldable pub get_fund_object : X → Blockchain J → Outcome (MoveFundSuiObj J) × Blockchain J × X
  get_fund_object x c = elim c.fund_obj [
    | some f ↦ (done f, c, x)
    | none ↦
        let (object, x') = y.get_object x fund_object_id in
        elim object [
          | failed e ↦ (failed e, c, x')
          | done content ↦ elim (y.marshal_indent content) [
            | failed e ↦ (failed e, c, x')
            | done bytes ↦
                let (f, err) = y.unmarshal_fund bytes in
                (done f, record c { fund_obj = some f }, x')
          ]
        ]
  ]

  -- `GetNetwork`.
  unfoldable pub get_network : X → Blockchain J → ℕ → Outcome Network × Blockchain J × X
  unfolding get_fund_object read network_of
  get_network x c segment = elim (find segment c.networks) [
    | some network ↦ (done network, c, x)
    | none ↦
        let (fund, c', x') = get_fund_object x c in
        elim fund [
          | failed e ↦ (failed e, c', x')
          | done f ↦
              let (object, x'') =
                y.get_dynamic_field_object x' f.fields.network.fields.id.id (of_u32 segment) in
              elim object [
                | failed e ↦ (failed e, c', x'')
                | done content ↦ elim (read y.unmarshal_segment content) [
                  | failed e ↦ (failed e, c', x'')
                  | done net0 ↦ (done (network_of net0), c', x'')
                ]
              ]
        ]
  ]

  -- `GetRouterObject`.
  unfoldable pub get_router_object :
      X → Blockchain J → List ℕ → Outcome RouterObject × Blockchain J × X
  unfolding get_fund_object read router_object_of
  get_router_object x c router_xchg_address =
      let (fund, c', x') = get_fund_object x c in
      elim fund [
        | failed e ↦ (failed e, c', x')
        | done f ↦
            let (object, x'') =
              y.get_dynamic_field_object x' f.fields.routers.fields.id.id
                (of_address router_xchg_address) in
            elim object [
              | failed e ↦ (failed e, c', x'')
              | done content ↦ elim (read y.unmarshal_router content) [
                | failed e ↦ (failed e, c', x'')
                | done r ↦ (router_object_of r, c', x'')
              ]
            ]
      ]
