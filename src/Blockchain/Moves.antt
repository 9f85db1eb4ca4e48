-- ===== src/Blockchain/Moves.antt =====
-- blockchain/move_types.go: the objects of the Sui package, as their JSON is read. `J` is the type
-- of the values whose type is left open (`interface{}`).
use xchg.Base.{ℕ, Bool, List}

pub record ObjectId : Type 0 where
  pub id : List ℕ

-- `MoveTable`.
pub record TableFields : Type 0 where
  pub id : ObjectId
  pub size : List ℕ

pub record MoveTable : Type 0 where
  pub fields : TableFields
  pub type : List ℕ

-- `MoveFundSuiObj`.
pub record ParametersFields (J : Type 0) : Type 0 where
  pub contents : List J

pub record Parameters (J : Type 0) : Type 0 where
  pub fields : ParametersFields J
  pub type : List ℕ

pub record FundFields (J : Type 0) : Type 0 where
  pub addresses : MoveTable
  pub balance : List ℕ
  pub common_fund : List ℕ
  pub counter : List ℕ
  pub directors : List J
  pub id : ObjectId
  pub network : MoveTable
  pub parameters : Parameters J
  pub profiles : MoveTable
  pub proposals_to_change_parameters : List J
  pub proposals_to_spend : List J
  pub routers : MoveTable

pub record MoveFundSuiObj (J : Type 0) : Type 0 where
  pub data_type : List ℕ
  pub fields : FundFields J
  pub has_public_transfer : Bool
  pub type : List ℕ

-- `MoveRouterInfo`.
pub record RouterInfoFields : Type 0 where
  pub current_stake : List ℕ
  pub ip_addr : List ℕ
  pub xchg_address : List ℕ

pub record MoveRouterInfo : Type 0 where
  pub fields : RouterInfoFields
  pub type : List ℕ

-- `MoveNetworkSegment`.
pub record SegmentFields : Type 0 where
  pub index : ℕ
  pub routers : List MoveRouterInfo

pub record SegmentValue : Type 0 where
  pub fields : SegmentFields
  pub type : List ℕ

pub record NetworkSegmentFields : Type 0 where
  pub id : ObjectId
  pub name : ℕ
  pub value : SegmentValue

pub record MoveNetworkSegment : Type 0 where
  pub data_type : List ℕ
  pub fields : NetworkSegmentFields
  pub has_public_transfer : Bool
  pub type : List ℕ

-- `MoveRouterObject`.
pub record ChequeIdsFields : Type 0 where
  pub contents : List (List ℕ)

pub record ChequeIds : Type 0 where
  pub fields : ChequeIdsFields
  pub type : List ℕ

pub record RouterValueFields : Type 0 where
  pub cheque_ids : ChequeIds
  pub ip_addr : List ℕ
  pub name : List ℕ
  pub owner : List ℕ
  pub segment : ℕ
  pub total_stake_amnt : List ℕ

pub record RouterValue : Type 0 where
  pub fields : RouterValueFields
  pub type : List ℕ

pub record RouterObjectFields : Type 0 where
  pub id : ObjectId
  pub name : List ℕ
  pub value : RouterValue

pub record MoveRouterObject : Type 0 where
  pub data_type : List ℕ
  pub fields : RouterObjectFields
  pub has_public_transfer : Bool
  pub type : List ℕ
