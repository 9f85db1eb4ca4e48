-- ===== src/Blockchain/Tests.antt =====
-- The theorems at concrete inputs.
use xchg.Base.{ℕ, ◌+◌, ◌≡◌, refl, arith, false, none, some, List, [], ◌∷◌, map}
use xchg.Texts.{done, failed, codes}
use xchg.Maps.{find}
use xchg.Blockchain.{Sui, Router, Network, new_blockchain, get_network, get_fund_object}
use xchg.Blockchain.Moves.{MoveFundSuiObj, MoveTable, MoveNetworkSegment, MoveRouterObject}
use xchg.Blockchain.Cached.{Request, serve_all, serve_all-held, held, other}
use xchg.Blockchain.Stakes.{written, get_network-written}

abbrev table : List ℕ → MoveTable
table name = record { fields = record { id = record { id = name }; size = [] }; type = [] }

abbrev fund : MoveFundSuiObj ℕ
fund = record {
  data_type = [];
  fields = record {
    addresses = table [];
    balance = [];
    common_fund = [];
    counter = [];
    directors = [];
    id = record { id = [] };
    network = table (codes "0x1");
    parameters = record { fields = record { contents = [] }; type = [] };
    profiles = table [];
    proposals_to_change_parameters = [];
    proposals_to_spend = [];
    routers = table (codes "0x2");
  };
  has_public_transfer = false;
  type = [];
}

abbrev routers : List Router
routers =
    record { xchg_addr = codes "0xa"; current_stake = 7000; ip_addr = codes "10.0.0.1" }
    ∷ record { xchg_addr = codes "0xb"; current_stake = 42; ip_addr = codes "10.0.0.2" }
    ∷ []

abbrev segment : MoveNetworkSegment
segment = record {
  data_type = [];
  fields = record {
    id = record { id = [] };
    name = 3;
    value = record { fields = record { index = 3; routers = map written routers }; type = [] };
  };
  has_public_transfer = false;
  type = [];
}

abbrev router_object : MoveRouterObject
router_object = record {
  data_type = [];
  fields = record {
    id = record { id = [] };
    name = [];
    value = record {
      fields = record {
        cheque_ids = record { fields = record { contents = [] }; type = [] };
        ip_addr = [];
        name = [];
        owner = [];
        segment = 3;
        total_stake_amnt = codes "42000000";
      };
      type = [];
    };
  };
  has_public_transfer = false;
  type = [];
}

-- A node that counts its requests.
abbrev node : Sui ℕ ℕ
node = record {
  get_object = λ x id. (done 0, x + 1);
  get_dynamic_field_object = λ x id name. (done 1, x + 1);
  marshal_indent = λ content. done (content ∷ []);
  unmarshal_fund = λ bytes. (fund, none);
  unmarshal_segment = λ bytes. (segment, none);
  unmarshal_router = λ bytes. (router_object, none);
}

get_network-written_example : get_network node 5 new_blockchain 3 ≡ (
  done (record { segment = 3; routers = routers }),
  record { fund_obj = some fund; networks = [] },
  7,
)
unfolding find get_fund_object
get_network-written_example =
    get_network-written node 5 6 7 new_blockchain (record { fund_obj = some fund; networks = [] })
      fund 3 1 (1 ∷ []) segment routers no_network fund_read refl refl refl refl
      (omega arith, (omega arith, tt))
  where
    no_network : find {A = Network} 3 [] ≡ none
    no_network = refl

    fund_read :
        get_fund_object node 5 new_blockchain
        ≡ (done fund, record { fund_obj = some fund; networks = [] }, 6)
    fund_read = refl

serve_all-held_example :
    ((serve_all node 9
        (held node (λ x id. (failed [], x)) fund [])
        (Request.network 3 ∷ Request.fund ∷ [])).1
      ≡ held node (λ x id. (failed [], x)) fund [])
    × (serve_all
          (other node (λ x id. (failed [], x)) fund [])
          9
          (held node (λ x id. (failed [], x)) fund [])
          (Request.network 3 ∷ Request.fund ∷ [])
        ≡ serve_all node 9
            (held node (λ x id. (failed [], x)) fund [])
            (Request.network 3 ∷ Request.fund ∷ []))
serve_all-held_example =
    serve_all-held node (λ x id. (failed [], x)) fund [] 9 (Request.network 3 ∷ Request.fund ∷ [])
