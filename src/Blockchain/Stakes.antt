-- ===== src/Blockchain/Stakes.antt =====
-- The routers of a segment, with their stakes.
use xchg.Base.{ℕ, ◌^◌, ◌<◌, ◌≡◌, refl, ap, ◌∙◌, none, some, List, [], ◌∷◌, map, All}
use mathlib.Core.List.{filter_map}
use xchg.Texts.{done}
use xchg.Maps.{find}
use xchg.Decimal.{format_int, parse_uint, parse_uint-format_int}
use xchg.Blockchain.{
  Sui, Blockchain, Router, of_u32, get_network, get_fund_object, network_of, router_of, read,
}
use xchg.Blockchain.Moves.{MoveFundSuiObj, MoveNetworkSegment, MoveRouterInfo}

-- The fields of a router on the blockchain, with a stake of 64 bits.
abbrev pub written : Router → MoveRouterInfo
written r = record {
  fields = record {
    current_stake = format_int r.current_stake;
    ip_addr = r.ip_addr;
    xchg_address = r.xchg_addr;
  };
  type = [];
}

abbrev pub HasStake : Router → Type 0
HasStake r = r.current_stake < 2 ^ 64

router_of-written : (r : Router) → HasStake r → router_of (written r) ≡ some r
unfolding router_of
router_of-written r h =
    let read : parse_uint (format_int r.current_stake) ≡ some r.current_stake =
      parse_uint-format_int r.current_stake h in
    rw (read, router_of) refl

pub routers-written :
    (rs : List Router) → All HasStake rs → filter_map router_of (map written rs) ≡ rs
unfolding filter_map
routers-written [] h = refl
routers-written (r ∷ rs) (hr, h) =
    rw (router_of-written r hr, routers-written rs h, filter_map) refl

module _ {X J : Type 0} (y : Sui X J) (x x' x'' : X) (c c' : Blockchain J) (f : MoveFundSuiObj J)
    (segment : ℕ) (content : J) (bytes : List ℕ) (net0 : MoveNetworkSegment)
    (rs : List Router) where
  -- A node that answers: the object of the segment holds the routers, their stakes of 64 bits in
  -- decimal. Then
  -- `GetNetwork` returns all of them, in order, with their stakes as numbers, and the index.
  pub get_network-written :
      find segment c.networks ≡ none
      → get_fund_object y x c ≡ (done f, c', x')
      → y.get_dynamic_field_object x' f.fields.network.fields.id.id (of_u32 segment)
        ≡ (done content, x'')
      → y.marshal_indent content ≡ done bytes
      → y.unmarshal_segment bytes ≡ (net0, none)
      → net0.fields.value.fields.routers ≡ map written rs
      → All HasStake rs
      → get_network y x c segment
        ≡ (done (record { segment = net0.fields.value.fields.index; routers = rs }), c', x'')
  unfolding get_network read network_of
  get_network-written new fund object marshalled unmarshalled routers stakes =
      let all : filter_map router_of net0.fields.value.fields.routers ≡ rs =
        ap (filter_map router_of) routers ∙ routers-written rs stakes in
      rw
        (
          new, fund, fund, object, marshalled, unmarshalled, unmarshalled, fund, object, all,
          get_network, read,
        )
        refl
