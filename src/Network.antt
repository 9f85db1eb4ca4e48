-- ===== src/Network.antt =====
-- xchg/network.go: the list of routers, which are made up, and the address that is always given.
use xchg.Base.{ℕ, zero, suc, ◌+◌, List, [], ◌∷◌, ◌++◌}
use xchg.Texts.{codes}
use xchg.Decimal.{format_int}
use xchg.Router.{hex_encode}

pub record RouterInfo : Type 0 where
  pub name : List ℕ
  pub net_address : List ℕ
  pub xchg_address : List ℕ

-- The rounds of the loop of `GetRouters` from `i` on; `key i` is the public key that is drawn.
unfoldable pub routers_from : (ℕ → List ℕ) → ℕ → ℕ → List RouterInfo
routers_from key zero i = []
routers_from key (suc rounds) i =
    record {
      name = codes "router" ++ format_int i;
      net_address = codes "localhost:8084";
      xchg_address = hex_encode (key i);
    }
    ∷ routers_from key rounds (i + 1)

-- `GetRouters`.
unfoldable pub get_routers : (ℕ → List ℕ) → List RouterInfo
unfolding routers_from
get_routers key = routers_from key 10 0

-- `GetRouterAddr`, but for what it prints.
abbrev pub get_router_addr : List ℕ → List ℕ
get_router_addr address = codes "localhost:8084"
