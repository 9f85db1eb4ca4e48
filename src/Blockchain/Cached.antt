-- ===== src/Blockchain/Cached.antt =====
-- `GetFundObject` keeps the fund object, `GetNetwork` keeps nothing.
use xchg.Base.{ℕ, ◌≡◌, refl, ap, arith, some, List, [], ◌∷◌}
use xchg.Texts.{Outcome}
use xchg.Blockchain.{
  Sui, Blockchain, Network, RouterObject, read, get_fund_object, get_network, get_router_object,
}
use xchg.Blockchain.Moves.{MoveFundSuiObj}

-- The requests of a user of the package, and their answers.
pub data Request : Type 0 where
  fund : Request
  network : ℕ → Request
  router : List ℕ → Request

pub data Answer (J : Type 0) : Type 0 where
  fund : Outcome (MoveFundSuiObj J) → Answer J
  network : Outcome Network → Answer J
  router : Outcome RouterObject → Answer J

module _ {X J : Type 0} (y : Sui X J) where
  pub serve : X → Blockchain J → Request → Answer J × Blockchain J × X
  serve x c Request.fund = let (a, c', x') = get_fund_object y x c in (Answer.fund a, c', x')
  serve x c (Request.network segment) =
      let (a, c', x') = get_network y x c segment in (Answer.network a, c', x')
  serve x c (Request.router address) =
      let (a, c', x') = get_router_object y x c address in (Answer.router a, c', x')

  -- A row of requests.
  pub serve_all : X → Blockchain J → List Request → List (Answer J) × Blockchain J × X
  unfolding serve
  serve_all x c [] = ([], c, x)
  serve_all x c (r ∷ rs) =
      let (a, c', x') = serve x c r in
      let (as', c'', x'') = serve_all x' c' rs in (a ∷ as', c'', x'')

module _ {X J : Type 0} (y : Sui X J) (get : X → List ℕ → Outcome J × X) (f : MoveFundSuiObj J)
    (networks : List (ℕ × Network)) where
  abbrev pub held : Blockchain J
  held = record { fund_obj = some f; networks = networks }

  abbrev pub other : Sui X J
  other = record y { get_object = get }

  network-held : (x : X) (segment : ℕ) → (get_network y x held segment).1 ≡ held
  unfolding get_network
  network-held x segment = ground arith

  router-held : (x : X) (address : List ℕ) → (get_router_object y x held address).1 ≡ held
  unfolding get_router_object
  router-held x address = ground arith

  serve-held : (x : X) (r : Request) → (serve y x held r).1 ≡ held
  unfolding serve get_fund_object
  serve-held x Request.fund = refl
  serve-held x (Request.network segment) = network-held x segment
  serve-held x (Request.router address) = router-held x address

  serve-other : (x : X) (r : Request) → serve other x held r ≡ serve y x held r
  unfolding serve get_fund_object get_network get_router_object read
  serve-other x Request.fund = refl
  serve-other x (Request.network segment) = refl
  serve-other x (Request.router address) = refl

  -- From the time when the fund object is there, no row of calls changes the `Blockchain`, so that no
  -- network is ever kept; and any other answers of the node's `GetObject` would have left the
  -- answers, the `Blockchain` and the world the same.
  pub serve_all-held :
      (x : X) (rs : List Request)
      → ((serve_all y x held rs).1 ≡ held) × (serve_all other x held rs ≡ serve_all y x held rs)
  unfolding serve_all
  serve_all-held x [] = (refl, refl)
  serve_all-held x (r ∷ rs) =
      let (same, equal) = serve_all-held (serve y x held r).2 rs in
      rw (serve-other x r, serve-held x r)
        (
          same,
          ap (λ (t : List (Answer J) × Blockchain J × X). ((serve y x held r).0 ∷ t.0, t.1, t.2))
              equal,
        )
