-- ===== src/Validator/Registered.antt =====
-- What a row of requests leaves in the list, and what is answered of it.
use xchg.Base.{
  ℕ, ◌≡◌, refl, sym, ap, ◌∙◌, Bool, true, false, Option, none, some, List, [], ◌∷◌, ◌++◌, ◌&&◌, not,
  inl, inr, Bool-cases, bytes_eq, bytes_eq→eq, bytes_eq_refl, if◌then◌else◌,
}
use mathlib.Core.List.{append-nil, append_assoc}
use mathlib.Core.List.{filter_map}
use xchg.Texts.{Outcome, done, failed, codes}
use xchg.Validator.{RouterInfo, Validator, Request, allow_origin, serve_http}

-- The requests of a row in turn: the state at the end.
module _ (json : List RouterInfo → Outcome (List ℕ)) where
  pub serve_all : Validator → List Request → Validator
  serve_all c [] = c
  serve_all c (r ∷ rs) = serve_all (serve_http json c r).1 rs

-- What a request registers.
abbrev pub registers : Request → Bool
registers r =
    bytes_eq r.request_uri (codes "/api/register_router")
    && (not (bytes_eq r.method (codes "OPTIONS"))
        && not (bytes_eq r.method (codes "POST") && not r.form_ok))

abbrev pub registered : Request → Option RouterInfo
registered r =
    if registers r
    then some
        (record { address = []; http_connection_point = r.ip_address; signature = r.signature })
    else none

module _ (json : List RouterInfo → Outcome (List ℕ)) where
  added : Option RouterInfo → List RouterInfo → List RouterInfo
  added none l = l
  added (some a) l = l ++ (a ∷ [])

  not_both :
      (uri : List ℕ)
      → bytes_eq uri (codes "/api/routers") ≡ true
      → bytes_eq uri (codes "/api/register_router") ≡ false
  unfolding bytes_eq
  not_both uri e =
      ap (λ u. bytes_eq u (codes "/api/register_router")) (bytes_eq→eq uri (codes "/api/routers") e)

  one_served :
      (c : Validator) (r : Request)
      → (serve_http json c r).1 ≡ record c { routers = added (registered r) c.routers }
  unfolding serve_http added
  one_served c r = elim (Bool-cases (bytes_eq r.request_uri (codes "/api/routers"))) [
    | inl e ↦ rw (e, not_both r.request_uri e) refl
    | inr e ↦ elim (Bool-cases (bytes_eq r.request_uri (codes "/api/register_router"))) [
      | inr n ↦ rw (e, n) refl
      | inl k ↦ elim (Bool-cases (bytes_eq r.method (codes "OPTIONS"))) [
        | inl o ↦ rw (e, k, o) refl
        | inr o ↦ elim (Bool-cases (bytes_eq r.method (codes "POST") && not r.form_ok)) [
          | inl p ↦ rw (e, k, o, p) refl
          | inr p ↦ rw (e, k, o, p) refl
        ]
      ]
    ]
  ]

  added-append :
      (r : Request) (rs : List Request) (l : List RouterInfo)
      → added (registered r) l ++ filter_map registered rs ≡ l ++ filter_map registered (r ∷ rs)
  unfolding added filter_map
  added-append r rs l = elim (Bool-cases (registers r)) [
    | inl e ↦ rw e (
        append_assoc l
          (record { address = []; http_connection_point = r.ip_address; signature = r.signature }
            ∷ [])
          (filter_map registered rs))
    | inr e ↦ rw e refl
  ]

  all_served :
      (c : Validator) (rs : List Request)
      → (serve_all json c rs).routers ≡ c.routers ++ filter_map registered rs
  unfolding serve_all filter_map
  all_served c [] = sym (append-nil c.routers)
  all_served c (r ∷ rs) =
      all_served (serve_http json c r).1 rs
      ∙ ap (λ (x : Validator). x.routers ++ filter_map registered rs) (one_served c r)
      ∙ added-append r rs c.routers

  -- After any row of requests the list is as before, with a router for each request that registers
  -- one (its form read where it is posted), in the order of the requests: none is lost, replaced or
  -- checked, and none has an address. A request for the list is then answered with all of them, or
  -- with the error of the encoder and the status 500.
  pub serve_all-registered :
      (c : Validator) (rs : List Request) (r : Request)
      → r.request_uri ≡ codes "/api/routers"
      → bytes_eq r.method (codes "OPTIONS") ≡ false
      → ((serve_all json c rs).routers ≡ c.routers ++ filter_map registered rs)
        × ((serve_http json (serve_all json c rs) r).0
            ≡ (elim (json (c.routers ++ filter_map registered rs)) [
              | failed e ↦ record { status = 500; headers = allow_origin ∷ []; body = e }
              | done bytes ↦ record { status = 200; headers = allow_origin ∷ []; body = bytes }
            ]))
  unfolding serve_http
  serve_all-registered c rs r uri method =
      let listed : bytes_eq r.request_uri (codes "/api/routers") ≡ true =
        ap (λ u. bytes_eq u (codes "/api/routers")) uri ∙ bytes_eq_refl (codes "/api/routers") in
      let all = all_served c rs in (all, rw (listed, method, all) refl)
