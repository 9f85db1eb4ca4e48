-- ===== src/Validator/Tests.antt =====
-- The theorem at concrete inputs.
use xchg.Base.{ℕ, ◌≡◌, refl, true, false, List, [], ◌∷◌, ◌++◌, length, bytes_eq}
use mathlib.Core.List.{filter_map}
use xchg.Texts.{Outcome, done, failed, codes}
use xchg.Validator.{RouterInfo, Request, allow_origin, new_validator, serve_http}
use xchg.Validator.Registered.{serve_all, registered, serve_all-registered}

-- An encoder that writes the number of the routers.
abbrev json : List RouterInfo → Outcome (List ℕ)
json routers = done (length routers ∷ [])

abbrev register : List ℕ → Request
register ip = record {
  request_uri = codes "/api/register_router";
  method = codes "POST";
  form_ok = true;
  ip_address = ip;
  signature = [];
}

abbrev list_routers : Request
list_routers = record {
  request_uri = codes "/api/routers";
  method = codes "GET";
  form_ok = true;
  ip_address = [];
  signature = [];
}

abbrev requests : List Request
requests = register (codes "10.0.0.1") ∷ list_routers ∷ register (codes "10.0.0.2") ∷ []

no_options : bytes_eq list_routers.method (codes "OPTIONS") ≡ false
unfolding bytes_eq
no_options = refl

serve_all-registered_example :
    ((serve_all json new_validator requests).routers
      ≡ new_validator.routers ++ filter_map registered requests)
    × ((serve_http json (serve_all json new_validator requests) list_routers).0
        ≡ (elim (json (new_validator.routers ++ filter_map registered requests)) [
          | failed e ↦ record { status = 500; headers = allow_origin ∷ []; body = e }
          | done bytes ↦ record { status = 200; headers = allow_origin ∷ []; body = bytes }
        ]))
serve_all-registered_example =
    serve_all-registered json new_validator requests list_routers refl no_options
