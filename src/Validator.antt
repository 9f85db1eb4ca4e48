-- ===== src/Validator.antt =====
-- validator/validator.go: the list of routers that register themselves. HTTP and the JSON encoder
-- are arguments; `Start` empties the list.
pub mod Registered
mod Tests
use xchg.Base.{
  ℕ, Bool, true, false, Option, none, some, List, [], ◌∷◌, ◌++◌, ◌&&◌, not, bytes_eq, if◌then◌else◌,
}
use xchg.Texts.{Outcome, done, failed, codes}

-- `RouterInfo`.
pub record RouterInfo : Type 0 where
  pub address : List ℕ
  pub http_connection_point : List ℕ
  pub signature : List ℕ

-- `Validator`, without its lock and its server; `err` is the last error of the server.
pub record Validator : Type 0 where
  pub routers : List RouterInfo
  pub err : Option (List ℕ)

unfoldable pub new_validator : Validator
new_validator = record { routers = []; err = none }

-- `Start` and `thListen`, which keeps what `ListenAndServe` returns.
unfoldable pub start : Validator → Validator
start c = record c { routers = [] }

unfoldable pub th_listen : Validator → Option (List ℕ) → Validator
th_listen c err = record c { err = err }

-- `Stop`, by the outcome of `Shutdown`.
unfoldable pub stop : Validator → Option (List ℕ) → Option (List ℕ) × Validator
stop c none = (none, c)
stop c (some e) = (some e, record c { err = some e })

-- A request: whether `ParseMultipartForm` succeeds, and what `FormValue` returns after it.
pub record Request : Type 0 where
  pub request_uri : List ℕ
  pub method : List ℕ
  pub form_ok : Bool
  pub ip_address : List ℕ
  pub signature : List ℕ

-- A response: the status, the headers that were set, and the body.
pub record Response : Type 0 where
  pub status : ℕ
  pub headers : List (List ℕ × List ℕ)
  pub body : List ℕ

abbrev pub allow_origin : List ℕ × List ℕ
allow_origin = (codes "Access-Control-Allow-Origin", codes "*")

-- The response to "OPTIONS".
abbrev pub options_response : Response
options_response = record {
  status = 200;
  headers =
      allow_origin
      ∷ (codes "Access-Control-Request-Method", codes "POST")
      ∷ (codes "Access-Control-Allow-Headers", codes "Content-Type")
      ∷ [];
  body = [];
}

-- `processRouters`; `json` is `MarshalIndent`.
unfoldable pub process_routers :
    (List RouterInfo → Outcome (List ℕ)) → Validator → Request → Response
process_routers json c r =
    if bytes_eq r.method (codes "OPTIONS") then options_response else elim (json c.routers) [
      | failed e ↦ record { status = 500; headers = allow_origin ∷ []; body = e }
      | done bytes ↦ record { status = 200; headers = allow_origin ∷ []; body = bytes }
    ]

-- `processRegisterRouter`; `declareRouter` does nothing.
unfoldable pub process_register_router : Validator → Request → Response × Validator
process_register_router c r =
    let silent : Response = record { status = 200; headers = allow_origin ∷ []; body = [] } in
    let router : RouterInfo = record {
      address = [];
      http_connection_point = r.ip_address;
      signature = r.signature;
    } in
    if bytes_eq r.method (codes "OPTIONS")
    then (options_response, c)
    else (if bytes_eq r.method (codes "POST") && not r.form_ok
        then (silent, c)
        else (silent, record c { routers = c.routers ++ (router ∷ []) }))

-- `ServeHTTP`.
unfoldable pub serve_http :
    (List RouterInfo → Outcome (List ℕ)) → Validator → Request → Response × Validator
unfolding process_routers process_register_router
serve_http json c r =
    if bytes_eq r.request_uri (codes "/api/routers")
    then (process_routers json c r, c)
    else (if bytes_eq r.request_uri (codes "/api/register_router")
        then process_register_router c r
        else (record { status = 200; headers = []; body = codes "wrong request" }, c))
