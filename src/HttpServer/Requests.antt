-- ===== src/HttpServer/Requests.antt =====
-- router/http_server.go: `ServeHTTP` with its handlers. The headers, and the text that is written
-- when a form cannot be read, are left out.
use xchg.Base.{ℕ, Bool, Option, none, some, List, [], ◌&&◌, not, bytes_eq, if◌then◌else◌}
use xchg.Texts.{codes}
use xchg.Router.{
  Router, Slice, Answer, answer, wrong_frame_size, declare_http_request_d, declare_http_request_s,
  declare_http_request_f,
}
use xchg.Router.Reports.{Report}
use xchg.Framing.{Run, finished, panicked, running}
use xchg.HttpServer.{process_w, process_r, Route, route, options, debug, stat, wrong_request}

-- base64.StdEncoding: `EncodeToString` and `DecodeString`, whose slice may have some capacity left.
pub record Base64 : Type 0 where
  pub encode_to_string : List ℕ → List ℕ
  pub decode_string : List ℕ → Option Slice

-- What a handler reads of a request: `form_ok` says whether `ParseMultipartForm` succeeds, and `d`
-- is the value of the field "d".
pub record Request : Type 0 where
  pub method : List ℕ
  pub request_uri : List ℕ
  pub form_ok : Bool
  pub d : List ℕ

-- The data of `processW` and `processR`.
unfoldable pub form_data : Base64 → Request → Option Slice
form_data b q =
    if bytes_eq q.method (codes "POST") && not q.form_ok then none else b.decode_string q.d

-- What `processR` writes.
unfoldable pub written : Base64 → Option Answer → List ℕ
written b none = []
written b (some wrong_frame_size) = []
written b (some (answer bytes n)) = b.encode_to_string bytes

-- `processDebug` and `processStat`.
unfoldable pub process_debug : Router → Report → List ℕ × Router
process_debug c report = (report.last_debug_info, declare_http_request_d c)

unfoldable pub process_stat : Router → Report → List ℕ × Router
process_stat c report = (report.last_stat_info, declare_http_request_s c)

after_w : Run Router → Run (List ℕ × Router)
after_w (finished c) = finished ([], c)
after_w panicked = panicked
after_w (running c) = running ([], c)

after_r : Base64 → Option (Option Answer × Router) → Run (List ℕ × Router)
after_r b none = panicked
after_r b (some (a, c)) = finished (written b a, c)

-- `ServeHTTP`: the body of the response and the router. `others` is what other requests do while
-- `processR` waits.
unfoldable pub serve_http :
    Base64 → ℕ → ℕ → List (Router → Router) → Report → Router → Request → Run (List ℕ × Router)
unfolding form_data after_w after_r process_debug process_stat
serve_http b fuel now others report c q = elim (route q.method q.request_uri) [
  | options ↦ finished ([], c)
  | Route.w ↦ after_w (process_w fuel c (form_data b q) now)
  | Route.r ↦ after_r b (process_r c (form_data b q) others)
  | debug ↦ finished (process_debug c report)
  | stat ↦ finished (process_stat c report)
  | wrong_request ↦ finished (codes "wrong request", declare_http_request_f c)
]
