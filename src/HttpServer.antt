-- ===== src/HttpServer.antt =====
-- router/http_server.go: the handlers of HTTP requests. The decoding of the form and of base64 is
-- an argument: `none` where the code returns early. `none` of a result is a panic.
pub mod Lifecycle
pub mod Puts
pub mod Stalled
pub mod Posted
pub mod Polled
pub mod Requests
pub mod Tests
use xchg.Base.{ℕ, Bool, true, Option, none, some, List, [], ◌∷◌, ltb, bytes_eq, if◌then◌else◌}
use xchg.Texts.{codes}
use xchg.Router.{
  Router, Slice, Answer, answer, wrong_frame_size, put_frame, get_messages, declare_http_request_r,
  declare_http_request_w,
}
use xchg.Framing.{Run, finished, frames_loop}

-- `processW`.
unfoldable pub process_w : ℕ → Router → Option Slice → ℕ → Run Router
unfolding declare_http_request_w
process_w fuel c none now = finished (declare_http_request_w c)
process_w fuel c (some body) now =
    frames_loop (λ c frame. put_frame c frame now) fuel (declare_http_request_w c) body 0

-- A round of the loop of `processR` ends it with an error or with some messages.
unfoldable pub is_last : Answer → Bool
is_last wrong_frame_size = true
is_last (answer bytes n) = ltb 0 n

-- The loop of `processR`: `others` says what the other requests do to the router during each wait.
-- It ends with the last of them, by the timeout or because the request was cancelled.
unfoldable pub long_poll :
    Router → Slice → List (Router → Router) → Option Answer → Option (Option Answer × Router)
unfolding is_last
long_poll c request [] a = some (a, c)
long_poll c request (other ∷ others) a = elim (get_messages c request) [
  | none ↦ none
  | some (b, c') ↦
      let rest = long_poll (other c') request others (some b) in
      if is_last b then some (some b, c') else rest
]

-- `processR`, up to what it writes.
unfoldable pub process_r :
    Router → Option Slice → List (Router → Router) → Option (Option Answer × Router)
unfolding long_poll declare_http_request_r
process_r c none others = some (none, declare_http_request_r c)
process_r c (some request) others = long_poll (declare_http_request_r c) request others none

-- The paths that `ServeHTTP` knows.
pub data Route : Type 0 where
  options w r debug stat wrong_request : Route

-- `ServeHTTP`, as the choice of a handler.
unfoldable pub route : List ℕ → List ℕ → Route
route method uri =
    if bytes_eq method (codes "OPTIONS")
    then options
    else (if bytes_eq uri (codes "/api/w")
        then w
        else (if bytes_eq uri (codes "/api/r")
            then r
            else (if bytes_eq uri (codes "/api/debug")
                then debug
                else (if bytes_eq uri (codes "/api/stat") then stat else wrong_request))))
