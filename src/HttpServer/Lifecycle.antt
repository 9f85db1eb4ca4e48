-- ===== src/HttpServer/Lifecycle.antt =====
-- router/http_server.go: the life of the server. The HTTP server of Go's library is an argument: what
-- `ListenAndServe` and `Shutdown` return.
use xchg.Base.{ℕ, ◌*◌, Option, none, some, List, ◌++◌}
use xchg.Texts.{codes}
use xchg.Decimal.{format_int}
use xchg.Router.{Router}

-- `HttpServer`; `srv` is the address of the server, once it was started, and times are in
-- nanoseconds.
pub record HttpServer : Type 0 where
  pub srv : Option (List ℕ)
  pub server : Option Router
  pub long_polling_timeout : ℕ
  pub long_polling_tick_delay : ℕ
  pub err : Option (List ℕ)

unfoldable pub new_http_server : HttpServer
new_http_server = record {
  srv = none;
  server = none;
  long_polling_timeout = 10 * 1000000000;
  long_polling_tick_delay = 10 * 1000000;
  err = none;
}

-- `Start`, which also begins `thListen`.
unfoldable pub start : HttpServer → Router → ℕ → HttpServer
start c server port = record c { server = some server; srv = some (codes ":" ++ format_int port) }

-- `thListen`, which keeps what `ListenAndServe` returns.
unfoldable pub th_listen : HttpServer → Option (List ℕ) → HttpServer
th_listen c err = record c { err = err }

-- The error of `Stop` and the server, by the outcome of `Shutdown`; `none` is the panic of a server
-- that was never started.
unfoldable pub stop : HttpServer → Option (List ℕ) → Option (Option (List ℕ) × HttpServer)
stop c shutdown = elim c.srv [
  | none ↦ none
  | some srv ↦ elim shutdown [
    | none ↦ some (none, c)
    | some e ↦ some (some e, record c { err = some e })
  ]
]
