-- ===== src/HttpServer/Polled.antt =====
-- router/http_server.go: a request to `/api/r` that is answered at once.
use xchg.Base.{
  ℕ, ◌+◌, ◌≤◌, ◌<◌, ◌≡◌, refl, sym, ap, ◌∙◌, true, some, List, ◌∷◌, ◌++◌, arith, length,
  length-append, bytes_eq, take-length-append, le→not-ltb, lt→ltb, inl, inr, Option-cases,
}
use xchg.Bytes.{bytes_at, uint64_at}
use xchg.Texts.{codes}
use xchg.Router.{Router, Slice, answer, get_messages, lookup, hex_encode, declare_http_request_r}
use xchg.Router.Reports.{Report}
use xchg.Framing.{finished}
use xchg.HttpServer.{process_r}
use xchg.HttpServer.Puts.{bytes_at-take}
use xchg.HttpServer.Requests.{Base64, Request, form_data, written, serve_http}

bytes_at-append :
    (xs ys : List ℕ) (o k : ℕ) → o + k ≤ length xs → bytes_at (xs ++ ys) o k ≡ bytes_at xs o k
bytes_at-append xs ys o k h =
    sym (bytes_at-take (xs ++ ys) (length xs) o k h)
    ∙ ap (λ s. bytes_at s o k) (take-length-append xs ys)

uint64_at-append :
    (xs ys : List ℕ) (o : ℕ) → o + 8 ≤ length xs → uint64_at (xs ++ ys) o ≡ uint64_at xs o
unfolding uint64_at
uint64_at-append xs ys o h = rw (bytes_at-append xs ys o 8 h) refl

-- A request is read within its length.
get_messages-spare :
    (c : Router) (request spare : List ℕ)
    → length request ≡ 48
    → get_messages c (record { array = request ++ spare; len = length request })
      ≡ get_messages c (record { array = request; len = length request })
unfolding get_messages
get_messages-spare c request spare size =
    let from : lookup (hex_encode (bytes_at (request ++ spare) 16 32)) c.addresses
        ≡ lookup (hex_encode (bytes_at request 16 32)) c.addresses =
      ap (λ a. lookup (hex_encode a) c.addresses)
        (bytes_at-append request spare 16 32 (omega (arith, size))) in
    let reach = le→not-ltb (length request) 48 (omega (arith, size)) in
    let reach' =
      le→not-ltb (length (request ++ spare)) 48
        (omega (arith, length-append request spare, size)) in
    let read : (o : ℕ) → o + 8 ≤ 48 → uint64_at (request ++ spare) o ≡ uint64_at request o =
      λ o h. uint64_at-append request spare o (omega (arith, size, h)) in
    elim (Option-cases (lookup (hex_encode (bytes_at request 16 32)) c.addresses)) [
      | inl e ↦ rw (reach', reach, from ∙ e, e, get_messages) refl
      | inr (s, e) ↦
          rw (reach', reach, from ∙ e, e, read 0 (omega arith), read 8 (omega arith), get_messages)
            refl
    ]

process_r-answers :
    (c c' : Router) (request : Slice) (other : Router → Router) (others : List (Router → Router))
    (bytes : List ℕ) (n : ℕ)
    → get_messages (declare_http_request_r c) request ≡ some (answer bytes n, c')
    → 0 < n
    → process_r c (some request) (other ∷ others) ≡ some (some (answer bytes n), c')
unfolding process_r xchg.HttpServer.long_poll xchg.HttpServer.is_last
process_r-answers c c' request other others bytes n asked some_there =
    rw (asked, lt→ltb 0 n some_there, xchg.HttpServer.long_poll) refl

-- A form with the field "d", posted to `/api/r`.
abbrev pub polls : List ℕ → Request
polls d = record { method = codes "POST"; request_uri = codes "/api/r"; form_ok = true; d = d }

-- A poll that has an answer ends the wait at its first round.
pub serve_http-answers :
    (b : Base64) (fuel now : ℕ) (other : Router → Router) (others : List (Router → Router))
    (report : Report) (c c' : Router) (request spare bytes : List ℕ) (n : ℕ)
    → length request ≡ 48
    → b.decode_string (b.encode_to_string request)
      ≡ some (record { array = request ++ spare; len = length request })
    → get_messages (declare_http_request_r c) (record { array = request; len = length request })
      ≡ some (answer bytes n, c')
    → 0 < n
    → serve_http b fuel now (other ∷ others) report c (polls (b.encode_to_string request))
      ≡ finished (b.encode_to_string bytes, c')
unfolding serve_http xchg.HttpServer.route form_data bytes_eq written
serve_http-answers b fuel now other others report c c' request spare bytes n size back asked
      some_there =
    rw
      (
        back,
        process_r-answers c c' (record { array = request ++ spare; len = length request }) other
            others bytes n
            (get_messages-spare (declare_http_request_r c) request spare size ∙ asked) some_there,
      )
      refl
