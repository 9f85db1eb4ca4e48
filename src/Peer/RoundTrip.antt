-- ===== src/Peer/RoundTrip.antt =====
-- A call in a session: what the client builds, the server serves, and the client reads.
use xchg.Base.{
  ℕ, suc, ◌+◌, ◌%◌, ◌^◌, ◌≤◌, ◌<◌, ◌≡◌, ◌≢◌, refl, sym, ap, ◌∙◌, true, false, none, some, List, [],
  ◌∷◌, ◌++◌, arith, length, length-append, take, drop, ltb, ==_ne, le→not-ltb, take-length-append,
  drop-length-append,
}
use xchg.Base.Words.{add64}
use mathlib.Core.Path.{subst}
use mathlib.Core.List.{append-nil}
use xchg.Bytes.{le_bytes, le_value, length-le_bytes, uint64-le_bytes, uint64_at, copy_at, copy_next}
use xchg.Maps.{find, store}
use xchg.Texts.{Outcome, done, failed, codes, err_cl_conn_call_from_peer}
use xchg.Crypto.{Library, IsSound, encrypt, decrypt, pack, unpack, decrypt-encrypt}
use xchg.SnakeCounter.{test_and_declare}
use xchg.Remote.{RemotePeer, build_frame, read_result, counted_frame}
use xchg.Remote.Frames.{named, counted_frame-eq}
use xchg.Peer.{
  Peer, Session, Param, Draws, Reply, prepare_response, prepare_response_error, split_call, parts,
  reply, seal_reply, session_call, count_call, call_in_session, on_edge_received_call,
}

pub prepare_response-eq : (bytes : List ℕ) → prepare_response bytes ≡ 0 ∷ bytes
unfolding prepare_response
prepare_response-eq bytes =
    ap (λ s. copy_at s 1 bytes)
      (copy_next [] (0 ∷ []) 0 (1 + length bytes) (length bytes) refl refl)
    ∙ copy_next (0 ∷ []) bytes 1 (length bytes) 0 refl (omega arith)
    ∙ append-nil (0 ∷ bytes)

pub prepare_response_error-eq : (err : List ℕ) → prepare_response_error err ≡ 1 ∷ err
unfolding prepare_response_error
prepare_response_error-eq err =
    ap (λ s. copy_at s 1 err) (copy_next [] (1 ∷ []) 0 (1 + length err) (length err) refl refl)
    ∙ copy_next (1 ∷ []) err 1 (length err) 0 refl (omega arith)
    ∙ append-nil (1 ∷ err)

-- The server finds the function's name and the parameter that the client wrote.
pub split_call-named :
    (function bytes : List ℕ)
    → length function < 256
    → split_call (named function bytes) ≡ parts function bytes
unfolding split_call
split_call-named function bytes h =
    let e : length function % 256 ≡ length function = omega arith in
    let one : 1 + length function ≡ suc (length function) = omega arith in
    rw
      (
        le→not-ltb (length (named function bytes)) 1 (omega arith),
        e,
        one,
        le→not-ltb (length (named function bytes)) (suc (length function))
            (omega (arith, length-append function bytes)),
        take-length-append function bytes,
        drop-length-append function bytes,
      )
      refl

-- What the client makes of the callback's answer.
abbrev pub answer_of : Outcome (List ℕ) → Outcome (List ℕ)
answer_of (done bytes) = done bytes
answer_of (failed e) = failed (err_cl_conn_call_from_peer ++ codes ":" ++ e)

-- A session that client and server share: its key is good, and the server's window accepts the
-- client's counter.
pub record IsShared (y : Library) (c : RemotePeer) (p : Peer) (s : Session) (id : ℕ) : Type 0 where
  pub some_id : id ≢ 0
  pub known : find id p.sessions_by_id ≡ some s
  pub key_size : length s.aes_key ≡ 32
  pub key_ok : y.key_ok s.aes_key ≡ true
  pub private_key : length c.private_key ≢ 0
  pub word : c.session_nonce_counter < 2 ^ 64
  pub fresh : (test_and_declare s.snake_counter c.session_nonce_counter).1 ≡ none

module _ (y : Library) (sound : IsSound y) (c : RemotePeer) (p : Peer) (s : Session) (id : ℕ)
    (shared : IsShared y c p s id) where
  abbrev pub counter : ℕ
  counter = c.session_nonce_counter

  abbrev pub sealed : List ℕ → List ℕ → List ℕ
  sealed nonce text = nonce ++ y.seal s.aes_key nonce (y.gzip text)

  pub build_frame-eq :
      (function bytes nonce : List ℕ)
      → length function ≤ 255
      → build_frame y c function bytes s.aes_key nonce ≡ (
        done (sealed nonce (counted_frame counter function bytes), true),
        record c { session_nonce_counter = add64 counter 1 },
      )
  unfolding build_frame encrypt pack
  build_frame-eq function bytes nonce h =
      rw
        (
          le→not-ltb 255 (length function) h,
          ==_ne (length c.private_key) 0 shared.private_key,
          shared.key_size,
          shared.key_ok,
        )
        refl

  -- The session after the call, and what its owner's callback is asked.
  abbrev pub served : ℕ → Session
  served now = record s {
    snake_counter = (test_and_declare s.snake_counter counter).0;
    last_access = now;
  }

  abbrev pub asked : List ℕ → List ℕ → Param
  asked function bytes = record {
    function = function;
    parameter = bytes;
    auth_data = s.auth_data;
    remote_address = s.remote_real_public_key;
  }

  pub opened :
      (nonce text : List ℕ)
      → length nonce ≡ y.gcm_nonce_size
      → (decrypt y (sealed nonce text) s.aes_key ≡ done (y.gzip text))
        × (unpack y (y.gzip text) ≡ done text)
  unfolding unpack
  opened nonce text size = (
    decrypt-encrypt y sound nonce (y.gzip text) s.aes_key shared.key_ok size,
    sound.gunzip-gzip text,
  )

  module _ (callback : Param → Outcome (List ℕ)) (function bytes : List ℕ) (r : Draws)
      (there : p.callback ≡ some callback) (short : length function ≤ 255) where
    abbrev answer : List ℕ
    answer = reply (callback (asked function bytes))

    abbrev pub after : Peer
    after = record p { sessions_by_id = store id (served r.now) p.sessions_by_id }

    abbrev pub reply_sent : Reply
    reply_sent = record {
      response = seal_reply y (served r.now) r.seal_nonce answer;
      dont_send_response = false;
    }

    session_call-eq :
        (q : Peer)
        → q.callback ≡ some callback
        → session_call y q (served r.now) (named function bytes) r ≡ some (reply_sent, q)
    unfolding session_call
    session_call-eq q e =
        rw (split_call-named function bytes (omega arith), session_call) (simp e refl)

    abbrev pub frame : List ℕ
    frame = le_bytes 8 counter ++ named function bytes

    pub frame_counter : uint64_at frame 0 ≡ counter
    unfolding uint64_at
    frame_counter =
        ap (λ n. le_value (take n frame)) (sym (length-le_bytes 8 counter))
        ∙ ap le_value (take-length-append (le_bytes 8 counter) (named function bytes))
        ∙ uint64-le_bytes counter shared.word

    frame_rest : drop 8 frame ≡ named function bytes
    frame_rest =
        ap (λ n. drop n frame) (sym (length-le_bytes 8 counter))
        ∙ drop-length-append (le_bytes 8 counter) (named function bytes)

    pub frame_long : ltb (length frame) 9 ≡ false
    frame_long = le→not-ltb (length frame) 9 (
        omega (
          arith,
          length-le_bytes 8 counter,
          length-append (le_bytes 8 counter) (named function bytes),
        ))

    pub frame_reads : ltb (length frame) 8 ≡ false
    frame_reads = ground (arith, frame_long)

    count_call-eq :
        count_call y p id s (counted_frame counter function bytes) r ≡ some (reply_sent, after)
    count_call-eq =
        ap (λ t. count_call y p id s t r) (counted_frame-eq function bytes counter)
        ∙ (unfold count_call in
            rw (frame_long, frame_reads, frame_counter, shared.fresh, frame_rest)
              (subst
                (λ (n : ℕ).
                  session_call y
                    (record p {
                      sessions_by_id =
                          store id
                            (record s {
                              snake_counter = (test_and_declare s.snake_counter n).0;
                              last_access = r.now;
                            })
                            p.sessions_by_id;
                    })
                    (record s {
                      snake_counter = (test_and_declare s.snake_counter n).0;
                      last_access = r.now;
                    })
                    (named function bytes) r
                  ≡ some (reply_sent, after))
                (sym frame_counter) (session_call-eq after there)))

    in_session :
        (nonce : List ℕ)
        → length nonce ≡ y.gcm_nonce_size
        → call_in_session y p id (sealed nonce (counted_frame counter function bytes)) r
          ≡ some (reply_sent, after)
    unfolding call_in_session
    in_session nonce size =
        let (unsealed, unpacked) = opened nonce (counted_frame counter function bytes) size in
        rw (shared.known, unsealed, unpacked, call_in_session) count_call-eq

    pub served_call :
        (nonce remote : List ℕ)
        → length nonce ≡ y.gcm_nonce_size
        → on_edge_received_call y p id
            (sealed nonce (counted_frame counter function bytes))
            remote
            r
          ≡ some (reply_sent, after)
    unfolding on_edge_received_call
    served_call nonce remote size = rw (==_ne id 0 shared.some_id) (in_session nonce size)

    pub seal_reply-eq :
        (text : List ℕ) → seal_reply y (served r.now) r.seal_nonce text ≡ sealed r.seal_nonce text
    unfolding seal_reply encrypt pack
    seal_reply-eq text = rw (shared.key_ok, seal_reply, encrypt) refl

    pub read_plain :
        (c' : RemotePeer) (a : Outcome (List ℕ))
        → length r.seal_nonce ≡ y.gcm_nonce_size
        → (read_result y c' (done (sealed r.seal_nonce (reply a))) true s.aes_key).0 ≡ answer_of a
    unfolding read_result reply
    read_plain c' (done result) size =
        let (unsealed, unpacked) = opened r.seal_nonce (prepare_response result) size in
        rw (unsealed, unpacked, prepare_response-eq result) refl
    read_plain c' (failed e) size =
        let (unsealed, unpacked) = opened r.seal_nonce (prepare_response_error e) size in
        rw (unsealed, unpacked, prepare_response_error-eq e) refl

    -- A call in a shared session, of a function whose name has at most 255 bytes, under sound
    -- ciphers and with nonces of their size: the server asks the callback for the function and the
    -- parameter that the client named, the answer is sent, and the client reads from it the
    -- callback's result, or an error with the text of the callback's.
    pub call_in_session-answers :
        (nonce remote : List ℕ)
        → length nonce ≡ y.gcm_nonce_size
        → length r.seal_nonce ≡ y.gcm_nonce_size
        → (frame : List ℕ) × (c' : RemotePeer) × (sent : Reply) × (p' : Peer) × (build_frame y c
              function bytes s.aes_key nonce
            ≡ (done (frame, true), c'))
          × (on_edge_received_call y p id frame remote r ≡ some (sent, p'))
          × (sent.dont_send_response ≡ false)
          × ((read_result y c' (done sent.response) true s.aes_key).0
              ≡ answer_of (callback (asked function bytes)))
    call_in_session-answers nonce remote size size' = (
      sealed nonce (counted_frame counter function bytes),
      record c { session_nonce_counter = add64 counter 1 },
      reply_sent,
      after,
      build_frame-eq function bytes nonce short,
      served_call nonce remote size,
      refl,
      ap
            (λ t.
              (read_result y (record c { session_nonce_counter = add64 counter 1 }) (done t) true
                s.aes_key).0)
            (seal_reply-eq answer)
          ∙ read_plain _ (callback (asked function bytes)) size',
    )
