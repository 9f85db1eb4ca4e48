-- ===== src/Peer/Sessions.antt =====
-- How sessions begin.
use xchg.Base.{
  ℕ, ◌≡◌, ◌≢◌, refl, ap, ◌∙◌, true, false, some, List, arith, length, take, ltb, length-take,
}
use xchg.Texts.{done, failed}
use xchg.Crypto.{Library}
use xchg.Nonces.{check}
use xchg.Nonces.Table as Table
use xchg.Nonces.Table.{random_part, check_once}
use xchg.Peer.{Peer, Draws, internal_error, check_auth, add_session}

-- An authentication that succeeded has a nonce of the table, which is used up.
auth_checked :
    (y : Library) (c c1 : Peer) (key secret remote resp : List ℕ) (r : Draws)
    → check_auth y c key secret remote r ≡ some (done resp, c1)
    → (ltb (length secret) 16 ≡ false)
      × ((check c.auth_nonces (take 16 secret) r.nonce_bytes).0 ≡ true)
      × (c1.auth_nonces ≡ (check c.auth_nonces (take 16 secret) r.nonce_bytes).1)
unfolding check_auth add_session
auth_checked y c c1 key secret remote resp r e = grind arith

-- The frame of an authentication that succeeded is refused when it comes again, even from another
-- address: no session begins. (The new random bytes must differ from those of the nonce.)
pub auth_once :
    (y : Library) (c c1 : Peer) (key secret remote remote' resp : List ℕ) (r r' : Draws)
    → Table.IsValid c.auth_nonces
    → length r.nonce_bytes ≡ 11
    → random_part (take 16 secret) ≢ r.nonce_bytes
    → check_auth y c key secret remote r ≡ some (done resp, c1)
    → (c2 : Peer) × (check_auth y c1 key secret remote' r' ≡ some (failed internal_error, c2))
      × (c2.sessions_by_id ≡ c1.sessions_by_id)
unfolding check_auth
auth_once y c c1 key secret remote remote' resp r r' v size fresh e =
    let (long, ok, used) = auth_checked y c c1 key secret remote resp r e in
    let sixteen : length (take 16 secret) ≡ 16 = ground (arith, length-take 16 secret) in
    let again : (check c1.auth_nonces (take 16 secret) r'.nonce_bytes).0 ≡ false =
      ap (λ t. (check t (take 16 secret) r'.nonce_bytes).0) used
      ∙ check_once c.auth_nonces (take 16 secret) r.nonce_bytes r'.nonce_bytes v sixteen size fresh
          ok in
    (
      record c1 { auth_nonces = (check c1.auth_nonces (take 16 secret) r'.nonce_bytes).1 },
      rw (long, again, check_auth) refl,
      refl,
    )
