-- ===== src/Texts.antt =====
-- Texts as lists of the codes of their characters, and xchg/utils_errors.go: the texts of the
-- errors, and the two tests on them.
pub mod Errors
use Prim.Native.String.{String}
use Prim.Native.Char.{code}
use xchg.Base.{
  ℕ, ◌≡◌, refl, ◌⊎◌, inl, inr, Bool, true, false, Option, none, some, List, [], ◌∷◌, ◌||◌, ◌&&◌,
  ◌==◌,
}

abbrev pub codes : String → List ℕ
codes String.[] = []
codes (String.◌∷◌ c s) = code c ∷ codes s

-- The outcome of a call that may return an error: its result, or the text of the error.
pub data Outcome {ℓ} (A : Type ℓ) : Type ℓ where
  done : A → Outcome A
  failed : List ℕ → Outcome A

pub Outcome-cases {ℓ} :
    {A : Type ℓ} (o : Outcome A) → ((e : List ℕ) × (o ≡ failed e)) ⊎ ((a : A) × (o ≡ done a))
Outcome-cases (failed e) = inl (e, refl)
Outcome-cases (done a) = inr (a, refl)

-- `strings.HasPrefix`.
unfoldable pub starts_with : List ℕ → List ℕ → Bool
starts_with s [] = true
starts_with [] (p ∷ ps) = false
starts_with (x ∷ s) (p ∷ ps) = (x == p) && starts_with s ps

-- `strings.Contains`.
unfoldable pub contains_text : List ℕ → List ℕ → Bool
unfolding starts_with
contains_text [] part = starts_with [] part
contains_text (x ∷ s) part = starts_with (x ∷ s) part || contains_text s part

-- `NeedToMakeSession`; `none` is the nil error.
unfoldable pub need_to_make_session : Option (List ℕ) → Bool
unfolding contains_text
need_to_make_session none = false
need_to_make_session (some err) = contains_text err (codes "{ERR_XCHG_SRV_CONN_")

-- `NeedToChangeNode`.
unfoldable pub need_to_change_node : Option (List ℕ) → Bool
unfolding contains_text
need_to_change_node none = false
need_to_change_node (some err) = contains_text err (codes "{ERR_XCHG_ROUTER_")

-- The constants `ERR_XCHG_...` that the peers use.
abbrev pub err_cl_conn_call_wrong_function_len : List ℕ
err_cl_conn_call_wrong_function_len = codes "{ERR_XCHG_CL_CONN_CALL_WRONG_FUNCTION_LEN}"

abbrev pub err_cl_conn_call_no_local_private_key : List ℕ
err_cl_conn_call_no_local_private_key = codes "{ERR_XCHG_CL_CONN_CALL_NO_LOCAL_PRIVATE_KEY}"

abbrev pub err_cl_conn_call_resp_len : List ℕ
err_cl_conn_call_resp_len = codes "{ERR_XCHG_CL_CONN_CALL_RESP_LEN}"

abbrev pub err_cl_conn_call_resp_status_byte : List ℕ
err_cl_conn_call_resp_status_byte = codes "{ERR_XCHG_CL_CONN_CALL_RESP_STATUS_BYTE}"

abbrev pub err_cl_conn_call_enc : List ℕ
err_cl_conn_call_enc = codes "{ERR_XCHG_CL_CONN_CALL_ENC}"

abbrev pub err_cl_conn_call_err : List ℕ
err_cl_conn_call_err = codes "{ERR_XCHG_CL_CONN_CALL_ERR}"

abbrev pub err_cl_conn_call_decrypt : List ℕ
err_cl_conn_call_decrypt = codes "{ERR_XCHG_CL_CONN_CALL_DECRYPT}"

abbrev pub err_cl_conn_call_unpack : List ℕ
err_cl_conn_call_unpack = codes "{ERR_XCHG_CL_CONN_CALL_UNPACK}"

abbrev pub err_cl_conn_call_from_peer : List ℕ
err_cl_conn_call_from_peer = codes "{ERR_XCHG_CL_CONN_FROM_PEER}"

abbrev pub err_cl_conn_auth_get_nonce : List ℕ
err_cl_conn_auth_get_nonce = codes "{ERR_XCHG_CL_CONN_AUTH_GET_NONCE}"

abbrev pub err_cl_conn_auth_wrong_nonce_len : List ℕ
err_cl_conn_auth_wrong_nonce_len = codes "{ERR_XCHG_CL_CONN_AUTH_WRONG_NONCE_LEN}"

abbrev pub err_cl_conn_auth_no_local_private_key : List ℕ
err_cl_conn_auth_no_local_private_key = codes "{ERR_XCHG_CL_CONN_AUTH_NO_LOCAL_PRIVATE_KEY}"

abbrev pub err_cl_conn_auth_no_remote_public_key : List ℕ
err_cl_conn_auth_no_remote_public_key = codes "{ERR_XCHG_CL_CONN_AUTH_NO_REMOTE_PUBLIC_KEY}"

abbrev pub err_cl_conn_auth_enc : List ℕ
err_cl_conn_auth_enc = codes "{ERR_XCHG_CL_CONN_AUTH_ENC}"

abbrev pub err_cl_conn_auth_auth : List ℕ
err_cl_conn_auth_auth = codes "{ERR_XCHG_CL_CONN_AUTH_AUTH}"

abbrev pub err_cl_conn_auth_decr : List ℕ
err_cl_conn_auth_decr = codes "{ERR_XCHG_CL_CONN_AUTH_DECR}"

abbrev pub err_cl_conn_auth_wrong_auth_resp_len : List ℕ
err_cl_conn_auth_wrong_auth_resp_len = codes "{ERR_XCHG_CL_CONN_AUTH_WRONG_AUTH_RESP_LEN}"

abbrev pub err_peer_conn_tr_timeout : List ℕ
err_peer_conn_tr_timeout = codes "{ERR_XCHG_PEER_CONN_TR_TIMEOUT}"

abbrev pub err_srv_conn_wrong_session : List ℕ
err_srv_conn_wrong_session = codes "{ERR_XCHG_SRV_CONN_WRONG_SESSION}"

abbrev pub err_srv_conn_decr : List ℕ
err_srv_conn_decr = codes "{ERR_XCHG_SRV_CONN_DECR}"

abbrev pub err_srv_conn_unpack : List ℕ
err_srv_conn_unpack = codes "{ERR_XCHG_SRV_CONN_UNPACK}"

abbrev pub err_srv_conn_wrong_len9 : List ℕ
err_srv_conn_wrong_len9 = codes "{ERR_XCHG_SRV_CONN_WRONG_LEN9}"

abbrev pub err_srv_conn_wrong_nonce : List ℕ
err_srv_conn_wrong_nonce = codes "{ERR_XCHG_SRV_CONN_WRONG_NONCE}"

abbrev pub err_srv_conn_wrong_len1 : List ℕ
err_srv_conn_wrong_len1 = codes "{ERR_XCHG_SRV_CONN_WRONG_LEN1}"

abbrev pub err_srv_conn_wrong_len_fn : List ℕ
err_srv_conn_wrong_len_fn = codes "{ERR_XCHG_SRV_CONN_WRONG_LEN_FN}"
