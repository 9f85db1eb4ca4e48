-- ===== src/Texts/Errors/Wrapped.antt =====
-- xchg/utils_errors.go: the tests on errors, for each of its constants, also inside a longer text:
-- the calls of xchg/remote_peer.go put the text of an error after that of another.
mod Tests
use xchg.Base.{
  ℕ, ◌≡◌, refl, ◌∙◌, ap, inl, inr, Bool, true, false, some, List, [], ◌∷◌, ◌++◌, ◌||◌, ◌&&◌, ◌==◌,
  not, arith, Bool-cases,
}
use xchg.Texts.{codes, starts_with, contains_text, need_to_make_session, need_to_change_node}
use xchg.Texts.Errors.{ErrorCode, Section, server_connection, router, error_text, section_of}
use xchg.Texts.Errors

starts_with-append :
    (s part after : List ℕ) → starts_with s part ≡ true → starts_with (s ++ after) part ≡ true
unfolding starts_with
starts_with-append [] [] [] h = refl
starts_with-append [] [] (x ∷ after) h = refl
starts_with-append [] (p ∷ part) after h = absurd (cc h)
starts_with-append (x ∷ s) [] after h = refl
starts_with-append (x ∷ s) (p ∷ part) after h = ground (arith, starts_with-append s part after)

starts_with-nil : (s : List ℕ) → starts_with s [] ≡ true
unfolding starts_with
starts_with-nil [] = refl
starts_with-nil (x ∷ s) = refl

nil_contained : (s part : List ℕ) → starts_with [] part ≡ true → contains_text s part ≡ true
unfolding contains_text starts_with
nil_contained [] part h = h
nil_contained (x ∷ s) [] h = refl
nil_contained (x ∷ s) (p ∷ part) h = absurd (cc h)

contains_text-append :
    (s part after : List ℕ) → contains_text s part ≡ true → contains_text (s ++ after) part ≡ true
unfolding contains_text
contains_text-append [] part after h = nil_contained after part h
contains_text-append (x ∷ s) part after h =
    ground (arith, contains_text-append s part after, starts_with-append (x ∷ s) part after)

contains_text-prepend :
    (before s part : List ℕ) → contains_text s part ≡ true → contains_text (before ++ s) part ≡ true
unfolding contains_text
contains_text-prepend [] s part h = h
contains_text-prepend (x ∷ before) s part h = ground (arith, contains_text-prepend before s part h)

contains_text-wrapped :
    (before s after part : List ℕ)
    → contains_text s part ≡ true
    → contains_text (before ++ (s ++ after)) part ≡ true
contains_text-wrapped before s after part h =
    contains_text-prepend before (s ++ after) part (contains_text-append s part after h)

abbrev pub is_server : Section → Bool
is_server server_connection = true
is_server s = false

abbrev pub is_router : Section → Bool
is_router router = true
is_router s = false

bare :
    (e : ErrorCode)
    → (need_to_make_session (some (error_text e)) ≡ is_server (section_of e))
      × (need_to_change_node (some (error_text e)) ≡ is_router (section_of e))
unfolding need_to_make_session need_to_change_node contains_text starts_with error_text section_of
bare Errors.access_denied = (refl, refl)
bare Errors.conn_wrong_frame_size = (refl, refl)
bare Errors.conn_no_connection = (refl, refl)
bare Errors.conn_sending_error = (refl, refl)
bare Errors.tr_wrong_frame = (refl, refl)
bare Errors.cl_conn_call_wrong_function_len = (refl, refl)
bare Errors.cl_conn_call_searching_node = (refl, refl)
bare Errors.cl_conn_call_no_local_private_key = (refl, refl)
bare Errors.cl_conn_call_no_route_to_peer = (refl, refl)
bare Errors.cl_conn_call_resp_len = (refl, refl)
bare Errors.cl_conn_call_resp_status_byte = (refl, refl)
bare Errors.cl_conn_call_enc = (refl, refl)
bare Errors.cl_conn_call_err = (refl, refl)
bare Errors.cl_conn_call_decrypt = (refl, refl)
bare Errors.cl_conn_call_unpack = (refl, refl)
bare Errors.cl_conn_call_from_peer = (refl, refl)
bare Errors.cl_conn_auth_get_nonce = (refl, refl)
bare Errors.cl_conn_auth_wrong_nonce_len = (refl, refl)
bare Errors.cl_conn_auth_no_local_private_key = (refl, refl)
bare Errors.cl_conn_auth_no_remote_public_key = (refl, refl)
bare Errors.cl_conn_auth_enc = (refl, refl)
bare Errors.cl_conn_auth_auth = (refl, refl)
bare Errors.cl_conn_auth_decr = (refl, refl)
bare Errors.cl_conn_auth_wrong_auth_resp_len = (refl, refl)
bare Errors.peer_conn_loss = (refl, refl)
bare Errors.peer_conn_tr_timeout = (refl, refl)
bare Errors.peer_conn_req_sid_size = (refl, refl)
bare Errors.peer_conn_wrong_prot_version = (refl, refl)
bare Errors.peer_conn_rcvd_err = (refl, refl)
bare Errors.srv_conn_wrong_session = (refl, refl)
bare Errors.srv_conn_decr = (refl, refl)
bare Errors.srv_conn_unpack = (refl, refl)
bare Errors.srv_conn_wrong_len9 = (refl, refl)
bare Errors.srv_conn_wrong_nonce = (refl, refl)
bare Errors.srv_conn_wrong_len1 = (refl, refl)
bare Errors.srv_conn_wrong_len_fn = (refl, refl)
bare Errors.srv_conn_auth_data_len4 = (refl, refl)
bare Errors.srv_conn_not_impl = (refl, refl)
bare Errors.srv_conn_auth_data_len_nonce = (refl, refl)
bare Errors.srv_conn_auth_data_len_pk = (refl, refl)
bare Errors.srv_conn_auth_wrong_nonce = (refl, refl)
bare Errors.router_config_is_directory = (refl, refl)
bare Errors.router_conn_wrong_frame_type = (refl, refl)
bare Errors.router_conn_wrong_protocol_version = (refl, refl)
bare Errors.router_conn_wrong_public_key_size = (refl, refl)
bare Errors.router_conn_enc = (refl, refl)
bare Errors.router_conn_decr4 = (refl, refl)
bare Errors.router_conn_decr5 = (refl, refl)
bare Errors.router_conn_no_route_to_peer = (refl, refl)
bare Errors.router_server_already_started = (refl, refl)
bare Errors.router_server_is_not_started = (refl, refl)
bare Errors.router_already_started = (refl, refl)
bare Errors.router_is_not_started = (refl, refl)
bare Errors.not_implemented = (refl, refl)

-- Of the constants, exactly those of the section "Server Connection" are a reason to make a session,
-- and exactly those of the section "Router" to change the node; and they are not missed when their
-- text stands inside another.
pub error_text-told :
    (e : ErrorCode) (before after : List ℕ)
    → (need_to_make_session (some (error_text e)) ≡ is_server (section_of e))
      × (need_to_change_node (some (error_text e)) ≡ is_router (section_of e))
      × (is_server (section_of e)
            && not (need_to_make_session (some (before ++ (error_text e ++ after))))
          ≡ false)
      × (is_router (section_of e)
            && not (need_to_change_node (some (before ++ (error_text e ++ after))))
          ≡ false)
unfolding need_to_make_session need_to_change_node
error_text-told e before after =
    let (session, node) = bare e in
    let wrap = contains_text-wrapped before (error_text e) after in
    (
      session,
      node,
      ground (arith, session, wrap (codes "{ERR_XCHG_SRV_CONN_")),
      ground (arith, node, wrap (codes "{ERR_XCHG_ROUTER_")),
    )
