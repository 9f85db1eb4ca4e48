-- ===== src/Texts/Errors.antt =====
-- xchg/utils_errors.go: all the constants of errors, by the sections of the file.
pub mod Wrapped
use xchg.Base.{ℕ, List}
use xchg.Texts.{codes}

-- The sections of the constants, as the comments name them.
pub data Section : Type 0 where
  access base_connection transaction client_call client_auth peer_connection server_connection
        router other :
      Section

-- The constants `ERR_XCHG_...`.
pub data ErrorCode : Type 0 where
  access_denied conn_wrong_frame_size conn_no_connection conn_sending_error tr_wrong_frame
        cl_conn_call_wrong_function_len cl_conn_call_searching_node
        cl_conn_call_no_local_private_key cl_conn_call_no_route_to_peer cl_conn_call_resp_len
        cl_conn_call_resp_status_byte cl_conn_call_enc cl_conn_call_err cl_conn_call_decrypt
        cl_conn_call_unpack cl_conn_call_from_peer cl_conn_auth_get_nonce
        cl_conn_auth_wrong_nonce_len cl_conn_auth_no_local_private_key
        cl_conn_auth_no_remote_public_key cl_conn_auth_enc cl_conn_auth_auth cl_conn_auth_decr
        cl_conn_auth_wrong_auth_resp_len peer_conn_loss peer_conn_tr_timeout peer_conn_req_sid_size
        peer_conn_wrong_prot_version peer_conn_rcvd_err srv_conn_wrong_session srv_conn_decr
        srv_conn_unpack srv_conn_wrong_len9 srv_conn_wrong_nonce srv_conn_wrong_len1
        srv_conn_wrong_len_fn srv_conn_auth_data_len4 srv_conn_not_impl srv_conn_auth_data_len_nonce
        srv_conn_auth_data_len_pk srv_conn_auth_wrong_nonce router_config_is_directory
        router_conn_wrong_frame_type router_conn_wrong_protocol_version
        router_conn_wrong_public_key_size router_conn_enc router_conn_decr4 router_conn_decr5
        router_conn_no_route_to_peer router_server_already_started router_server_is_not_started
        router_already_started router_is_not_started not_implemented :
      ErrorCode

-- Their texts.
unfoldable pub error_text : ErrorCode → List ℕ
error_text access_denied = codes "{ERR_XCHG_ACCESS_DENIED}"
error_text conn_wrong_frame_size = codes "{ERR_XCHG_CONN_WRONG_FRAME_SIZE}"
error_text conn_no_connection = codes "{ERR_XCHG_CONN_NO_CONNECTION}"
error_text conn_sending_error = codes "{ERR_XCHG_CONN_SENDING_ERROR}"
error_text tr_wrong_frame = codes "{ERR_XCHG_TR_WRONG_FRAME}"
error_text cl_conn_call_wrong_function_len = codes "{ERR_XCHG_CL_CONN_CALL_WRONG_FUNCTION_LEN}"
error_text cl_conn_call_searching_node = codes "{ERR_XCHG_CL_CONN_CALL_SEARCHING_NODE}"
error_text cl_conn_call_no_local_private_key = codes "{ERR_XCHG_CL_CONN_CALL_NO_LOCAL_PRIVATE_KEY}"
error_text cl_conn_call_no_route_to_peer = codes "{ERR_XCHG_CL_CONN_CALL_NO_ROUTE_TO_PEER}"
error_text cl_conn_call_resp_len = codes "{ERR_XCHG_CL_CONN_CALL_RESP_LEN}"
error_text cl_conn_call_resp_status_byte = codes "{ERR_XCHG_CL_CONN_CALL_RESP_STATUS_BYTE}"
error_text cl_conn_call_enc = codes "{ERR_XCHG_CL_CONN_CALL_ENC}"
error_text cl_conn_call_err = codes "{ERR_XCHG_CL_CONN_CALL_ERR}"
error_text cl_conn_call_decrypt = codes "{ERR_XCHG_CL_CONN_CALL_DECRYPT}"
error_text cl_conn_call_unpack = codes "{ERR_XCHG_CL_CONN_CALL_UNPACK}"
error_text cl_conn_call_from_peer = codes "{ERR_XCHG_CL_CONN_FROM_PEER}"
error_text cl_conn_auth_get_nonce = codes "{ERR_XCHG_CL_CONN_AUTH_GET_NONCE}"
error_text cl_conn_auth_wrong_nonce_len = codes "{ERR_XCHG_CL_CONN_AUTH_WRONG_NONCE_LEN}"
error_text cl_conn_auth_no_local_private_key = codes "{ERR_XCHG_CL_CONN_AUTH_NO_LOCAL_PRIVATE_KEY}"
error_text cl_conn_auth_no_remote_public_key = codes "{ERR_XCHG_CL_CONN_AUTH_NO_REMOTE_PUBLIC_KEY}"
error_text cl_conn_auth_enc = codes "{ERR_XCHG_CL_CONN_AUTH_ENC}"
error_text cl_conn_auth_auth = codes "{ERR_XCHG_CL_CONN_AUTH_AUTH}"
error_text cl_conn_auth_decr = codes "{ERR_XCHG_CL_CONN_AUTH_DECR}"
error_text cl_conn_auth_wrong_auth_resp_len = codes "{ERR_XCHG_CL_CONN_AUTH_WRONG_AUTH_RESP_LEN}"
error_text peer_conn_loss = codes "{ERR_XCHG_PEER_CONN_LOSS}"
error_text peer_conn_tr_timeout = codes "{ERR_XCHG_PEER_CONN_TR_TIMEOUT}"
error_text peer_conn_req_sid_size = codes "{ERR_XCHG_PEER_CONN_REQ_SID_SIZE}"
error_text peer_conn_wrong_prot_version = codes "{ERR_XCHG_PEER_CONN_WRONG_PROT_VERSION}"
error_text peer_conn_rcvd_err = codes "{ERR_XCHG_PEER_CONN_RCVD_ERR}"
error_text srv_conn_wrong_session = codes "{ERR_XCHG_SRV_CONN_WRONG_SESSION}"
error_text srv_conn_decr = codes "{ERR_XCHG_SRV_CONN_DECR}"
error_text srv_conn_unpack = codes "{ERR_XCHG_SRV_CONN_UNPACK}"
error_text srv_conn_wrong_len9 = codes "{ERR_XCHG_SRV_CONN_WRONG_LEN9}"
error_text srv_conn_wrong_nonce = codes "{ERR_XCHG_SRV_CONN_WRONG_NONCE}"
error_text srv_conn_wrong_len1 = codes "{ERR_XCHG_SRV_CONN_WRONG_LEN1}"
error_text srv_conn_wrong_len_fn = codes "{ERR_XCHG_SRV_CONN_WRONG_LEN_FN}"
error_text srv_conn_auth_data_len4 = codes "{ERR_XCHG_SRV_CONN_AUTH_DATA_LEN4}"
error_text srv_conn_not_impl = codes "{ERR_XCHG_SRV_CONN_NOT_IMPL}"
error_text srv_conn_auth_data_len_nonce = codes "{ERR_XCHG_SRV_CONN_AUTH_DATA_LEN_NONCE}"
error_text srv_conn_auth_data_len_pk = codes "{ERR_XCHG_SRV_CONN_AUTH_DATA_LEN_PK}"
error_text srv_conn_auth_wrong_nonce = codes "{ERR_XCHG_SRV_CONN_AUTH_WRONG_NONCE}"
error_text router_config_is_directory = codes "{ERR_XCHG_ROUTER_CONFIG_IS_DIRECTORY}"
error_text router_conn_wrong_frame_type = codes "{ERR_XCHG_ROUTER_CONN_WRONG_FRAME_TYPE}"
error_text router_conn_wrong_protocol_version =
    codes "{ERR_XCHG_ROUTER_CONN_WRONG_PROTOCOL_VERSION}"
error_text router_conn_wrong_public_key_size = codes "{ERR_XCHG_ROUTER_CONN_WRONG_PUBLIC_KEY_SIZE}"
error_text router_conn_enc = codes "{ERR_XCHG_ROUTER_CONN_ENC}"
error_text router_conn_decr4 = codes "{ERR_XCHG_ROUTER_CONN_DECR4}"
error_text router_conn_decr5 = codes "{ERR_XCHG_ROUTER_CONN_DECR5}"
error_text router_conn_no_route_to_peer = codes "{ERR_XCHG_ROUTER_CONN_NO_ROUTE_TO_PEER}"
error_text router_server_already_started = codes "{ERR_XCHG_ROUTER_SERVER_ALREADY_STARTED}"
error_text router_server_is_not_started = codes "{ERR_XCHG_ROUTER_SERVER_IS_NOT_STARTED}"
error_text router_already_started = codes "{ERR_XCHG_ROUTER_ALREADY_STARTED}"
error_text router_is_not_started = codes "{ERR_XCHG_ROUTER_IS_NOT_STARTED}"
error_text not_implemented = codes "{ERR_XCHG_NOT_IMPLEMENTED}"

-- Their sections.
unfoldable pub section_of : ErrorCode → Section
section_of access_denied = access
section_of conn_wrong_frame_size = base_connection
section_of conn_no_connection = base_connection
section_of conn_sending_error = base_connection
section_of tr_wrong_frame = transaction
section_of cl_conn_call_wrong_function_len = client_call
section_of cl_conn_call_searching_node = client_call
section_of cl_conn_call_no_local_private_key = client_call
section_of cl_conn_call_no_route_to_peer = client_call
section_of cl_conn_call_resp_len = client_call
section_of cl_conn_call_resp_status_byte = client_call
section_of cl_conn_call_enc = client_call
section_of cl_conn_call_err = client_call
section_of cl_conn_call_decrypt = client_call
section_of cl_conn_call_unpack = client_call
section_of cl_conn_call_from_peer = client_call
section_of cl_conn_auth_get_nonce = client_auth
section_of cl_conn_auth_wrong_nonce_len = client_auth
section_of cl_conn_auth_no_local_private_key = client_auth
section_of cl_conn_auth_no_remote_public_key = client_auth
section_of cl_conn_auth_enc = client_auth
section_of cl_conn_auth_auth = client_auth
section_of cl_conn_auth_decr = client_auth
section_of cl_conn_auth_wrong_auth_resp_len = client_auth
section_of peer_conn_loss = peer_connection
section_of peer_conn_tr_timeout = peer_connection
section_of peer_conn_req_sid_size = peer_connection
section_of peer_conn_wrong_prot_version = peer_connection
section_of peer_conn_rcvd_err = peer_connection
section_of srv_conn_wrong_session = server_connection
section_of srv_conn_decr = server_connection
section_of srv_conn_unpack = server_connection
section_of srv_conn_wrong_len9 = server_connection
section_of srv_conn_wrong_nonce = server_connection
section_of srv_conn_wrong_len1 = server_connection
section_of srv_conn_wrong_len_fn = server_connection
section_of srv_conn_auth_data_len4 = server_connection
section_of srv_conn_not_impl = server_connection
section_of srv_conn_auth_data_len_nonce = server_connection
section_of srv_conn_auth_data_len_pk = server_connection
section_of srv_conn_auth_wrong_nonce = server_connection
section_of router_config_is_directory = router
section_of router_conn_wrong_frame_type = router
section_of router_conn_wrong_protocol_version = router
section_of router_conn_wrong_public_key_size = router
section_of router_conn_enc = router
section_of router_conn_decr4 = router
section_of router_conn_decr5 = router
section_of router_conn_no_route_to_peer = router
section_of router_server_already_started = router
section_of router_server_is_not_started = router
section_of router_already_started = router
section_of router_is_not_started = router
section_of not_implemented = other
