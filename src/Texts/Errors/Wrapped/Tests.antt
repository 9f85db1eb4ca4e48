-- ===== src/Texts/Errors/Wrapped/Tests.antt =====
-- The theorem at a concrete input.
use xchg.Base.{◌≡◌, false, some, [], ◌∷◌, ◌++◌, ◌&&◌, not}
use xchg.Texts.{need_to_make_session, need_to_change_node}
use xchg.Texts.Errors.{srv_conn_decr, error_text, section_of}
use xchg.Texts.Errors.Wrapped.{is_server, is_router, error_text-told}

error_text-told_example :
    (need_to_make_session (some (error_text srv_conn_decr)) ≡ is_server (section_of srv_conn_decr))
    × (need_to_change_node (some (error_text srv_conn_decr)) ≡ is_router (section_of srv_conn_decr))
    × (is_server (section_of srv_conn_decr)
          && not
              (need_to_make_session (some ((58 ∷ []) ++ (error_text srv_conn_decr ++ (33 ∷ [])))))
        ≡ false)
    × (is_router (section_of srv_conn_decr)
          && not (need_to_change_node (some ((58 ∷ []) ++ (error_text srv_conn_decr ++ (33 ∷ [])))))
        ≡ false)
error_text-told_example = error_text-told srv_conn_decr (58 ∷ []) (33 ∷ [])
