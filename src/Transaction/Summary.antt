-- ===== src/Transaction/Summary.antt =====
-- utils/transaction.go and the textual forms of xchg/transaction.go. `Sprint` puts no space between
-- texts.
use xchg.Base.{ℕ, get_or, List, [], ◌++◌, map, take, ltb, ◌==◌, if◌then◌else◌, length}
use xchg.Bytes.{bytes_at}
use xchg.Texts.{codes}
use xchg.Transaction.{Frame, marshal}
use xchg.Router.{hex_encode}

-- The text for the type of a frame; that of another type is empty.
abbrev pub type_text : ℕ → List ℕ
type_text t =
    if t == 0x10
    then codes "CR"
    else (if t == 0x11
        then codes "cr"
        else (if t == 0x20 then codes "PR" else (if t == 0x21 then codes "pr" else [])))

-- The comment with a space for each zero.
abbrev pub printed : List ℕ → List ℕ
printed comment = map (λ x. if x == 0 then 32 else x) comment

-- `TransactionSummary`, its result. It also overwrites the zeros of the comment in the frame, which
-- for its only caller, `String`, is a fresh one.
unfoldable pub transaction_summary : List ℕ → List ℕ
transaction_summary frame =
    if ltb (length frame) 128
    then codes "wrong frame length"
    else (let dest = bytes_at frame 64 32 in
        let src = bytes_at frame 32 32 in
        codes "ROUTER PUT "
        ++ type_text (get_or frame 4 0)
        ++ codes " func "
        ++ printed (bytes_at frame 96 32)
        ++ codes " from "
        ++ hex_encode (take 4 src)
        ++ codes " to "
        ++ hex_encode (take 4 dest))

-- `SrcAddressString`, `DestAddressString` and `String`.
abbrev pub src_address_string : Frame → List ℕ
src_address_string c = hex_encode c.src_address

abbrev pub dest_address_string : Frame → List ℕ
dest_address_string c = hex_encode c.dest_address

unfoldable pub string : Frame → List ℕ
unfolding transaction_summary
string c = transaction_summary (marshal c)
