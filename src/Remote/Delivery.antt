-- ===== src/Remote/Delivery.antt =====
-- What a client sends for a call arrives whole.
use xchg.Base.{ℕ, ◌^◌, ◌<◌, ◌≡◌, refl, true, false, some, List, [], arith, length}
use xchg.Transaction.{Transaction, new_frame}
use xchg.Transaction.Reassembly.{receive_all}
use xchg.Transaction.Sent.{sent_arrives}
use xchg.Remote.{RemotePeer, begin_transaction}

-- The frames that `executeTransaction` sends for a message that is not empty and shorter than 2^32
-- bytes, taken by a fresh transaction in the order of sending: no call panics, the transaction is
-- complete, and its result is the message.
pub begin_transaction-arrives :
    (c : RemotePeer) (bytes comment : List ℕ) (t : Transaction)
    → 0 < length bytes
    → length bytes < 2 ^ 32
    → t.received_frames ≡ []
    → t.complete ≡ false
    → (t' : Transaction) × (receive_all t (begin_transaction c bytes comment).0.1 ≡ some t')
      × (t'.complete ≡ true)
      × (t'.result ≡ bytes)
unfolding begin_transaction new_frame
begin_transaction-arrives c bytes comment t pos small empty undone =
    sent_arrives bytes _
      (record {
        offset = λ o d h. omega arith;
        payload = λ o d. refl;
        total_size = λ b. omega arith;
      })
      t pos small empty undone
