-- ===== src/Blockchain/Account/Tests.antt =====
-- The theorem at a concrete input.
use xchg.Base.{ℕ, ◌≡◌, refl, arith, some, List, [], ◌∷◌, map, replicate, take}
use xchg.Texts.{done, codes}
use xchg.Blockchain.{RouterObject, new_blockchain}
use xchg.Blockchain.Account.{RouterAccount, main_cheques}
use xchg.Blockchain.Account.Cheques.{applied, id_text, main_cheques-applied}
use xchg.Peer.Delivered.Tests.{clear_text}

abbrev account : RouterAccount ℕ
account = record {
  bc = new_blockchain;
  xchg_private_key = replicate 64 1;
  xchg_public_key = replicate 32 1;
  xchg_address = [];
}

abbrev ids : List (List ℕ)
ids = replicate 32 7 ∷ replicate 32 8 ∷ []

abbrev router : RouterObject
router = record {
  name = [];
  segment = 3;
  ip_addr = [];
  xchg_addr = [];
  owner = [];
  total_stake_amount = 5;
  cheque_ids = map id_text ids;
}

main_cheques-applied_example :
    main_cheques clear_text (codes "0x6") account (done router)
    ≡ some (map (applied clear_text (codes "0x6") account) (take 31 ids))
main_cheques-applied_example =
    main_cheques-applied clear_text (codes "0x6") account router ids refl refl (omega arith)
