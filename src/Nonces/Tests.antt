-- ===== src/Nonces/Tests.antt =====
-- The theorems at concrete inputs.
use xchg.Base.{ℕ, ◌<◌, ◌≡◌, ◌≢◌, refl, true, false, some, List, [], ◌∷◌, arith, length, replicate}
use xchg.Nonces.{Nonces, new_nonces, next, check}
use xchg.Nonces.Table.{IsValid, check_once, random_part}
use xchg.Nonces.Fill.{new_nonces-IsValid}
use xchg.Nonces.Issue.{next_all, issued_accepted}

abbrev elevens : ℕ → List ℕ
elevens i = replicate 11 i

abbrev two_entries : Nonces
two_entries = new_nonces 2 elevens

abbrev entry_one : List ℕ
entry_one = 1 ∷ 0 ∷ 0 ∷ 0 ∷ 0 ∷ replicate 11 1

two_entries-IsValid : IsValid two_entries
two_entries-IsValid = new_nonces-IsValid_lem.0
  where
    new_nonces-IsValid_lem : IsValid two_entries × (length two_entries.nonces ≡ 2)
    new_nonces-IsValid_lem = new_nonces-IsValid 2 elevens (omega arith) (omega arith)

accepted_run : (check two_entries entry_one (elevens 5)).0 ≡ true
unfolding check new_nonces xchg.Bytes.uint32_at xchg.Bytes.le_value xchg.Bytes.copy_at
    xchg.Bytes.put_uint32 xchg.Bytes.le_bytes
accepted_run = refl

check_once_example :
    (check (check two_entries entry_one (elevens 5)).1 entry_one (elevens 6)).0 ≡ false
check_once_example =
    check_once two_entries entry_one (elevens 5) (elevens 6) two_entries-IsValid refl refl
      (λ e. absurd (ones_not_fives e)) accepted_run
  where
    ones_not_fives : random_part entry_one ≢ elevens 5
    ones_not_fives = λ e. cc e

issued_accepted_example :
    (nonce : List ℕ) × (c1 c2 : Nonces) × (next two_entries (elevens 7) ≡ some (nonce, c1))
    × (next_all c1 (elevens 8 ∷ []) ≡ some c2)
    × IsValid c2
    × ((check c2 nonce (elevens 9)).0 ≡ true)
issued_accepted_example =
    issued_accepted two_entries (elevens 7) (elevens 8 ∷ []) (elevens 9) two_entries-IsValid few
  where
    few : 1 < length two_entries.nonces
    few = omega (arith, (new_nonces-IsValid 2 elevens (omega arith) (omega arith)).1)
