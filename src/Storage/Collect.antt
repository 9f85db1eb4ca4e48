-- ===== src/Storage/Collect.antt =====
-- What the loop of `GetMessage` gathers.
use xchg.Base.{
  ℕ, ◌+◌, ◌<◌, ◌≡◌, refl, ◌∙◌, sym, inl, inr, Bool, ◌||◌, List, [], ◌∷◌, ◌++◌, arith, ltb,
  if◌then◌else◌, length, length-append, Bool-cases,
}
use mathlib.Core.Path.{subst}
use mathlib.Core.List.{append-nil, append_assoc}
use xchg.Base.Words.{slt_of_lt, IsNonneg}
use xchg.Storage.{Message, Batch, collect}

-- The messages that the call asks for.
unfoldable pub wanted : ℕ → Bool → List Message → List Message
wanted after_id send_all [] = []
wanted after_id send_all (m ∷ ms) =
    if ltb after_id m.id || send_all
    then m ∷ wanted after_id send_all ms
    else wanted after_id send_all ms

-- Their bytes, end to end.
unfoldable pub contents : List Message → List ℕ
contents [] = []
contents (m ∷ ms) = m.bytes ++ contents ms

-- The id of the last one, or `d`.
unfoldable pub last_id_or : ℕ → List Message → ℕ
last_id_or d [] = d
last_id_or d (m ∷ ms) = last_id_or m.id ms

pub contents-append : (xs ys : List Message) → contents (xs ++ ys) ≡ contents xs ++ contents ys
unfolding contents
contents-append [] ys = refl
contents-append (x ∷ xs) ys = rw (contents-append xs ys) (sym (append_assoc x.bytes _ _))

abbrev taken : Batch → Message → Batch
taken b m = record { bytes = b.bytes ++ m.bytes; last_id = m.id; count = b.count + 1 }

batch_eq :
    {xs ys : List ℕ} {l m n : ℕ}
    → xs ≡ ys
    → m ≡ n
    → ◌≡◌ {A = Batch}
        (record { bytes = xs; last_id = l; count = m })
        (record { bytes = ys; last_id = l; count = n })
batch_eq p q = cc

-- When all that is wanted fits, the loop takes it all, in order.
pub collect-fits :
    (ms : List Message) (after_id : ℕ) (send_all : Bool) (max_size : ℕ) (b : Batch)
    → IsNonneg max_size
    → length b.bytes + length (contents (wanted after_id send_all ms)) < max_size
    → collect ms after_id send_all max_size b ≡ record {
      bytes = b.bytes ++ contents (wanted after_id send_all ms);
      last_id = last_id_or b.last_id (wanted after_id send_all ms);
      count = b.count + length (wanted after_id send_all ms);
    }
unfolding collect wanted contents last_id_or
collect-fits [] after_id send_all max_size b hm h = ground (arith, append-nil b.bytes)
collect-fits (m ∷ ms) after_id send_all max_size b hm h =
    elim (Bool-cases (ltb after_id m.id || send_all)) [
      | inr skip ↦ rw skip (
          collect-fits ms after_id send_all max_size b hm (
            subst
              (λ t.
                length b.bytes
                  + length (
                      contents (
                        if t then m ∷ wanted after_id send_all ms else wanted after_id send_all ms))
                < max_size)
              skip h))
      | inl want ↦
          let h' : length b.bytes + length (m.bytes ++ contents (wanted after_id send_all ms))
              < max_size =
            subst
              (λ t.
                length b.bytes
                  + length (
                      contents (
                        if t then m ∷ wanted after_id send_all ms else wanted after_id send_all ms))
                < max_size)
              want h in
          let total = length-append m.bytes (contents (wanted after_id send_all ms)) in
          rw (want, slt_of_lt (length b.bytes + length m.bytes) max_size hm (omega arith))
            (collect-fits ms after_id send_all max_size (taken b m) hm
                (omega (arith, length-append b.bytes m.bytes))
              ∙ batch_eq (append_assoc b.bytes m.bytes (contents (wanted after_id send_all ms)))
                  (omega arith))
    ]
