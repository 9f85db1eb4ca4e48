-- ===== src/Nonces/Fill.antt =====
-- `NewNonces` makes a valid table.
use xchg.Base.{
  ℕ, zero, suc, ◌+◌, ◌^◌, ◌≤◌, ◌<◌, ◌≡◌, refl, ap, ◌∙◌, List, [], arith, length, length-set,
  length-replicate, get_or, set, replicate, get_or-set_self, get_or-set_ne, ℕ_discrete,
}
use xchg.Nonces.{Nonces, nonce_size, filled, fill_nonce, fill_from, new_nonces}
use xchg.Nonces.Table.{IsEntry, IsValid, fill_nonce_in, length-filled, filled-IsEntry}

-- The table while the loop runs: the entries below `k` are filled.
record Filling (size k : ℕ) (c : Nonces) : Type 0 where
  len : length c.nonces ≡ size
  start : c.current_index ≡ 0
  sizes : (j : ℕ) → j < size → length (get_or c.nonces j []) ≡ nonce_size
  done : (j : ℕ) → j < k → IsEntry j (get_or c.nonces j [])

fill_step :
    (size k : ℕ) (c : Nonces) (random : List ℕ)
    → size ≤ 2 ^ 32
    → k < size
    → Filling size k c
    → Filling size (k + 1) (fill_nonce c k random)
fill_step size k c random small h f = rw (fill_nonce_in c k random lt) (record {
  len = length-set c.nonces k new ∙ f.len;
  start = f.start;
  sizes = sizes;
  done = done;
})
  where
    lt : k < length c.nonces
    lt = omega (arith, f.len)

    new : List ℕ
    new = filled (get_or c.nonces k []) k c.complexity random

    sizes : (j : ℕ) → j < size → length (get_or (set c.nonces k new) j []) ≡ nonce_size
    sizes j hj = elim (ℕ_discrete k j) [
      | yes e ↦
          rw (← e, get_or-set_self c.nonces k new [] lt)
            (length-filled (get_or c.nonces k []) k c.complexity random ∙ f.sizes k h)
      | no ne ↦ rw (get_or-set_ne c.nonces k j new [] ne) (f.sizes j hj)
    ]

    done : (j : ℕ) → j < k + 1 → IsEntry j (get_or (set c.nonces k new) j [])
    done j hj = elim (ℕ_discrete k j) [
      | yes e ↦
          rw (← e, get_or-set_self c.nonces k new [] lt)
            (filled-IsEntry (get_or c.nonces k []) k c.complexity random (f.sizes k h)
              (omega arith))
      | no ne ↦ rw (get_or-set_ne c.nonces k j new [] ne) (f.done j (omega arith))
    ]

fill_from-Filling :
    (size : ℕ) (c : Nonces) (random : ℕ → List ℕ) (rounds i : ℕ)
    → size ≤ 2 ^ 32
    → i + rounds ≡ size
    → Filling size i c
    → Filling size size (fill_from c random rounds i)
unfolding fill_from
fill_from-Filling size c random zero i small e f = let e' : i ≡ size = omega arith in rw e' at f
fill_from-Filling size c random (suc rounds) i small e f =
    fill_from-Filling size (fill_nonce c i (random i)) random rounds (i + 1) small (omega arith)
      (fill_step size i c (random i) small (omega arith) f)

zero_entry :
    (size j : ℕ)
    → j < size
    → get_or (replicate size (replicate {A = ℕ} nonce_size 0)) j [] ≡ replicate nonce_size 0
zero_entry zero j h = absurd (omega arith)
zero_entry (suc size) zero h = refl
zero_entry (suc size) (suc j) h = zero_entry size j (omega arith)

-- `NewNonces` makes a valid table of the size asked for, whatever the random bytes are.
pub new_nonces-IsValid :
    (size : ℕ) (random : ℕ → List ℕ)
    → 0 < size
    → size ≤ 2 ^ 32
    → IsValid (new_nonces size random) × (length (new_nonces size random).nonces ≡ size)
unfolding new_nonces
new_nonces-IsValid size random pos small = (
  record {
    current = omega (arith, f.len, f.start);
    small = omega (arith, f.len);
    entry = λ j hj. f.done j (omega (arith, f.len));
  },
  f.len,
)
  where
    f : Filling size size (new_nonces size random)
    f = fill_from-Filling size _ random size 0 small (omega arith) (record {
      len = length-replicate size (replicate nonce_size 0);
      start = refl;
      sizes = λ j hj. ap length (zero_entry size j hj);
      done = λ j hj. absurd (omega arith);
    })
