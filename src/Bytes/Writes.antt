-- ===== src/Bytes/Writes.antt =====
-- A buffer that is filled by a row of copies: what each range holds at the end.
use xchg.Base.{
  ℕ, zero, suc, ◌+◌, ◌≤◌, ◌≡◌, refl, ap, ◌∙◌, ◌⊎◌, inl, inr, List, [], ◌∷◌, ◌++◌, arith, length,
  take, replicate,
}
use xchg.Bytes.Copy.{
  bytes_at, copy_at, length-copy_at, bytes_at-copy_at_self, bytes_at-copy_at_after,
  bytes_at-copy_at_before,
}

unfoldable pub writes : List ℕ → List (ℕ × List ℕ) → List ℕ
writes s [] = s
writes s ((off, src) ∷ ws) = writes (copy_at s off src) ws

-- No write of the row touches the range of `n` bytes from `o` on.
abbrev pub Apart : ℕ → ℕ → List (ℕ × List ℕ) → Type 0
Apart o n [] = Unit
Apart o n ((off, src) ∷ ws) = ((o + n ≤ off) ⊎ (off + length src ≤ o)) × Apart o n ws

bytes_at-copy_at_apart :
    (s : List ℕ) (off : ℕ) (src : List ℕ) (o n : ℕ)
    → ((o + n ≤ off) ⊎ (off + length src ≤ o))
    → bytes_at (copy_at s off src) o n ≡ bytes_at s o n
bytes_at-copy_at_apart s off src o n (inl h) = bytes_at-copy_at_after s off src o n h
bytes_at-copy_at_apart s off src o n (inr h) = bytes_at-copy_at_before s off src o n h

pub length-writes : (s : List ℕ) (ws : List (ℕ × List ℕ)) → length (writes s ws) ≡ length s
unfolding writes
length-writes s [] = refl
length-writes s ((off, src) ∷ ws) = length-writes (copy_at s off src) ws ∙ length-copy_at s off src

bytes_at-writes-Apart :
    (s : List ℕ) (ws : List (ℕ × List ℕ)) (o n : ℕ)
    → Apart o n ws
    → bytes_at (writes s ws) o n ≡ bytes_at s o n
unfolding writes
bytes_at-writes-Apart s [] o n h = refl
bytes_at-writes-Apart s ((off, src) ∷ ws) o n (h, hs) =
    bytes_at-writes-Apart (copy_at s off src) ws o n hs ∙ bytes_at-copy_at_apart s off src o n h

-- A range holds what was written there, when no later write touches it.
pub bytes_at-writes :
    (s : List ℕ) (pre : List (ℕ × List ℕ)) (o : ℕ) (src : List ℕ) (post : List (ℕ × List ℕ)) (n : ℕ)
    → n ≡ length src
    → o + n ≤ length s
    → Apart o n post
    → bytes_at (writes s (pre ++ (o, src) ∷ post)) o n ≡ src
unfolding writes
bytes_at-writes s [] o src post n e h p =
    bytes_at-writes-Apart (copy_at s o src) post o n p
    ∙ rw e (bytes_at-copy_at_self s o src (omega arith))
bytes_at-writes s ((off, x) ∷ pre) o src post n e h p =
    bytes_at-writes (copy_at s off x) pre o src post n e (omega (arith, length-copy_at s off x)) p

-- A fresh buffer that is filled by one copy.
pub copy_at-replicate :
    (n d : ℕ) (src : List ℕ) → n ≤ length src → copy_at (replicate n d) 0 src ≡ take n src
unfolding copy_at
copy_at-replicate zero d src h = refl
copy_at-replicate (suc n) d [] h = absurd (omega arith)
copy_at-replicate (suc n) d (x ∷ src) h = ap (λ t. x ∷ t) (copy_at-replicate n d src (omega arith))

-- Writes one after the other into a fresh buffer.
pub copy_next :
    (xs src : List ℕ) (off n k : ℕ)
    → off ≡ length xs
    → n ≡ length src + k
    → copy_at (xs ++ replicate n 0) off src ≡ (xs ++ src) ++ replicate k 0
unfolding copy_at
copy_next [] src zero n k e h = copy_front src n k h
  where
    copy_front :
        (src : List ℕ) (n k : ℕ)
        → n ≡ length src + k
        → copy_at (replicate n 0) 0 src ≡ src ++ replicate k 0
    copy_front [] zero zero h = refl
    copy_front [] zero (suc k) h = absurd (omega arith)
    copy_front [] (suc n) zero h = absurd (omega arith)
    copy_front [] (suc n) (suc k) h =
        let e : n ≡ k = omega arith in ap (λ (i : ℕ). replicate {A = ℕ} (suc i) 0) e
    copy_front (x ∷ src) zero k h = absurd (omega arith)
    copy_front (x ∷ src) (suc n) k h = ap (λ t. x ∷ t) (copy_front src n k (omega arith))
copy_next [] src (suc off) n k e h = absurd (omega arith)
copy_next (x ∷ xs) src zero n k e h = absurd (omega arith)
copy_next (x ∷ xs) src (suc off) n k e h =
    ap (λ t. x ∷ t) (copy_next xs src off n k (omega arith) h)
