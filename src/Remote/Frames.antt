-- ===== src/Remote/Frames.antt =====
-- The frames of calls as lists.
use xchg.Base.{ℕ, ◌+◌, ◌%◌, ◌≡◌, refl, ap, ◌∙◌, List, [], ◌∷◌, ◌++◌, arith, length, length-append}
use mathlib.Core.List.{append-nil, append_assoc}
use xchg.Bytes.{le_bytes, length-le_bytes, copy_at, copy_next, put_uint64}
use xchg.Remote.{plain_frame, counted_frame}

-- The name after its length, and the data.
abbrev pub named : List ℕ → List ℕ → List ℕ
named function bytes = (length function % 256) ∷ function ++ bytes

module _ (function bytes : List ℕ) where
  pub plain_frame-eq : plain_frame function bytes ≡ named function bytes
  unfolding plain_frame
  plain_frame-eq =
      let n : ℕ = length function % 256 in
      ap (λ s. copy_at (copy_at s 1 function) (1 + length function) bytes)
        (copy_next [] (n ∷ []) 0 (1 + length function + length bytes)
          (length function + length bytes) refl (omega arith))
      ∙ ap (λ s. copy_at s (1 + length function) bytes)
          (copy_next (n ∷ []) function 1 (length function + length bytes) (length bytes) refl refl)
      ∙ copy_next (n ∷ function) bytes (1 + length function) (length bytes) 0 (omega arith)
          (omega arith)
      ∙ append-nil (n ∷ function ++ bytes)

  module _ (counter : ℕ) where
    pub counted_frame-eq :
        counted_frame counter function bytes ≡ le_bytes 8 counter ++ named function bytes
    unfolding counted_frame put_uint64
    counted_frame-eq =
        let n : ℕ = length function % 256 in
        let c : List ℕ = le_bytes 8 counter in
        let eight : length c ≡ 8 = length-le_bytes 8 counter in
        ap (λ s. copy_at (copy_at (copy_at s 8 (n ∷ [])) 9 function) (9 + length function) bytes)
          (copy_next [] c 0 (8 + 1 + length function + length bytes)
            (1 + length function + length bytes) refl (omega arith))
        ∙ ap (λ s. copy_at (copy_at s 9 function) (9 + length function) bytes)
            (copy_next c (n ∷ []) 8 (1 + length function + length bytes)
              (length function + length bytes) (omega arith) (omega arith))
        ∙ ap (λ s. copy_at s (9 + length function) bytes)
            (copy_next (c ++ n ∷ []) function 9 (length function + length bytes) (length bytes)
              (omega (arith, length-append c (n ∷ []))) refl)
        ∙ copy_next ((c ++ n ∷ []) ++ function) bytes (9 + length function) (length bytes) 0
            (omega (arith, length-append (c ++ n ∷ []) function, length-append c (n ∷ [])))
            (omega arith)
        ∙ append-nil _
        ∙ append_assoc (c ++ n ∷ []) function bytes
        ∙ append_assoc c (n ∷ []) (function ++ bytes)
