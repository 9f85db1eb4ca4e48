-- ===== src/Transaction/Pieces.antt =====
-- How a message is cut into blocks (the send loops of xchg/remote_peer.go and
-- xchg/peer_processing.go), and what a receiver holds of the blocks.
use xchg.Base.{
  ℕ, zero, suc, ◌+◌, ◌-◌, ◌≤◌, ◌<◌, ◌≡◌, refl, ◌∙◌, sym, ◌⊎◌, inl, inr, List, [], ◌∷◌, arith, ltb,
  if◌then◌else◌, length, Bool-cases,
}
use xchg.Bytes.{bytes_at, length-bytes_at}

-- The size of a block: `blockSize`, or what is left of the data.
abbrev pub block_len : ℕ → ℕ → ℕ → ℕ
block_len size len offset = if ltb (len - offset) size then len - offset else size

-- The loop `for offset < len(data)`: the offset and the bytes of each block.
unfoldable pub blocks : ℕ → ℕ → List ℕ → ℕ → List (ℕ × List ℕ)
blocks size zero bytes offset = []
blocks size (suc fuel) bytes offset =
    let n = block_len size (length bytes) offset in
    let rest = blocks size fuel bytes (offset + n) in
    if ltb offset (length bytes) then (offset, bytes_at bytes offset n) ∷ rest else []

-- The blocks stand end to end from `lo` to `hi`, and none is empty.
abbrev pub Tiles : ℕ → List (ℕ × List ℕ) → ℕ → Type 0
Tiles lo [] hi = lo ≡ hi
Tiles lo ((o, d) ∷ bs) hi = (o ≡ lo) × (0 < length d) × Tiles (lo + length d) bs hi

-- Each block holds the bytes of the message at its offset.
abbrev pub IsSliceOf : List ℕ → ℕ → List ℕ → Type 0
IsSliceOf bytes o d = (o + length d ≤ length bytes) × (d ≡ bytes_at bytes o (length d))

abbrev pub SlicesOf : List ℕ → List (ℕ × List ℕ) → Type 0
SlicesOf bytes [] = Unit
SlicesOf bytes ((o, d) ∷ bs) = IsSliceOf bytes o d × SlicesOf bytes bs

pub blocks-Tiles :
    (size fuel : ℕ) (bytes : List ℕ) (offset : ℕ)
    → 0 < size
    → offset ≤ length bytes
    → length bytes ≤ offset + fuel
    → Tiles offset (blocks size fuel bytes offset) (length bytes)
unfolding blocks
blocks-Tiles size zero bytes offset hs ho hf = omega arith
blocks-Tiles size (suc fuel) bytes offset hs ho hf = ground (
  arith,
  length-bytes_at bytes offset (block_len size (length bytes) offset),
  blocks-Tiles size fuel bytes (offset + block_len size (length bytes) offset),
)

pub blocks-SlicesOf :
    (size fuel : ℕ) (bytes : List ℕ) (offset : ℕ) → SlicesOf bytes (blocks size fuel bytes offset)
unfolding blocks
blocks-SlicesOf size zero bytes offset = tt
blocks-SlicesOf size (suc fuel) bytes offset = ground (
  arith,
  length-bytes_at bytes offset (block_len size (length bytes) offset),
  blocks-SlicesOf size fuel bytes (offset + block_len size (length bytes) offset),
)

-- The block `(o, d)` is one of the list.
abbrev pub Among : ℕ → List ℕ → List (ℕ × List ℕ) → Type 0
Among o d [] = ⊥
Among o d ((o', d') ∷ bs) = ((o ≡ o') × (d ≡ d')) ⊎ Among o d bs

pub Among-above :
    (o lo hi : ℕ) (d : List ℕ) (bs : List (ℕ × List ℕ)) → Tiles lo bs hi → Among o d bs → lo ≤ o
Among-above o lo hi d [] t m = absurd m
Among-above o lo hi d ((o', d') ∷ bs) (e, p, t) (inl (eo, ed)) = omega arith
Among-above o lo hi d ((o', d') ∷ bs) (e, p, t) (inr m) =
    omega (arith, Among-above o (lo + length d') hi d bs t m)

pub Among-unique :
    (o lo hi : ℕ) (d d' : List ℕ) (bs : List (ℕ × List ℕ))
    → Tiles lo bs hi
    → Among o d bs
    → Among o d' bs
    → d ≡ d'
Among-unique o lo hi d d' [] t m m' = absurd m
Among-unique o lo hi d d' ((x, y) ∷ bs) (e, p, t) (inl (eo, ed)) (inl (eo', ed')) = ed ∙ sym ed'
Among-unique o lo hi d d' ((x, y) ∷ bs) (e, p, t) (inl (eo, ed)) (inr m') =
    absurd (omega (arith, Among-above o (lo + length y) hi d' bs t m'))
Among-unique o lo hi d d' ((x, y) ∷ bs) (e, p, t) (inr m) (inl (eo', ed')) =
    absurd (omega (arith, Among-above o (lo + length y) hi d bs t m))
Among-unique o lo hi d d' ((x, y) ∷ bs) (e, p, t) (inr m) (inr m') =
    Among-unique o (lo + length y) hi d d' bs t m m'

pub Among-IsSliceOf :
    (bytes : List ℕ) (o : ℕ) (d : List ℕ) (bs : List (ℕ × List ℕ))
    → SlicesOf bytes bs
    → Among o d bs
    → IsSliceOf bytes o d
Among-IsSliceOf bytes o d [] s m = absurd m
Among-IsSliceOf bytes o d ((x, y) ∷ bs) (h, s) (inl (eo, ed)) = rw (eo, ed) h
Among-IsSliceOf bytes o d ((x, y) ∷ bs) (h, s) (inr m) = Among-IsSliceOf bytes o d bs s m

-- Every position of the message lies in a block.
pub locate :
    (i lo hi : ℕ) (bs : List (ℕ × List ℕ))
    → Tiles lo bs hi
    → lo ≤ i
    → i < hi
    → (o : ℕ) × (d : List ℕ) × Among o d bs × (o ≤ i) × (i < o + length d)
locate i lo hi [] t l h = absurd (omega arith)
locate i lo hi ((o, d) ∷ bs) (e, p, t) l h = elim (Bool-cases (ltb i (lo + length d))) [
  | inl inside ↦ (o, d, inl (refl, refl), omega arith, ground arith)
  | inr past ↦
      let (o', d', m, a, b) = locate i (lo + length d) hi bs t (ground arith) h in
      (o', d', inr m, a, b)
]
