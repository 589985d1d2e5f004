-- ===== src/Heap/Carve.antt =====
-- The chain of headers after the split of one block.
use mathlib.Core.Path.{subst}
use pros.Prelude.{
  ℕ, ◌+◌, ◌-◌, ◌^◌, ◌≤◌, ◌<◌, ◌≡◌, ◌⊎◌, inl, inr, refl, arith, true, false, ◌∙◌, ap, List, [], ◌∷◌,
}
use pros.Memory.{Mem, load8}
use pros.Heap.{MemoryChunk, chunk_size, null, split_chunk}
use pros.Heap.Chunk.{read_chunk-ext, Outside}
use pros.Heap.Blocks.{Block, block, span, link, header, Chain}
use pros.Heap.Split.{load8-split_chunk, split_chunk_taken, split_chunk_rest, split_chunk_behind}

pub Chain-ext :
    (m m' : Mem) (prev a : ℕ) (bs : List Block)
    → ((y : ℕ) → a ≤ y → y < a + span bs → load8 m' y ≡ load8 m y)
    → Chain m prev a bs
    → Chain m' prev a bs
Chain-ext m m' prev a [] same c = tt
Chain-ext m m' prev a (b ∷ bs) same (at, rest) = (
  read_chunk-ext m' m a (λ y lo hi. same y lo (omega arith)) ∙ at,
  Chain-ext m m' a (a + chunk_size + b.size) bs (λ y lo hi. same y (omega arith) (omega arith))
      rest,
)

-- Splitting the first block of a chain.
pub split-Chain :
    (m : Mem) (prev a size : ℕ) (b : Block) (bs : List Block)
    → 0 < a
    → a + span (b ∷ bs) < 2 ^ 32
    → b.allocated ≡ false
    → size + chunk_size < b.size
    → Chain m prev a (b ∷ bs)
    → Chain
        (split_chunk m a size)
        prev
        a
        (block size true ∷ block (b.size - chunk_size - size) false ∷ bs)
split-Chain m prev a size b [] pos bound free room (at, rest) =
    let here = at ∙ ap (λ f. header null prev (block b.size f)) free in
    let behind : (null ≡ null) ⊎ (null ≡ a + chunk_size + b.size) = inl refl in
    (
      split_chunk_taken m a size null prev b.size here room (omega arith) (omega arith) behind,
      (split_chunk_rest m a size null prev b.size here room (omega arith) (omega arith) behind, tt),
    )
split-Chain m prev a size b (b2 ∷ bs) pos bound free room (at, (at2, rest)) =
    let next = a + chunk_size + b.size in
    let t = a + chunk_size + size in
    let left = b.size - chunk_size - size in
    let here = at ∙ ap (λ f. header next prev (block b.size f)) free in
    let behind : (next ≡ null) ⊎ (next ≡ next) = inr refl in
    let after : next ≡ t + chunk_size + left = omega arith in
    let head =
      split_chunk_behind m a size next prev b.size here room (omega arith) (omega arith) behind
        (omega arith)
      ∙ ap (λ (c : MemoryChunk). record c { prev = t }) at2 in
    let tail =
      Chain-ext m (split_chunk m a size) next (next + chunk_size + b2.size) bs
        (λ y lo hi.
          load8-split_chunk m a size next prev b.size here room (omega arith) (omega arith) y
            (inr (omega arith)) (inr (omega arith)) (inr (inr (omega arith))))
        rest in
    (
      split_chunk_taken m a size next prev b.size here room (omega arith) (omega arith) behind,
      (
        split_chunk_rest m a size next prev b.size here room (omega arith) (omega arith) behind
            ∙ ap (λ k. header k a (block left false)) after,
        subst (λ k. Chain (split_chunk m a size) t k (b2 ∷ bs)) after (head, tail),
      ),
    )

-- The byte at `y` belongs to an allocated block.
abbrev pub IsData : ℕ → List Block → ℕ → Type 0
IsData a [] y = ⊥
IsData a (b ∷ bs) y =
    ((b.allocated ≡ true) × (a + chunk_size ≤ y) × (y < a + chunk_size + b.size))
    ⊎ IsData (a + chunk_size + b.size) bs y

pub IsData-le : (a : ℕ) (bs : List Block) (y : ℕ) → IsData a bs y → a + chunk_size ≤ y
IsData-le a [] y d = absurd d
IsData-le a (b ∷ bs) y (inl here) = here.1
IsData-le a (b ∷ bs) y (inr later) = omega (arith, IsData-le (a + chunk_size + b.size) bs y later)

link-cases : (x : ℕ) (bs : List Block) → (link x bs ≡ null) ⊎ (link x bs ≡ x)
link-cases x [] = inl refl
link-cases x (b ∷ bs) = inr refl

-- The split of the first block writes neither below it nor to an allocated byte behind it.
pub split-untouched :
    (m : Mem) (prev a size : ℕ) (b : Block) (bs : List Block) (y : ℕ)
    → 0 < a
    → a + span (b ∷ bs) < 2 ^ 32
    → b.allocated ≡ false
    → size + chunk_size < b.size
    → Chain m prev a (b ∷ bs)
    → (y < a) ⊎ IsData a (b ∷ bs) y
    → load8 (split_chunk m a size) y ≡ load8 m y
split-untouched m prev a size b bs y pos bound free room (at, rest) out =
    let x = a + chunk_size + b.size in
    let below : link x bs < 2 ^ 32 = ground (arith, link-cases x bs) in
    let here = at ∙ ap (λ f. header (link x bs) prev (block b.size f)) free in
    elim (place out) [
      | inl lo ↦
          load8-split_chunk m a size (link x bs) prev b.size here room (omega arith) below y
            (inl lo) (inl (omega arith)) (behind (inl lo) (link-cases x bs))
      | inr hi ↦
          load8-split_chunk m a size (link x bs) prev b.size here room (omega arith) below y
            (inr (omega arith)) (inr (omega arith)) (behind (inr hi) (link-cases x bs))
    ]
  where
    place : (y < a) ⊎ IsData a (b ∷ bs) y → (y < a) ⊎ (a + chunk_size + b.size + chunk_size ≤ y)
    place (inl lo) = inl lo
    place (inr (inl d)) = absurd (cc)
    place (inr (inr d)) = inr (IsData-le (a + chunk_size + b.size) bs y d)

    behind :
        (y < a) ⊎ (a + chunk_size + b.size + chunk_size ≤ y)
        → (link (a + chunk_size + b.size) bs ≡ null)
          ⊎ (link (a + chunk_size + b.size) bs ≡ a + chunk_size + b.size)
        → (link (a + chunk_size + b.size) bs ≡ null) ⊎ Outside (link (a + chunk_size + b.size) bs) y
    behind p (inl e) = inl e
    behind (inl lo) (inr e) = inr (inl (omega arith))
    behind (inr hi) (inr e) = inr (inr (omega arith))
