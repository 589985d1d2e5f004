-- ===== src/Heap/Release/Any.antt =====
-- `free` of any block of a chain.
use mathlib.Core.Path.{subst}
use pros.Prelude.{
  ℕ, ◌+◌, ◌^◌, ◌<◌, ◌≡◌, ◌⊎◌, inl, inr, refl, arith, true, false, ◌∙◌, ap, sym, List, [], ◌∷◌, ◌++◌,
  Bool-cases,
}
use pros.Memory.{Mem}
use pros.Heap.{MemoryChunk, chunk_size, free}
use pros.Heap.Chunk.{read_chunk-ext}
use pros.Heap.Blocks.{Block, block, span, link, header, Chain}
use pros.Heap.Carve.{IsData}
use pros.Heap.Release.{absorb, release, IsSafe, IsFreed}
use pros.Heap.Release.Alone.{IsAlone, alone-IsFreed}
use pros.Heap.Release.Joins.{joins}

link-absorb : (x : ℕ) (b : Block) (after : List Block) → link x (absorb b after) ≡ x
link-absorb x b [] = refl
link-absorb x b (n ∷ rest) = elim (Bool-cases n.allocated) [
  | inl used ↦ simp used
  | inr unused ↦ simp unused
]

link-release : (x y : ℕ) (before after : List Block) → link x (release before y after) ≡ x
link-release x y [] after = link-absorb x (block y false) after
link-release x y (p ∷ []) after = elim (Bool-cases p.allocated) [
  | inl used ↦ simp used (link-absorb x (block (p.size + (y + chunk_size)) true) after)
  | inr unused ↦ simp unused
]
link-release x y (p ∷ q ∷ r) after = refl

link-append : (x : ℕ) (b : Block) (before after : List Block) → link x (before ++ (b ∷ after)) ≡ x
link-append x b [] after = refl
link-append x b (p ∷ before) after = refl

-- A block before that stays as it is.
cons-IsFreed :
    (m m' : Mem) (prev a : ℕ) (p : Block) (before : List Block) (y : ℕ) (after : List Block)
    → release (p ∷ before) y after ≡ p ∷ release before y after
    → Chain m prev a ((p ∷ before) ++ (block y true ∷ after))
    → IsFreed m m' a (a + chunk_size + p.size) before y after
    → IsFreed m m' prev a (p ∷ before) y after
cons-IsFreed m m' prev a p before y after e (at, behind) f =
    let x = a + chunk_size + p.size in
    let linked = link-append x (block y true) before after ∙ sym (link-release x y before after) in
    record {
      chain = rw e (
        read_chunk-ext m' m a (λ b lo hi. f.spares b (inl (omega arith)))
            ∙ at
            ∙ ap (λ t. header t prev p) linked,
        f.chain,
      );
      spares = λ b d. f.spares b (place b d);
    }
  where
    place :
        (b : ℕ)
        → (b < a) ⊎ IsData a ((p ∷ before) ++ (block y false ∷ after)) b
        → (b < a + chunk_size + p.size)
          ⊎ IsData (a + chunk_size + p.size) (before ++ (block y false ∷ after)) b
    place b (inl lo) = inl (omega arith)
    place b (inr (inl d)) = inl d.2
    place b (inr (inr d)) = inr d

-- The first block has no other before it.
abbrev pub IsFirst : Mem → (prev a : ℕ) → List Block → Type 0
IsFirst m prev a [] = IsAlone m prev a
IsFirst m prev a (p ∷ before) = Unit {0}

pub release-IsFreed :
    (m : Mem) (prev a y : ℕ) (before after : List Block)
    → 0 < a
    → a + span (before ++ (block y true ∷ after)) < 2 ^ 32
    → IsSafe before after
    → IsFirst m prev a before
    → Chain m prev a (before ++ (block y true ∷ after))
    → IsFreed m (free m (a + span before + chunk_size)) prev a before y after
release-IsFreed m prev a y [] after pos fits safe alone c =
    subst (λ x. IsFreed m (free m x) prev a [] y after) {x = a + chunk_size}
      {y = a + 0 + chunk_size} (omega arith)
      (alone-IsFreed m prev a y [] after refl pos fits safe alone c)
release-IsFreed m prev a y (p ∷ []) after pos fits safe alone c = elim (Bool-cases p.allocated) [
  | inl used ↦
      subst (λ x. IsFreed m (free m x) prev a (p ∷ []) y after) {y = a + span (p ∷ []) + chunk_size}
        (omega arith) (joins m prev a y p pos used after fits safe c)
  | inr unused ↦
      let x = a + chunk_size + p.size in
      let apart : IsAlone m a x =
        inr (inl (omega arith), ap (λ (k : MemoryChunk). k.allocated) c.0 ∙ unused) in
      subst (λ x. IsFreed m (free m x) prev a (p ∷ []) y after) {x = x + chunk_size}
        {y = a + span (p ∷ []) + chunk_size} (omega arith)
        (cons-IsFreed m (free m (x + chunk_size)) prev a p [] y after (simp unused) c
          (alone-IsFreed m a x y (p ∷ []) after unused (omega arith) (omega arith) safe apart c.1))
]
release-IsFreed m prev a y (p ∷ q ∷ r) after pos fits safe alone c =
    let x = a + chunk_size + p.size in
    subst (λ x. IsFreed m (free m x) prev a (p ∷ q ∷ r) y after) {x = x + span (q ∷ r) + chunk_size}
      {y = a + span (p ∷ q ∷ r) + chunk_size} (omega arith)
      (cons-IsFreed m (free m (x + span (q ∷ r) + chunk_size)) prev a p (q ∷ r) y after refl c
        (release-IsFreed m a x y (q ∷ r) after (omega arith) (omega arith) safe tt c.1))
