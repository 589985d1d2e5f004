-- ===== src/Heap/Release/Alone.antt =====
-- `free` where it does not join the block before.
use mathlib.Core.Path.{subst}
use pros.Prelude.{
  ℕ, ◌+◌, ◌^◌, ◌<◌, ◌≡◌, ◌⊎◌, inl, inr, refl, arith, true, false, ◌∙◌, ap, sym, List, [], ◌∷◌,
}
use pros.Memory.{Mem}
use pros.Heap.{MemoryChunk, chunk_size, null, read_chunk, set_allocated, free}
use pros.Heap.Chunk.{Apart, Outside}
use pros.Heap.Blocks.{Block, block, span, header, Chain}
use pros.Heap.Carve.{Chain-ext, IsData, IsData-le}
use pros.Heap.Single.{
  free-stops, free-last, read_chunk-marked, load8-marked, read_chunk-grown, load8-grown,
}
use pros.Heap.Release.{ends_used, IsSafe, IsFreed, absorb-used}

-- The chunk before is not allocated, or there is none.
abbrev pub IsAlone : Mem → (prev a : ℕ) → Type 0
IsAlone m prev a = (prev ≡ null) ⊎ (Apart a prev × ((read_chunk m prev).allocated ≡ false))

-- No byte of data behind the block lies in its header.
data-Outside :
    (a y : ℕ) (after : List Block) (b : ℕ)
    → (b < a) ⊎ IsData a (block y false ∷ after) b
    → Outside a b
data-Outside a y after b (inl lo) = inl lo
data-Outside a y after b (inr d) = inr (IsData-le a (block y false ∷ after) b d)

module _ (m : Mem) (prev a y : ℕ) (pos : 0 < a) (alone : IsAlone m prev a) where
  alone_last :
      a + span (block y true ∷ []) < 2 ^ 32
      → Chain m prev a (block y true ∷ [])
      → IsFreed m (free m (a + chunk_size)) prev a [] y []
  alone_last fits (at, behind) =
      let small : a + chunk_size < 2 ^ 32 = omega arith in
      subst (λ m'. IsFreed m m' prev a [] y [])
        (sym (free-stops m prev a null y pos small at alone (inl refl)))
        (record {
          chain = (read_chunk-marked m prev a null y pos small at alone, tt);
          spares =
              λ b d. load8-marked m prev a null y pos small at alone b (data-Outside a y [] b d);
        })

  alone_used :
      (n : Block) (rest : List Block)
      → a + span (block y true ∷ n ∷ rest) < 2 ^ 32
      → n.allocated ≡ true
      → Chain m prev a (block y true ∷ n ∷ rest)
      → IsFreed m (free m (a + chunk_size)) prev a [] y (n ∷ rest)
  alone_used n rest fits used (at, behind) =
      let next = a + chunk_size + y in
      let small : a + chunk_size < 2 ^ 32 = omega arith in
      let stops : (next ≡ null) ⊎ (Apart a next × ((read_chunk m next).allocated ≡ true)) =
        inr (inr (omega arith), ap (λ (k : MemoryChunk). k.allocated) behind.0 ∙ used) in
      let same = load8-marked m prev a next y pos small at alone in
      subst (λ m'. IsFreed m m' prev a [] y (n ∷ rest))
        (sym (free-stops m prev a next y pos small at alone stops))
        (record {
          chain =
              subst (Chain (set_allocated m a false) prev a)
                (sym (absorb-used (block y false) n rest used))
                (
                  read_chunk-marked m prev a next y pos small at alone,
                  Chain-ext m (set_allocated m a false) a next (n ∷ rest)
                      (λ b lo hi. same b (inr (omega arith))) behind,
                );
          spares = λ b d. same b (data-Outside a y (n ∷ rest) b d);
        })

  alone_free :
      (n : Block)
      → a + span (block y true ∷ n ∷ []) < 2 ^ 32
      → n.allocated ≡ false
      → Chain m prev a (block y true ∷ n ∷ [])
      → IsFreed m (free m (a + chunk_size)) prev a [] y (n ∷ [])
  alone_free n fits unused (at, behind) =
      let next = a + chunk_size + y in
      let small : a + chunk_size < 2 ^ 32 = omega arith in
      let total : y + (n.size + chunk_size) < 2 ^ 32 = omega arith in
      let last = behind.0 ∙ ap (λ f. header null a (block n.size f)) unused in
      subst (λ m'. IsFreed m m' prev a [] y (n ∷ []))
        (sym (
          free-last m prev a next y pos small at alone n.size (omega arith) (inr (omega arith))
            total last))
        (record {
          chain =
              simp unused (read_chunk-grown m prev a next y pos small at alone n.size total, tt);
          spares = λ b d.
              load8-grown m prev a next y pos small at alone n.size b
                (data-Outside a y (n ∷ []) b d);
        })

-- `free` where it does not join the chunk before.
pub alone-IsFreed :
    (m : Mem) (prev a y : ℕ) (before after : List Block)
    → ends_used before ≡ false
    → 0 < a
    → a + span (block y true ∷ after) < 2 ^ 32
    → IsSafe before after
    → IsAlone m prev a
    → Chain m prev a (block y true ∷ after)
    → IsFreed m (free m (a + chunk_size)) prev a [] y after
alone-IsFreed m prev a y before [] ends pos fits safe alone c =
    alone_last m prev a y pos alone fits c
alone-IsFreed m prev a y before (n ∷ rest) ends pos fits (inl used) alone c =
    alone_used m prev a y pos alone n rest fits used c
alone-IsFreed m prev a y before (n ∷ []) ends pos fits (inr s) alone c =
    alone_free m prev a y pos alone n fits s.2 c
alone-IsFreed m prev a y before (n ∷ n2 ∷ rest) ends pos fits (inr s) alone c = cc
