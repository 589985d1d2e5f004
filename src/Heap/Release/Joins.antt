-- ===== src/Heap/Release/Joins.antt =====
-- `free` where it joins the allocated block before.
use mathlib.Core.Path.{subst}
use pros.Prelude.{
  ℕ, ◌+◌, ◌^◌, ◌≤◌, ◌<◌, ◌≡◌, ◌⊎◌, inl, inr, refl, arith, true, false, ◌∙◌, ap, sym, List, [], ◌∷◌,
  true_ne_false,
}
use pros.Memory.{Mem}
use pros.Heap.{MemoryChunk, chunk_size, null, read_chunk, free}
use pros.Heap.Chunk.{Outside}
use pros.Heap.Blocks.{Block, block, span, header, Chain}
use pros.Heap.Carve.{Chain-ext, IsData, IsData-le}
use pros.Heap.Joined.{joined, free-joined, read_chunk-joined, load8-joined, read_chunk-joined_next}
use pros.Heap.Release.{release, IsSafe, IsFreed}

module _ (m : Mem) (prev a y : ℕ) (p : Block) (pos : 0 < a) (used : p.allocated ≡ true) where
  at_p :
      (after : List Block)
      → Chain m prev a (p ∷ block y true ∷ after)
      → read_chunk m a ≡ header (a + chunk_size + p.size) prev (block p.size true)
  at_p after c = c.0 ∙ ap (λ f. header (a + chunk_size + p.size) prev (block p.size f)) used

  -- The bytes that are spared lie outside the headers.
  spared-Outside :
      (after : List Block) (b : ℕ)
      → (b < a) ⊎ IsData a (p ∷ block y false ∷ after) b
      → Outside a b × Outside (a + chunk_size + p.size) b
  spared-Outside after b (inl lo) = (inl lo, inl (omega arith))
  spared-Outside after b (inr (inl d)) = (inr d.1, inl d.2)
  spared-Outside after b (inr (inr d)) =
      let far = IsData-le (a + chunk_size + p.size) (block y false ∷ after) b d in
      (inr (omega arith), inr far)

  spared-Outside_next :
      (n : Block) (rest : List Block) (b : ℕ)
      → (b < a) ⊎ IsData a (p ∷ block y false ∷ n ∷ rest) b
      → Outside (a + chunk_size + p.size + chunk_size + y) b
  spared-Outside_next n rest b (inl lo) = inl (omega arith)
  spared-Outside_next n rest b (inr (inl d)) = inl (omega (arith, d.2))
  spared-Outside_next n rest b (inr (inr (inl d))) = absurd (true_ne_false (sym d.0))
  spared-Outside_next n rest b (inr (inr (inr d))) =
      inr (IsData-le (a + chunk_size + p.size + chunk_size + y) (n ∷ rest) b d)

  joins_last :
      a + span (p ∷ block y true ∷ []) < 2 ^ 32
      → Chain m prev a (p ∷ block y true ∷ [])
      → IsFreed m (free m (a + chunk_size + p.size + chunk_size)) prev a (p ∷ []) y []
  joins_last fits c =
      let small : a + p.size + y + chunk_size + chunk_size < 2 ^ 32 = omega arith in
      let zero : null < 2 ^ 32 = omega arith in
      let m' = joined m prev a null p.size y pos small (at_p [] c) c.1.0 zero (inl refl) in
      subst (λ m'. IsFreed m m' prev a (p ∷ []) y [])
        (sym (free-joined m prev a null p.size y pos small (at_p [] c) c.1.0 zero (inl refl)))
        (record {
          chain = simp used (
            read_chunk-joined m prev a null p.size y pos small (at_p [] c) c.1.0 zero (inl refl),
            tt,
          );
          spares = λ b d.
              let out = spared-Outside [] b d in
              load8-joined m prev a null p.size y pos small (at_p [] c) c.1.0 zero (inl refl) b
                out.0 out.1 (inl refl);
        })

  release-joins :
      (n : Block) (rest : List Block)
      → n.allocated ≡ true
      → release (p ∷ []) y (n ∷ rest) ≡ block (p.size + (y + chunk_size)) true ∷ n ∷ rest
  release-joins n rest busy = rw used (rw busy refl)

  joins_used :
      (n : Block) (rest : List Block)
      → a + span (p ∷ block y true ∷ n ∷ rest) < 2 ^ 32
      → n.allocated ≡ true
      → Chain m prev a (p ∷ block y true ∷ n ∷ rest)
      → IsFreed m (free m (a + chunk_size + p.size + chunk_size)) prev a (p ∷ []) y (n ∷ rest)
  joins_used n rest fits busy c =
      let x = p.size in
      let here = a + chunk_size + x in
      let next = here + chunk_size + y in
      let small : a + x + y + chunk_size + chunk_size < 2 ^ 32 = omega arith in
      let below : next < 2 ^ 32 = omega arith in
      let far : here + chunk_size ≤ next = omega arith in
      let stops : (next ≡ null)
          ⊎ ((here + chunk_size ≤ next) × ((read_chunk m next).allocated ≡ true)) =
        inr (far, ap (λ (k : MemoryChunk). k.allocated) c.1.1.0 ∙ busy) in
      let m' = joined m prev a next x y pos small (at_p (n ∷ rest) c) c.1.0 below stops in
      let kept = load8-joined m prev a next x y pos small (at_p (n ∷ rest) c) c.1.0 below stops in
      let move : next ≡ a + chunk_size + (x + (y + chunk_size)) = omega arith in
      let head =
        read_chunk-joined_next m prev a next x y pos small (at_p (n ∷ rest) c) c.1.0 below stops
          (omega arith) far
        ∙ ap (λ (k : MemoryChunk). record k { prev = a }) c.1.1.0 in
      let tail =
        Chain-ext m m' next (next + chunk_size + n.size) rest
          (λ b lo hi. kept b (inr (omega arith)) (inr (omega arith)) (inr (inr (omega arith))))
          c.1.1.1 in
      let chain : Chain m' prev a (block (x + (y + chunk_size)) true ∷ n ∷ rest) = (
        read_chunk-joined m prev a next x y pos small (at_p (n ∷ rest) c) c.1.0 below stops
            ∙ ap (λ t. header t prev (block (x + (y + chunk_size)) true)) move,
        subst (λ k. Chain m' a k (n ∷ rest)) move (head, tail),
      ) in
      subst (λ m'. IsFreed m m' prev a (p ∷ []) y (n ∷ rest))
        (sym (free-joined m prev a next x y pos small (at_p (n ∷ rest) c) c.1.0 below stops))
        (record {
          chain = subst (Chain m' prev a) (sym (release-joins n rest busy)) chain;
          spares = λ b d.
              let out = spared-Outside (n ∷ rest) b d in
              kept b out.0 out.1 (inr (spared-Outside_next n rest b d));
        })

  pub joins :
      (after : List Block)
      → a + span (p ∷ block y true ∷ after) < 2 ^ 32
      → IsSafe (p ∷ []) after
      → Chain m prev a (p ∷ block y true ∷ after)
      → IsFreed m (free m (a + chunk_size + p.size + chunk_size)) prev a (p ∷ []) y after
  joins [] fits safe c = joins_last fits c
  joins (n ∷ rest) fits (inl busy) c = joins_used n rest fits busy c
  joins (n ∷ rest) fits (inr s) c = absurd (true_ne_false (sym used ∙ s.1))
