-- ===== src/Heap/Released.antt =====
-- `free` of a block on a well-formed heap, and after the `malloc` that has handed it out.
use mathlib.Core.Path.{subst}
use pros.Prelude.{
  ℕ, ◌+◌, ◌-◌, ◌≤◌, ◌<◌, ◌≡◌, ◌≢◌, ◌⊎◌, inl, inr, refl, arith, true, false, ◌∙◌, ap, sym, List, [],
  ◌∷◌, ◌++◌, Bool-cases, true_ne_false, none, some,
}
use pros.Memory.{Mem, load8}
use pros.Heap.{Heap, chunk_size, null, malloc, free}
use pros.Heap.Blocks.{Block, block, span, in_use, IsHeap, find_block}
use pros.Heap.Carve.{IsData}
use pros.Heap.Malloc.{malloc-IsMalloc}
use pros.Heap.Release.{absorb, release, ends_used, IsSafe}
use pros.Heap.Release.Any.{IsFirst, release-IsFreed}
use pros.Heap.Last.{find_block-last, allocate-last, HasRoom-last}

span-absorb : (b : Block) (after : List Block) → span (absorb b after) ≡ span (b ∷ after)
span-absorb b [] = refl
span-absorb b (n ∷ rest) = ground arith

span-release :
    (y : ℕ) (before after : List Block)
    → span (release before y after) ≡ span (before ++ (block y true ∷ after))
span-release y [] after = span-absorb (block y false) after
span-release y (p ∷ []) after = ground (
  arith,
  span-absorb (block (p.size + (y + chunk_size)) true) after,
  span-absorb (block y false) after,
)
span-release y (p ∷ q ∷ r) after = ground (arith, span-release y (q ∷ r) after)

in_use-absorb : (y : ℕ) (after : List Block) → in_use (absorb (block y false) after) ≤ in_use after
in_use-absorb y [] = omega arith
in_use-absorb y (n ∷ rest) = ground arith

in_use-joins :
    (x : ℕ) (p : Block) (after : List Block)
    → p.allocated ≡ true
    → IsSafe (p ∷ []) after
    → in_use (absorb (block x true) after) ≤ chunk_size + x + in_use after
in_use-joins x p [] used safe = omega arith
in_use-joins x p (n ∷ rest) used (inl busy) = ground arith
in_use-joins x p (n ∷ rest) used (inr s) = absurd (true_ne_false (sym used ∙ s.1))

-- No more bytes count as allocated than before.
in_use-release :
    (y : ℕ) (before after : List Block)
    → IsSafe before after
    → in_use (release before y after) ≤ in_use (before ++ (block y true ∷ after))
in_use-release y [] after safe = omega (arith, in_use-absorb y after)
in_use-release y (p ∷ []) after safe = elim (Bool-cases p.allocated) [
  | inl used ↦ ground (arith, in_use-joins (p.size + (y + chunk_size)) p after used safe)
  | inr unused ↦ ground (arith, in_use-absorb y after)
]
in_use-release y (p ∷ q ∷ r) after safe = ground (arith, in_use-release y (q ∷ r) after safe)

absorb-ne_nil : (b : Block) (after : List Block) → absorb b after ≢ []
absorb-ne_nil b [] e = cc
absorb-ne_nil b (n ∷ rest) e = ground arith

release-ne_nil : (y : ℕ) (before after : List Block) → release before y after ≢ []
release-ne_nil y [] after e = absorb-ne_nil (block y false) after e
release-ne_nil y (p ∷ []) after e = elim (Bool-cases p.allocated) [
  | inl used ↦ absorb-ne_nil (block (p.size + (y + chunk_size)) true) after (simp used at e)
  | inr unused ↦ ground (arith, e)
]
release-ne_nil y (p ∷ q ∷ r) after e = cc

-- `free` of an allocated block on a well-formed heap, where the block behind it is allocated, or it is
-- the last one and the block before is not allocated, or there is none behind. The heap is well formed
-- again and holds the blocks that `release` computes: a free block behind becomes part of the one
-- given back, which itself becomes part of an allocated block before it. No byte below the heap and
-- none of the other allocated blocks changes.
pub free-IsHeap :
    (h : Heap) (m : Mem) (before : List Block) (y : ℕ) (after : List Block)
    → IsHeap h m (before ++ (block y true ∷ after))
    → IsSafe before after
    → IsHeap h (free m (h.first + span before + chunk_size)) (release before y after)
      × ((b : ℕ)
          → (b < h.first) ⊎ IsData h.first (before ++ (block y false ∷ after)) b
          → load8 (free m (h.first + span before + chunk_size)) b ≡ load8 m b)
free-IsHeap h m before y after v safe =
    let freed =
      release-IsFreed m null h.first y before after (omega (arith, v.ne_null))
        (omega (arith, v.fills, v.fits)) safe (first before) v.chain in
    (
      record {
        ne_null = v.ne_null;
        ne_nil = release-ne_nil y before after;
        chain = freed.chain;
        fills = span-release y before after ∙ v.fills;
        fits = v.fits;
        counts = omega (arith, in_use-release y before after safe, v.counts);
        count_fits = v.count_fits;
      },
      freed.spares,
    )
  where
    first : (before : List Block) → IsFirst m null h.first before
    first [] = inl refl
    first (p ∷ before) = tt

release-last :
    (size z : ℕ) (bs : List Block)
    → ends_used bs ≡ false
    → size + chunk_size < z
    → release bs size (block (z - chunk_size - size) false ∷ []) ≡ bs ++ (block z false ∷ [])
release-last size z [] ends room = ground arith
release-last size z (p ∷ []) ends room = ground arith
release-last size z (p ∷ q ∷ r) ends room =
    ap (λ bs. p ∷ bs) (release-last size z (q ∷ r) ends room)

IsData-last :
    (a z y b : ℕ) (bs after : List Block)
    → IsData a (bs ++ (block z false ∷ [])) b
    → IsData a (bs ++ (block y false ∷ after)) b
IsData-last a z y b [] after (inl d) = absurd (true_ne_false (sym d.0))
IsData-last a z y b [] after (inr d) = absurd d
IsData-last a z y b (p ∷ bs) after (inl d) = inl d
IsData-last a z y b (p ∷ bs) after (inr d) =
    inr (IsData-last (a + chunk_size + p.size) z y b bs after d)

-- `malloc` and then `free` of the address that it returns, on a well-formed heap whose last block is
-- free, where the request passes the test of the total, no block before the last one fits, the last
-- one has room for a header and one byte more, and the block before it is not allocated. The call
-- returns an address, and after `free` the heap is well formed and holds the very blocks from before,
-- but still counts the request and its header as used. No byte below the heap or of an allocated
-- block has changed.
pub malloc-free :
    (h : Heap) (m : Mem) (bs : List Block) (size z : ℕ)
    → IsHeap h m (bs ++ (block z false ∷ []))
    → h.used_memory + size + chunk_size < h.memory_size
    → find_block size bs ≡ none
    → size + chunk_size < z
    → ends_used bs ≡ false
    → (ptr : ℕ) × (h' : Heap) × (m' : Mem) × (malloc h m size ≡ some (ptr, h', m'))
      × IsHeap h' (free m' ptr) (bs ++ (block z false ∷ []))
      × (h'.used_memory ≡ h.used_memory + size + chunk_size)
      × ((b : ℕ)
          → (b < h.first) ⊎ IsData h.first (bs ++ (block z false ∷ [])) b
          → load8 (free m' ptr) b ≡ load8 m b)
malloc-free h m bs size z v total none_fit room ends =
    let here = find_block-last size z bs none_fit (omega arith) in
    let (ptr, h', m', runs, made) =
      malloc-IsMalloc h m (bs ++ (block z false ∷ [])) size (span bs) v total
        (HasRoom-last size z bs none_fit room) here in
    let left = block (z - chunk_size - size) false in
    let v' : IsHeap h' m' (bs ++ (block size true ∷ left ∷ [])) =
      subst (IsHeap h' m') (allocate-last size z bs none_fit (omega arith)) made.heap in
    let (again, spares) = free-IsHeap h' m' bs size (left ∷ []) v' (inr (refl, ends, refl)) in
    let place : h'.first + span bs + chunk_size ≡ ptr =
      omega (arith, made.same_first, made.points) in
    (
      ptr,
      h',
      m',
      runs,
      subst (λ p. IsHeap h' (free m' p) (bs ++ (block z false ∷ []))) place
          (subst (IsHeap h' (free m' (h'.first + span bs + chunk_size)))
            (release-last size z bs ends room) again),
      made.counted,
      λ b d.
          subst (λ p. load8 (free m' p) b ≡ load8 m b) place
            (elim d [
              | inl lo ↦ spares b (inl (omega (arith, made.same_first))) ∙ made.below b lo
              | inr at ↦
                  let same =
                    subst (λ a. IsData a (bs ++ (block size false ∷ left ∷ [])) b)
                      (sym made.same_first) (IsData-last h.first z size b bs (left ∷ []) at) in
                  spares b (inr same) ∙ made.kept b at
            ]),
    )
