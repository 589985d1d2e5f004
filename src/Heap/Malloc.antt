-- ===== src/Heap/Malloc.antt =====
-- `malloc` on the list of blocks that the heap holds.
use mathlib.Core.Path.{sym}
use pros.Prelude.{
  ℕ, ◌+◌, ◌≤◌, ◌<◌, ◌≡◌, ◌≢◌, inl, inr, refl, arith, false, leb, u32, ◌∙◌, ap, ==_of_ne, Bool-cases,
  List, [], ◌∷◌, Option, none, some,
}
use pros.Memory.{Mem, load8}
use pros.Heap.{Heap, chunk_size, null, split_chunk, find_chunk, malloc}
use pros.Heap.Blocks.{Block, span, in_use, link, IsHeap, fits_in, find_block, allocate, HasRoom}
use pros.Heap.Search.{find_chunk-find_block}
use pros.Heap.Carve.{IsData}
use pros.Heap.Fit.{allocate-IsSplit, some-later}

span-allocate : (size : ℕ) (bs : List Block) → HasRoom size bs → span (allocate size bs) ≡ span bs
unfolding allocate
span-allocate size [] room = refl
span-allocate size (b ∷ bs) room = ground (arith, span-allocate size bs)

in_use-allocate :
    (size : ℕ) (bs : List Block) → in_use (allocate size bs) ≤ in_use bs + (chunk_size + size)
unfolding allocate
in_use-allocate size [] = omega arith
in_use-allocate size (b ∷ bs) = ground (arith, in_use-allocate size bs)

find_block-lt :
    (size d : ℕ) (bs : List Block) → find_block size bs ≡ some d → d + chunk_size + size < span bs
unfolding find_block
find_block-lt size d [] h = cc
find_block-lt size d (b ∷ bs) h = elim (Bool-cases (fits_in size b)) [
  | inl fit ↦ ground arith
  | inr full ↦
      let (e, found, sum) =
        some-later (chunk_size + b.size) d (find_block size bs) (rw full at h) in
      omega (arith, find_block-lt size e bs found)
]

pub link-ne_nil : (x : ℕ) (bs : List Block) → bs ≢ [] → link x bs ≡ x
link-ne_nil x [] h = absurd (h refl)
link-ne_nil x (b ∷ bs) h = refl

allocate-ne_nil : (size : ℕ) (bs : List Block) → bs ≢ [] → allocate size bs ≢ []
unfolding allocate
allocate-ne_nil size [] h = h
allocate-ne_nil size (b ∷ bs) h = elim (Bool-cases (fits_in size b)) [
  | inl fit ↦ rw fit (λ e. cc)
  | inr full ↦ rw full (λ e. cc)
]

-- Where the search finds a block, the new heap, and the address returned.
pub record IsMalloc (h : Heap) (m : Mem) (bs : List Block) (size d ptr : ℕ) (h' : Heap) (m' : Mem)
    : Type 0 where
  pub points : ptr ≡ h.first + d + chunk_size
  pub same_first : h'.first ≡ h.first
  pub heap : IsHeap h' m' (allocate size bs)
  pub counted : h'.used_memory ≡ h.used_memory + size + chunk_size
  pub below : (y : ℕ) → y < h.first → load8 m' y ≡ load8 m y
  pub kept : (y : ℕ) → IsData h.first bs y → load8 m' y ≡ load8 m y

-- `malloc` on a well-formed heap, where the request passes the test of the total with no overflow
-- and the first free block that is larger than the request has room for a header and one byte more.
-- If first fit finds a block at distance `d`, then the call returns the address behind the header
-- there, the heap is well formed and holds the blocks of first fit, the request and its header are
-- counted as used, and no byte of an allocated block or below the heap has changed.
pub malloc-IsMalloc :
    (h : Heap) (m : Mem) (bs : List Block) (size d : ℕ)
    → IsHeap h m bs
    → h.used_memory + size + chunk_size < h.memory_size
    → HasRoom size bs
    → find_block size bs ≡ some d
    → (ptr : ℕ) × (h' : Heap) × (m' : Mem) × (malloc h m size ≡ some (ptr, h', m'))
      × IsMalloc h m bs size d ptr h' m'
unfolding malloc
malloc-IsMalloc h m bs size d v total room found =
    let r = h.first + d in
    let inside : d + chunk_size + size < h.memory_size =
      omega (arith, find_block-lt size d bs found, v.fills) in
    let first : link h.first bs ≡ h.first = link-ne_nil h.first bs v.ne_nil in
    let search : find_chunk m size (h.memory_size + 1) h.first ≡ some r =
      ap (find_chunk m size (h.memory_size + 1)) (sym first)
      ∙ find_chunk-find_block m null h.first size (h.memory_size + 1) bs (omega arith) (omega arith)
          v.chain
      ∙ ap (λ (o : Option ℕ). some (elim o as (λ _. ℕ) [ none ↦ null | some e ↦ h.first + e ]))
          found in
    let passes : leb h.memory_size (u32 (h.used_memory + size + chunk_size)) ≡ false =
      ground arith in
    let split =
      allocate-IsSplit m null h.first size d bs (omega arith) (omega arith) room found v.chain in
    (
      u32 (r + chunk_size),
      record h { used_memory = u32 (h.used_memory + size + chunk_size) },
      split_chunk m r size,
      rw (passes, search, ==_of_ne r null (omega arith)),
      record {
        points = omega arith;
        same_first = refl;
        heap = record {
          ne_null = v.ne_null;
          ne_nil = allocate-ne_nil size bs v.ne_nil;
          chain = split.chain;
          fills = span-allocate size bs room ∙ v.fills;
          fits = v.fits;
          counts = omega (arith, in_use-allocate size bs);
          count_fits = omega arith;
        };
        counted = omega arith;
        below = λ y lo. split.spares y (inl lo);
        kept = λ y data_at. split.spares y (inr data_at);
      },
    )
