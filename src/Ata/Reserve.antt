-- ===== src/Ata/Reserve.antt =====
-- A heap from which `readSector` can take a number of buffers.
use mathlib.Core.Path.{subst}
use pros.Prelude.{
  ℕ, suc, ◌+◌, ◌-◌, ◌*◌, ◌≤◌, ◌<◌, ◌≡◌, ◌⊎◌, arith, ◌∙◌, true, false, List, [], ◌∷◌, ◌++◌, none,
  some,
}
use pros.Memory.{Mem, load8}
use pros.Heap.{Heap, chunk_size, malloc}
use pros.Heap.Blocks.{Block, block, span, find_block, IsHeap}
use pros.Heap.Carve.{Chain-ext}
use pros.Heap.Malloc.{malloc-IsMalloc}
use pros.Heap.Write.{IsHeap-written}
use pros.Heap.Last.{
  find_block-last, allocate-last, HasRoom-last, find_block-used, span-append, append_assoc,
}
use pros.Ata.{sector_size}

-- The heap ends in a free block, the only one that fits, with room for `n` buffers and their headers,
-- and the test of the total lets them pass.
pub record HasReserve (h : Heap) (m : Mem) (n : ℕ) : Type 0 where
  pub blocks : List Block
  pub rest : ℕ
  pub heap : IsHeap h m (blocks ++ (block rest false ∷ []))
  pub full : find_block sector_size blocks ≡ none
  pub room : n * (sector_size + chunk_size) < rest
  pub count : h.used_memory + n * (sector_size + chunk_size) < h.memory_size

-- Only the bytes of the heap matter.
pub HasReserve-ext :
    (h : Heap) (m m' : Mem) (n : ℕ)
    → ((b : ℕ) → h.first ≤ b → load8 m' b ≡ load8 m b)
    → HasReserve h m n
    → HasReserve h m' n
HasReserve-ext h m m' n same r =
    let v = r.heap in
    record {
      blocks = r.blocks;
      rest = r.rest;
      heap = record {
        ne_null = v.ne_null;
        ne_nil = v.ne_nil;
        chain = Chain-ext m m' _ h.first _ (λ b lo hi. same b lo) v.chain;
        fills = v.fills;
        fits = v.fits;
        counts = v.counts;
        count_fits = v.count_fits;
      };
      full = r.full;
      room = r.room;
      count = r.count;
    }

-- A buffer at `ptr`: whatever is written to it, the heap keeps the other buffers in reserve.
pub record IsTaken (h : Heap) (m : Mem) (n ptr : ℕ) (h' : Heap) (m' : Mem) : Type 0 where
  pub above : h.first ≤ ptr
  pub same_first : h'.first ≡ h.first
  pub below : (b : ℕ) → b < h.first → load8 m' b ≡ load8 m b
  pub reserve :
      (m2 : Mem)
      → ((b : ℕ) → (b < ptr) ⊎ (ptr + sector_size ≤ b) → load8 m2 b ≡ load8 m' b)
      → HasReserve h' m2 n

pub malloc-IsTaken :
    (h : Heap) (m : Mem) (n : ℕ)
    → HasReserve h m (suc n)
    → (ptr : ℕ) × (h' : Heap) × (m' : Mem) × (malloc h m sector_size ≡ some (ptr, h', m'))
      × IsTaken h m n ptr h' m'
malloc-IsTaken h m n r =
    let bs = r.blocks in
    let z = r.rest in
    let v = r.heap in
    let room : sector_size + chunk_size < z = omega (arith, r.room) in
    let small : sector_size < z = omega arith in
    let found = find_block-last sector_size z bs r.full small in
    let has_room = HasRoom-last sector_size z bs r.full room in
    let (ptr, h', m', runs, made) =
      malloc-IsMalloc h m (bs ++ (block z false ∷ [])) sector_size (span bs) v
        (omega (arith, r.count)) has_room found in
    let left = block (z - chunk_size - sector_size) false in
    let shape =
      allocate-last sector_size z bs r.full small ∙ append_assoc bs (block sector_size true) left in
    (
      ptr,
      h',
      m',
      runs,
      record {
        above = omega (arith, made.points);
        same_first = made.same_first;
        below = made.below;
        reserve = λ m2 same.
            let heap : IsHeap h' m2 ((bs ++ (block sector_size true ∷ [])) ++ (left ∷ [])) =
              subst (IsHeap h' m2) shape (
                IsHeap-written h h' m' m2 sector_size (span bs) (bs ++ (block z false ∷ []))
                  has_room found made.same_first (λ b out. same b (omega (arith, made.points)))
                  made.heap) in
            record {
              blocks = bs ++ (block sector_size true ∷ []);
              rest = z - chunk_size - sector_size;
              heap = heap;
              full = find_block-used sector_size sector_size bs r.full;
              room = omega (arith, r.room);
              count = omega (
                arith,
                r.count,
                made.counted,
                heap.fills,
                v.fills,
                span-append bs (block z false ∷ []),
                span-append (bs ++ (block sector_size true ∷ [])) (left ∷ []),
                span-append bs (block sector_size true ∷ []),
              );
            };
      },
    )
