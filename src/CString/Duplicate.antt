-- ===== src/CString/Duplicate.antt =====
-- `strdup`, a client of the kernel heap: `kmalloc` is `malloc` on the one object of class `KernelHeap`
-- (Kernel/src/MM/kmalloc.cpp).
use pros.Prelude.{
  ℕ, ◌+◌, ◌≤◌, ◌<◌, ◌≡◌, inr, arith, ◌∙◌, ap, [], ◌∷◌, List, Option, none, some, length,
}
use pros.Memory.{Mem, load8}
use pros.CString.{strlen, memcpy}
use pros.CString.Block.{memcpy-inside, memcpy-outside, Apart}
use pros.CString.Text.{IsString, strlen-length}
use pros.Heap.{Heap, chunk_size, malloc}
use pros.Heap.Blocks.{Block, IsHeap, find_block, allocate, HasRoom}
use pros.Heap.Malloc.{malloc-IsMalloc}
use pros.Heap.Write.{IsHeap-written}

-- The address of the copy, the heap and memory. The result of `kmalloc` is not tested for `nullptr`.
unfoldable pub strdup : (fuel : ℕ) → Heap → Mem → (src : ℕ) → Option (ℕ × Heap × Mem)
strdup fuel h m src = elim (strlen fuel m src) [
  | none ↦ none
  | some n ↦
      let len = n + 1 in
      elim (malloc h m len) [ none ↦ none | some (dst, h, m) ↦ some (dst, h, memcpy m dst src len) ]
]

-- A copy of the string `cs` in the block that first fit has taken, at distance `d`.
pub record IsDuplicated (h : Heap) (m : Mem) (bs : List Block) (cs : List ℕ) (d ptr : ℕ) (h' : Heap)
    (m' : Mem) : Type 0 where
  pub points : ptr ≡ h.first + d + chunk_size
  pub text : IsString m' ptr cs
  pub heap : IsHeap h' m' (allocate (length cs + 1) bs)
  pub counted : h'.used_memory ≡ h.used_memory + (length cs + 1) + chunk_size

-- The string is a string wherever its bytes are.
IsString-moved :
    (m m' : Mem) (p q : ℕ) (cs : List ℕ)
    → ((k : ℕ) → k < length cs + 1 → load8 m' (q + k) ≡ load8 m (p + k))
    → IsString m p cs
    → IsString m' q cs
IsString-moved m m' p q [] same s =
    ap (load8 m') (omega arith) ∙ same 0 (omega arith) ∙ ap (load8 m) (omega arith) ∙ s
IsString-moved m m' p q (c ∷ cs) same (at, ne, rest) = (
  ap (load8 m') (omega arith) ∙ same 0 (omega arith) ∙ ap (load8 m) (omega arith) ∙ at,
  ne,
  IsString-moved m m' (p + 1) (q + 1) cs
      (λ k h. ap (load8 m') (omega arith) ∙ same (k + 1) (omega arith) ∙ ap (load8 m) (omega arith))
      rest,
)

-- For a string below a well-formed heap that has room for its characters and the NUL in the sense of
-- `malloc`, and with more fuel than characters, `strdup` returns the address of a copy in the block
-- that first fit takes; the heap is well formed and holds the blocks of first fit, and the copy and
-- its header are counted as used.
pub strdup-IsDuplicated :
    (fuel : ℕ) (h : Heap) (m : Mem) (bs : List Block) (src d : ℕ) (cs : List ℕ)
    → IsHeap h m bs
    → length cs < fuel
    → IsString m src cs
    → src + (length cs + 1) ≤ h.first
    → h.used_memory + (length cs + 1) + chunk_size < h.memory_size
    → HasRoom (length cs + 1) bs
    → find_block (length cs + 1) bs ≡ some d
    → (ptr : ℕ) × (h' : Heap) × (m' : Mem) × (strdup fuel h m src ≡ some (ptr, h', m'))
      × IsDuplicated h m bs cs d ptr h' m'
unfolding strdup
strdup-IsDuplicated fuel h m bs src d cs v enough s below total room found =
    let len = length cs + 1 in
    let (ptr, h', m1, runs, got) = malloc-IsMalloc h m bs len d v total room found in
    let m' = memcpy m1 ptr src len in
    let apart : Apart ptr src len = inr (omega (arith, got.points)) in
    let copied : (k : ℕ) → k < len → load8 m' (ptr + k) ≡ load8 m (src + k) =
      λ k hk. memcpy-inside m1 ptr src len k apart hk ∙ got.below (src + k) (omega arith) in
    (
      ptr,
      h',
      m',
      rw (strlen-length fuel m src cs enough s, runs, strdup),
      record {
        points = got.points;
        text = IsString-moved m m' src ptr cs copied s;
        heap =
            IsHeap-written h h' m1 m' len d bs room found got.same_first
              (λ y out. memcpy-outside m1 ptr src len y apart (omega (arith, got.points))) got.heap;
        counted = got.counted;
      },
    )
