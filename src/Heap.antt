-- ===== src/Heap.antt =====
-- The kernel heap, Kernel/include/MM/Heap.hpp and Kernel/src/MM/Heap.cpp: a first-fit allocator over
-- a doubly linked list of chunk headers that lie in memory before the bytes that they describe.
pub mod Chunk
pub mod Blocks
pub mod Split
pub mod Search
pub mod Carve
pub mod Fit
pub mod Malloc
pub mod Write
pub mod Refuse
pub mod Free
pub mod Single
pub mod Joined
pub mod Last
pub mod Release
pub mod Released
pub mod Construct
mod Tests
use pros.Prelude.{
  ℕ, zero, suc, ◌+◌, ◌*◌, ◌^◌, Bool, true, false, not, ◌&&◌, Option, none, some, ◌==◌, ltb, leb,
  if◌then◌else◌, u32, sub32,
}
use pros.Memory.{Mem, load8, load32, store8, store32}
use pros.CString.{memset}

-- `struct MemoryChunk`, 20 bytes on the 32-bit target.
pub record MemoryChunk : Type 0 where
  pub next : ℕ
  pub prev : ℕ
  pub magic : ℕ
  pub allocated : Bool
  pub size : ℕ

-- `sizeof(MemoryChunk)`
abbrev pub chunk_size : ℕ
chunk_size = 20

abbrev pub heap_magic : ℕ
heap_magic = 0x2137DEAD

-- `nullptr`
abbrev pub null : ℕ
null = 0

-- `*chunk`, and a write to each of its fields.
unfoldable pub read_chunk : Mem → ℕ → MemoryChunk
read_chunk m c = record {
  next = load32 m c;
  prev = load32 m (c + 4);
  magic = load32 m (c + 8);
  allocated = not (load8 m (c + 12) == 0);
  size = load32 m (c + 16);
}

unfoldable pub set_next : Mem → ℕ → ℕ → Mem
set_next m c v = store32 m c v

unfoldable pub set_prev : Mem → ℕ → ℕ → Mem
set_prev m c v = store32 m (c + 4) v

unfoldable pub set_magic : Mem → ℕ → ℕ → Mem
set_magic m c v = store32 m (c + 8) v

unfoldable pub set_allocated : Mem → ℕ → Bool → Mem
set_allocated m c b = store8 m (c + 12) (if b then 1 else 0)

unfoldable pub set_size : Mem → ℕ → ℕ → Mem
set_size m c v = store32 m (c + 16) v

-- The members of `class Heap`; the object itself lies outside the memory that it manages.
pub record Heap : Type 0 where
  pub memory_size : ℕ
  pub used_memory : ℕ
  pub first : ℕ

-- The constructor.
unfoldable pub construct : Mem → (start size : ℕ) → Heap × Mem
construct m start size =
    if ltb size chunk_size
    then (record { memory_size = size; used_memory = 0; first = null }, m)
    else let m = set_allocated m start false in
      let m = set_prev m start null in
      let m = set_next m start null in
      let m = set_size m start (sub32 size chunk_size) in
      (record { memory_size = size; used_memory = 0; first = start }, set_magic m start heap_magic)

pub usage : Heap → ℕ
usage h = h.used_memory

-- The search of `malloc`, with fuel: `none` means that the fuel ran out, and `some null` that the
-- list ended. A wrong magic number is only logged.
unfoldable pub find_chunk : Mem → (size fuel chunk : ℕ) → Option ℕ
find_chunk m size zero chunk = none
find_chunk m size (suc fuel) chunk =
    let c = read_chunk m chunk in
    let rest = find_chunk m size fuel c.next in
    if chunk == null
    then some null
    else if ltb size c.size && not c.allocated
    then some chunk
    else rest

-- The new header `temp` that `malloc` writes behind the bytes taken from the chunk `result`.
unfoldable pub new_header : Mem → (result temp size : ℕ) → Mem
new_header m result temp size =
    let m = memset m temp 0 chunk_size in
    let m = set_prev m temp result in
    let m = set_next m temp (read_chunk m result).next in
    let m = set_allocated m temp false in
    let m = set_size m temp (sub32 (sub32 (read_chunk m result).size chunk_size) size) in
    set_magic m temp heap_magic

-- The chunk `result` gives its first `size` bytes, and the rest becomes a chunk of its own.
unfoldable pub split_chunk : Mem → (result size : ℕ) → Mem
split_chunk m result size =
    let temp = u32 (result + chunk_size + size) in
    let m = new_header m result temp size in
    let next = (read_chunk m temp).next in
    let m = if next == null then m else set_prev m next temp in
    let m = set_next m result temp in let m = set_allocated m result true in set_size m result size

-- The pointer that `malloc` returns, with the new state; `none` means that the search did not end.
-- The fuel is the size of the heap, which is more than the number of its chunks.
unfoldable pub malloc : Heap → Mem → ℕ → Option (ℕ × Heap × Mem)
malloc h m size =
    if leb h.memory_size (u32 (h.used_memory + size + chunk_size))
    then some (null, h, m)
    else elim (find_chunk m size (h.memory_size + 1) h.first) [
      | none ↦ none
      | some result ↦
          if result == null
          then some (null, h, m)
          else some (
            u32 (result + chunk_size),
            record h { used_memory = u32 (h.used_memory + size + chunk_size) },
            split_chunk m result size,
          )
    ]

-- The first half of `free`: the chunk joins the one before it. The chunk to go on with, and memory.
unfoldable pub join_prev : Mem → ℕ → ℕ × Mem
join_prev m chunk =
    let prev = (read_chunk m chunk).prev in
    if not (prev == null) && (read_chunk m prev).allocated
    then (let m = set_next m prev (read_chunk m chunk).next in
        let prev = (read_chunk m chunk).prev in
        let grown = (read_chunk m prev).size + ((read_chunk m chunk).size + chunk_size) in
        let m = set_size m prev (u32 grown) in
        let c = read_chunk m chunk in
        let m = if c.next == null then m else set_prev m c.next c.prev in
        ((read_chunk m chunk).prev, m))
    else (chunk, m)

-- The second half: the chunk after it joins this one.
unfoldable pub join_next : Mem → ℕ → Mem
join_next m chunk =
    let next = (read_chunk m chunk).next in
    if not (next == null) && not (read_chunk m next).allocated
    then (let grown = (read_chunk m chunk).size + ((read_chunk m next).size + chunk_size) in
        let m = set_size m chunk (u32 grown) in
        let m = set_next m chunk (read_chunk m (read_chunk m chunk).next).next in
        let c = read_chunk m chunk in if c.next == null then m else set_prev m c.next c.prev)
    else m

-- `free` does not touch the members of `Heap`.
unfoldable pub free : Mem → ℕ → Mem
free m ptr =
    let chunk = sub32 ptr chunk_size in
    let (chunk', m') = join_prev (set_allocated m chunk false) chunk in join_next m' chunk'
