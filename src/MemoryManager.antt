-- ===== src/MemoryManager.antt =====
-- The physical page allocator, Kernel/src/MM/PMM.cpp, over the state of `MemoryManager`
-- (Kernel/include/MM/MemoryManager.hpp). The bitmap lies in memory, one bit for each block of 4096
-- bytes, set while the block is in use. Bit numbers stay below 2 ^ 21, since they are addresses
-- divided by the block size, so that only the counter is written with its wrap-around.
pub mod Bitmap
pub mod Region
pub mod Search
pub mod Alloc
pub mod Kept
pub mod Supply
pub mod Counted
pub mod Init
pub mod BootMap
pub mod Layout
mod Tests
use pros.Prelude.{
  ℕ, zero, suc, ◌+◌, ◌-◌, ◌*◌, ◌/◌, ◌%◌, ◌^◌, Bool, true, false, not, Option, none, some, ◌==◌,
  if◌then◌else◌, u32, sub32, bit_and, bit_or,
}
use pros.Memory.{Mem, load32, store32}

-- `memoryMap` is the address of the bitmap, and `mem` the memory that it lies in.
pub record MemoryManager : Type 0 where
  pub mem : Mem
  pub memory_size : ℕ
  pub used_blocks : ℕ
  pub max_blocks : ℕ
  pub memory_map : ℕ
  pub current_page_directory : ℕ

abbrev pub block_size : ℕ
block_size = 4096

-- `nullptr`
abbrev pub null : ℕ
null = 0

-- `memoryMap[i]`
abbrev pub word : MemoryManager → ℕ → ℕ
word mm i = load32 mm.mem (mm.memory_map + i * 4)

pub set_bit : MemoryManager → ℕ → MemoryManager
set_bit mm bit = record mm {
  mem =
      store32 mm.mem (mm.memory_map + bit / 32 * 4) (bit_or (word mm (bit / 32)) (2 ^ (bit % 32)));
}

pub unset_bit : MemoryManager → ℕ → MemoryManager
unset_bit mm bit = record mm {
  mem =
      store32 mm.mem (mm.memory_map + bit / 32 * 4)
        (bit_and (word mm (bit / 32)) (2 ^ 32 - 1 - 2 ^ (bit % 32)));
}

unfoldable pub test_bit : MemoryManager → ℕ → Bool
test_bit mm bit = not (bit_and (word mm (bit / 32)) (2 ^ (bit % 32)) == 0)

-- The loop of `setRegionUsed`: note that it counts the blocks down.
pub use_blocks : MemoryManager → ℕ → ℕ → MemoryManager
use_blocks mm base zero = mm
use_blocks mm base (suc blocks) =
    let mm' = set_bit mm base in
    use_blocks (record mm' { used_blocks = sub32 mm'.used_blocks 1 }) (base + 1) blocks

pub set_region_used : MemoryManager → ℕ → ℕ → MemoryManager
unfolding use_blocks set_bit
set_region_used mm start size = set_bit (use_blocks mm (start / block_size) (size / block_size)) 0

-- The loop of `setRegionFree`.
pub release_blocks : MemoryManager → ℕ → ℕ → MemoryManager
release_blocks mm base zero = mm
release_blocks mm base (suc blocks) =
    let mm' = unset_bit mm base in
    release_blocks (record mm' { used_blocks = u32 (mm'.used_blocks + 1) }) (base + 1) blocks

pub set_region_free : MemoryManager → ℕ → ℕ → MemoryManager
unfolding release_blocks unset_bit
set_region_free mm start size = release_blocks mm (start / block_size) (size / block_size)

unfoldable pub get_free_block_count : MemoryManager → ℕ
get_free_block_count mm = sub32 mm.max_blocks mm.used_blocks

-- The loop over `k` of `firstFreePhysicalPagesBits`: whether it returns `currentBit`.
pub check_run : MemoryManager → (bit size left k free : ℕ) → Bool
check_run mm bit size zero k free = false
check_run mm bit size (suc left) k free =
    let free' = if test_bit mm (bit + k) then free else free + 1 in
    elim (free' == size) [ true ↦ true | false ↦ check_run mm bit size left (k + 1) free' ]

-- The loop over `j`, within word `i`.
pub scan_word : MemoryManager → (size i left j : ℕ) → Option ℕ
scan_word mm size i zero j = none
scan_word mm size i (suc left) j =
    let rest = scan_word mm size i left (j + 1) in
    if bit_and (word mm i) (2 ^ j) == 0
    then (if check_run mm (i * 32 + j) size size 0 0 then some (i * 32 + j) else rest)
    else rest

-- The loop over `i`.
pub scan_words : MemoryManager → (size left i : ℕ) → Option ℕ
scan_words mm size zero i = none
scan_words mm size (suc left) i =
    let rest = scan_words mm size left (i + 1) in
    if word mm i == 2 ^ 32 - 1
    then rest
    else elim (scan_word mm size i 32 0) [ some bit ↦ some bit | none ↦ rest ]

-- `none` is the -1 of the code.
unfoldable pub first_free_physical_pages_bits : MemoryManager → ℕ → Option ℕ
unfolding scan_words scan_word check_run test_bit
first_free_physical_pages_bits mm size =
    if size == 0 then none else scan_words mm size (mm.memory_size / 32 / 4096) 0

-- `for (u32 i = 0; i < size; i++) setBit(frame + i);`
pub set_bits : MemoryManager → (frame left i : ℕ) → MemoryManager
set_bits mm frame zero i = mm
set_bits mm frame (suc left) i = set_bits (set_bit mm (frame + i)) frame left (i + 1)

pub unset_bits : MemoryManager → (frame left i : ℕ) → MemoryManager
unset_bits mm frame zero i = mm
unset_bits mm frame (suc left) i = unset_bits (unset_bit mm (frame + i)) frame left (i + 1)

-- The physical address of the pages, or `nullptr`, and the new state.
unfoldable pub get_free_physical_page : MemoryManager → ℕ → ℕ × MemoryManager
get_free_physical_page mm size =
    if get_free_block_count mm == 0
    then (null, mm)
    else elim (first_free_physical_pages_bits mm size) [
      | none ↦ (null, mm)
      | some frame ↦
          let mm' = set_bits mm frame size 0 in
          (u32 (frame * block_size), record mm' { used_blocks = u32 (mm'.used_blocks + size) })
    ]

pub free_page : MemoryManager → (ptr size : ℕ) → MemoryManager
unfolding unset_bits unset_bit
free_page mm ptr size =
    let mm' = unset_bits mm (ptr / block_size) size 0 in
    record mm' { used_blocks = sub32 mm'.used_blocks size }
