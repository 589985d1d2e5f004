-- ===== src/Paging/Tests.antt =====
-- A directory at 3 GB + 0x1000 with one table, at 3 GB + 0x2000, and a bitmap at address 0 that counts
-- the first three pages and page 5 as used.
use pros.Prelude.{
  ℕ, ◌/◌, ◌%◌, ◌≤◌, ◌<◌, ◌≢◌, ltb, ==_of_ne, ◌+◌, ◌*◌, ◌≡◌, ◌==◌, inr, refl, arith, if◌then◌else◌,
  true, ℕ_discrete, ◌∙◌,
}
use pros.Memory.{Mem, load8, load32}
use pros.MemoryManager.{
  MemoryManager, get_free_physical_page, get_free_block_count, first_free_physical_pages_bits,
  test_bit, block_size, word,
}
use pros.MemoryManager.Supply.{HasFree, frame_of}
use pros.MemoryManager.Kept.{get_free_physical_page-IsKept}
use pros.Paging.Boot.{IsFilled, IsFilled-IsBootable, IsFilled-IsHeapReady}
use pros.Bits.{bit_and-pow, bit_at-pow_ne, bit_at-zero}
use pros.Paging.Ready.{IsHeapReady}
use pros.Paging.Init.{IsLoaded, init_vmm-IsLoaded}
use pros.Paging.{virtual_base, init_vmm, phys_2_virt, map_page, map_heap}
use pros.Paging.Kernel.{directory, IsBootable}
use pros.Paging.Frames.{AreMapped}
use pros.Paging.Pages.{IsMappable, map_heap-AreMapped}
use pros.Paging.Walk.{directory_entry, IsPaged, IsMapped}
use pros.Paging.Mapped.{map_page-translate}
use pros.Paging.Fresh.{IsReserved, IsSpare}
use pros.Paging.Created.{map_page-creates}

-- The bytes 0x03 and 0x20 of the word 0x2003, in entry 1 of the directory.
abbrev memory : Mem
memory a = if a == 0 then 39 else if a == 0xC0001004 then 3 else if a == 0xC0001005 then 0x20 else 0

abbrev manager : MemoryManager
manager = record {
  mem = memory;
  memory_size = 64 * 4096;
  used_blocks = 4;
  max_blocks = 64;
  memory_map = 0;
  current_page_directory = 0xC0001000;
}

directory_entry-memory :
    (i : ℕ) → directory_entry memory 0xC0001000 i ≡ (if i == 1 then 0x2003 else 0)
unfolding load32 load8
directory_entry-memory i = ground arith

memory-IsPaged : IsPaged memory 0xC0001000
memory-IsPaged = record {
  aligned = refl;
  outside = λ i h p e. ground (arith, directory_entry-memory i);
  apart = λ i j hi hj ne p q e. ground (arith, directory_entry-memory i, directory_entry-memory j);
}

manager-used : (test_bit manager 1 ≡ true) × (test_bit manager 2 ≡ true)
unfolding test_bit load32 load8
manager-used = (refl, refl)

get_free_physical_page-manager : (get_free_physical_page manager 1).0 ≡ 3 * block_size
unfolding get_free_physical_page get_free_block_count first_free_physical_pages_bits load32 load8
get_free_physical_page-manager = refl

page-IsSpare :
    IsSpare memory
      (get_free_physical_page manager 1).1.mem
      0xC0001000
      (phys_2_virt (get_free_physical_page manager 1).0)
page-IsSpare = rw get_free_physical_page-manager (record {
  first =
      (get_free_physical_page-IsKept manager).bytes 0xC0003000 (inr (omega arith))
      ∙ unfold load8 in refl;
  behind = λ e. omega arith;
  behind_table = λ i h p e. ground (arith, directory_entry-memory i);
})

memory-IsReserved : IsReserved manager
memory-IsReserved = record {
  memory_size_fits = omega arith;
  directory_fits = omega arith;
  directory_used = manager-used.0;
  table_used = λ i h p. elim (ℕ_discrete i 1) [
    | yes one ↦ rw (one, directory_entry-memory 1) manager-used.1
    | no other ↦ absurd (ground (arith, directory_entry-memory i))
  ];
  guarded = record {
    directory_off = λ b h. inr (omega arith);
    table_off = λ i h p b hb. inr (ground (arith, directory_entry-memory i));
  };
}

map_page-translate_example : IsMapped manager (map_page manager 0x5000 0x403123) 0x5000 0x403123
map_page-translate_example =
    map_page-translate manager 0x5000 0x403123 memory-IsPaged (omega arith)
      (omega (arith, directory_entry-memory 1))

map_page-creates_example : IsMapped manager (map_page manager 0x5000 0x803123) 0x5000 0x803123
map_page-creates_example =
    map_page-creates manager 0x5000 0x803123 memory-IsPaged memory-IsReserved (omega arith)
      (omega (arith, directory_entry-memory 2)) (omega (arith, get_free_physical_page-manager))
      page-IsSpare

-- Table 1 of this directory takes pages.
memory-IsMappable : IsMappable manager 1
memory-IsMappable = record {
  paged = memory-IsPaged;
  guarded = memory-IsReserved.guarded;
  small = omega arith;
  there = omega (arith, directory_entry-memory 1);
}

-- Blocks 8 and 9 are free.
manager-HasFree : HasFree manager 2
unfolding test_bit load32 load8
manager-HasFree = record {
  block = λ k. 8 + k;
  inside = λ k h. omega arith;
  free = λ k h. elim (ℕ_discrete k 0) [
    | yes e ↦ rw e refl
    | no other ↦ (let one : k ≡ 1 = omega arith in rw one refl)
  ];
  different = λ j k lj lk ne. omega arith;
  zero_used = refl;
  count = omega arith;
  size_fits = omega arith;
}

page_5-used : test_bit manager (frame_of 0x5000) ≡ true
unfolding test_bit load32 load8
page_5-used = refl

map_heap-AreMapped_example :
    AreMapped manager (map_heap manager 0x5000 2 0x403000) 0x5000 2 0x403000
map_heap-AreMapped_example =
    map_heap-AreMapped manager 0x5000 2 0x403000 1 memory-IsMappable manager-HasFree page_5-used
      (omega arith) (omega arith) (omega arith)

-- A bitmap at 3 GB that counts page 0 as used, in memory that is zero otherwise.
abbrev boot : MemoryManager
boot = record {
  mem = λ a. if a == virtual_base then 1 else 0;
  memory_size = 1024 * 4096;
  used_blocks = 1;
  max_blocks = 1024;
  memory_map = virtual_base;
  current_page_directory = 0;
}

word-boot : (k : ℕ) → word boot k ≡ (if k == 0 then 1 else 0)
unfolding load32 load8
word-boot k = ground arith

bits_boot : (j : ℕ) → test_bit boot j ≡ ltb j 1
unfolding test_bit
bits_boot j = elim (ℕ_discrete (j / 32) 0) [
  | yes here ↦ elim (ℕ_discrete j 0) [
    | yes e ↦
        let first : j % 32 ≡ 0 = omega arith in rw (word-boot (j / 32), here, first) (ground arith)
    | no other ↦
        let ne : 0 ≢ j % 32 = omega arith in
        rw (word-boot (j / 32), here, bit_and-pow 1 (j % 32), bit_at-pow_ne 0 (j % 32) ne)
          (ground arith)
  ]
  | no there ↦
      rw (word-boot (j / 32), ==_of_ne _ _ there, bit_and-pow 0 (j % 32), bit_at-zero (j % 32))
        (ground arith)
]

boot-IsFilled : IsFilled boot 1
boot-IsFilled = record {
  size = refl;
  map_low = omega arith;
  start = omega arith;
  bits = λ j h. bits_boot j;
  count = omega arith;
}

zero_bytes :
    (b : ℕ) → virtual_base + 1 * 4096 ≤ b → b < virtual_base + 1024 * 4096 → load8 boot.mem b ≡ 0
unfolding load8
zero_bytes b lo hi = ground arith

boot-IsBootable : IsBootable boot
boot-IsBootable = IsFilled-IsBootable boot 1 boot-IsFilled (omega arith) (omega arith) zero_bytes

boot-IsHeapReady : IsHeapReady boot boot-IsBootable
unfolding boot-IsBootable
boot-IsHeapReady = IsFilled-IsHeapReady boot 1 boot-IsFilled (omega arith) (omega arith) zero_bytes

init_vmm-IsLoaded_example : IsLoaded boot (init_vmm boot) (directory boot)
init_vmm-IsLoaded_example = init_vmm-IsLoaded boot boot-IsBootable boot-IsHeapReady
