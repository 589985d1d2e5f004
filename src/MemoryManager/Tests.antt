-- ===== src/MemoryManager/Tests.antt =====
-- Runs of the page allocator on a bitmap of two words, at address 0, whose blocks 0 and 2 are in use.
use pros.Prelude.{
  map, inl, some, ℕ_discrete, ap, ◌∙◌, ◌≤◌, List, [], ◌∷◌, ltb, ℕ, ◌+◌, ◌*◌, ◌/◌, ◌≡◌, ◌≢◌, refl,
  arith, true, false, ◌==◌, if◌then◌else◌,
}
use pros.Memory.{Mem, load8, load32, store8, store32}
use pros.MemoryManager.{
  MemoryManager, block_size, null, test_bit, get_free_block_count, first_free_physical_pages_bits,
  get_free_physical_page, free_page,
}
use pros.MemoryManager.Search.{Finds, first_free-Finds}
use pros.MemoryManager.BootMap.{mmap_length, mmap_addr, read_entry, init}
use pros.MemoryManager.Layout.{Sized, HasEntries, init-init_vmm}
use pros.Paging.{init_vmm}
use pros.MemoryManager.Init.{add_lengths, MmapEntry, init_pmm, fill, claimed, init_pmm-claimed}
use pros.MemoryManager.Alloc.{
  IsAllocated, get_free_physical_page-IsAllocated, get_free_physical_page-finds,
  free_page-get_free_physical_page,
}

abbrev bitmap : Mem
bitmap a = if a == 0 then 5 else 0

abbrev manager : MemoryManager
manager = record {
  mem = bitmap;
  memory_size = 64 * 4096;
  used_blocks = 2;
  max_blocks = 64;
  memory_map = 0;
  current_page_directory = 0;
}

-- The lowest two free blocks in a row are 3 and 4.
get_free_physical_page-manager : (get_free_physical_page manager 2).0 ≡ 3 * block_size
unfolding get_free_physical_page get_free_block_count first_free_physical_pages_bits load32 load8
get_free_physical_page-manager = refl

get_free_physical_page-ne_null : (get_free_physical_page manager 2).0 ≢ null
get_free_physical_page-ne_null = omega (arith, get_free_physical_page-manager)

first_free-Finds_example :
    Finds manager 2 0 (64 * 4096 / 32 / 4096 * 32) (first_free_physical_pages_bits manager 2)
first_free-Finds_example = first_free-Finds manager 2 (omega arith)

get_free_physical_page-IsAllocated_example :
    (frame : ℕ) × ((get_free_physical_page manager 2).0 ≡ frame * block_size)
    × IsAllocated manager (get_free_physical_page manager 2).1 2 frame
get_free_physical_page-IsAllocated_example =
    get_free_physical_page-IsAllocated manager 2 (omega arith) (omega arith)
      get_free_physical_page-ne_null

free_page-get_free_physical_page_example :
    let (ptr, taken) = get_free_physical_page manager 2 in
    let freed = free_page taken ptr 2 in
    ((j : ℕ) → test_bit freed j ≡ test_bit manager j) × (freed.used_blocks ≡ 2)
free_page-get_free_physical_page_example =
    free_page-get_free_physical_page manager 2 (omega arith) (omega arith) (omega arith)
      (omega arith) get_free_physical_page-ne_null

-- 4 MB, the last of them free.
abbrev entries : List MmapEntry
entries =
    record { addr_low = 0; len_low = 0x300000; kind = 2 }
    ∷ record { addr_low = 0x300000; len_low = 0x100000; kind = 1 }
    ∷ []

abbrev machine : MemoryManager
machine = record manager { memory_size = 0x400000 }

init_pmm-claimed_example :
    test_bit (init_pmm machine 0x10000 entries) 800
    ≡ (if ltb 800 512 then true else claimed entries 800 (test_bit (fill machine 0x10000) 800))
init_pmm-claimed_example = init_pmm-claimed machine 0x10000 entries 800

-- Blocks 3 and 4 are free.
manager-bits : (test_bit manager 3 ≡ false) × (test_bit manager 4 ≡ false)
unfolding test_bit load32 load8
manager-bits = (refl, refl)

get_free_block_count-manager : get_free_block_count manager ≢ 0
unfolding get_free_block_count
get_free_block_count-manager e = omega arith

get_free_physical_page-finds_example :
    (frame : ℕ) × (frame ≤ 3)
    × ((get_free_physical_page manager 2).0 ≡ frame * block_size)
    × IsAllocated manager (get_free_physical_page manager 2).1 2 frame
get_free_physical_page-finds_example =
    get_free_physical_page-finds manager 2 3 (omega arith) (omega arith)
      get_free_block_count-manager (omega arith)
      (λ k h. elim (ℕ_discrete k 0) [
        | yes first ↦ ap (test_bit manager) (omega arith) ∙ manager-bits.0
        | no second ↦ ap (test_bit manager) (omega arith) ∙ manager-bits.1
      ])

-- The structure of the boot loader at 3 GB + 0x8000, and its memory map of two entries at 3 GB + 0x9000.
abbrev put_entry : Mem → (p addr_low len_low kind : ℕ) → Mem
put_entry m p addr_low len_low kind =
    store32 (store32 (store32 (store32 m p 20) (p + 4) addr_low) (p + 12) len_low) (p + 20) kind

abbrev boot_memory : Mem
boot_memory =
    put_entry
      (put_entry (store32 (store32 (λ a. 0) 0xC000802C 48) 0xC0008030 0x9000) 0xC0009000 0 0x9F000
        1)
      0xC0009018 0x100000 0x100000 1

abbrev boot_machine : MemoryManager
boot_machine = record manager { mem = boot_memory; memory_size = 0 }

abbrev boot_map : List Sized
boot_map =
    record { size = 20; entry = record { addr_low = 0; len_low = 0x9F000; kind = 1 } }
    ∷ record { size = 20; entry = record { addr_low = 0x100000; len_low = 0x100000; kind = 1 } }
    ∷ []

boot_map-at : mmap_addr boot_memory 0xC0008000 ≡ 0x9000
unfolding mmap_addr load32 load8 store32 store8
boot_map-at = refl

boot_map-length : mmap_length boot_memory 0xC0008000 ≡ 48
unfolding mmap_length load32 load8 store32 store8
boot_map-length = refl

boot_map-HasEntries : HasEntries boot_memory 0xC0009000 boot_map
unfolding read_entry load32 load8 store32 store8
boot_map-HasEntries = (refl, omega arith, refl, (refl, omega arith, refl, tt))

init-init_vmm_example :
    init 3 boot_machine 0xC0100000 0x8000
    ≡ some (
        init_vmm (
          init_pmm
            (record boot_machine {
              memory_size = add_lengths 0 (map (λ (s : Sized). s.entry) boot_map);
            })
            0xC0100000
            (map (λ (s : Sized). s.entry) boot_map)))
init-init_vmm_example =
    init-init_vmm 3 boot_machine 0xC0100000 0x8000 boot_map (omega arith) (omega arith)
      boot_map-length (omega (arith, boot_map-at)) (λ b lo hi. inl (omega (arith, boot_map-at)))
      (rw boot_map-at boot_map-HasEntries)
