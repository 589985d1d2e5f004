-- ===== src/MemoryManager/BootMap.antt =====
-- The memory map of the boot loader as it lies in memory, and `MemoryManager::init`
-- (Kernel/src/MM/MemoryManager.cpp), which reads it: its own loop, that of `initPMM`
-- (Kernel/src/MM/PMM.cpp), which writes the bitmap between its reads, and the call of `initVMM`.
use pros.Prelude.{ℕ, zero, suc, ◌+◌, Option, none, some, ltb, if◌then◌else◌, u32}
use pros.Memory.{Mem, load32}
use pros.MemoryManager.{MemoryManager, set_region_used}
use pros.MemoryManager.Init.{MmapEntry, kernel_region, apply_entry, fill}
use pros.Paging.{phys_2_virt, init_vmm}

-- `*entry`, and the step of the loops.
unfoldable pub read_entry : Mem → ℕ → MmapEntry
read_entry m entry = record {
  addr_low = load32 m (entry + 4);
  len_low = load32 m (entry + 12);
  kind = load32 m (entry + 20);
}

unfoldable pub next_entry : Mem → ℕ → ℕ
next_entry m entry = u32 (entry + load32 m entry + 4)

-- The loop of `init`, with fuel.
unfoldable pub sum_lengths : (fuel : ℕ) → Mem → (entry end memory_size : ℕ) → Option ℕ
sum_lengths zero m entry end memory_size = none
sum_lengths (suc fuel) m entry end memory_size =
    let rest =
      sum_lengths fuel m (next_entry m entry) end
        (u32 (memory_size + (read_entry m entry).len_low)) in
    if ltb entry end then rest else some memory_size

-- The loop of `initPMM`: it reads the memory that it writes.
unfoldable pub mark_entries : (fuel : ℕ) → MemoryManager → (entry end : ℕ) → Option MemoryManager
mark_entries zero mm entry end = none
mark_entries (suc fuel) mm entry end =
    let mm' = apply_entry mm (read_entry mm.mem entry) in
    let rest = mark_entries fuel mm' (next_entry mm'.mem entry) end in
    if ltb entry end then rest else some mm

-- `initPMM`, whose arguments are the address of the map and its size.
unfoldable pub init_pmm_at :
    (fuel : ℕ) → MemoryManager → (kernel_end grub_map size : ℕ) → Option MemoryManager
init_pmm_at fuel mm kernel_end grub_map size =
    elim (mark_entries fuel (fill mm kernel_end) grub_map (u32 (grub_map + size))) [
      | none ↦ none
      | some mm ↦ some (set_region_used mm 0 kernel_region)
    ]

-- `mbi->mmap_length` and `mbi->mmap_addr`
unfoldable pub mmap_length : Mem → (mbi : ℕ) → ℕ
mmap_length m mbi = load32 m (mbi + 44)

unfoldable pub mmap_addr : Mem → (mbi : ℕ) → ℕ
mmap_addr m mbi = load32 m (mbi + 48)

-- `init`: the value in cr3, and the state.
unfoldable pub init :
    (fuel : ℕ) → MemoryManager → (kernel_end phys_mbi : ℕ) → Option (ℕ × MemoryManager)
init fuel mm kernel_end phys_mbi =
    let mbi = phys_2_virt phys_mbi in
    let grub_map = phys_2_virt (mmap_addr mm.mem mbi) in
    let size = mmap_length mm.mem mbi in
    elim (sum_lengths fuel mm.mem grub_map (u32 (grub_map + size)) mm.memory_size) [
      | none ↦ none
      | some memory_size ↦
          elim (init_pmm_at fuel (record mm { memory_size = memory_size }) kernel_end grub_map
            size) [ none ↦ none | some mm ↦ some (init_vmm mm) ]
    ]
