-- ===== src/MemoryManager/Init.antt =====
-- The bitmap that `initPMM` (Kernel/src/MM/PMM.cpp) makes of the memory map of the boot loader, and
-- the memory size that `MemoryManager::init` (Kernel/src/MM/MemoryManager.cpp) takes from it. The
-- map is the list of its entries, in the order in which the loops visit them.
use pros.Prelude.{
  ℕ, sub32, ◌⊎◌, ℕ_discrete, zero, suc, ◌+◌, ◌*◌, ◌/◌, ◌^◌, ◌≤◌, ◌<◌, ◌≡◌, ◌≢◌, ◌∙◌, refl, arith,
  Bool, true, false, ◌||◌, List, [], ◌∷◌, ◌==◌, ltb, if◌then◌else◌, u32, ap, Bool-cases, inl, inr,
}
use pros.CString.{memset}
use pros.MemoryManager.{
  MemoryManager, block_size, null, test_bit, set_bit, unset_bit, use_blocks, release_blocks,
  set_region_used, set_region_free, get_free_physical_page,
}
use pros.MemoryManager.Region.{in_range, set_region_used-marks, set_region_free-marks}
use pros.MemoryManager.Alloc.{get_free_physical_page-IsAllocated}

-- The members of `multiboot_mmap_entry` that the code reads.
pub record MmapEntry : Type 0 where
  pub addr_low : ℕ
  pub len_low : ℕ
  pub kind : ℕ

abbrev pub memory_available : ℕ
memory_available = 1

-- `2_MB`
abbrev pub kernel_region : ℕ
kernel_region = 2 * 1024 * 1024

-- The sum in `MemoryManager::init`.
unfoldable pub add_lengths : (memory_size : ℕ) → List MmapEntry → ℕ
add_lengths memory_size [] = memory_size
add_lengths memory_size (e ∷ es) = add_lengths (u32 (memory_size + e.len_low)) es

-- The `switch`: every case but the first reserves the region.
unfoldable pub apply_entry : MemoryManager → MmapEntry → MemoryManager
apply_entry mm e =
    if e.kind == memory_available
    then set_region_free mm e.addr_low e.len_low
    else set_region_used mm e.addr_low e.len_low

unfoldable pub apply_entries : MemoryManager → List MmapEntry → MemoryManager
apply_entries mm [] = mm
apply_entries mm (e ∷ es) = apply_entries (apply_entry mm e) es

-- The state before the loop.
unfoldable pub fill : MemoryManager → (kernel_end : ℕ) → MemoryManager
fill mm kernel_end =
    let blocks = mm.memory_size / block_size in
    record mm {
      memory_map = kernel_end;
      max_blocks = blocks;
      used_blocks = blocks;
      mem = memset mm.mem kernel_end 0xF (blocks / 8);
    }

unfoldable pub init_pmm : MemoryManager → (kernel_end : ℕ) → List MmapEntry → MemoryManager
init_pmm mm kernel_end entries =
    set_region_used (apply_entries (fill mm kernel_end) entries) 0 kernel_region

-- Whether block `j` is in use, by the entries: the last one that covers it decides, and an entry that
-- reserves a region also reserves block 0.
unfoldable pub claimed : List MmapEntry → (j : ℕ) → Bool → Bool
claimed [] j old = old
claimed (e ∷ es) j old =
    let covers = in_range (e.addr_low / block_size) (e.len_low / block_size) j in
    claimed es j (
      if e.kind == memory_available
      then (if covers then false else old)
      else if (j == 0) || covers
      then true
      else old)

apply_entries-claimed :
    (mm : MemoryManager) (es : List MmapEntry) (j : ℕ)
    → test_bit (apply_entries mm es) j ≡ claimed es j (test_bit mm j)
unfolding apply_entries claimed apply_entry
apply_entries-claimed mm [] j = refl
apply_entries-claimed mm (e ∷ es) j =
    apply_entries-claimed (apply_entry mm e) es j
    ∙ ap (claimed es j) (elim (Bool-cases (e.kind == memory_available)) [
      | inl free ↦ rw free (set_region_free-marks mm e.addr_low e.len_low j)
      | inr used ↦ rw used (set_region_used-marks mm e.addr_low e.len_low j)
    ])

-- After `initPMM` the blocks of the first 2 MB are in use, and any other block is in use as the last
-- entry of the memory map that covers it says, or, if there is none, as the fill pattern says.
pub init_pmm-claimed :
    (mm : MemoryManager) (kernel_end : ℕ) (es : List MmapEntry) (j : ℕ)
    → test_bit (init_pmm mm kernel_end es) j
      ≡ (if ltb j 512 then true else claimed es j (test_bit (fill mm kernel_end) j))
unfolding init_pmm
init_pmm-claimed mm kernel_end es j = ground (
  arith,
  set_region_used-marks (apply_entries (fill mm kernel_end) es) 0 kernel_region j,
  apply_entries-claimed (fill mm kernel_end) es j,
)

memory_size-use_blocks :
    (mm : MemoryManager) (base blocks : ℕ)
    → (use_blocks mm base blocks).memory_size ≡ mm.memory_size
unfolding use_blocks set_bit
memory_size-use_blocks mm base zero = refl
memory_size-use_blocks mm base (suc blocks) =
    memory_size-use_blocks (record (set_bit mm base) { used_blocks = sub32 mm.used_blocks 1 })
      (base + 1) blocks

memory_size-release_blocks :
    (mm : MemoryManager) (base blocks : ℕ)
    → (release_blocks mm base blocks).memory_size ≡ mm.memory_size
unfolding release_blocks unset_bit
memory_size-release_blocks mm base zero = refl
memory_size-release_blocks mm base (suc blocks) =
    memory_size-release_blocks
      (record (unset_bit mm base) { used_blocks = u32 (mm.used_blocks + 1) }) (base + 1) blocks

memory_size-set_region_used :
    (mm : MemoryManager) (start size : ℕ)
    → (set_region_used mm start size).memory_size ≡ mm.memory_size
unfolding set_region_used set_bit
memory_size-set_region_used mm start size =
    memory_size-use_blocks mm (start / block_size) (size / block_size)

memory_size-apply_entries :
    (mm : MemoryManager) (es : List MmapEntry) → (apply_entries mm es).memory_size ≡ mm.memory_size
unfolding apply_entries apply_entry set_region_free
memory_size-apply_entries mm [] = refl
memory_size-apply_entries mm (e ∷ es) =
    memory_size-apply_entries (apply_entry mm e) es
    ∙ elim (Bool-cases (e.kind == memory_available)) [
      | inl free ↦
          rw free (memory_size-release_blocks mm (e.addr_low / block_size) (e.len_low / block_size))
      | inr used ↦ rw used (memory_size-set_region_used mm e.addr_low e.len_low)
    ]

pub memory_size-init_pmm :
    (mm : MemoryManager) (kernel_end : ℕ) (es : List MmapEntry)
    → (init_pmm mm kernel_end es).memory_size ≡ mm.memory_size
unfolding init_pmm fill
memory_size-init_pmm mm kernel_end es =
    memory_size-set_region_used (apply_entries (fill mm kernel_end) es) 0 kernel_region
    ∙ memory_size-apply_entries (fill mm kernel_end) es

allocated-above_kernel :
    (mm : MemoryManager) (kernel_end : ℕ) (es : List MmapEntry) (size : ℕ)
    → 0 < size
    → mm.memory_size < 2 ^ 32
    → (get_free_physical_page (init_pmm mm kernel_end es) size).0 ≢ null
    → kernel_region ≤ (get_free_physical_page (init_pmm mm kernel_end es) size).0
allocated-above_kernel mm kernel_end es size pos small got =
    let mm' = init_pmm mm kernel_end es in
    let (frame, at, v) =
      get_free_physical_page-IsAllocated mm' size pos
        (omega (arith, memory_size-init_pmm mm kernel_end es)) got in
    let free : test_bit mm' frame ≡ false =
      ap (test_bit mm') {x = frame} {y = frame + 0} (omega arith) ∙ v.was_free 0 pos in
    ground (arith, init_pmm-claimed mm kernel_end es frame)

-- For a positive size and a memory size of 32 bits: the first call of `getFreePhysicalPage` after
-- `initPMM` returns `nullptr` or an address at 2 MB or above.
pub init_pmm-above_kernel :
    (mm : MemoryManager) (kernel_end : ℕ) (es : List MmapEntry) (size : ℕ)
    → 0 < size
    → mm.memory_size < 2 ^ 32
    → ((get_free_physical_page (init_pmm mm kernel_end es) size).0 ≡ null)
      ⊎ (kernel_region ≤ (get_free_physical_page (init_pmm mm kernel_end es) size).0)
init_pmm-above_kernel mm kernel_end es size pos small =
    elim (ℕ_discrete (get_free_physical_page (init_pmm mm kernel_end es) size).0 null) [
      | yes e ↦ inl e
      | no ne ↦ inr (allocated-above_kernel mm kernel_end es size pos small ne)
    ]
