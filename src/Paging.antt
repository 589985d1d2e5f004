-- ===== src/Paging.antt =====
-- Paging, Kernel/src/MM/VMM.cpp and its macros and structures in
-- Kernel/include/MM/MemoryManager.hpp, over the state of `MemoryManager`. Memory is indexed by the
-- virtual addresses that the code uses: a physical address lies 3 GB below the one it is reached at,
-- which is for the first 4 MB only: no function here faults, and the theorems on `initVMM` ask for tables
-- there.
pub mod Entry
pub mod Walk
pub mod Mapped
pub mod Fresh
pub mod Created
pub mod Identity
pub mod Kernel
pub mod Keeps
pub mod Frames
pub mod Pages
pub mod Ready
pub mod Grown
pub mod Loaded
pub mod Init
pub mod Boot
mod Tests
use pros.Prelude.{
  ℕ, zero, suc, ◌+◌, ◌-◌, ◌*◌, ◌/◌, ◌%◌, ◌^◌, Bool, not, ◌==◌, if◌then◌else◌, u32, sub32, bit_and,
  bit_or, ◌>>>◌,
}
use pros.Memory.{Mem, load32, store32}
use pros.CString.{memset}
use pros.MemoryManager.{MemoryManager, get_free_physical_page}

abbrev pub virtual_base : ℕ
virtual_base = 0xC0000000

abbrev pub phys_2_virt : ℕ → ℕ
phys_2_virt x = u32 (x + virtual_base)

abbrev pub virt_2_phys : ℕ → ℕ
virt_2_phys x = sub32 x virtual_base

abbrev pub page_size : ℕ
page_size = 4096

abbrev pub pages_per_table : ℕ
pages_per_table = 1024

unfoldable pub page_directory_index : ℕ → ℕ
page_directory_index x = bit_and (x >>> 22) 0x3FF

unfoldable pub page_table_index : ℕ → ℕ
page_table_index x = bit_and (x >>> 12) 0x3FF

-- `PAGE_GET_PHYSICAL_ADDRESS`, of the entry and not of its address.
unfoldable pub get_physical_address : ℕ → ℕ
get_physical_address entry = bit_and entry (2 ^ 32 - 1 - 0xFFF)

unfoldable pub get_frame_address : ℕ → ℕ
get_frame_address x = bit_and x 0xFFFFF000 >>> 12

-- The fields of `PageTableEntry` and `PageDirectoryEntry` that the code uses, as parts of a word:
-- `present` is bit 0, `write` is bit 1 and `frame` are the bits from 12 on, in both structures.
unfoldable pub present : ℕ → Bool
present entry = not (entry % 2 == 0)

unfoldable pub set_present : ℕ → ℕ
set_present entry = bit_or entry 1

unfoldable pub set_write : ℕ → ℕ
set_write entry = bit_or entry 2

unfoldable pub set_frame : (entry frame : ℕ) → ℕ
set_frame entry frame = frame % 2 ^ 20 * 2 ^ 12 + entry % 2 ^ 12

-- `entries[i]` of a directory or a table.
abbrev pub entry_at : (table i : ℕ) → ℕ
entry_at table i = table + i * 4

-- The three assignments to the fields of the entry at an address.
unfoldable pub fill_entry : Mem → (entry address : ℕ) → Mem
fill_entry m entry address =
    let m = store32 m entry (set_present (load32 m entry)) in
    let m = store32 m entry (set_write (load32 m entry)) in
    store32 m entry (set_frame (load32 m entry) (get_frame_address address))

-- The branch of `mapPage` for a directory entry that is not present.
unfoldable pub add_table : MemoryManager → (entry : ℕ) → MemoryManager
add_table mm entry =
    let (page, mm) = get_free_physical_page mm 1 in
    let table = phys_2_virt page in
    let m = memset mm.mem table 0 page_size in
    record mm { mem = fill_entry m entry (virt_2_phys table) }

-- What `mapPage` does to memory once the directory entry is present.
unfoldable pub map_entry : Mem → (entry phys virt : ℕ) → Mem
map_entry m entry phys virt =
    let table = get_physical_address (load32 m entry) in
    fill_entry m (phys_2_virt (entry_at table (page_table_index virt))) phys

unfoldable pub map_page : MemoryManager → (phys virt : ℕ) → MemoryManager
map_page mm phys virt =
    let entry = entry_at mm.current_page_directory (page_directory_index virt) in
    let mm = if present (load32 mm.mem entry) then mm else add_table mm entry in
    record mm { mem = map_entry mm.mem entry phys virt }

-- The value that goes to cr3, and the new state.
unfoldable pub set_page_directory : MemoryManager → (page_directory : ℕ) → ℕ × MemoryManager
set_page_directory mm page_directory =
    (virt_2_phys page_directory, record mm { current_page_directory = page_directory })

-- The first loop of `initVMM`, `left` rounds from round `i` on.
unfoldable pub map_kernel : Mem → (table left i : ℕ) → Mem
map_kernel m table zero i = m
map_kernel m table (suc left) i =
    let page = set_frame (set_write (set_present 0)) (get_frame_address (i * page_size)) in
    let m = store32 m (entry_at table (page_table_index (virtual_base + i * page_size))) page in
    map_kernel m table left (i + 1)

-- The second loop, with the page that the next round maps.
unfoldable pub map_heap : MemoryManager → (page left virt : ℕ) → MemoryManager
map_heap mm page zero virt = mm
map_heap mm page (suc left) virt =
    let mm = map_page mm page virt in
    let (next, mm) = get_free_physical_page mm 1 in map_heap mm next left (virt + page_size)

abbrev pub kernel_heap_start : ℕ
kernel_heap_start = 0xC0400000

abbrev pub kernel_heap_size : ℕ
kernel_heap_size = 1024 * 1024

-- `initVMM` up to the call of `setPageDirectory`: the directory and the state.
unfoldable pub build_directory : MemoryManager → ℕ × MemoryManager
build_directory mm =
    let (page, mm) = get_free_physical_page mm 1 in
    let table = phys_2_virt page in
    let mm = record mm { mem = memset mm.mem table 0 page_size } in
    let (page, mm) = get_free_physical_page mm 1 in
    let dir = phys_2_virt page in
    let m = memset mm.mem dir 0 page_size in
    let m = map_kernel m table pages_per_table 0 in
    let m = fill_entry m (entry_at dir (page_directory_index virtual_base)) (virt_2_phys table) in
    (dir, record mm { mem = m })

-- `initVMM`: the value in cr3, and the state.
unfoldable pub init_vmm : MemoryManager → ℕ × MemoryManager
init_vmm mm =
    let (dir, mm) = build_directory mm in
    let (cr3, mm) = set_page_directory mm dir in
    let (page, mm) = get_free_physical_page mm 1 in
    (cr3, map_heap mm page (kernel_heap_size / page_size) kernel_heap_start)
