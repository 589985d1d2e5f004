-- ===== src/Kernel.antt =====
-- Kernel/src/main.cpp: `strcmp2`, and `kmain` with its two stages, the set-up of the processor and of
-- memory, and the files that it mounts and reads.
pub mod Strings
pub mod Mounts
pub mod Boot
pub mod Loaded
pub mod Booted
mod FreeMap
mod Tests
use pros.Prelude.{
  ℕ, zero, suc, ◌+◌, ◌/◌, Bool, true, false, not, ◌==◌, if◌then◌else◌, Option, none, some, List, [],
  ◌∷◌,
}
use pros.Memory.{Mem, load8}
use pros.Vfs.{Name, VfsNode, Tree, init, mount, open_file}
use pros.Vfs as Vfs
use pros.Ata.{Ata, Sectors, World, identify, driver}
use pros.Ata as Driver
use pros.Heap.{Heap, construct}
use pros.Paging.{page_size, kernel_heap_start, kernel_heap_size}
use pros.Paging.Walk.{translate}
use pros.Partition.{mbr_size}
use pros.Port.{Output, Bus}
use pros.Vga.{Vga, clear}
use pros.Gdt.{GdtPointer}
use pros.Gdt as Gdt
use pros.Idt.{IdtPointer, remap}
use pros.Idt as Idt
use pros.MemoryManager.{MemoryManager}
use pros.MemoryManager.BootMap as BootMap

-- The loop of `strcmp2` at index `i`, with fuel.
unfoldable pub strcmp2_from : (fuel : ℕ) → Mem → (dst src i : ℕ) → Option ℕ
strcmp2_from zero m dst src i = none
strcmp2_from (suc fuel) m dst src i =
    let rest = strcmp2_from fuel m dst src (i + 1) in
    if load8 m (dst + i) == load8 m (src + i)
    then (if load8 m (src + i) == 0 then some 0 else rest)
    else some 1

unfoldable pub strcmp2 : (fuel : ℕ) → Mem → (dst src : ℕ) → Option ℕ
strcmp2 fuel m dst src = strcmp2_from fuel m dst src 0

-- "/dev/hda" and the other paths, without their NUL.
abbrev pub hda_path : List ℕ
hda_path = b'/' ∷ b'd' ∷ b'e' ∷ b'v' ∷ b'/' ∷ b'h' ∷ b'd' ∷ b'a' ∷ []

abbrev pub root_path : List ℕ
root_path = b'/' ∷ []

abbrev pub test_path : List ℕ
test_path = b'/' ∷ b't' ∷ b'e' ∷ b's' ∷ b't' ∷ []

abbrev pub asd_path : List ℕ
asd_path = b'/' ∷ b'a' ∷ b's' ∷ b'd' ∷ []

abbrev pub another_path : List ℕ
another_path =
    b'/' ∷ b't' ∷ b'e' ∷ b's' ∷ b't' ∷ b'/' ∷ b'a' ∷ b'n' ∷ b'o' ∷ b't' ∷ b'h' ∷ b'e' ∷ b'r' ∷ []

abbrev pub sus_path : List ℕ
sus_path =
    b'/' ∷ b't' ∷ b'e' ∷ b's' ∷ b't' ∷ b'/' ∷ b'a' ∷ b'n' ∷ b'o' ∷ b't' ∷ b'h' ∷ b'e' ∷ b'r' ∷ b'/'
    ∷ b's' ∷ b'u' ∷ b's' ∷ []

abbrev pub amogus_path : List ℕ
amogus_path = b'/' ∷ b'a' ∷ b's' ∷ b'd' ∷ b'/' ∷ b'a' ∷ b'm' ∷ b'o' ∷ b'g' ∷ b'u' ∷ b's' ∷ []

-- `new VFSNode()` with a name and a storage, whose other members are zero.
abbrev pub new_node : Name → (storage : ℕ) → VfsNode
new_node name storage = record { name = name; flags = 0; storage = storage }

-- "ata device", with the drive `ata0s`.
abbrev pub hda_node : (ata0s : ℕ) → VfsNode
hda_node ata0s =
    new_node (b'a' ∷ b't' ∷ b'a' ∷ b' ' ∷ b'd' ∷ b'e' ∷ b'v' ∷ b'i' ∷ b'c' ∷ b'e' ∷ []) ata0s

abbrev pub root_node : VfsNode
root_node = new_node (b'r' ∷ b'o' ∷ b'o' ∷ b't' ∷ []) 0

abbrev pub test_node : VfsNode
test_node = new_node (b't' ∷ b'e' ∷ b's' ∷ b't' ∷ []) 0

abbrev pub asd_node : VfsNode
asd_node = new_node (b'a' ∷ b's' ∷ b'd' ∷ []) 0

abbrev pub another_node : VfsNode
another_node =
    new_node
      (b'a' ∷ b'n' ∷ b'o' ∷ b't' ∷ b'h' ∷ b'e' ∷ b'r' ∷ b' ' ∷ b't' ∷ b'e' ∷ b's' ∷ b't' ∷ []) 0

abbrev pub sus_node : VfsNode
sus_node =
    new_node
      (b't' ∷ b'e' ∷ b's' ∷ b't' ∷ b'/' ∷ b'a' ∷ b'n' ∷ b'o' ∷ b't' ∷ b'h' ∷ b'e' ∷ b'r' ∷ b'/'
        ∷ b's' ∷ b'u' ∷ b's' ∷ [])
      0

abbrev pub amogus_node : VfsNode
amogus_node = new_node (b'a' ∷ b'm' ∷ b'o' ∷ b'g' ∷ b'u' ∷ b's' ∷ []) 0

-- The calls of `VFS::mount` in `kmain`, in their order.
unfoldable pub mount_files : (ata0s : ℕ) → Tree → Tree
mount_files ata0s t =
    let t = (mount hda_path (hda_node ata0s) t).1 in
    let t = (mount root_path root_node t).1 in
    let t = (mount test_path test_node t).1 in
    let t = (mount asd_path asd_node t).1 in
    let t = (mount another_path another_node t).1 in
    let t = (mount sus_path sus_node t).1 in (mount amogus_path amogus_node t).1

-- `ATA(0x1F0, true)` and `ATA(0x1F0, false)`
abbrev pub primary_master : Ata
primary_master = record { port_base = 0x1F0; master = true }

abbrev pub primary_slave : Ata
primary_slave = record { port_base = 0x1F0; master = false }

-- `ATA::findDirectory`, which is the one method of that name that can be called.
abbrev pub ata_find_directory : ℕ → VfsNode → Name → Option VfsNode
ata_find_directory storage node name = none

-- The virtual `read` of the one storage there is, the drive at `ata0s`, into the buffer `buf`. A state
-- `none` means that a call has not returned.
module _ {W : Type 0} (o : Sectors W) (fuel ata0s : ℕ) where
  unfoldable pub storage_read :
      (buf : ℕ) → (storage : ℕ) → VfsNode → (offset size : ℕ) → Option W → ℕ × Option W
  storage_read buf storage node offset size none = (0, none)
  storage_read buf storage node offset size (some w) =
      if storage == ata0s
      then elim (Driver.read o fuel offset size buf w) [
        | none ↦ (0, none)
        | some (total, w') ↦ (total, some w')
      ]
      else (0, none)

  -- `VFS::read(VFS::openFile("/dev/hda", 0), 0, sizeof(MasterBootRecord), (u8*) &mbr)`; the result of
  -- `openFile` is not tested.
  unfoldable pub load_mbr : (mbr : ℕ) → Tree → W → ℕ × Option W
  load_mbr mbr t w = elim (open_file ata_find_directory hda_path t) [
    | none ↦ (0, none)
    | some n ↦ Vfs.read (storage_read mbr) n 0 mbr_size (some w)
  ]

-- What the first stage of `kmain` sets up: the screen as `clear` leaves it, without the messages that are
-- logged from then on, what `lgdt` and `lidt` get, the writes to the
-- interrupt controllers, the value in cr3, and the allocator with memory.
pub record Setup : Type 0 where
  pub screen : Vga
  pub gdt : GdtPointer
  pub idt : IdtPointer
  pub controllers : List Output
  pub cr3 : ℕ
  pub manager : MemoryManager

-- The first stage, with the tables at `gdt` and `idt`; fuel is for the memory map.
unfoldable pub stage_1 :
    (fuel gdt idt : ℕ) (isr irq : ℕ → ℕ) (kernel_end mbi : ℕ) → Vga → MemoryManager → Option Setup
stage_1 fuel gdt idt isr irq kernel_end mbi v mm =
    let (gdt_pointer, m) = Gdt.init mm.mem gdt in
    let (idt_pointer, m) = Idt.init m idt isr irq in
    elim (BootMap.init fuel (record mm { mem = m }) kernel_end mbi) [
      | none ↦ none
      | some (cr3, mm) ↦ some (record {
        screen = clear v;
        gdt = gdt_pointer;
        idt = idt_pointer;
        controllers = remap;
        cr3 = cr3;
        manager = mm;
      })
    ]

-- The second stage, with the object of the slave drive at `ata0s` and the record at `mbr`: both drives
-- are identified, the files are mounted in a new tree, and the record is read. The tree, the number of
-- bytes read, and the world in which `kmain` gets to its last loop.
unfoldable pub stage_2 :
    (bus : Bus) → (fuel ata0s mbr : ℕ) → World bus → Option (Tree × ℕ × World bus)
stage_2 bus fuel ata0s mbr w = elim (identify bus fuel primary_master w.state) [
  | none ↦ none
  | some s ↦ elim (identify bus fuel primary_slave s) [
    | none ↦ none
    | some s ↦
        let t = mount_files ata0s init in
        let (total, w') =
          load_mbr (driver bus fuel primary_slave) fuel ata0s mbr t (record w { state = s }) in
        elim w' [ none ↦ none | some w' ↦ some (t, total, w') ]
  ]
]

-- Whether the processor finds `left` pages from `virt` on.
unfoldable pub pages_mapped : Mem → (dir left virt : ℕ) → Bool
pages_mapped m dir zero virt = true
pages_mapped m dir (suc left) virt = elim (translate m dir virt) [
  | none ↦ false
  | some address ↦ pages_mapped m dir left (virt + page_size)
]

-- `KernelHeap::instance()` in the first call of `kmalloc`, at the start of the second stage. The heap is
-- reached through the pages that `initVMM` has mapped: where one is missing, the kernel does not return
-- from the page fault.
unfoldable pub kernel_heap : MemoryManager → Option (Heap × Mem)
kernel_heap mm =
    if pages_mapped mm.mem mm.current_page_directory (kernel_heap_size / page_size)
      kernel_heap_start
    then some (construct mm.mem kernel_heap_start kernel_heap_size)
    else none

-- `kmain` up to its last loop. The objects that it allocates itself are not in the heap.
unfoldable pub kmain :
    (bus : Bus)
    → (fuel gdt idt : ℕ) (isr irq : ℕ → ℕ) (kernel_end mbi ata0s mbr : ℕ) → Vga
    → MemoryManager
    → bus.State
    → Option (Setup × Tree × ℕ × World bus)
kmain bus fuel gdt idt isr irq kernel_end mbi ata0s mbr v mm s =
    elim (stage_1 fuel gdt idt isr irq kernel_end mbi v mm) [
      | none ↦ none
      | some setup ↦ elim (kernel_heap setup.manager) [
        | none ↦ none
        | some (heap, mem) ↦
            elim (stage_2 bus fuel ata0s mbr (record { heap = heap; mem = mem; state = s })) [
              | none ↦ none
              | some (t, total, w) ↦ some (setup, t, total, w)
            ]
      ]
    ]
