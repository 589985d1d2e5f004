-- ===== src/Kernel/Booted.antt =====
-- `kmain` from its start to its last loop.
use pros.Prelude.{
  ℕ, zero, suc, true, ◌*◌, ◌/◌, ◌+◌, ◌-◌, ◌^◌, ◌≤◌, ◌<◌, ◌≡◌, ◌≢◌, ◌⊎◌, refl, arith, some, List, [],
  length,
}
use pros.Memory.{Mem}
use pros.Port.{Bus}
use pros.Heap.{Heap, chunk_size, construct}
use pros.Heap.Blocks.{find_block}
use pros.Heap.Construct.{construct-IsHeap}
use pros.Vga.{Vga}
use pros.Vfs.{Tree}
use pros.Vfs.Reach.{Reaches}
use pros.MemoryManager.{MemoryManager}
use pros.MemoryManager.BootMap.{mmap_length, mmap_addr}
use pros.MemoryManager.Layout.{Sized, extent, HasEntries}
use pros.Paging.{phys_2_virt, page_size, init_vmm, kernel_heap_start, kernel_heap_size}
use pros.Paging.Walk.{translate}
use pros.Paging.Kernel.{IsBootable, directory}
use pros.Paging.Ready.{IsHeapReady}
use pros.Paging.Init.{IsLoaded, init_vmm-IsLoaded}
use pros.Ata.{World}
use pros.Ata.Serves.{byte_of}
use pros.Ata.Device.{Device, disk_drive}
use pros.Ata.Reserve.{HasReserve}
use pros.Partition.{mbr_size, read_mbr}
use pros.Kernel.{Setup, primary_slave, stage_1, stage_2, pages_mapped, kernel_heap, kmain}
use pros.Kernel.Mounts.{mount_calls}
use pros.Kernel.Boot.{OffTables, before_vmm, set_up, stage_1-run}
use pros.Kernel.Loaded.{stage_2-read_mbr}

-- The new kernel heap has a buffer in reserve.
heap-HasReserve :
    (m : Mem)
    → HasReserve
        (construct m kernel_heap_start kernel_heap_size).0
        (construct m kernel_heap_start kernel_heap_size).1
        1
unfolding find_block construct
heap-HasReserve m = record {
  blocks = [];
  rest = kernel_heap_size - chunk_size;
  heap =
      construct-IsHeap m kernel_heap_start kernel_heap_size (omega arith) (omega arith)
        (omega arith);
  full = refl;
  room = omega arith;
  count = omega arith;
}

pages_mapped-true :
    (m : Mem) (dir left virt : ℕ)
    → ((v : ℕ)
        → virt ≤ v
        → v < virt + left * page_size
        → (address : ℕ) × (translate m dir v ≡ some address))
    → pages_mapped m dir left virt ≡ true
unfolding pages_mapped
pages_mapped-true m dir zero virt found = refl
pages_mapped-true m dir (suc left) virt found =
    let (address, e) = found virt (omega arith) (omega arith) in
    rw (e, pages_mapped)
      (pages_mapped-true m dir left (virt + page_size)
        (λ v lo hi. found v (omega arith) (omega arith)))

-- Where `initVMM` has mapped the heap, it is made.
kernel_heap-loaded :
    (mm : MemoryManager) (result : ℕ × MemoryManager) (dir : ℕ)
    → IsLoaded mm result dir
    → kernel_heap result.1 ≡ some (construct result.1.mem kernel_heap_start kernel_heap_size)
unfolding kernel_heap
kernel_heap-loaded mm result dir loaded =
    let mapped =
      pages_mapped-true result.1.mem dir (kernel_heap_size / page_size) kernel_heap_start
        (λ v lo hi. (_, loaded.heap v (omega arith) (omega arith))) in
    rw (loaded.current, mapped) refl

-- The two stages one after the other.
kmain-run :
    (bus : Bus) (fuel gdt idt : ℕ) (isr irq : ℕ → ℕ) (kernel_end mbi ata0s mbr : ℕ) (v : Vga)
    (mm : MemoryManager) (s : bus.State) (setup : Setup) (heap : Heap × Mem) (t : Tree) (total : ℕ)
    (w : World bus)
    → stage_1 fuel gdt idt isr irq kernel_end mbi v mm ≡ some setup
    → kernel_heap setup.manager ≡ some heap
    → stage_2 bus fuel ata0s mbr (record { heap = heap.0; mem = heap.1; state = s })
      ≡ some (t, total, w)
    → kmain bus fuel gdt idt isr irq kernel_end mbi ata0s mbr v mm s ≡ some (setup, t, total, w)
unfolding kmain
kmain-run bus fuel gdt idt isr irq kernel_end mbi ata0s mbr v mm s setup heap t total w e1 e2 e3 =
    rw (kmain, e1, e2, e3) refl

-- The memory map of the boot loader, with the entries `es`, in memory when `kmain` starts: off the
-- descriptor tables and the bytes that the bitmap can take.
pub record HasBootMap (mm : MemoryManager) (gdt idt : ℕ) (isr irq : ℕ → ℕ)
    (apart : (gdt + 40 < idt) ⊎ (idt + 2048 < gdt))
    (small : (n : ℕ) → (isr n < 2 ^ 32) × (irq n < 2 ^ 32)) (kernel_end mbi : ℕ) (es : List Sized)
    : Type 0 where
  pub memory_size : mm.memory_size < 2 ^ 32
  pub map_length : mmap_length mm.mem (phys_2_virt mbi) ≡ extent es
  pub off_tables :
      (b : ℕ)
      → phys_2_virt mbi + 44 ≤ b
      → b < phys_2_virt mbi + 52
      → OffTables gdt idt isr irq apart small b
  pub fits : phys_2_virt (mmap_addr mm.mem (phys_2_virt mbi)) + extent es < 2 ^ 32
  pub off :
      (b : ℕ)
      → phys_2_virt (mmap_addr mm.mem (phys_2_virt mbi)) ≤ b
      → b < phys_2_virt (mmap_addr mm.mem (phys_2_virt mbi)) + extent es
      → OffTables gdt idt isr irq apart small b × ((b < kernel_end) ⊎ (kernel_end + 2 ^ 18 ≤ b))
  pub entries : HasEntries mm.mem (phys_2_virt (mmap_addr mm.mem (phys_2_virt mbi))) es

-- `kmain` gets to its last loop: with stubs at 32-bit addresses, descriptor tables that do not overlap, a
-- memory map of 32-bit addresses in memory off the tables and off the bitmap, from which `initPMM` leaves
-- the free pages that `initVMM` needs, a disk of bytes in the primary slave, fuel for the entries of the
-- map, for the delays of the drive and for the time that it is still busy, the local variable for the
-- record below the kernel heap, and an address of the drive's object other than `nullptr`. Then paging is
-- loaded, with each page of the kernel heap in a frame of its own that was free, the mounts are in the
-- tree, all 512 bytes have been read through "/dev/hda", and the record in memory is the one in the first
-- sector of the disk.
pub kmain-read_mbr :
    (disk : ℕ → ℕ → ℕ) (delay : ℕ → ℕ) (fuel gdt idt : ℕ) (isr irq : ℕ → ℕ)
    (kernel_end mbi ata0s mbr : ℕ) (v : Vga) (mm : MemoryManager) (d : Device) (es : List Sized)
    (apart : (gdt + 40 < idt) ⊎ (idt + 2048 < gdt))
    (small : (n : ℕ) → (isr n < 2 ^ 32) × (irq n < 2 ^ 32))
    → HasBootMap mm gdt idt isr irq apart small kernel_end mbi es
    → let start = before_vmm gdt idt isr irq apart small mm kernel_end es in
      (boots : IsBootable start)
      → IsHeapReady start boots
      → length es < fuel
      → ((lba k : ℕ) → disk lba k < 256)
      → ((lba : ℕ) → delay lba < fuel)
      → d.busy < fuel
      → 3 < fuel
      → ata0s ≢ 0
      → mbr + mbr_size ≤ kernel_heap_start
      → (setup : Setup) × (t : Tree) × (w : World (disk_drive primary_slave disk delay)) × (kmain
            (disk_drive primary_slave disk delay)
            fuel
            gdt
            idt
            isr
            irq
            kernel_end
            mbi
            ata0s
            mbr
            v
            mm
            d
          ≡ some (setup, t, mbr_size, w))
        × IsLoaded start (setup.cr3, setup.manager) (directory start)
        × Reaches t (mount_calls ata0s)
        × (read_mbr w.mem mbr ≡ read_mbr (byte_of disk) 0)
unfolding construct
kmain-read_mbr disk delay fuel gdt idt isr irq kernel_end mbi ata0s mbr v mm d es apart small map
      boots ready enough bytes delays idle long ne below =
    let start = before_vmm gdt idt isr irq apart small mm kernel_end es in
    let setup = set_up gdt idt isr irq apart small v mm kernel_end es in
    let first =
      stage_1-run gdt idt isr irq apart small fuel v mm kernel_end mbi es enough map.memory_size
        map.map_length map.off_tables map.fits map.off map.entries in
    let loaded : IsLoaded start (init_vmm start) (directory start) =
      init_vmm-IsLoaded start boots ready in
    let heap = construct setup.manager.mem kernel_heap_start kernel_heap_size in
    let made = kernel_heap-loaded start (init_vmm start) (directory start) loaded in
    let (t, w, run2, reaches, read) =
      stage_2-read_mbr disk delay fuel ata0s mbr (record { heap = heap.0; mem = heap.1; state = d })
        bytes delays idle long ne (heap-HasReserve setup.manager.mem) below in
    (
      setup,
      t,
      w,
      kmain-run (disk_drive primary_slave disk delay) fuel gdt idt isr irq kernel_end mbi ata0s mbr
          v mm d setup heap t mbr_size w first made run2,
      loaded,
      reaches,
      read,
    )
