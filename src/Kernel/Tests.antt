-- ===== src/Kernel/Tests.antt =====
-- A record at 8192 and a drive at 5000, and the memory map of a boot loader.
use pros.Prelude.{
  ℕ, ◌∙◌, ◌+◌, ◌*◌, ◌≤◌, ◌<◌, ◌≡◌, ◌⊎◌, inl, inr, refl, arith, List, [], ◌∷◌, map, some, u8, u32,
}
use pros.Memory.{Mem, load8, load32, store8, store32}
use pros.Vfs.{Tree}
use pros.Ata.{World}
use pros.Ata.Device.{Device, disk_drive}
use pros.Ata.Serves.{byte_of}
use pros.Partition.{mbr_size, read_mbr}
use pros.Vga.{Vga, clear}
use pros.Idt.{remap}
use pros.MemoryManager.{MemoryManager}
use pros.MemoryManager.Init.{add_lengths, init_pmm}
use pros.MemoryManager.BootMap.{mmap_length, mmap_addr, read_entry}
use pros.MemoryManager.Layout.{Sized, HasEntries}
use pros.Paging.{init_vmm}
use pros.Kernel.Boot.{HasTables, outside, with_tables, before_vmm, stage_1-init_vmm}
use pros.Kernel.FreeMap.{init_pmm-IsFilled, init_pmm-bytes}
use pros.Paging.Boot.{IsFilled, IsFilled-IsBootable, IsFilled-IsHeapReady}
use pros.Paging.Kernel.{IsBootable, directory}
use pros.Paging.Ready.{IsHeapReady}
use pros.Paging.Init.{IsLoaded}
use pros.Kernel.{Setup, stage_1, kmain, primary_slave}
use pros.Kernel.Mounts.{mount_calls}
use pros.Kernel.Booted.{kmain-read_mbr}
use pros.Vfs.Reach.{Reaches}

abbrev disk : ℕ → ℕ → ℕ
disk lba i = u8 (lba + i)

-- The structure of the boot loader at 3 GB + 0x8000, and its memory map of two entries at 3 GB + 0x9000.
abbrev put_entry : Mem → (p addr_low len_low kind : ℕ) → Mem
put_entry m p addr_low len_low kind =
    store32 (store32 (store32 (store32 m p 20) (p + 4) addr_low) (p + 12) len_low) (p + 20) kind

abbrev boot_memory : Mem
boot_memory =
    put_entry
      (put_entry (store32 (store32 (λ a. 0) 0xC000802C 48) 0xC0008030 0x9000) 0xC0009000 0 0x100000
        1)
      0xC0009018 0x100000 0x300000 1

abbrev manager : MemoryManager
manager = record {
  mem = boot_memory;
  memory_size = 0;
  used_blocks = 0;
  max_blocks = 0;
  memory_map = 0;
  current_page_directory = 0;
}

abbrev boot_map : List Sized
boot_map =
    record { size = 20; entry = record { addr_low = 0; len_low = 0x100000; kind = 1 } }
    ∷ record { size = 20; entry = record { addr_low = 0x100000; len_low = 0x300000; kind = 1 } }
    ∷ []

boot_memory-zero : (b : ℕ) → 0xC0200000 ≤ b → load8 boot_memory b ≡ 0
unfolding load8 store32 store8
boot_memory-zero b h = ground arith

boot_map-at : mmap_addr boot_memory 0xC0008000 ≡ 0x9000
unfolding mmap_addr load32 load8 store32 store8
boot_map-at = refl

boot_map-length : mmap_length boot_memory 0xC0008000 ≡ 48
unfolding mmap_length load32 load8 store32 store8
boot_map-length = refl

boot_map-HasEntries : HasEntries boot_memory 0xC0009000 boot_map
unfolding read_entry load32 load8 store32 store8
boot_map-HasEntries = (refl, omega arith, refl, (refl, omega arith, refl, tt))

abbrev screen : Vga
screen = record {
  width = 80;
  height = 25;
  x = 0;
  y = 0;
  text_color = 7;
  background_color = 0;
  color = 7;
  memory = λ j. 0;
  outputs = [];
}

abbrev stub : ℕ → ℕ
stub n = u32 (0x1000 + 16 * n)

off : (b : ℕ) → 0x8000 ≤ b → ((b < 4096) ⊎ (4096 + 40 < b)) × ((b < 8192) ⊎ (8192 + 2048 < b))
off b lo = (inr (omega arith), inr (omega arith))

stage_1-init_vmm_example :
    (m : Mem) × (s : Setup) × (stage_1 3 4096 8192 stub stub 0xC0100000 0x8000 screen manager
      ≡ some s)
    × HasTables m 4096 8192 stub stub
    × ((b : ℕ)
        → ((b < 4096) ⊎ (4096 + 40 < b)) × ((b < 8192) ⊎ (8192 + 2048 < b))
        → load8 m b ≡ load8 boot_memory b)
    × ((s.cr3, s.manager)
        ≡ init_vmm (
            init_pmm
              (record manager {
                mem = m;
                memory_size = add_lengths 0 (map (λ (s : Sized). s.entry) boot_map);
              })
              0xC0100000
              (map (λ (s : Sized). s.entry) boot_map)))
    × (s.screen ≡ clear screen)
    × (s.controllers ≡ remap)
    × (s.gdt.base ≡ 4096)
    × (s.idt.base ≡ 8192)
stage_1-init_vmm_example =
    stage_1-init_vmm 4096 8192 stub stub (inl (omega arith)) (λ n. (omega arith, omega arith)) 3
      screen manager 0xC0100000 0x8000 boot_map (omega arith) (omega arith) boot_map-length
      (λ b lo hi. off b (omega arith)) (omega (arith, boot_map-at))
      (λ b lo hi. (
        (inr (omega (arith, boot_map-at)), inr (omega (arith, boot_map-at))),
        inl (omega (arith, boot_map-at)),
      ))
      (rw boot_map-at boot_map-HasEntries)

-- The state when `initVMM` starts.
abbrev mapped : MemoryManager
mapped = record manager {
  mem =
      with_tables 4096 8192 stub stub (inl (omega arith)) (λ n. (omega arith, omega arith))
        boot_memory;
  memory_size = add_lengths 0 (map (λ (s : Sized). s.entry) boot_map);
}

abbrev start : MemoryManager
start =
    before_vmm 4096 8192 stub stub (inl (omega arith)) (λ n. (omega arith, omega arith)) manager
      0xC0100000 boot_map

mapped-size : mapped.memory_size ≡ 1024 * 4096
unfolding add_lengths
mapped-size = refl

start-zero :
    (b : ℕ) → 0xC0000000 + 512 * 4096 ≤ b → b < 0xC0000000 + 1024 * 4096 → load8 start.mem b ≡ 0
start-zero b lo hi =
    init_pmm-bytes mapped 0xC0100000 mapped-size (omega arith) (omega arith) b (omega arith)
    ∙ outside 4096 8192 stub stub (inl (omega arith)) (λ n. (omega arith, omega arith)) boot_memory
        b (off b (omega arith))
    ∙ boot_memory-zero b (omega arith)

start-IsFilled : IsFilled start 512
start-IsFilled = init_pmm-IsFilled mapped 0xC0100000 mapped-size (omega arith) (omega arith)

start-IsBootable : IsBootable start
start-IsBootable =
    IsFilled-IsBootable start 512 start-IsFilled (omega arith) (omega arith) start-zero

start-IsHeapReady : IsHeapReady start start-IsBootable
unfolding start-IsBootable
start-IsHeapReady =
    IsFilled-IsHeapReady start 512 start-IsFilled (omega arith) (omega arith) start-zero

-- A drive whose other ports read as 0xFF.
abbrev idle : Device
idle = record { registers = λ p. 0; busy = 0; words = λ k. 0; position = 0; floating = λ p. 0xFF }

kmain-read_mbr_example :
    (setup : Setup) × (t : Tree) × (w : World (disk_drive primary_slave disk (λ lba. 3))) × (kmain
        (disk_drive primary_slave disk (λ lba. 3))
        4
        4096
        8192
        stub
        stub
        0xC0100000
        0x8000
        5000
        0x7000
        screen
        manager
        idle
      ≡ some (setup, t, mbr_size, w))
    × IsLoaded start (setup.cr3, setup.manager) (directory start)
    × Reaches t (mount_calls 5000)
    × (read_mbr w.mem 0x7000 ≡ read_mbr (byte_of disk) 0)
kmain-read_mbr_example =
    kmain-read_mbr disk (λ lba. 3) 4 4096 8192 stub stub 0xC0100000 0x8000 5000 0x7000 screen
      manager idle boot_map (inl (omega arith)) (λ n. (omega arith, omega arith))
      (record {
        memory_size = omega arith;
        map_length = boot_map-length;
        off_tables = λ b lo hi. off b (omega arith);
        fits = omega (arith, boot_map-at);
        off = λ b lo hi. (off b (omega (arith, boot_map-at)), inl (omega (arith, boot_map-at)));
        entries = rw boot_map-at boot_map-HasEntries;
      })
      start-IsBootable start-IsHeapReady (omega arith) (λ lba k. omega arith) (λ lba. omega arith)
      (omega arith) (omega arith) (omega arith) (omega arith)
