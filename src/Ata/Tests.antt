-- ===== src/Ata/Tests.antt =====
-- The master drive on the first bus, and a heap at address 4096.
use pros.Prelude.{ℕ, ◌+◌, ◌/◌, ◌<◌, ◌≤◌, ◌⊎◌, ◌≡◌, [], refl, arith, true, some, u8}
use pros.Memory.{Mem, load8, load32, store32}
use pros.Heap.{
  Heap, construct, malloc, find_chunk, read_chunk, set_magic, set_size, set_next, set_prev,
  set_allocated,
}
use pros.Ata.{
  Ata, World, ata_read, sector_size, sector_count_port, command_port, device_port, send_read,
  read_sector,
}
use pros.Ata.Serves.{byte_of}
use pros.Ata.Disk.{ata_read-disk}
use pros.Ata.Device.{Device, disk_drive}
use pros.Ata.Reserve.{HasReserve}
use pros.Heap.Blocks.{find_block}
use pros.Heap.Construct.{construct-IsHeap}
use pros.Ata.Command.{registers, selected_lba, send_read-selected_lba}
use pros.Ata.Serving.{read_sector-disk}

abbrev disk : ℕ → ℕ → ℕ
disk lba i = u8 (lba + i)

abbrev primary : Ata
primary = record { port_base = 0x1F0; master = true }

send_read-selected_lba_example :
    let r' = send_read registers primary 0x1234567 (λ p. 0) in
    (selected_lba primary r' ≡ 0x1234567)
    × (r' (sector_count_port primary) ≡ 1)
    × (r' (command_port primary) ≡ 0x20)
    × (r' (device_port primary) / 16 ≡ 0xE)
send_read-selected_lba_example =
    send_read-selected_lba primary 0x1234567 (λ p. 0) (omega arith) (omega arith)

abbrev zeros : Mem
zeros a = 0

abbrev heap : Heap
heap = (construct zeros 4096 2048).0

abbrev heap_mem : Mem
heap_mem = (construct zeros 4096 2048).1

granted : (h' : Heap) × (m1 : Mem) × (malloc heap heap_mem sector_size ≡ some (4116, h', m1))
unfolding malloc construct find_chunk read_chunk load32 load8 set_magic store32 set_size set_next
    set_prev set_allocated
granted = (_, _, refl)

-- A drive whose other ports read as 0xFF, with a disk of bytes that needs 3 polls for a sector.
abbrev idle : Device
idle = record { registers = λ p. 0; busy = 0; words = λ k. 0; position = 0; floating = λ p. 0xFF }

read_sector-disk_example :
    (m' : Mem) × (d' : Device) × (read_sector
        (disk_drive primary disk (λ lba. 3))
        4
        primary
        9
        (record { heap = heap; mem = heap_mem; state = idle })
      ≡ some (4116, record { heap = granted.0; mem = m'; state = d' }))
    × ((i : ℕ) → i < sector_size → load8 m' (4116 + i) ≡ disk 9 i)
    × ((b : ℕ) → (b < 4116) ⊎ (4116 + sector_size ≤ b) → load8 m' b ≡ load8 granted.1 b)
    × (d'.busy ≡ 0)
read_sector-disk_example =
    read_sector-disk primary disk (λ lba. 3) 4 9 4116 heap granted.0 heap_mem granted.1 idle
      (omega arith) (omega arith) (λ k. omega arith) (omega arith) refl granted.2

-- The heap that the constructor leaves, and this drive.
abbrev fresh : World (disk_drive primary disk (λ lba. 3))
fresh = record { heap = heap; mem = heap_mem; state = idle }

fresh-HasReserve : HasReserve heap heap_mem 2
unfolding construct find_block
fresh-HasReserve = record {
  blocks = [];
  rest = 2028;
  heap = construct-IsHeap zeros 4096 2048 (omega arith) (omega arith) (omega arith);
  full = refl;
  room = omega arith;
  count = omega arith;
}

-- Four bytes across the border of two sectors, to a buffer at address 100.
ata_read-disk_example :
    (w' : World (disk_drive primary disk (λ lba. 3))) × (ata_read
        (disk_drive primary disk (λ lba. 3))
        4
        primary
        510
        4
        100
        fresh
      ≡ some (4, w'))
    × ((i : ℕ) → i < 4 → load8 w'.mem (100 + i) ≡ byte_of disk (510 + i))
unfolding construct
ata_read-disk_example =
    ata_read-disk primary disk (λ lba. 3) 4 (omega arith) (λ lba k. omega arith)
      (λ lba. omega arith) 510 4 100 fresh (omega arith) (omega arith) (omega arith) (omega arith)
      fresh-HasReserve (omega arith) refl
