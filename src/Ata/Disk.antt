-- ===== src/Ata/Disk.antt =====
-- `ATA::read` from end to end: the driver, the kernel heap and a disk drive behind the ports.
use pros.Prelude.{ℕ, ◌+◌, ◌*◌, ◌^◌, ◌≤◌, ◌<◌, ◌≡◌, ◌-◌, ◌/◌, inl, inr, refl, arith, ◌∙◌, some}
use pros.Memory.{load8}
use pros.Ata.{Ata, World, sector_size, driver, ata_read}
use pros.Ata.Serves.{Serves, byte_of}
use pros.Ata.Transfer.{read-bytes}
use pros.Ata.Device.{disk_drive}
use pros.Ata.Serving.{read_sector-disk}
use pros.Ata.Reserve.{HasReserve, HasReserve-ext, malloc-IsTaken}

-- Ports that do not wrap around, a disk of bytes, and fuel for every delay of the drive.
module _ (a : Ata) (disk : ℕ → ℕ → ℕ) (delay : ℕ → ℕ) (fuel : ℕ) (ports : a.port_base + 7 < 2 ^ 16)
    (bytes : (lba k : ℕ) → disk lba k < 256) (enough : (lba : ℕ) → delay lba < fuel) where
  -- The heap has `n` buffers in reserve, and lies above the buffer of `size` bytes at `buf`.
  abbrev pub IsReady : (buf size n : ℕ) → World (disk_drive a disk delay) → Type 0
  IsReady buf size n w =
      HasReserve w.heap w.mem n × (buf + size ≤ w.heap.first) × (w.state.busy ≡ 0)

  unfoldable pub driver-Serves :
      (buf size : ℕ) → Serves (driver (disk_drive a disk delay) fuel a) disk buf size
  unfolding driver
  driver-Serves buf size = record {
    Ready = IsReady buf size;
    mem-put = λ w m. refl;
    put-Ready = λ n w m r same.
        (HasReserve-ext w.heap w.mem m n (λ b lo. same b (inr (omega (arith, r.1)))) r.0, r.1, r.2);
    sector = λ n lba w small r.
        let (ptr, h', m1, got, taken) = malloc-IsTaken w.heap w.mem n r.0 in
        let (m', d', run, read, same, idle) =
          read_sector-disk a disk delay fuel lba ptr w.heap h' w.mem m1 w.state ports (omega arith)
            (bytes lba) (enough lba) r.2 got in
        (
          ptr,
          record { heap = h'; mem = m'; state = d' },
          run,
          (taken.reserve m' same, omega (arith, r.1, taken.same_first), idle),
          read,
          λ b lo hi.
              same b (inl (omega (arith, r.1, taken.above))) ∙ taken.below b (omega (arith, r.1)),
          inl (omega (arith, r.1, taken.above)),
        );
  }

  -- With a heap above the buffer that has a buffer in reserve for every sector that the request
  -- touches, an idle drive, a request of at least one byte that ends within 4 GB, and fuel for its sectors:
  -- `ATA::read` returns the number of bytes asked for, and the buffer holds the bytes of the disk from
  -- the offset on.
  pub ata_read-disk :
      (offset size buf : ℕ) (w : World (disk_drive a disk delay))
      → 0 < size
      → size < 2 ^ 32
      → offset + size ≤ 2 ^ 32
      → size + 1024 < fuel * sector_size
      → HasReserve w.heap w.mem ((offset + size - 1) / sector_size + 1 - offset / sector_size)
      → buf + size ≤ w.heap.first
      → w.state.busy ≡ 0
      → (w' : World (disk_drive a disk delay)) × (ata_read
            (disk_drive a disk delay)
            fuel
            a
            offset
            size
            buf
            w
          ≡ some (size, w'))
        × ((i : ℕ) → i < size → load8 w'.mem (buf + i) ≡ byte_of disk (offset + i))
  unfolding ata_read driver driver-Serves
  ata_read-disk offset size buf w pos small fits long reserve above idle =
      read-bytes (driver (disk_drive a disk delay) fuel a) disk buf size offset
        (driver-Serves buf size) pos small fits fuel w long (reserve, above, idle)
