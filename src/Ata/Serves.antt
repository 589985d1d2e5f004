-- ===== src/Ata/Serves.antt =====
-- What `ATA::read` asks of `readSector`, and one round of its loop.
use pros.Prelude.{ℕ, suc, ◌+◌, ◌/◌, ◌%◌, ◌^◌, ◌≤◌, ◌<◌, ◌≡◌, ◌⊎◌, some, u32, leb_of_le, leb_of_lt}
use pros.Memory.{Mem, load8}
use pros.CString.{memcpy}
use pros.Ata.{Sectors, sector_size, sector_offset, read_size, read_loop}

-- A working `readSector` beside a buffer of `size` bytes at `buf`: in a world that is ready for one
-- sector and `n` more it returns, ready for `n`, the address of the bytes of the sector, which lie
-- apart from the buffer, and it leaves the buffer alone; the world stays ready while only the buffer
-- is written.
pub record Serves {W : Type 0} (o : Sectors W) (disk : ℕ → ℕ → ℕ) (buf size : ℕ) : Type 1 where
  pub Ready : (n : ℕ) → W → Type 0
  pub mem-put : (w : W) (m : Mem) → o.mem (o.put w m) ≡ m
  pub put-Ready :
      (n : ℕ) (w : W) (m : Mem)
      → Ready n w
      → ((b : ℕ) → (b < buf) ⊎ (buf + size ≤ b) → load8 m b ≡ load8 (o.mem w) b)
      → Ready n (o.put w m)
  pub sector :
      (n lba : ℕ) (w : W)
      → lba < 2 ^ 23
      → Ready (suc n) w
      → (p : ℕ) × (w' : W) × (o.read_sector lba w ≡ some (p, w'))
        × Ready n w'
        × ((i : ℕ) → i < sector_size → load8 (o.mem w') (p + i) ≡ disk lba i)
        × ((b : ℕ) → buf ≤ b → b < buf + size → load8 (o.mem w') b ≡ load8 (o.mem w) b)
        × ((buf + size ≤ p) ⊎ (p + sector_size ≤ buf))

-- Byte `n` of the disk.
abbrev pub byte_of : (ℕ → ℕ → ℕ) → ℕ → ℕ
byte_of disk n = disk (n / sector_size) (n % sector_size)

-- One round of the loop, and its end.
module _ {W : Type 0} (o : Sectors W)
    (fuel start start_offset end end_offset counter current total : ℕ) (w : W) where
  pub read_loop-stop :
      end < counter
      → read_loop o (suc fuel) start start_offset end end_offset counter current total w
        ≡ some (total, w)
  unfolding read_loop
  read_loop-stop h = rw (leb_of_lt counter end h)

  pub read_loop-step :
      (p : ℕ) (w1 : W)
      → counter ≤ end
      → o.read_sector counter w ≡ some (p, w1)
      → read_loop o (suc fuel) start start_offset end end_offset counter current total w
        ≡ read_loop o fuel start start_offset end end_offset
            (u32 (counter + 1))
            (current + read_size start start_offset end end_offset counter)
            (u32 (total + read_size start start_offset end end_offset counter))
            (o.put w1 (
              memcpy
                (o.mem w1)
                current
                (p + sector_offset start start_offset counter)
                (read_size start start_offset end end_offset counter)))
  unfolding read_loop
  read_loop-step p w1 h run = rw (leb_of_le counter end h, run)
