-- ===== src/Ata.antt =====
-- The disk driver, Kernel/include/Driver/ATA.hpp and Kernel/src/Driver/ATA.cpp, over the machine
-- behind the ports, the kernel heap and memory.
pub mod Serves
pub mod Transfer
pub mod Command
pub mod Sector
pub mod Device
pub mod Serving
pub mod Reserve
pub mod Disk
pub mod Identify
mod Tests
use pros.Prelude.{
  ℕ, zero, suc, ◌+◌, ◌-◌, ◌*◌, ◌/◌, ◌%◌, ◌^◌, Bool, true, false, not, ◌&&◌, Option, none, some,
  ◌==◌, leb, if◌then◌else◌, u8, u16, u32, sub32, bit_and, bit_or, ◌>>>◌,
}
use pros.Memory.{Mem, store8}
use pros.CString.{memcpy}
use pros.Heap.{Heap, malloc}
use pros.Port.{Bus}

-- The members of `class ATA` that its ports are made from.
pub record Ata : Type 0 where
  pub port_base : ℕ
  pub master : Bool

abbrev pub sector_size : ℕ
sector_size = 512

abbrev pub error_port : Ata → ℕ
error_port a = u16 (a.port_base + 1)

abbrev pub sector_count_port : Ata → ℕ
sector_count_port a = u16 (a.port_base + 2)

abbrev pub lba_low_port : Ata → ℕ
lba_low_port a = u16 (a.port_base + 3)

abbrev pub lba_mid_port : Ata → ℕ
lba_mid_port a = u16 (a.port_base + 4)

abbrev pub lba_high_port : Ata → ℕ
lba_high_port a = u16 (a.port_base + 5)

abbrev pub device_port : Ata → ℕ
device_port a = u16 (a.port_base + 6)

abbrev pub command_port : Ata → ℕ
command_port a = u16 (a.port_base + 7)

-- What the driver works on: the heap, memory, and the state of the machine.
pub record World (bus : Bus) : Type 0 where
  pub heap : Heap
  pub mem : Mem
  pub state : bus.State

module _ (bus : Bus) where
  -- `while (busy and no error) status = commandPort.read();` with fuel.
  unfoldable pub wait : (fuel : ℕ) (a : Ata) (status : ℕ) → bus.State → Option (ℕ × bus.State)
  wait zero a status s = none
  wait (suc fuel) a status s =
      let (status', s') = bus.inb s (command_port a) in
      let rest = wait fuel a status' s' in
      if (bit_and status 0x80 == 0x80) && not (bit_and status 0x01 == 0x01)
      then rest
      else some (status, s)

  -- The commands of `readSector`.
  unfoldable pub send_read : Ata → (lba : ℕ) → bus.State → bus.State
  send_read a lba s =
      let s =
        bus.outb s (device_port a)
          (u8 (bit_or (if a.master then 0xE0 else 0xF0) (bit_and lba 0x0F000000 >>> 24))) in
      let s = bus.outb s (error_port a) 0 in
      let s = bus.outb s (sector_count_port a) 1 in
      let s = bus.outb s (lba_low_port a) (u8 (bit_and lba 0x000000FF)) in
      let s = bus.outb s (lba_mid_port a) (u8 (bit_and lba 0x0000FF00 >>> 8)) in
      let s = bus.outb s (lba_high_port a) (u8 (bit_and lba 0x00FF0000 >>> 16)) in
      bus.outb s (command_port a) 0x20

  -- The loop that fetches the words of a sector, at byte `i` of the buffer.
  unfoldable pub fetch : Ata → (buf left i : ℕ) → Mem → bus.State → Mem × bus.State
  fetch a buf zero i m s = (m, s)
  fetch a buf (suc left) i m s =
      let (word, s') = bus.inw s a.port_base in
      let m' = store8 m (buf + i) (bit_and word 0x00FF) in
      let m' = store8 m' (buf + i + 1) (bit_and (word >>> 8) 0x00FF) in
      fetch a buf left (i + 2) m' s'

  -- The buffer of `readSector`, which is not tested for `nullptr`, and the world after it. An error
  -- of the drive is only logged.
  unfoldable pub read_sector : (fuel : ℕ) → Ata → (lba : ℕ) → World bus → Option (ℕ × World bus)
  read_sector fuel a lba w = elim (malloc w.heap w.mem sector_size) [
    | none ↦ none
    | some (buf, heap, mem) ↦
        let s = send_read a lba w.state in
        let (status, s) = bus.inb s (command_port a) in
        elim (wait fuel a status s) [
          | none ↦ none
          | some (status, s) ↦
              let (mem, s) = fetch a buf 256 0 mem s in
              some (buf, record { heap = heap; mem = mem; state = s })
        ]
  ]

-- The words that `identify` reads go to a string literal, which is not modelled.
module _ (bus : Bus) where
  unfoldable pub skip_words : Ata → (left : ℕ) → bus.State → bus.State
  skip_words a zero s = s
  skip_words a (suc left) s = skip_words a left (bus.inw s a.port_base).1

  unfoldable pub identify : (fuel : ℕ) → Ata → bus.State → Option (bus.State)
  identify fuel a s =
      let s = bus.outb s (device_port a) (if a.master then 0xA0 else 0xB0) in
      let s = bus.outb s (sector_count_port a) 0 in
      let s = bus.outb s (lba_low_port a) 0 in
      let s = bus.outb s (lba_mid_port a) 0 in
      let s = bus.outb s (lba_high_port a) 0 in
      let s = bus.outb s (command_port a) 0xEC in
      let (status, s) = bus.inb s (command_port a) in
      if status == 0x00 then some s else elim (wait bus fuel a status s) [
        | none ↦ none
        | some (status, s) ↦ some (skip_words a 256 s)
      ]

-- What the loop of `read` needs of the rest of the driver: memory, and `readSector`.
pub record Sectors (W : Type 0) : Type 0 where
  pub mem : W → Mem
  pub put : W → Mem → W
  pub read_sector : ℕ → W → Option (ℕ × W)

-- The place in the first sector, and the number of bytes taken from a sector.
abbrev pub sector_offset : (start start_offset counter : ℕ) → ℕ
sector_offset start start_offset counter = if counter == start then start_offset else 0

abbrev pub read_size : (start start_offset end end_offset counter : ℕ) → ℕ
read_size start start_offset end end_offset counter =
    if counter == end
    then u32 (sub32 end_offset (sector_offset start start_offset counter) + 1)
    else if counter == start
    then sub32 sector_size start_offset
    else sector_size

module _ {W : Type 0} (o : Sectors W) where
  -- The loop of `read`, with fuel.
  unfoldable pub read_loop :
      (fuel start start_offset end end_offset counter current_buffer total : ℕ) → W → Option (ℕ × W)
  read_loop zero start start_offset end end_offset counter current_buffer total w = none
  read_loop (suc fuel) start start_offset end end_offset counter current_buffer total w =
      let size = read_size start start_offset end end_offset counter in
      let next = elim (o.read_sector counter w) as (λ _. Option (ℕ × W)) [
        | none ↦ none
        | some (ret, w) ↦
            let from = ret + sector_offset start start_offset counter in
            let w = o.put w (memcpy (o.mem w) current_buffer from size) in
            read_loop fuel start start_offset end end_offset (u32 (counter + 1))
              (current_buffer + size) (u32 (total + size)) w
      ] in
      if leb counter end then next else some (total, w)

  unfoldable pub read : (fuel offset size buf : ℕ) → W → Option (ℕ × W)
  read fuel offset size buf w =
      let last = sub32 (u32 (offset + size)) 1 in
      let start = offset / sector_size in
      read_loop fuel start (offset % sector_size) (last / sector_size) (last % sector_size) start
        buf 0 w

-- The driver's own `readSector` in that place.
unfoldable pub driver : (bus : Bus) → (fuel : ℕ) → Ata → Sectors (World bus)
driver bus fuel a = record {
  mem = λ w. w.mem;
  put = λ w m. record w { mem = m };
  read_sector = read_sector bus fuel a;
}

-- `ATA::read`.
unfoldable pub ata_read :
    (bus : Bus) → (fuel : ℕ) → Ata → (offset size buf : ℕ) → World bus → Option (ℕ × World bus)
ata_read bus fuel a offset size buf w = read (driver bus fuel a) fuel offset size buf w
