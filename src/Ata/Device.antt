-- ===== src/Ata/Device.antt =====
-- A disk drive behind the ports: it takes the read command with its sector number from the registers,
-- is busy for a while, in which it ignores writes and has no data, and then hands out the 256 words of the
-- sector at the data port. Its status is at the command port; the status is the same for both drives of
-- the bus.
use pros.Prelude.{
  ℕ, ◌+◌, ◌*◌, ◌/◌, ◌^◌, ◌<◌, ◌≡◌, ◌≢◌, refl, arith, ◌∙◌, ap, ◌==◌, ◌&&◌, not, ltb, true,
  if◌then◌else◌, ==_of_ne, ==_of_eq,
}
use pros.Port.{Bus}
use pros.Ata.{
  Ata, command_port, device_port, error_port, sector_count_port, lba_low_port, lba_mid_port,
  lba_high_port, send_read,
}
use pros.Ata.Command.{Registers, latch, registers, selected_lba, send_read-selected_lba}
use pros.Ata.Sector.{status, less}

pub record Device : Type 0 where
  pub registers : Registers
  pub busy : ℕ
  pub words : ℕ → ℕ
  pub position : ℕ
  -- What the processor reads where the drive has neither status nor data.
  pub floating : (port : ℕ) → ℕ

-- Two bytes make a word, the low one first.
abbrev pub word : (bytes : ℕ → ℕ) → ℕ → ℕ
word bytes k = bytes (2 * k) + bytes (2 * k + 1) * 2 ^ 8

-- The drive that `a` stands for, with the bytes of its sectors, and how long it takes to find each.
module _ (a : Ata) (disk : ℕ → ℕ → ℕ) (delay : ℕ → ℕ) where
  abbrev pub seek : Device → Registers → Device
  seek d r =
      let lba = selected_lba a r in
      record d { registers = r; busy = delay lba; words = word (disk lba); position = 0 }

  -- A byte arrives at a port: the read command is taken if the drive is the selected one.
  unfoldable pub accept : Device → (port value : ℕ) → Device
  accept d port value =
      let r = latch d.registers port value in
      if not (d.busy == 0)
      then d
      else if (port == command_port a)
          && (value == 0x20)
          && (r (device_port a) / 16 == (if a.master then 0xE else 0xF))
      then seek d r
      else record d { registers = r }

  unfoldable pub read_status : Device → (port : ℕ) → ℕ × Device
  read_status d port =
      if port == command_port a
      then (status d.busy, record d { busy = less d.busy })
      else (d.floating port, d)

  unfoldable pub read_data : Device → (port : ℕ) → ℕ × Device
  read_data d port =
      if (port == a.port_base) && (d.busy == 0) && ltb d.position 256
      then (d.words d.position, record d { position = d.position + 1 })
      else (d.floating port, d)

  abbrev pub disk_drive : Bus
  disk_drive = record {
    State = Device;
    outb = accept;
    outw = λ d port value. d;
    outl = λ d port value. d;
    inb = read_status;
    inw = read_data;
    inl = λ d port. (d.floating port, d);
  }

  -- Any other register just keeps its byte.
  accept-other :
      (d s : Device) (r : Registers) (port value : ℕ)
      → d.busy ≡ 0
      → port ≢ command_port a
      → s ≡ record d { registers = r }
      → accept s port value ≡ record d { registers = latch r port value }
  unfolding accept
  accept-other d s r port value idle ne e =
      ap (λ s. accept s port value) e
      ∙ rw (==_of_eq d.busy 0 idle, ==_of_ne port (command_port a) ne) refl

  accept-command :
      (d s : Device) (r : Registers)
      → d.busy ≡ 0
      → s ≡ record d { registers = r }
      → latch r (command_port a) 0x20 (device_port a) / 16 ≡ (if a.master then 0xE else 0xF)
      → accept s (command_port a) 0x20 ≡ seek d (latch r (command_port a) 0x20)
  unfolding accept
  accept-command d s r idle e chosen =
      ap (λ s. accept s (command_port a) 0x20) e
      ∙ rw
          (
            ==_of_eq d.busy 0 idle,
            ==_of_eq (command_port a) (command_port a) refl,
            ==_of_eq _ _ chosen,
          )
          refl

  -- The commands of `readSector` make an idle drive seek the sector.
  pub send_read-seek :
      (lba : ℕ) (d : Device)
      → a.port_base + 7 < 2 ^ 16
      → lba < 2 ^ 28
      → d.busy ≡ 0
      → send_read disk_drive a lba d ≡ record d {
        registers = send_read registers a lba d.registers;
        busy = delay lba;
        words = word (disk lba);
        position = 0;
      }
  unfolding send_read
  send_read-seek lba d ports small idle =
      let (same, count, command, chosen) = send_read-selected_lba a lba d.registers ports small in
      let r0 = d.registers in
      let s1 = accept-other d d r0 (device_port a) _ idle (omega arith) refl in
      let s2 = accept-other d _ _ (error_port a) 0 idle (omega arith) s1 in
      let s3 = accept-other d _ _ (sector_count_port a) 1 idle (omega arith) s2 in
      let s4 = accept-other d _ _ (lba_low_port a) _ idle (omega arith) s3 in
      let s5 = accept-other d _ _ (lba_mid_port a) _ idle (omega arith) s4 in
      let s6 = accept-other d _ _ (lba_high_port a) _ idle (omega arith) s5 in
      accept-command d _ _ idle s6 chosen
      ∙ ap
          (λ n. record d {
            registers = send_read registers a lba r0;
            busy = delay n;
            words = word (disk n);
            position = 0;
          })
          same

  -- A read of the status, and of a word that is there.
  pub read_status-command :
      (d : Device) (port : ℕ)
      → port ≡ command_port a
      → read_status d port ≡ (status d.busy, record d { busy = less d.busy })
  unfolding read_status
  read_status-command d port e = rw (==_of_eq port (command_port a) e) refl

  pub read_data-ready :
      (d : Device)
      → d.busy ≡ 0
      → d.position < 256
      → read_data d a.port_base ≡ (d.words d.position, record d { position = d.position + 1 })
  unfolding read_data
  read_data-ready d idle more =
      let left : ltb d.position 256 ≡ true = ground arith in
      rw (==_of_eq a.port_base a.port_base refl, ==_of_eq d.busy 0 idle, left) refl
