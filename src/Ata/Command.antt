-- ===== src/Ata/Command.antt =====
-- The bytes of the read command, and what a drive reads from them.
use pros.Prelude.{
  ◌>>>◌, ℕ, ◌+◌, ◌*◌, ◌/◌, ◌%◌, ◌^◌, ◌<◌, ◌≡◌, arith, ◌∙◌, ap, Bool, true, false, if◌then◌else◌, u8,
  bit_and, bit_or, ◌==◌,
}
use pros.Bits.Masks.{bit_and-mask, bit_and-shifted, bit_or-fields}
use pros.Port.{Bus}
use pros.Ata.{
  Ata, send_read, error_port, sector_count_port, lba_low_port, lba_mid_port, lba_high_port,
  device_port, command_port,
}

-- The registers of a drive, as the last write to each port left them.
abbrev pub Registers : Type 0
Registers = ℕ → ℕ

abbrev pub latch : Registers → ℕ → ℕ → Registers
latch r port value p = if p == port then value else r p

-- A machine that only keeps what is written.
abbrev pub registers : Bus
registers = record {
  State = Registers;
  outb = latch;
  outw = latch;
  outl = latch;
  inb = λ r p. (r p, r);
  inw = λ r p. (r p, r);
  inl = λ r p. (r p, r);
}

-- The sector number that a drive reads from its registers, and the drive that is selected.
abbrev pub selected_lba : Ata → Registers → ℕ
selected_lba a r =
    r (device_port a) % 16 * 2 ^ 24
    + r (lba_high_port a) * 2 ^ 16
    + r (lba_mid_port a) * 2 ^ 8
    + r (lba_low_port a)

lba_bytes :
    (lba : ℕ)
    → lba < 2 ^ 28
    → (bit_and lba 0x0F000000 / 2 ^ 24 ≡ lba / 2 ^ 24)
      × (bit_and lba 0xFF ≡ lba % 2 ^ 8)
      × (bit_and lba 0xFF00 / 2 ^ 8 ≡ lba / 2 ^ 8 % 2 ^ 8)
      × (bit_and lba 0xFF0000 / 2 ^ 16 ≡ lba / 2 ^ 16 % 2 ^ 8)
lba_bytes lba h = (
  omega (arith, bit_and-shifted 24 lba 15, bit_and-mask 4 (lba / 2 ^ 24)),
  bit_and-mask 8 lba,
  omega (arith, bit_and-shifted 8 lba 255, bit_and-mask 8 (lba / 2 ^ 8)),
  omega (arith, bit_and-shifted 16 lba 255, bit_and-mask 8 (lba / 2 ^ 16)),
)

select_byte :
    (master : Bool) (high : ℕ)
    → high < 16
    → u8 (bit_or (if master then 0xE0 else 0xF0) high) ≡ (if master then 0xE0 else 0xF0) + high
select_byte true high h = omega (arith, bit_or-fields 4 14 high h)
select_byte false high h = omega (arith, bit_or-fields 4 15 high h)

-- The seven writes, at ports that follow each other.
written :
    (b p1 p2 p3 p4 p5 p6 p7 : ℕ)
    → (p1 ≡ b + 1)
      × (p2 ≡ b + 2)
      × (p3 ≡ b + 3)
      × (p4 ≡ b + 4)
      × (p5 ≡ b + 5)
      × (p6 ≡ b + 6)
      × (p7 ≡ b + 7)
    → (r : Registers) (v1 v2 v3 v4 v5 v6 v7 : ℕ)
    → let r' =
        latch
          (latch (latch (latch (latch (latch (latch r p6 v6) p1 v1) p2 v2) p3 v3) p4 v4) p5 v5)
          p7
          v7 in
      (r' p2 ≡ v2) × (r' p3 ≡ v3) × (r' p4 ≡ v4) × (r' p5 ≡ v5) × (r' p6 ≡ v6) × (r' p7 ≡ v7)
written b p1 p2 p3 p4 p5 p6 p7 (e1, e2, e3, e4, e5, e6, e7) r v1 v2 v3 v4 v5 v6 v7 =
    (ground arith, ground arith, ground arith, ground arith, ground arith, ground arith)

-- The four fields of a sector number.
join_fields :
    (lba : ℕ) (master : Bool) (device high mid low : ℕ)
    → lba < 2 ^ 28
    → device ≡ (if master then 0xE0 else 0xF0) + lba / 2 ^ 24
    → high ≡ u8 (lba / 2 ^ 16 % 2 ^ 8)
    → mid ≡ u8 (lba / 2 ^ 8 % 2 ^ 8)
    → low ≡ u8 (lba % 2 ^ 8)
    → (device % 16 * 2 ^ 24 + high * 2 ^ 16 + mid * 2 ^ 8 + low ≡ lba)
      × (device / 16 ≡ (if master then 0xE else 0xF))
join_fields lba true device high mid low h d e1 e2 e3 = (omega arith, omega arith)
join_fields lba false device high mid low h d e1 e2 e3 = (omega arith, omega arith)

-- For a sector number of 28 bits and ports that do not wrap around, the writes of `readSector`
-- leave registers from which the drive reads that number, one sector as the count, the read
-- command, LBA mode, and the drive that the object stands for.
pub send_read-selected_lba :
    (a : Ata) (lba : ℕ) (r : Registers)
    → a.port_base + 7 < 2 ^ 16
    → lba < 2 ^ 28
    → let r' = send_read registers a lba r in
      (selected_lba a r' ≡ lba)
      × (r' (sector_count_port a) ≡ 1)
      × (r' (command_port a) ≡ 0x20)
      × (r' (device_port a) / 16 ≡ (if a.master then 0xE else 0xF))
unfolding send_read
send_read-selected_lba a lba r ports h =
    let (count, low, mid, high, device, cmd) =
      written a.port_base (error_port a) (sector_count_port a) (lba_low_port a) (lba_mid_port a)
        (lba_high_port a) (device_port a) (command_port a)
        (omega arith, omega arith, omega arith, omega arith, omega arith, omega arith, omega arith)
        r 0 1 (u8 (bit_and lba 0xFF)) (u8 (bit_and lba 0xFF00 >>> 8))
        (u8 (bit_and lba 0xFF0000 >>> 16))
        (u8 (bit_or (if a.master then 0xE0 else 0xF0) (bit_and lba 0x0F000000 >>> 24))) 0x20 in
    let (h1, h2, h3, h4) = lba_bytes lba h in
    let sel = select_byte a.master (lba / 2 ^ 24) (omega arith) in
    let base = if a.master then 0xE0 else 0xF0 in
    let (joined, selected) =
      join_fields lba a.master _ _ _ _ h (device ∙ ap (λ x. u8 (bit_or base x)) h1 ∙ sel)
        (high ∙ ap u8 h4) (mid ∙ ap u8 h3) (low ∙ ap u8 h2) in
    (joined, count, cmd, selected)
