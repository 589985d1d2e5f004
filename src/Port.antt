-- ===== src/Port.antt =====
-- The port accesses of Kernel/src/Hardware/Port.cpp: each is one instruction, and the machine that
-- answers it is not part of the program.
use pros.Prelude.{ℕ, u8, u16, u32}

-- A write of a byte to a port, `Port8Bit::write`.
pub record Output : Type 0 where
  pub port : ℕ
  pub value : ℕ

abbrev pub output : ℕ → ℕ → Output
output port value = record { port = port; value = value }

-- The machine behind the ports: its state, and how it answers the instructions.
pub record Bus : Type 1 where
  pub State : Type 0
  pub outb : State → (port value : ℕ) → State
  pub outw : State → (port value : ℕ) → State
  pub outl : State → (port value : ℕ) → State
  pub inb : State → ℕ → ℕ × State
  pub inw : State → ℕ → ℕ × State
  pub inl : State → ℕ → ℕ × State

-- `class Port`; its constructor, as those of the classes below it, takes a u16.
pub record Port : Type 0 where
  pub port_number : ℕ

unfoldable pub construct : ℕ → Port
construct port_number = record { port_number = u16 port_number }

-- The methods `write` and `read` of the four classes. The slow one has two jumps behind its `outb`,
-- which only take time.
module _ (bus : Bus) where
  unfoldable pub write8 : Port → ℕ → bus.State → bus.State
  write8 p value s = bus.outb s p.port_number (u8 value)

  unfoldable pub read8 : Port → bus.State → ℕ × bus.State
  read8 p s = bus.inb s p.port_number

  unfoldable pub write8_slow : Port → ℕ → bus.State → bus.State
  write8_slow p value s = bus.outb s p.port_number (u8 value)

  unfoldable pub read8_slow : Port → bus.State → ℕ × bus.State
  read8_slow p s = bus.inb s p.port_number

  unfoldable pub write16 : Port → ℕ → bus.State → bus.State
  write16 p value s = bus.outw s p.port_number (u16 value)

  unfoldable pub read16 : Port → bus.State → ℕ × bus.State
  read16 p s = bus.inw s p.port_number

  unfoldable pub write32 : Port → ℕ → bus.State → bus.State
  write32 p value s = bus.outl s p.port_number (u32 value)

  unfoldable pub read32 : Port → bus.State → ℕ × bus.State
  read32 p s = bus.inl s p.port_number
