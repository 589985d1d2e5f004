-- ===== src/Idt.antt =====
-- Interrupts, Kernel/include/Hardware/IDT.hpp and Kernel/src/Hardware/IDT.cpp: the gates as bytes of
-- the table at `entries`, and the port writes to the two interrupt controllers, in order.
-- The addresses of the assembly stubs `isr0` to `irq15` are parameters.
pub mod Gates
pub mod Controller
pub mod Outside
mod Tests
use pros.Prelude.{
  ℕ, zero, suc, ◌+◌, ◌-◌, ◌*◌, ◌^◌, List, [], ◌∷◌, ◌++◌, leb, if◌then◌else◌, u8, bit_and, ◌>>>◌,
}
use pros.Memory.{Mem, store8, store16}
use pros.CString.{memset}
use pros.Port.{Output, output}

-- `sizeof(IDTEntry)`; the fields stand at offsets 0 (baseLow), 2 (selector), 4 (zero), 5 (flags)
-- and 6 (baseHigh).
abbrev pub entry_size : ℕ
entry_size = 8

abbrev pub hardware_interrupt_offset : ℕ
hardware_interrupt_offset = 0x20

unfoldable pub set_entry : Mem → (entries i base selector flags : ℕ) → Mem
set_entry m entries i base selector flags =
    let e = entries + i * entry_size in
    let m = store16 m e (bit_and base 0xFFFF) in
    let m = store16 m (e + 6) (bit_and (base >>> 16) 0xFFFF) in
    let m = store8 m (e + 5) flags in let m = store16 m (e + 2) selector in store8 m (e + 4) 0

-- The calls of `setEntry` in `init`: the handlers from number `i` on.
unfoldable pub set_handlers : Mem → (entries : ℕ) (handler : ℕ → ℕ) (left i : ℕ) → Mem
set_handlers m entries handler zero i = m
set_handlers m entries handler (suc left) i =
    set_handlers (set_entry m entries i (handler i) 0x08 0x8E) entries handler left (i + 1)

-- What is handed to `lidt`.
pub record IdtPointer : Type 0 where
  pub limit : ℕ
  pub base : ℕ

-- `isr k` and `irq k` are the addresses of the stubs.
unfoldable pub init : Mem → (entries : ℕ) (isr irq : ℕ → ℕ) → IdtPointer × Mem
init m entries isr irq =
    let m = memset m entries 0 (entry_size * 256) in
    let m = set_handlers m entries isr 32 0 in
    let m = set_handlers m entries (λ i. irq (i - 0x20)) 16 0x20 in
    (record { limit = entry_size * 256 - 1; base = entries }, m)

abbrev pub master_command : ℕ
master_command = 0x20

abbrev pub master_data : ℕ
master_data = 0x21

abbrev pub slave_command : ℕ
slave_command = 0xA0

abbrev pub slave_data : ℕ
slave_data = 0xA1

-- The constructor of `InterruptManager`, its writes in order.
unfoldable pub remap : List Output
remap =
    output master_command 0x11
    ∷ output slave_command 0x11
    ∷ output master_data hardware_interrupt_offset
    ∷ output slave_data (hardware_interrupt_offset + 8)
    ∷ output master_data 0x04
    ∷ output slave_data 0x02
    ∷ output master_data 0x01
    ∷ output slave_data 0x01
    ∷ output master_data 0x00
    ∷ output slave_data 0x00
    ∷ []

-- `handleInterrupt`: the writes that it makes, in order.
unfoldable pub handle_interrupt : (interrupt : ℕ) → List Output
handle_interrupt interrupt =
    output master_command 0x20 ∷ (if leb 40 interrupt then output 0xA0 0x20 ∷ [] else [])
