-- ===== src/Gdt.antt =====
-- The segment descriptors, Kernel/include/Hardware/GDT.hpp and Kernel/src/Hardware/GDT.cpp, as bytes
-- of the table at `entries`.
pub mod Descriptor
pub mod Outside
mod Tests
use pros.Prelude.{ℕ, ◌+◌, ◌-◌, ◌*◌, ◌^◌, u8, u16, bit_and, bit_or, ◌>>>◌}
use pros.Memory.{Mem, load8, store8, store16}
use pros.CString.{memset}

-- `sizeof(GDTEntry)`; the fields stand at offsets 0 (limitLow), 2 (baseLow), 4 (baseMiddle),
-- 5 (access), 6 (granularity) and 7 (baseHigh).
abbrev pub entry_size : ℕ
entry_size = 8

abbrev pub max_entries : ℕ
max_entries = 5

unfoldable pub set_entry : Mem → (entries i base limit access gran : ℕ) → Mem
set_entry m entries i base limit access gran =
    let e = entries + i * entry_size in
    let m = memset m e 0 entry_size in
    let m = store16 m (e + 2) (bit_and base 0xFFFF) in
    let m = store8 m (e + 4) (bit_and (base >>> 16) 0xFF) in
    let m = store8 m (e + 7) (bit_and (base >>> 24) 0xFF) in
    let m = store16 m e (bit_and limit 0xFFFF) in
    let m = store8 m (e + 6) (bit_and (limit >>> 16) 0x0F) in
    let m = store8 m (e + 6) (bit_or (load8 m (e + 6)) (bit_and gran 0xF0)) in
    store8 m (e + 5) access

-- What is handed to `lgdt`.
pub record GdtPointer : Type 0 where
  pub limit : ℕ
  pub base : ℕ

unfoldable pub init : Mem → (entries : ℕ) → GdtPointer × Mem
init m entries =
    let m = set_entry m entries 0 0 0 0 0 in
    let m = set_entry m entries 1 0 0xFFFFFFFF 0x9A 0xCF in
    let m = set_entry m entries 2 0 0xFFFFFFFF 0x92 0xCF in
    let m = set_entry m entries 3 0 0xFFFFFFFF 0xFA 0xCF in
    let m = set_entry m entries 4 0 0xFFFFFFFF 0xF2 0xCF in
    (record { limit = entry_size * max_entries - 1; base = entries }, m)
