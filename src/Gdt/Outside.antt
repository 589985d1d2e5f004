-- ===== src/Gdt/Outside.antt =====
-- The bytes that `GDT::init` leaves alone.
use pros.Prelude.{ℕ, ◌+◌, ◌*◌, ◌<◌, ◌≡◌, ◌⊎◌, arith, ◌∙◌}
use pros.Memory.{Mem, load8}
use pros.Gdt.{entry_size, set_entry, init}
use pros.Gdt.Descriptor.{set_entry-read_segment}

set_entry-outside :
    (m : Mem) (entries i limit access gran b : ℕ)
    → access < 256
    → gran < 256
    → (b < entries + i * entry_size) ⊎ (entries + i * entry_size + entry_size < b)
    → load8 (set_entry m entries i 0 limit access gran) b ≡ load8 m b
set_entry-outside m entries i limit access gran b small small' out =
    (set_entry-read_segment m entries i 0 limit access gran (omega arith) small small').2 b
    ∙ ground arith

-- The table has 40 bytes, and `memset` clears the one behind it.
pub init-outside :
    (m : Mem) (entries b : ℕ)
    → (b < entries) ⊎ (entries + 40 < b)
    → load8 (init m entries).1 b ≡ load8 m b
unfolding init
init-outside m entries b out =
    set_entry-outside _ entries 4 0xFFFFFFFF 0xF2 0xCF b (omega arith) (omega arith) (omega arith)
    ∙ set_entry-outside _ entries 3 0xFFFFFFFF 0xFA 0xCF b (omega arith) (omega arith) (omega arith)
    ∙ set_entry-outside _ entries 2 0xFFFFFFFF 0x92 0xCF b (omega arith) (omega arith) (omega arith)
    ∙ set_entry-outside _ entries 1 0xFFFFFFFF 0x9A 0xCF b (omega arith) (omega arith) (omega arith)
    ∙ set_entry-outside m entries 0 0 0 0 b (omega arith) (omega arith) (omega arith)
