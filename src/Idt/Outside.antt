-- ===== src/Idt/Outside.antt =====
-- The bytes that `InterruptManager::init` leaves alone.
use pros.Prelude.{ℕ, zero, suc, ◌+◌, ◌-◌, ◌*◌, ◌≤◌, ◌<◌, ◌≡◌, ◌⊎◌, refl, arith, ◌∙◌}
use pros.Memory.{Mem, load8}
use pros.CString.Block.{memset_lem}
use pros.Idt.{entry_size, set_entry, set_handlers, init}
use pros.Idt.Gates.{set_entry_outside}

set_handlers-outside :
    (m : Mem) (entries : ℕ) (handler : ℕ → ℕ) (left i b : ℕ)
    → (b < entries + i * entry_size) ⊎ (entries + (i + left) * entry_size ≤ b)
    → load8 (set_handlers m entries handler left i) b ≡ load8 m b
unfolding set_handlers
set_handlers-outside m entries handler zero i b out = refl
set_handlers-outside m entries handler (suc left) i b out =
    set_handlers-outside (set_entry m entries i (handler i) 0x08 0x8E) entries handler left (i + 1)
      b (omega arith)
    ∙ set_entry_outside m entries i (handler i) 0x08 0x8E b (omega arith)

-- The table has 2048 bytes, and `memset` clears the one behind it.
pub init-outside :
    (m : Mem) (entries : ℕ) (isr irq : ℕ → ℕ) (b : ℕ)
    → (b < entries) ⊎ (entries + 2048 < b)
    → load8 (init m entries isr irq).1 b ≡ load8 m b
unfolding init
init-outside m entries isr irq b out =
    set_handlers-outside _ entries (λ i. irq (i - 0x20)) 16 32 b (omega arith)
    ∙ set_handlers-outside _ entries isr 32 0 b (omega arith)
    ∙ ground (arith, memset_lem m entries 0 (entry_size * 256) b)
