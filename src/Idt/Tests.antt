-- ===== src/Idt/Tests.antt =====
-- A table at address 4096 with stubs 16 bytes apart, and controllers in the middle of something.
use pros.Prelude.{ℕ, ◌+◌, ◌-◌, ◌*◌, ◌≡◌, arith, ltb, ◌==◌, if◌then◌else◌, none, some, u32}
use pros.Memory.{Mem}
use pros.Idt.{entry_size, init, remap, master_command, master_data, slave_command, slave_data}
use pros.Idt.Gates.{read_gate, gate, init-gates}
use pros.Idt.Controller.{Controller, run, deliver, remap-vectors}

abbrev zeros : Mem
zeros a = 0

abbrev isr : ℕ → ℕ
isr n = u32 (0x1000 + 16 * n)

abbrev irq : ℕ → ℕ
irq n = u32 (0x2000 + 16 * n)

abbrev busy : Controller
busy = record { expects = 3; offset = 8; wiring = 4; mode = 0; mask = 255; handled = 5 }

init-gates_example :
    let (pointer, m') = init zeros 4096 isr irq in
    (read_gate m' (4096 + 33 * entry_size) ≡ (
      if ltb 33 32
      then gate (isr 33) 0x08 0x8E
      else if ltb 33 48
      then gate (irq (33 - 32)) 0x08 0x8E
      else gate 0 0 0))
    × (pointer.base ≡ 4096)
    × (pointer.limit + 1 ≡ 256 * entry_size)
init-gates_example =
    init-gates zeros 4096 isr irq 33 (λ n. omega arith) (λ n. omega arith) (omega arith)

remap-vectors_example :
    deliver (run master_command master_data busy remap) (run slave_command slave_data busy remap) 14
    ≡ (if 14 == 2 then none else some (32 + 14))
remap-vectors_example = remap-vectors busy busy 14 (omega arith)
