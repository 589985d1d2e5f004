-- ===== src/Gdt/Tests.antt =====
-- The table at address 4096 of a zeroed memory.
use pros.Prelude.{ℕ, ◌+◌, ◌≡◌, arith, ◌&&◌, leb, if◌then◌else◌}
use pros.Memory.{Mem, load8}
use pros.Gdt.{entry_size, set_entry}
use pros.Gdt.Descriptor.{read_segment, segment, set_entry-read_segment}

abbrev zeros : Mem
zeros a = 0

set_entry-read_segment_example :
    let m' = set_entry zeros 4096 1 0 0xFFFFFFFF 0x9A 0xCF in
    (read_segment m' 4104 ≡ segment 0 0xFFFFF 0x9A 0xC)
    × (load8 m' (4104 + entry_size) ≡ 0)
    × ((b : ℕ)
        → load8 m' b
          ≡ (if leb 4104 b && leb b (4104 + entry_size) then load8 m' b else load8 zeros b))
set_entry-read_segment_example =
    set_entry-read_segment zeros 4096 1 0 0xFFFFFFFF 0x9A 0xCF (omega arith) (omega arith)
      (omega arith)
