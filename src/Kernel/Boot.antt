-- ===== src/Kernel/Boot.antt =====
-- The first stage of `kmain`: the descriptor tables are in memory, and the memory map is still there
-- when the allocator reads it.
use mathlib.Core.Path.{subst, sym}
use pros.Prelude.{
  ℕ, ◌+◌, ◌-◌, ◌*◌, ◌^◌, ◌≤◌, ◌<◌, ◌≡◌, ◌⊎◌, refl, arith, ◌∙◌, ap, some, List, length, ltb,
  if◌then◌else◌,
}
use pros.Memory.{Mem, load8}
use pros.Memory.Laws.{load16-ext, load32-ext}
use pros.Vga.{Vga, clear}
use pros.Gdt as Gdt
use pros.Gdt.Descriptor.{read_segment, segment, init-segments}
use pros.Gdt.Outside as GdtOutside
use pros.Idt.{entry_size, remap}
use pros.Idt as Idt
use pros.Idt.Gates.{read_gate, gate, init-gates}
use pros.Idt.Outside as IdtOutside
use pros.MemoryManager.{MemoryManager}
use pros.MemoryManager.Init.{add_lengths, init_pmm}
use pros.MemoryManager.BootMap.{mmap_length, mmap_addr}
use pros.MemoryManager.Layout.{Sized, entries, extent, HasEntries, HasEntries-ext, init-init_vmm}
use pros.Paging.{phys_2_virt, init_vmm}
use pros.Kernel.{Setup, stage_1}

-- Both descriptor tables as the processor reads them.
pub record HasTables (m : Mem) (gdt idt : ℕ) (isr irq : ℕ → ℕ) : Type 0 where
  pub null : read_segment m gdt ≡ segment 0 0 0 0
  pub kernel_code : read_segment m (gdt + 8) ≡ segment 0 0xFFFFF 0x9A 0xC
  pub kernel_data : read_segment m (gdt + 16) ≡ segment 0 0xFFFFF 0x92 0xC
  pub user_code : read_segment m (gdt + 24) ≡ segment 0 0xFFFFF 0xFA 0xC
  pub user_data : read_segment m (gdt + 32) ≡ segment 0 0xFFFFF 0xF2 0xC
  pub exceptions : (k : ℕ) → k < 32 → read_gate m (idt + k * entry_size) ≡ gate (isr k) 0x08 0x8E
  pub hardware :
      (k : ℕ) → k < 16 → read_gate m (idt + (k + 32) * entry_size) ≡ gate (irq k) 0x08 0x8E

read_segment-ext :
    (m m' : Mem) (e : ℕ)
    → ((b : ℕ) → e ≤ b → b < e + 8 → load8 m' b ≡ load8 m b)
    → read_segment m' e ≡ read_segment m e
unfolding read_segment
read_segment-ext m m' e same = ground (
  arith,
  load16-ext m' m e (λ b lo hi. same b lo (omega arith)),
  load16-ext m' m (e + 2) (λ b lo hi. same b (omega arith) (omega arith)),
  same (e + 4) (omega arith) (omega arith),
  same (e + 5) (omega arith) (omega arith),
  same (e + 6) (omega arith) (omega arith),
  same (e + 7) (omega arith) (omega arith),
)

module _ (gdt idt : ℕ) (isr irq : ℕ → ℕ) (apart : (gdt + 40 < idt) ⊎ (idt + 2048 < gdt))
    (small : (n : ℕ) → (isr n < 2 ^ 32) × (irq n < 2 ^ 32)) where
  -- Off both tables, and off the byte behind each.
  abbrev pub OffTables : ℕ → Type 0
  OffTables b = ((b < gdt) ⊎ (gdt + 40 < b)) × ((b < idt) ⊎ (idt + 2048 < b))

  abbrev with_gdt : Mem → Mem
  with_gdt m = (Gdt.init m gdt).1

  abbrev pub with_tables : Mem → Mem
  with_tables m = (Idt.init (with_gdt m) idt isr irq).1

  pub outside : (m : Mem) (b : ℕ) → OffTables b → load8 (with_tables m) b ≡ load8 m b
  outside m b off =
      IdtOutside.init-outside (with_gdt m) idt isr irq b off.1
      ∙ GdtOutside.init-outside m gdt b off.0

  gates :
      (m : Mem) (k : ℕ)
      → k < 256
      → read_gate (with_tables m) (idt + k * entry_size) ≡ (
          if ltb k 32
          then gate (isr k) 0x08 0x8E
          else if ltb k 48
          then gate (irq (k - 32)) 0x08 0x8E
          else gate 0 0 0)
  gates m k lt = (init-gates (with_gdt m) idt isr irq k (λ n. (small n).0) (λ n. (small n).1) lt).0

  tables : (m : Mem) → HasTables (with_tables m) gdt idt isr irq
  tables m =
      let s = init-segments m gdt in
      let keep : (i : ℕ)
          → i ≤ 32
          → read_segment (with_tables m) (gdt + i) ≡ read_segment (with_gdt m) (gdt + i) =
        λ i le.
          read_segment-ext (with_gdt m) (with_tables m) (gdt + i)
            (λ b lo hi. IdtOutside.init-outside (with_gdt m) idt isr irq b (omega arith)) in
      record {
        null =
            read_segment-ext (with_gdt m) (with_tables m) gdt
              (λ b lo hi. IdtOutside.init-outside (with_gdt m) idt isr irq b (omega arith))
            ∙ s.0;
        kernel_code = keep 8 (omega arith) ∙ s.1;
        kernel_data = keep 16 (omega arith) ∙ s.2;
        user_code = keep 24 (omega arith) ∙ s.3;
        user_data = keep 32 (omega arith) ∙ s.4;
        exceptions = λ k lt. gates m k (omega arith) ∙ ground arith;
        hardware = λ k lt.
            let same : k + 32 - 32 ≡ k = omega arith in
            gates m (k + 32) (omega arith) ∙ ground (arith, ap (λ n. gate (irq n) 0x08 0x8E) same);
      }

  -- The state of the allocator when `initVMM` starts, for a memory map with these entries.
  abbrev pub before_vmm : MemoryManager → (kernel_end : ℕ) → List Sized → MemoryManager
  before_vmm mm kernel_end es =
      init_pmm
        (record mm {
          mem = with_tables mm.mem;
          memory_size = add_lengths mm.memory_size (entries es);
        })
        kernel_end (entries es)

  abbrev pub set_up : Vga → MemoryManager → (kernel_end : ℕ) → List Sized → Setup
  set_up v mm kernel_end es = record {
    screen = clear v;
    gdt = (Gdt.init mm.mem gdt).0;
    idt = (Idt.init (with_gdt mm.mem) idt isr irq).0;
    controllers = remap;
    cr3 = (init_vmm (before_vmm mm kernel_end es)).0;
    manager = (init_vmm (before_vmm mm kernel_end es)).1;
  }

  pub stage_1-run :
      (fuel : ℕ) (v : Vga) (mm : MemoryManager) (kernel_end phys_mbi : ℕ) (es : List Sized)
      → length es < fuel
      → mm.memory_size < 2 ^ 32
      → mmap_length mm.mem (phys_2_virt phys_mbi) ≡ extent es
      → ((b : ℕ) → phys_2_virt phys_mbi + 44 ≤ b → b < phys_2_virt phys_mbi + 52 → OffTables b)
      → let p = phys_2_virt (mmap_addr mm.mem (phys_2_virt phys_mbi)) in
        p + extent es < 2 ^ 32
        → ((b : ℕ)
            → p ≤ b
            → b < p + extent es
            → OffTables b × ((b < kernel_end) ⊎ (kernel_end + 2 ^ 18 ≤ b)))
        → HasEntries mm.mem p es
        → stage_1 fuel gdt idt isr irq kernel_end phys_mbi v mm ≡ some (set_up v mm kernel_end es)
  unfolding stage_1 mmap_length mmap_addr
  stage_1-run fuel v mm kernel_end phys_mbi es enough fits size off_mbi fits_map off h =
      let m = with_tables mm.mem in
      let mbi = phys_2_virt phys_mbi in
      let p = phys_2_virt (mmap_addr mm.mem mbi) in
      let same_length : mmap_length m mbi ≡ mmap_length mm.mem mbi =
        load32-ext m mm.mem (mbi + 44) (λ b lo hi. outside mm.mem b (off_mbi b lo (omega arith))) in
      let same_addr : mmap_addr m mbi ≡ mmap_addr mm.mem mbi =
        load32-ext m mm.mem (mbi + 48)
          (λ b lo hi. outside mm.mem b (off_mbi b (omega arith) (omega arith))) in
      let same_p : phys_2_virt (mmap_addr m mbi) ≡ p = ap phys_2_virt same_addr in
      let h' : HasEntries m p es =
        HasEntries-ext mm.mem m p es (λ b lo hi. outside mm.mem b (off b lo hi).0) h in
      let run =
        init-init_vmm fuel (record mm { mem = m }) kernel_end phys_mbi es enough fits
          (same_length ∙ size) (omega arith) (λ b lo hi. (off b (omega arith) (omega arith)).1)
          (subst (λ q. HasEntries m q es) (sym same_p) h') in
      rw (stage_1, run) refl

  -- Stubs at 32-bit addresses, tables that do not overlap, a memory map of 32-bit addresses that lies in
  -- memory entry by entry, off the tables and the bytes that the bitmap can take, the two words of the
  -- boot loader's structure off the tables, and more fuel than entries: the first stage of `kmain`
  -- returns. Memory then has both tables, as the processor reads them, and is otherwise as before when
  -- the allocator starts, and the state is the one that `initVMM` makes of the state that `initPMM`
  -- leaves for the list of the entries, where the memory size is the sum of their lengths.
  pub stage_1-init_vmm :
      (fuel : ℕ) (v : Vga) (mm : MemoryManager) (kernel_end phys_mbi : ℕ) (es : List Sized)
      → length es < fuel
      → mm.memory_size < 2 ^ 32
      → mmap_length mm.mem (phys_2_virt phys_mbi) ≡ extent es
      → ((b : ℕ) → phys_2_virt phys_mbi + 44 ≤ b → b < phys_2_virt phys_mbi + 52 → OffTables b)
      → let p = phys_2_virt (mmap_addr mm.mem (phys_2_virt phys_mbi)) in
        p + extent es < 2 ^ 32
        → ((b : ℕ)
            → p ≤ b
            → b < p + extent es
            → OffTables b × ((b < kernel_end) ⊎ (kernel_end + 2 ^ 18 ≤ b)))
        → HasEntries mm.mem p es
        → (m : Mem) × (s : Setup) × (stage_1 fuel gdt idt isr irq kernel_end phys_mbi v mm ≡ some s)
          × HasTables m gdt idt isr irq
          × ((b : ℕ) → OffTables b → load8 m b ≡ load8 mm.mem b)
          × ((s.cr3, s.manager)
              ≡ init_vmm (
                  init_pmm
                    (record mm { mem = m; memory_size = add_lengths mm.memory_size (entries es) })
                    kernel_end
                    (entries es)))
          × (s.screen ≡ clear v)
          × (s.controllers ≡ remap)
          × (s.gdt.base ≡ gdt)
          × (s.idt.base ≡ idt)
  stage_1-init_vmm fuel v mm kernel_end phys_mbi es enough fits size off_mbi fits_map off h = (
    with_tables mm.mem,
    set_up v mm kernel_end es,
    stage_1-run fuel v mm kernel_end phys_mbi es enough fits size off_mbi fits_map off h,
    tables mm.mem,
    outside mm.mem,
    refl,
    refl,
    refl,
    (init-segments mm.mem gdt).5,
    (init-gates (with_gdt mm.mem) idt isr irq 0 (λ n. (small n).0) (λ n. (small n).1)
        (omega arith)).1,
  )
