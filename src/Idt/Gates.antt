-- ===== src/Idt/Gates.antt =====
-- The gates that the processor finds in the table of `init`.
use pros.Prelude.{
  ℕ, zero, suc, if◌then◌else◌, leb, ltb, leb_of_le, ltb_of_lt, ℕ_discrete, ◌&&◌, ◌+◌, ◌-◌, ◌*◌, ◌/◌,
  ◌%◌, ◌^◌, ◌≤◌, ◌<◌, ◌≡◌, ◌≢◌, ◌⊎◌, refl, arith, ◌∙◌, ap, bit_and,
}
use pros.Bits.Masks.{bit_and-mask}
use pros.Memory.{Mem, load8, store8, load16, store16}
use pros.Memory.Laws.{load16-ext}
use pros.CString.{memset}
use pros.CString.Block.{memset_lem}
use pros.Idt.{entry_size, set_entry, set_handlers, init}

-- A gate as the processor takes it apart.
pub record Gate : Type 0 where
  pub handler : ℕ
  pub selector : ℕ
  pub zero_byte : ℕ
  pub flags : ℕ

unfoldable pub read_gate : Mem → ℕ → Gate
read_gate m e = record {
  handler = load16 m e + load16 m (e + 6) * 2 ^ 16;
  selector = load16 m (e + 2);
  zero_byte = load8 m (e + 4);
  flags = load8 m (e + 5);
}

abbrev pub gate : (handler selector flags : ℕ) → Gate
gate handler selector flags = record {
  handler = handler;
  selector = selector;
  zero_byte = 0;
  flags = flags;
}

module _ (m : Mem) (entries i base selector flags : ℕ) where
  abbrev e : ℕ
  e = entries + i * entry_size

  set_entry_handler_low :
      load16 (set_entry m entries i base selector flags) e ≡ bit_and base 0xFFFF % 2 ^ 16
  unfolding set_entry load16 load8 store8 store16
  set_entry_handler_low = ground arith

  set_entry_handler_high :
      load16 (set_entry m entries i base selector flags) (e + 6)
      ≡ bit_and (base / 2 ^ 16) 0xFFFF % 2 ^ 16
  unfolding set_entry load16 load8 store8 store16
  set_entry_handler_high = ground arith

  set_entry_selector :
      load16 (set_entry m entries i base selector flags) (e + 2) ≡ selector % 2 ^ 16
  unfolding set_entry load16 load8 store8 store16
  set_entry_selector = ground arith

  set_entry_rest :
      (load8 (set_entry m entries i base selector flags) (e + 4) ≡ 0)
      × (load8 (set_entry m entries i base selector flags) (e + 5) ≡ flags % 256)
  unfolding set_entry load8 store8 store16
  set_entry_rest = ground arith

  pub set_entry_outside :
      (b : ℕ)
      → (b < e) ⊎ (e + entry_size ≤ b)
      → load8 (set_entry m entries i base selector flags) b ≡ load8 m b
  unfolding set_entry load8 store8 store16
  set_entry_outside b out = ground arith

-- `setEntry` writes the gate that it was given.
pub set_entry-read_gate :
    (m : Mem) (entries i base selector flags : ℕ)
    → base < 2 ^ 32
    → selector < 2 ^ 16
    → flags < 256
    → read_gate (set_entry m entries i base selector flags) (entries + i * entry_size)
      ≡ gate base selector flags
unfolding read_gate
set_entry-read_gate m entries i base selector flags sb ss sf = ground (
  arith,
  set_entry_handler_low m entries i base selector flags,
  set_entry_handler_high m entries i base selector flags,
  set_entry_selector m entries i base selector flags,
  set_entry_rest m entries i base selector flags,
  bit_and-mask 16 base,
  bit_and-mask 16 (base / 2 ^ 16),
)

read_gate-ext :
    (m m' : Mem) (c : ℕ)
    → ((b : ℕ) → c ≤ b → b < c + entry_size → load8 m b ≡ load8 m' b)
    → read_gate m c ≡ read_gate m' c
unfolding read_gate
read_gate-ext m m' c same = ground (
  arith,
  load16-ext m m' c (λ b lo hi. same b lo (omega arith)),
  load16-ext m m' (c + 6) (λ b lo hi. same b (omega arith) (omega arith)),
  load16-ext m m' (c + 2) (λ b lo hi. same b (omega arith) (omega arith)),
  same (c + 4) (omega arith) (omega arith),
  same (c + 5) (omega arith) (omega arith),
)

read_gate-set_entry_ne :
    (m : Mem) (entries i k base selector flags : ℕ)
    → k ≢ i
    → read_gate (set_entry m entries i base selector flags) (entries + k * entry_size)
      ≡ read_gate m (entries + k * entry_size)
read_gate-set_entry_ne m entries i k base selector flags ne =
    read_gate-ext (set_entry m entries i base selector flags) m (entries + k * entry_size)
      (λ b lo hi. set_entry_outside m entries i base selector flags b (grind arith))

read_gate-set_handlers :
    (m : Mem) (entries : ℕ) (handler : ℕ → ℕ) (left i k : ℕ)
    → ((n : ℕ) → handler n < 2 ^ 32)
    → read_gate (set_handlers m entries handler left i) (entries + k * entry_size) ≡ (
        if leb i k && ltb k (i + left)
        then gate (handler k) 0x08 0x8E
        else read_gate m (entries + k * entry_size))
unfolding set_handlers
read_gate-set_handlers m entries handler zero i k small = ground arith
read_gate-set_handlers m entries handler (suc left) i k small =
    let m' = set_entry m entries i (handler i) 0x08 0x8E in
    let rest = read_gate-set_handlers m' entries handler left (i + 1) k small in
    elim (ℕ_discrete k i) [
      | yes at ↦ ground (
        arith,
        rest,
        set_entry-read_gate m entries i (handler i) 0x08 0x8E (small i) (omega arith) (omega arith),
        ap (λ t. read_gate m' (entries + t * entry_size)) at,
        ap handler at,
      )
      | no ne ↦ ground (arith, rest, read_gate-set_entry_ne m entries i k (handler i) 0x08 0x8E ne)
    ]

cleared_byte :
    (m : Mem) (entries b : ℕ)
    → entries < b
    → b ≤ entries + entry_size * 256
    → load8 (memset m entries 0 (entry_size * 256)) b ≡ 0
cleared_byte m entries b lo hi =
    memset_lem m entries 0 (entry_size * 256) b
    ∙ rw (ltb_of_lt entries b lo, leb_of_le b (entries + entry_size * 256) hi)

cleared_gate :
    (m : Mem) (entries k : ℕ)
    → 0 < k
    → k < 256
    → read_gate (memset m entries 0 (entry_size * 256)) (entries + k * entry_size) ≡ gate 0 0 0
unfolding read_gate load16
cleared_gate m entries k pos small =
    let byte = λ (j : ℕ) (h : j < 8).
      cleared_byte m entries (entries + k * entry_size + j) (omega arith) (omega arith) in
    ground (
      arith,
      cleared_byte m entries (entries + k * entry_size) (omega arith) (omega arith),
      byte 1 (omega arith),
      byte 2 (omega arith),
      byte 3 (omega arith),
      byte 4 (omega arith),
      byte 5 (omega arith),
      byte 6 (omega arith),
      byte 7 (omega arith),
      cleared_byte m entries (entries + k * entry_size + 2 + 1) (omega arith) (omega arith),
      cleared_byte m entries (entries + k * entry_size + 6 + 1) (omega arith) (omega arith),
    )

-- For stubs at 32-bit addresses: after `init` the gates 0
-- to 31 lead to the exception stubs and 32 to 47 to the stubs of the hardware interrupts, all as
-- present 32-bit interrupt gates of the kernel's code segment, and the gates from 48 to 255 are all
-- zero, so not present. The pointer names the whole table.
pub init-gates :
    (m : Mem) (entries : ℕ) (isr irq : ℕ → ℕ) (k : ℕ)
    → ((n : ℕ) → isr n < 2 ^ 32)
    → ((n : ℕ) → irq n < 2 ^ 32)
    → k < 256
    → let (pointer, m') = init m entries isr irq in
      (read_gate m' (entries + k * entry_size) ≡ (
        if ltb k 32
        then gate (isr k) 0x08 0x8E
        else if ltb k 48
        then gate (irq (k - 32)) 0x08 0x8E
        else gate 0 0 0))
      × (pointer.base ≡ entries)
      × (pointer.limit + 1 ≡ 256 * entry_size)
unfolding init
init-gates m entries isr irq k hs hq small =
    let m0 = memset m entries 0 (entry_size * 256) in
    let m1 = set_handlers m0 entries isr 32 0 in
    let exceptions = read_gate-set_handlers m0 entries isr 32 0 k hs in
    let hardware =
      read_gate-set_handlers m1 entries (λ i. irq (i - 32)) 16 32 k (λ n. hq (n - 32)) in
    (ground (arith, exceptions, hardware, cleared_gate m entries k), refl, refl)
