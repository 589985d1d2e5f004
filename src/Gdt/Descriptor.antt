-- ===== src/Gdt/Descriptor.antt =====
-- What the processor reads from a descriptor that `setEntry` wrote, and from the table of `init`.
use pros.Prelude.{
  ℕ, if◌then◌else◌, leb, leb_of_le, dec_lt, ◌&&◌, ◌+◌, ◌*◌, ◌/◌, ◌%◌, ◌^◌, ◌≤◌, ◌<◌, ◌≡◌, ◌⊎◌, inl,
  inr, refl, arith, ◌∙◌, ap, bit_and, bit_or,
}
use pros.Bits.Masks.{bit_and-mask, bit_and-shifted, bit_or-fields, bit_or_comm}
use pros.Memory.{Mem, load8, store8, load16, store16}
use pros.Memory.Laws.{load16-ext}
use pros.CString.{memset}
use pros.CString.Block.{memset_lem}
use pros.Gdt.{entry_size, set_entry, init}

-- A segment descriptor as the processor takes it apart.
pub record Segment : Type 0 where
  pub base : ℕ
  pub limit : ℕ
  pub access : ℕ
  pub flags : ℕ

unfoldable pub read_segment : Mem → ℕ → Segment
read_segment m e = record {
  base = load16 m (e + 2) + load8 m (e + 4) * 2 ^ 16 + load8 m (e + 7) * 2 ^ 24;
  limit = load16 m e + load8 m (e + 6) % 16 * 2 ^ 16;
  access = load8 m (e + 5);
  flags = load8 m (e + 6) / 16;
}

abbrev pub segment : (base limit access flags : ℕ) → Segment
segment base limit access flags = record {
  base = base;
  limit = limit;
  access = access;
  flags = flags;
}

-- The byte of the limit's high bits and the flags.
granularity :
    (limit gran : ℕ)
    → gran < 256
    → bit_or (bit_and (limit / 2 ^ 16) 0x0F) (bit_and gran 0xF0)
      ≡ gran / 16 * 16 + limit / 2 ^ 16 % 16
granularity limit gran h =
    let low : bit_and (limit / 2 ^ 16) 0x0F ≡ limit / 2 ^ 16 % 16 =
      bit_and-mask 4 (limit / 2 ^ 16) in
    let high : bit_and gran 0xF0 ≡ gran / 16 * 2 ^ 4 =
      bit_and-shifted 4 gran 15 ∙ omega (arith, bit_and-mask 4 (gran / 16)) in
    rw (low, high)
      (bit_or_comm (limit / 2 ^ 16 % 16) (gran / 16 * 2 ^ 4)
        ∙ bit_or-fields 4 (gran / 16) (limit / 2 ^ 16 % 16) (omega arith))

-- The writes of `setEntry` behind the first, with any values.
abbrev put_fields : Mem → (e base_low base_middle base_high limit_low high gran access : ℕ) → Mem
put_fields m e base_low base_middle base_high limit_low high gran access =
    let m = store16 m (e + 2) base_low in
    let m = store8 m (e + 4) base_middle in
    let m = store8 m (e + 7) base_high in
    let m = store16 m e limit_low in
    let m = store8 m (e + 6) high in
    let m = store8 m (e + 6) (bit_or (load8 m (e + 6)) gran) in store8 m (e + 5) access

module _ (m : Mem) (e base_low base_middle base_high limit_low high gran access : ℕ) where
  abbrev put : Mem
  put = put_fields m e base_low base_middle base_high limit_low high gran access

  put_base_low : load16 put (e + 2) ≡ base_low % 2 ^ 16
  unfolding load16 load8 store8 store16
  put_base_low = ground arith

  put_base_middle : load8 put (e + 4) ≡ base_middle % 256
  unfolding load8 store8 store16
  put_base_middle = ground arith

  put_base_high : load8 put (e + 7) ≡ base_high % 256
  unfolding load8 store8 store16
  put_base_high = ground arith

  put_limit : load16 put e ≡ limit_low % 2 ^ 16
  unfolding load16 load8 store8 store16
  put_limit = ground arith

  put_gran : load8 put (e + 6) ≡ bit_or (high % 256) gran % 256
  unfolding load8 store8 store16
  put_gran = ground arith

  put_access : load8 put (e + 5) ≡ access % 256
  unfolding load8 store8 store16
  put_access = ground arith

  put_outside : (b : ℕ) → (b < e) ⊎ (e + entry_size ≤ b) → load8 put b ≡ load8 m b
  unfolding load8 store8 store16
  put_outside b out = ground arith

-- `setEntry` writes a descriptor from which the processor reads the base, the low 20 bits of the
-- limit, the access byte and the four flags that it was given. Besides the eight bytes of the entry
-- it clears the byte behind them, which is the first of the next entry; no other byte changes.
pub set_entry-read_segment :
    (m : Mem) (entries i base limit access gran : ℕ)
    → base < 2 ^ 32
    → access < 256
    → gran < 256
    → let e = entries + i * entry_size in
      let m' = set_entry m entries i base limit access gran in
      (read_segment m' e ≡ segment base (limit % 2 ^ 20) access (gran / 16))
      × (load8 m' (e + entry_size) ≡ 0)
      × ((b : ℕ)
          → load8 m' b ≡ (if leb e b && leb b (e + entry_size) then load8 m' b else load8 m b))
unfolding set_entry read_segment
set_entry-read_segment m entries i base limit access gran small_base small_access small_gran =
    let e = entries + i * entry_size in
    let cleared = memset m e 0 entry_size in
    let bl = bit_and base 0xFFFF in
    let bm = bit_and (base / 2 ^ 16) 0xFF in
    let bh = bit_and (base / 2 ^ 24) 0xFF in
    let ll = bit_and limit 0xFFFF in
    let hi = bit_and (limit / 2 ^ 16) 0x0F in
    let gr = bit_and gran 0xF0 in
    let low : hi ≡ limit / 2 ^ 16 % 16 = bit_and-mask 4 (limit / 2 ^ 16) in
    let byte : bit_or (hi % 256) gr % 256 ≡ gran / 16 * 16 + limit / 2 ^ 16 % 16 =
      ap (λ t. bit_or t gr % 256) {x = hi % 256} {y = hi} (omega arith)
      ∙ omega (arith, granularity limit gran small_gran) in
    let six = put_gran cleared e bl bm bh ll hi gr access ∙ byte in
    (
      ground (
        arith,
        put_base_low cleared e bl bm bh ll hi gr access,
        put_base_middle cleared e bl bm bh ll hi gr access,
        put_base_high cleared e bl bm bh ll hi gr access,
        put_limit cleared e bl bm bh ll hi gr access,
        put_access cleared e bl bm bh ll hi gr access,
        six,
        bit_and-mask 16 base,
        bit_and-mask 8 (base / 2 ^ 16),
        bit_and-mask 8 (base / 2 ^ 24),
        bit_and-mask 16 limit,
      ),
      put_outside cleared e bl bm bh ll hi gr access (e + entry_size) (inr (omega arith))
          ∙ ground (arith, memset_lem m e 0 entry_size (e + entry_size)),
      λ b. elim (dec_lt b e) [
        | yes lo ↦ ground (
          arith,
          put_outside cleared e bl bm bh ll hi gr access b (inl lo),
          memset_lem m e 0 entry_size b,
        )
        | no ge ↦ elim (dec_lt (e + entry_size) b) [
          | yes up ↦ ground (
            arith,
            put_outside cleared e bl bm bh ll hi gr access b (inr (omega arith)),
            memset_lem m e 0 entry_size b,
          )
          | no le ↦ rw (leb_of_le e b (omega arith), leb_of_le b (e + entry_size) (omega arith))
        ]
      ],
    )

-- An entry keeps its meaning while another entry, not the one before it, is written.
read_segment-set_entry_ne :
    (m : Mem) (entries i k base limit access gran : ℕ)
    → base < 2 ^ 32
    → access < 256
    → gran < 256
    → k < i
    → read_segment (set_entry m entries i base limit access gran) (entries + k * entry_size)
      ≡ read_segment m (entries + k * entry_size)
unfolding read_segment
read_segment-set_entry_ne m entries i k base limit access gran sb sa sg below =
    let m' = set_entry m entries i base limit access gran in
    let c = entries + k * entry_size in
    let same : (b : ℕ) → b < entries + i * entry_size → load8 m' b ≡ load8 m b = λ b h.
      (set_entry-read_segment m entries i base limit access gran sb sa sg).2 b ∙ ground arith in
    ground (
      arith,
      load16-ext m' m c (λ b lo hi. same b (omega arith)),
      load16-ext m' m (c + 2) (λ b lo hi. same b (omega arith)),
      same (c + 4) (omega arith),
      same (c + 5) (omega arith),
      same (c + 6) (omega arith),
      same (c + 7) (omega arith),
    )

flat_segment :
    (entries : ℕ) (m : Mem) (i access : ℕ)
    → access < 256
    → read_segment (set_entry m entries i 0 0xFFFFFFFF access 0xCF) (entries + i * entry_size)
      ≡ segment 0 0xFFFFF access 0xC
flat_segment entries m i access small =
    (set_entry-read_segment m entries i 0 0xFFFFFFFF access 0xCF (omega arith) small
      (omega arith)).0

keep_segment :
    (entries : ℕ) (m : Mem) (i k access : ℕ)
    → access < 256
    → k < i
    → read_segment (set_entry m entries i 0 0xFFFFFFFF access 0xCF) (entries + k * entry_size)
      ≡ read_segment m (entries + k * entry_size)
keep_segment entries m i k access small below =
    read_segment-set_entry_ne m entries i k 0 0xFFFFFFFF access 0xCF (omega arith) small
      (omega arith) below

-- `GDT::init` leaves the null descriptor, and four flat segments of 4 GB in pages of 4 KB, for
-- kernel code, kernel data, user code and user data; the pointer names the whole table.
pub init-segments :
    (m : Mem) (entries : ℕ)
    → let (pointer, m') = init m entries in
      (read_segment m' entries ≡ segment 0 0 0 0)
      × (read_segment m' (entries + 8) ≡ segment 0 0xFFFFF 0x9A 0xC)
      × (read_segment m' (entries + 16) ≡ segment 0 0xFFFFF 0x92 0xC)
      × (read_segment m' (entries + 24) ≡ segment 0 0xFFFFF 0xFA 0xC)
      × (read_segment m' (entries + 32) ≡ segment 0 0xFFFFF 0xF2 0xC)
      × (pointer.base ≡ entries)
      × (pointer.limit + 1 ≡ 40)
unfolding init
init-segments m entries =
    let m0 = set_entry m entries 0 0 0 0 0 in
    let m1 = set_entry m0 entries 1 0 0xFFFFFFFF 0x9A 0xCF in
    let m2 = set_entry m1 entries 2 0 0xFFFFFFFF 0x92 0xCF in
    let m3 = set_entry m2 entries 3 0 0xFFFFFFFF 0xFA 0xCF in
    let m4 = set_entry m3 entries 4 0 0xFFFFFFFF 0xF2 0xCF in
    let flat = flat_segment entries in
    let keep = keep_segment entries in
    (
      ap (read_segment m4) {x = entries} {y = entries + 0} (omega arith)
          ∙ keep m3 4 0 0xF2 (omega arith) (omega arith)
          ∙ keep m2 3 0 0xFA (omega arith) (omega arith)
          ∙ keep m1 2 0 0x92 (omega arith) (omega arith)
          ∙ keep m0 1 0 0x9A (omega arith) (omega arith)
          ∙ (set_entry-read_segment m entries 0 0 0 0 0 (omega arith) (omega arith)
              (omega arith)).0,
      keep m3 4 1 0xF2 (omega arith) (omega arith)
          ∙ keep m2 3 1 0xFA (omega arith) (omega arith)
          ∙ keep m1 2 1 0x92 (omega arith) (omega arith)
          ∙ flat m0 1 0x9A (omega arith),
      keep m3 4 2 0xF2 (omega arith) (omega arith)
          ∙ keep m2 3 2 0xFA (omega arith) (omega arith)
          ∙ flat m1 2 0x92 (omega arith),
      keep m3 4 3 0xF2 (omega arith) (omega arith) ∙ flat m2 3 0xFA (omega arith),
      flat m3 4 0xF2 (omega arith),
      refl,
      refl,
    )
