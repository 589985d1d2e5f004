-- ===== src/Partition/Record.antt =====
-- The master boot record depends on its bytes only.
use pros.Prelude.{ℕ, ◌+◌, ◌<◌, ◌≡◌, arith, ap, ◌∙◌, refl}
use pros.Memory.{Mem, load8, load16, load32}
use pros.Partition.{read_partition, mbr_size, read_mbr}

-- The bytes of two places agree.
module _ (m m' : Mem) (p p' : ℕ) (size : ℕ)
    (same : (i : ℕ) → i < size → load8 m' (p' + i) ≡ load8 m (p + i)) where
  byte_at : (i a a' : ℕ) → i < size → a ≡ p + i → a' ≡ p' + i → load8 m' a' ≡ load8 m a
  byte_at i a a' lt e e' =
      ap (load8 m') e' ∙ same i lt ∙ ap (load8 m) {x = p + i} {y = a} (omega arith)

  load16_at : (i : ℕ) → i + 1 < size → load16 m' (p' + i) ≡ load16 m (p + i)
  unfolding load16
  load16_at i lt = omega (
    arith,
    byte_at i (p + i) (p' + i) (omega arith) (omega arith) (omega arith),
    byte_at (i + 1) (p + i + 1) (p' + i + 1) lt (omega arith) (omega arith),
  )

  load32_at : (i : ℕ) → i + 3 < size → load32 m' (p' + i) ≡ load32 m (p + i)
  unfolding load32
  load32_at i lt = omega (
    arith,
    byte_at i (p + i) (p' + i) (omega arith) (omega arith) (omega arith),
    byte_at (i + 1) (p + i + 1) (p' + i + 1) (omega arith) (omega arith) (omega arith),
    byte_at (i + 2) (p + i + 2) (p' + i + 2) (omega arith) (omega arith) (omega arith),
    byte_at (i + 3) (p + i + 3) (p' + i + 3) lt (omega arith) (omega arith),
  )

read_partition-ext :
    (m m' : Mem) (p p' : ℕ)
    → ((i : ℕ) → i < 16 → load8 m' (p' + i) ≡ load8 m (p + i))
    → read_partition m' p' ≡ read_partition m p
unfolding read_partition
read_partition-ext m m' p p' same =
    let b = byte_at m m' p p' 16 same in
    let w = load16_at m m' p p' 16 same in
    let d = load32_at m m' p p' 16 same in
    rw
      (
        b 0 p p' (omega arith) (omega arith) (omega arith),
        same 1 (omega arith),
        w 2 (omega arith),
        same 4 (omega arith),
        same 5 (omega arith),
        w 6 (omega arith),
        d 8 (omega arith),
        d 12 (omega arith),
      )
      refl

pub read_mbr-ext :
    (m m' : Mem) (p p' : ℕ)
    → ((i : ℕ) → i < mbr_size → load8 m' (p' + i) ≡ load8 m (p + i))
    → read_mbr m' p' ≡ read_mbr m p
unfolding read_mbr
read_mbr-ext m m' p p' same =
    let entry : (k : ℕ)
        → k + 16 < mbr_size
        → read_partition m' (p' + k) ≡ read_partition m (p + k) =
      λ k lt. read_partition-ext m m' (p + k) (p' + k) (λ i small.
        byte_at m m' p p' mbr_size same (k + i) (p + k + i) (p' + k + i) (omega arith) (omega arith)
          (omega arith)) in
    rw
      (
        load32_at m m' p p' mbr_size same 440 (omega arith),
        load16_at m m' p p' mbr_size same 444 (omega arith),
        entry 446 (omega arith),
        entry 462 (omega arith),
        entry 478 (omega arith),
        entry 494 (omega arith),
        load16_at m m' p p' mbr_size same 510 (omega arith),
      )
      refl
