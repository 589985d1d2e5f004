-- ===== src/MemoryManager/Supply.antt =====
-- A supply of free pages for calls of `getFreePhysicalPage`.
use pros.Prelude.{
  ℕ, suc, ◌+◌, ◌*◌, ◌/◌, ◌%◌, ◌^◌, ◌≤◌, ◌<◌, ◌≡◌, ◌≢◌, ◌⊎◌, inl, inr, ◌∙◌, ap, sym, arith, sub32,
  true, false, true_ne_false, ◌==◌, if◌then◌else◌, ==_of_eq, ==_of_ne, ℕ_discrete,
}
use pros.MemoryManager.{MemoryManager, get_free_physical_page, get_free_block_count, test_bit, null}
use pros.MemoryManager.Alloc.{IsAllocated, get_free_physical_page-finds}
use pros.MemoryManager.Kept.{IsKept, get_free_physical_page-IsKept}

-- `n` different blocks are free, and counted as such; block 0 is used.
pub record HasFree (mm : MemoryManager) (n : ℕ) : Type 0 where
  pub block : ℕ → ℕ
  pub inside : (k : ℕ) → k < n → block k < mm.memory_size / 32 / 4096 * 32
  pub free : (k : ℕ) → k < n → test_bit mm (block k) ≡ false
  pub different : (j k : ℕ) → j < n → k < n → j ≢ k → block j ≢ block k
  pub zero_used : test_bit mm 0 ≡ true
  pub count : n ≤ sub32 mm.max_blocks mm.used_blocks
  pub size_fits : mm.memory_size < 2 ^ 32

-- The supply depends on the bitmap, its size and the counters.
pub HasFree-ext :
    (mm mm' : MemoryManager) (n : ℕ)
    → mm'.memory_size ≡ mm.memory_size
    → mm'.max_blocks ≡ mm.max_blocks
    → mm'.used_blocks ≡ mm.used_blocks
    → ((b : ℕ) → b < mm.memory_size / 32 / 4096 * 32 → test_bit mm' b ≡ test_bit mm b)
    → 0 < n
    → HasFree mm n
    → HasFree mm' n
HasFree-ext mm mm' n size blocks used bits pos h = record {
  block = h.block;
  inside = λ k lt. omega (arith, h.inside k lt, ap (λ (t : ℕ). t / 32 / 4096) size);
  free = λ k lt. bits (h.block k) (h.inside k lt) ∙ h.free k lt;
  different = h.different;
  zero_used = bits 0 (omega (arith, h.inside 0 pos)) ∙ h.zero_used;
  count = omega (arith, h.count, blocks, used);
  size_fits = omega (arith, h.size_fits, size);
}

-- The number of the frame that an address is in.
abbrev pub frame_of : ℕ → ℕ
frame_of page = page / 2 ^ 12 % 2 ^ 20

-- A call that takes a page off the supply: the page is an aligned one, was free and is used, no other
-- block is released, and the rest of the supply is there.
pub record IsSupplied (mm : MemoryManager) (n : ℕ) : Type 0 where
  pub got : (get_free_physical_page mm 1).0 ≢ null
  pub aligned : (get_free_physical_page mm 1).0 ≡ frame_of (get_free_physical_page mm 1).0 * 2 ^ 12
  pub inside : frame_of (get_free_physical_page mm 1).0 < mm.memory_size / 32 / 4096 * 32
  pub was_free : test_bit mm (frame_of (get_free_physical_page mm 1).0) ≡ false
  pub used :
      test_bit (get_free_physical_page mm 1).1 (frame_of (get_free_physical_page mm 1).0) ≡ true
  pub keeps : (b : ℕ) → test_bit (get_free_physical_page mm 1).1 b ≡ false → test_bit mm b ≡ false
  pub rest : HasFree (get_free_physical_page mm 1).1 n

-- Without a block of the supply.
module _ (mm mm' : MemoryManager) (n frame : ℕ) (h : HasFree mm (suc n)) (kept : IsKept mm mm')
    (done : IsAllocated mm mm' 1 frame) (nonzero : frame ≢ 0) where
  abbrev without : ℕ → ℕ
  without k = if h.block k == frame then h.block n else h.block k

  without_cases :
      (k : ℕ)
      → k < n
      → ((h.block k ≡ frame) × (without k ≡ h.block n))
        ⊎ ((h.block k ≢ frame) × (without k ≡ h.block k))
  without_cases k lt = elim (ℕ_discrete (h.block k) frame) [
    | yes e ↦ inl (e, rw (==_of_eq _ _ e))
    | no ne ↦ inr (ne, rw (==_of_ne _ _ ne))
  ]

  without_ne : (k : ℕ) → k < n → without k ≢ frame
  without_ne k lt e = elim (without_cases k lt) [
    | inl (same, w) ↦ h.different k n (omega arith) (omega arith) (omega arith) (same ∙ sym e ∙ w)
    | inr (ne, w) ↦ ne (sym w ∙ e)
  ]

  without_different : (j k : ℕ) → j < n → k < n → j ≢ k → without j ≢ without k
  without_different j k lj lk ne e =
      let d = h.different j k (omega arith) (omega arith) ne in
      let dj = h.different j n (omega arith) (omega arith) (omega arith) in
      let dk = h.different k n (omega arith) (omega arith) (omega arith) in
      elim (without_cases j lj) [
        | inl (same, w) ↦ elim (without_cases k lk) [
          | inl (same', w') ↦ d (same ∙ sym same')
          | inr (other, w') ↦ dk (sym w' ∙ sym e ∙ w)
        ]
        | inr (other, w) ↦ elim (without_cases k lk) [
          | inl (same', w') ↦ dj (sym w ∙ e ∙ w')
          | inr (other', w') ↦ d (sym w ∙ e ∙ w')
        ]
      ]

  HasFree-without : HasFree mm' n
  HasFree-without = record {
    block = without;
    inside = λ k lt. elim (without_cases k lt) [
      | inl (same, w) ↦
          omega (arith, w, h.inside n (omega arith), ap (λ (t : ℕ). t / 32 / 4096) kept.map_size)
      | inr (other, w) ↦
          omega (arith, w, h.inside k (omega arith), ap (λ (t : ℕ). t / 32 / 4096) kept.map_size)
    ];
    free = λ k lt. elim (without_cases k lt) [
      | inl (same, w) ↦ ground (
        arith,
        done.marked (without k),
        without_ne k lt,
        ap (test_bit mm) w,
        h.free n (omega arith),
      )
      | inr (other, w) ↦ ground (
        arith,
        done.marked (without k),
        without_ne k lt,
        ap (test_bit mm) w,
        h.free k (omega arith),
      )
    ];
    different = without_different;
    zero_used = ground (arith, done.marked 0, h.zero_used);
    count = omega (arith, h.count, done.counted, kept.block_count);
    size_fits = omega (arith, h.size_fits, kept.map_size);
  }

pub get_free_physical_page-IsSupplied :
    (mm : MemoryManager) (n : ℕ) → HasFree mm (suc n) → IsSupplied mm n
get_free_physical_page-IsSupplied mm n h =
    let room : get_free_block_count mm ≢ 0 =
      unfold get_free_block_count in λ e. omega (arith, h.count) in
    let (frame, le, at, done) =
      get_free_physical_page-finds mm 1 (h.block 0) (omega arith) h.size_fits room
        (h.inside 0 (omega arith))
        (λ k lt. ap (test_bit mm) (omega arith) ∙ h.free 0 (omega arith)) in
    let was_free : test_bit mm frame ≡ false =
      ap (test_bit mm) {x = frame} {y = frame + 0} (omega arith) ∙ done.was_free 0 (omega arith) in
    let nonzero : frame ≢ 0 =
      λ e. true_ne_false (sym h.zero_used ∙ ap (test_bit mm) (sym e) ∙ was_free) in
    let same : frame_of (get_free_physical_page mm 1).0 ≡ frame =
      omega (arith, at, done.inside, h.size_fits) in
    record {
      got = omega (arith, at, nonzero);
      aligned = omega (arith, at, same);
      inside = omega (arith, same, done.inside);
      was_free = ap (test_bit mm) same ∙ was_free;
      used = ap (test_bit (get_free_physical_page mm 1).1) same ∙ ground (arith, done.marked frame);
      keeps = λ b e. ground (arith, done.marked b, e);
      rest =
          HasFree-without mm (get_free_physical_page mm 1).1 n frame h
            (get_free_physical_page-IsKept mm) done nonzero;
    }
