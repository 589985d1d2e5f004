-- ===== src/Paging/Boot.antt =====
-- A state before `initVMM` in which the first pages of 4 MB are used and the others are free and zero:
-- everything is there that `initVMM` needs.
use pros.Prelude.{
  ℕ, ◌+◌, ◌*◌, ◌/◌, ◌≤◌, ◌<◌, ◌≡◌, ◌≢◌, ◌∙◌, inr, refl, ap, sym, arith, sub32, true_ne_false, ltb,
  dec_lt,
}
use pros.Memory.{load8}
use pros.CString.Block.{memset_lem}
use pros.MemoryManager.{
  MemoryManager, get_free_physical_page, get_free_block_count, test_bit, block_size,
}
use pros.MemoryManager.Alloc.{IsAllocated, get_free_physical_page-finds}
use pros.MemoryManager.Supply.{HasFree}
use pros.MemoryManager.Kept.{OffBitmap, IsKept, get_free_physical_page-IsKept, test_bit-kept}
use pros.Paging.{page_size, virtual_base}
use pros.Paging.Kernel.{
  table, with_table, directory, directory_entry-built, load8-built, IsBootable,
}
use pros.Paging.Loaded.{loaded, heap_state, test_bit-loaded, kept3, IsGuarded-loaded}
use pros.Paging.Ready.{IsHeapReady}
use pros.Paging.Keeps.{directory_entry-kept}

-- Of 4 MB, the first `n` pages are used, and the others are free, counted as such, and off the bitmap.
pub record IsFilled (s : MemoryManager) (n : ℕ) : Type 0 where
  pub size : s.memory_size ≡ 1024 * 4096
  pub map_low : virtual_base ≤ s.memory_map
  pub start : s.memory_map + 128 ≤ virtual_base + n * 4096
  pub bits : (j : ℕ) → j < 1024 → test_bit s j ≡ ltb j n
  pub count : 1024 ≤ n + sub32 s.max_blocks s.used_blocks

off_bitmap :
    (s : MemoryManager) (n : ℕ)
    → IsFilled s n
    → (b : ℕ) → virtual_base + n * 4096 ≤ b
    → OffBitmap s b
off_bitmap s n filled b h =
    inr (omega (arith, filled.start, ap (λ (t : ℕ). t / 32 / 4096) filled.size))

-- The next page is page `n`.
module _ (s : MemoryManager) (n : ℕ) (filled : IsFilled s n) (small : n < 1024) where
  allocation :
      (frame : ℕ) × (frame ≤ n)
      × ((get_free_physical_page s 1).0 ≡ frame * block_size)
      × IsAllocated s (get_free_physical_page s 1).1 1 frame
  allocation =
      let room : get_free_block_count s ≢ 0 =
        unfold get_free_block_count in λ e. omega (arith, filled.count) in
      get_free_physical_page-finds s 1 n (omega arith) (omega (arith, filled.size)) room
        (omega (arith, ap (λ (t : ℕ). t / 32 / 4096) filled.size))
        (λ k h. ap (test_bit s) (omega arith) ∙ filled.bits n small ∙ ground arith)

  next_page : (get_free_physical_page s 1).0 ≡ n * block_size
  next_page =
      let (frame, le, at, done) = allocation in
      elim (dec_lt frame n) [
        | yes below ↦ absurd (
            true_ne_false (
              sym (
                ap (test_bit s) {x = frame + 0} (omega arith)
                ∙ filled.bits frame (omega arith)
                ∙ ground arith)
              ∙ done.was_free 0 (omega arith)))
        | no above ↦ omega arith
      ]

  next-IsFilled : IsFilled (get_free_physical_page s 1).1 (n + 1)
  next-IsFilled =
      let (frame, le, at, done) = allocation in
      let kept = get_free_physical_page-IsKept s in
      record {
        size = kept.map_size ∙ filled.size;
        map_low = omega (arith, kept.map_start, filled.map_low);
        start = omega (arith, kept.map_start, filled.start);
        bits = λ j h. ground (arith, done.marked j, filled.bits j h, at, next_page);
        count = omega (arith, done.counted, filled.count, kept.block_count);
      }

-- Memory is zero from page `n` on, of which there are 260 and more.
module _ (boot : MemoryManager) (n : ℕ) (filled : IsFilled boot n) (pos : 0 < n)
    (enough : n + 260 ≤ 1024)
    (zeros : (b : ℕ)
      → virtual_base + n * 4096 ≤ b
      → b < virtual_base + 1024 * 4096
      → load8 boot.mem b ≡ 0) where
  boot-IsKept : IsKept boot (get_free_physical_page boot 1).1
  boot-IsKept = get_free_physical_page-IsKept boot

  table_page : (get_free_physical_page boot 1).0 ≡ n * block_size
  table_page = next_page boot n filled (omega arith)

  -- Clearing the table leaves the bitmap alone.
  with_table-IsFilled : IsFilled (with_table boot) (n + 1)
  with_table-IsFilled =
      let f = next-IsFilled boot n filled (omega arith) in
      let size = ap (λ (t : ℕ). t / 32 / 4096) f.size in
      record {
        size = f.size;
        map_low = f.map_low;
        start = f.start;
        bits = λ j h.
            test_bit-kept (get_free_physical_page boot 1).1 (with_table boot) j refl
              (omega (arith, size))
              (λ b lo hi. ground (
                arith,
                memset_lem (get_free_physical_page boot 1).1.mem (table boot) 0 page_size b,
                table_page,
                boot-IsKept.map_start,
                filled.start,
                size,
              ))
            ∙ f.bits j h;
        count = f.count;
      }

  directory_page : (get_free_physical_page (with_table boot) 1).0 ≡ (n + 1) * block_size
  directory_page = next_page (with_table boot) (n + 1) with_table-IsFilled (omega arith)

  with_table-IsKept : IsKept (with_table boot) (get_free_physical_page (with_table boot) 1).1
  with_table-IsKept = get_free_physical_page-IsKept (with_table boot)

  -- From page `n + 1` on, the bytes are zero when the directory is allocated.
  zero-with_table :
      (b : ℕ)
      → virtual_base + (n + 1) * 4096 ≤ b
      → b < virtual_base + 1024 * 4096
      → load8 (get_free_physical_page (with_table boot) 1).1.mem b ≡ 0
  zero-with_table b lo hi =
      with_table-IsKept.bytes b (off_bitmap (with_table boot) (n + 1) with_table-IsFilled b lo)
      ∙ ground (
        arith,
        memset_lem (get_free_physical_page boot 1).1.mem (table boot) 0 page_size b,
        table_page,
        boot-IsKept.bytes b (off_bitmap boot n filled b (omega arith)),
        zeros b (omega arith) hi,
      )

  pub IsFilled-IsBootable : IsBootable boot
  IsFilled-IsBootable = record {
    memory_size_fits = omega (arith, filled.size);
    table_page = omega (arith, table_page);
    directory_page = omega (arith, directory_page);
    table_off = λ b h. off_bitmap boot n filled _ (omega (arith, table_page));
    first =
        zero-with_table (directory boot) (omega (arith, directory_page))
          (omega (arith, directory_page));
    map_low = filled.map_low;
    map_high = omega (arith, filled.start, ap (λ (t : ℕ). t / 32 / 4096) filled.size);
    table_low = omega (arith, table_page);
    directory_low = omega (arith, directory_page);
  }

  off_directory : (b : ℕ) → b ≤ page_size → OffBitmap boot (directory boot + b)
  off_directory b h = off_bitmap boot n filled _ (omega (arith, directory_page))

  loaded-IsFilled : IsFilled (loaded boot IsFilled-IsBootable) (n + 2)
  loaded-IsFilled =
      let f = next-IsFilled (with_table boot) (n + 1) with_table-IsFilled (omega arith) in
      record {
        size = f.size;
        map_low = f.map_low;
        start = omega (arith, f.start);
        bits = λ j h.
            test_bit-loaded boot IsFilled-IsBootable off_directory j
              (omega (arith, ap (λ (t : ℕ). t / 32 / 4096) filled.size))
            ∙ f.bits j h
            ∙ ap (ltb j) (omega arith);
        count = omega (arith, f.count);
      }

  -- The blocks from `n + 2` on.
  loaded-HasFree : HasFree (loaded boot IsFilled-IsBootable) 258
  loaded-HasFree =
      let s = loaded-IsFilled in
      record {
        block = λ k. k + (n + 2);
        inside = λ k h. omega (arith, ap (λ (t : ℕ). t / 32 / 4096) s.size);
        free = λ k h. s.bits (k + (n + 2)) (omega arith) ∙ ground arith;
        different = λ j k lj lk ne. omega arith;
        zero_used = s.bits 0 (omega arith) ∙ ground arith;
        count = omega (arith, s.count);
        size_fits = omega (arith, s.size);
      }

  heap_state-IsFilled : IsFilled (heap_state boot IsFilled-IsBootable) (n + 2 + 1)
  heap_state-IsFilled =
      next-IsFilled (loaded boot IsFilled-IsBootable) (n + 2) loaded-IsFilled (omega arith)

  heap_table :
      (get_free_physical_page (heap_state boot IsFilled-IsBootable) 1).0 ≡ (n + 2 + 1) * block_size
  heap_table =
      next_page (heap_state boot IsFilled-IsBootable) (n + 2 + 1) heap_state-IsFilled (omega arith)

  heap_table_first :
      (a : ℕ)
      → a ≡ virtual_base + (n + 2 + 1) * 4096
      → load8 (get_free_physical_page (heap_state boot IsFilled-IsBootable) 1).1.mem a ≡ 0
  heap_table_first a e =
      let s = loaded boot IsFilled-IsBootable in
      let heap = heap_state boot IsFilled-IsBootable in
      (get_free_physical_page-IsKept heap).bytes a
        (off_bitmap heap (n + 2 + 1) heap_state-IsFilled a (omega arith))
      ∙ (kept3 boot IsFilled-IsBootable).bytes a
          (off_bitmap s (n + 2) loaded-IsFilled a (omega arith))
      ∙ load8-built boot IsFilled-IsBootable a (omega (arith, table_page))
          (omega (arith, directory_page))
      ∙ zero-with_table a (omega arith) (omega arith)

  pub IsFilled-IsHeapReady : IsHeapReady boot IsFilled-IsBootable
  IsFilled-IsHeapReady = record {
    directory_off = off_directory;
    supply = loaded-HasFree;
    table_low = omega (arith, heap_table);
    spare = record {
      first = heap_table_first _ (omega (arith, heap_table));
      behind = λ e. omega (arith, heap_table, directory_page);
      behind_table = λ i h p e. ground (
        arith,
        heap_table,
        table_page,
        directory_entry-kept (loaded boot IsFilled-IsBootable) (heap_state boot IsFilled-IsBootable)
            (kept3 boot IsFilled-IsBootable)
            (IsGuarded-loaded boot IsFilled-IsBootable off_directory) i h,
        directory_entry-built boot IsFilled-IsBootable i h,
      );
    };
    table_off = λ b h. off_bitmap boot n filled _ (omega (arith, heap_table));
  }
