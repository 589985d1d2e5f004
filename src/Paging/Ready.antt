-- ===== src/Paging/Ready.antt =====
-- What `initVMM` needs for the pages of the kernel heap, and the state in which it maps them.
use pros.Prelude.{
  ℕ, false, refl, ◌+◌, ◌*◌, ◌/◌, ◌^◌, ◌≤◌, ◌<◌, ◌≡◌, ◌∙◌, ap, arith, ℕ_discrete, if◌then◌else◌,
  ◌==◌, true,
}
use pros.MemoryManager.{MemoryManager, get_free_physical_page, test_bit}
use pros.MemoryManager.Kept.{OffBitmap, test_bit-kept}
use pros.MemoryManager.Supply.{HasFree, IsSupplied, get_free_physical_page-IsSupplied}
use pros.MemoryManager.Alloc.{get_free_physical_page-IsAllocated}
use pros.Paging.{phys_2_virt, page_size, kernel_heap_start}
use pros.Paging.Walk.{directory_entry}
use pros.Paging.Fresh.{IsReserved, IsSpare}
use pros.Paging.Kernel.{
  directory, with_table, bitmap_off, IsBootable, directory-IsPaged, directory_entry-built,
  table_aligned, directory_aligned,
}
use pros.Paging.Keeps.{IsPaged-kept, IsGuarded-kept, same_entry, OffBitmap-kept}
use pros.Paging.Grown.{IsExtensible}
use pros.Paging.Loaded.{
  loaded, heap_state, kept1, kept3, map_size, OffBitmap-loaded, test_bit-loaded, IsGuarded-loaded,
}

module _ (mm : MemoryManager) (boots : IsBootable mm) where
  -- Pages are free for the first page of the heap, for its table and for the 256 calls of the loop; the
  -- directory and the new table are off the bitmap, and the page of the new table is spare, and in the
  -- first 4 MB of memory, through which it is reached.
  pub record IsHeapReady : Type 0 where
    pub directory_off : (b : ℕ) → b ≤ page_size → OffBitmap mm (directory mm + b)
    pub supply : HasFree (loaded mm boots) 258
    pub table_low : (get_free_physical_page (heap_state mm boots) 1).0 + page_size < 2 ^ 22
    pub spare :
        IsSpare
          (heap_state mm boots).mem
          (get_free_physical_page (heap_state mm boots) 1).1.mem
          (directory mm)
          (phys_2_virt (get_free_physical_page (heap_state mm boots) 1).0)
    pub table_off :
        (b : ℕ)
        → b ≤ page_size
        → OffBitmap mm (phys_2_virt (get_free_physical_page (heap_state mm boots) 1).0 + b)

  module _ (ready : IsHeapReady) where
    pub heap_page : IsSupplied (loaded mm boots) 257
    heap_page = get_free_physical_page-IsSupplied (loaded mm boots) 257 ready.supply

    table_page : IsSupplied (heap_state mm boots) 256
    table_page = get_free_physical_page-IsSupplied (heap_state mm boots) 256 heap_page.rest

    -- What is free when cr3 is loaded was free before `initVMM`.
    pub free-before :
        (b : ℕ)
        → b < mm.memory_size / 32 / 4096 * 32
        → test_bit (loaded mm boots) b ≡ false
        → test_bit mm b ≡ false
    free-before b h e =
        let (frame, at, done) =
          get_free_physical_page-IsAllocated mm 1 (omega arith) boots.memory_size_fits
            boots.table_page in
        let (frame', at', done') =
          get_free_physical_page-IsAllocated (with_table mm) 1 (omega arith)
            (omega (arith, boots.memory_size_fits, (kept1 mm boots).map_size))
            boots.directory_page in
        let cleared =
          test_bit-kept (get_free_physical_page mm 1).1 (with_table mm) b refl
            (omega (arith, h, ap (λ (t : ℕ). t / 32 / 4096) (kept1 mm boots).map_size))
            (bitmap_off mm boots) in
        ground (
          arith,
          e,
          test_bit-loaded mm boots ready.directory_off b h,
          cleared,
          done.marked b,
          done'.marked b,
        )

    -- The three pages are used.
    table_used : test_bit (loaded mm boots) ((get_free_physical_page mm 1).0 / 2 ^ 12) ≡ true
    table_used =
        let (frame, at, done) =
          get_free_physical_page-IsAllocated mm 1 (omega arith) boots.memory_size_fits
            boots.table_page in
        let (frame', at', done') =
          get_free_physical_page-IsAllocated (with_table mm) 1 (omega arith)
            (omega (arith, boots.memory_size_fits, (kept1 mm boots).map_size))
            boots.directory_page in
        test_bit-loaded mm boots ready.directory_off _ (omega (arith, at, done.inside))
        ∙ ground (
          arith,
          done'.marked ((get_free_physical_page mm 1).0 / 2 ^ 12),
          (table_aligned mm boots).2,
        )

    pub directory_used :
        test_bit (loaded mm boots) ((get_free_physical_page (with_table mm) 1).0 / 2 ^ 12) ≡ true
    directory_used =
        let (frame', at', done') =
          get_free_physical_page-IsAllocated (with_table mm) 1 (omega arith)
            (omega (arith, boots.memory_size_fits, (kept1 mm boots).map_size))
            boots.directory_page in
        test_bit-loaded mm boots ready.directory_off _ (
          omega (arith, at', done'.inside, ap (λ (t : ℕ). t / 32 / 4096) (kept1 mm boots).map_size))
        ∙ ground (arith, done'.marked ((get_free_physical_page (with_table mm) 1).0 / 2 ^ 12), at')

    used-heap_state :
        (j : ℕ) → test_bit (loaded mm boots) j ≡ true → test_bit (heap_state mm boots) j ≡ true
    used-heap_state j used =
        let (frame, at, done) =
          get_free_physical_page-IsAllocated (loaded mm boots) 1 (omega arith)
            (omega (arith, boots.memory_size_fits, (map_size mm boots))) heap_page.got in
        ground (arith, done.marked j)

    entry-heap_state :
        (i : ℕ)
        → i < 1024
        → directory_entry (heap_state mm boots).mem (heap_state mm boots).current_page_directory i
          ≡ (if i == 768 then (get_free_physical_page mm 1).0 + 3 else 0)
    entry-heap_state i h =
        same_entry (loaded mm boots) (heap_state mm boots) (kept3 mm boots)
          (IsGuarded-loaded mm boots ready.directory_off) i h
        ∙ directory_entry-built mm boots i h

    IsReserved-heap_state : IsReserved (heap_state mm boots)
    IsReserved-heap_state = record {
      memory_size_fits =
          omega (arith, boots.memory_size_fits, (map_size mm boots), (kept3 mm boots).map_size);
      directory_fits = rw (kept3 mm boots).directory (omega arith);
      directory_used = rw (kept3 mm boots).directory (
          ap (test_bit (heap_state mm boots))
            (omega (arith, (directory_aligned mm boots).0, (directory_aligned mm boots).1))
          ∙ used-heap_state _ directory_used);
      table_used = λ i h p. elim (ℕ_discrete i 768) [
        | yes same ↦
            rw (same, entry-heap_state 768 (omega arith))
              (ap (test_bit (heap_state mm boots)) (omega (arith, (table_aligned mm boots).0))
                ∙ used-heap_state _ table_used)
        | no other ↦ absurd (ground (arith, entry-heap_state i h))
      ];
      guarded =
          IsGuarded-kept (loaded mm boots) (heap_state mm boots) (kept3 mm boots)
            (IsGuarded-loaded mm boots ready.directory_off);
    }

    -- The directory has no table for the heap.
    pub IsExtensible-heap_state : IsExtensible (heap_state mm boots) (kernel_heap_start / 2 ^ 22)
    IsExtensible-heap_state = record {
      paged = rw (kept3 mm boots).directory (
          IsPaged-kept (loaded mm boots) (heap_state mm boots) (kept3 mm boots)
            (IsGuarded-loaded mm boots ready.directory_off) (directory-IsPaged mm boots));
      reserved = IsReserved-heap_state;
      small = omega arith;
      absent = rw (entry-heap_state 769 (omega arith));
      got = table_page.got;
      spare = rw (kept3 mm boots).directory ready.spare;
      off = λ b h.
          OffBitmap-kept (loaded mm boots) (heap_state mm boots) (kept3 mm boots)
            (IsGuarded-loaded mm boots ready.directory_off) _
            (OffBitmap-loaded mm boots _ (ready.table_off b h));
    }
