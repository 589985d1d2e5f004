-- ===== src/Paging/Loaded.antt =====
-- The state of `initVMM` once cr3 has been loaded.
use pros.Prelude.{ℕ, ◌+◌, ◌-◌, ◌*◌, ◌/◌, ◌≤◌, ◌<◌, ◌≡◌, ◌∙◌, refl, ap, sym, arith, ℕ_discrete}
use pros.MemoryManager.{MemoryManager, get_free_physical_page, test_bit}
use pros.MemoryManager.Kept.{OffBitmap, IsKept, get_free_physical_page-IsKept, test_bit-kept}
use pros.Paging.{page_size}
use pros.Paging.Walk.{IsGuarded}
use pros.Paging.Kernel.{
  table, directory, with_table, built, IsBootable, directory_entry-built, load8-built,
  table_at-built,
}

module _ (mm : MemoryManager) (boots : IsBootable mm) where
  -- The state when cr3 has been loaded, and after the allocation of the first page of the heap.
  abbrev pub loaded : MemoryManager
  loaded = record (get_free_physical_page (with_table mm) 1).1 {
    mem = built mm boots;
    current_page_directory = directory mm;
  }

  abbrev pub heap_state : MemoryManager
  heap_state = (get_free_physical_page loaded 1).1

  pub kept1 : IsKept mm (get_free_physical_page mm 1).1
  kept1 = get_free_physical_page-IsKept mm

  pub kept2 : IsKept (with_table mm) (get_free_physical_page (with_table mm) 1).1
  kept2 = get_free_physical_page-IsKept (with_table mm)

  pub kept3 : IsKept loaded heap_state
  kept3 = get_free_physical_page-IsKept loaded

  pub map_size : mm.memory_size ≡ loaded.memory_size
  map_size = sym (kept2.map_size ∙ kept1.map_size)

  pub OffBitmap-loaded : (b : ℕ) → OffBitmap mm b → OffBitmap loaded b
  OffBitmap-loaded b off =
      omega (arith, off, kept1.map_start, kept2.map_start, ap (λ (t : ℕ). t / 32 / 4096) map_size)

  -- The directory is off the bitmap.
  module _ (off_directory : (b : ℕ) → b ≤ page_size → OffBitmap mm (directory mm + b)) where
    -- Building the directory leaves the bitmap alone.
    pub test_bit-loaded :
        (n : ℕ)
        → n < mm.memory_size / 32 / 4096 * 32
        → test_bit loaded n ≡ test_bit (get_free_physical_page (with_table mm) 1).1 n
    test_bit-loaded n h =
        test_bit-kept (get_free_physical_page (with_table mm) 1).1 loaded n refl
          (omega (arith, ap (λ (t : ℕ). t / 32 / 4096) map_size))
          (λ b lo hi.
            load8-built mm boots b
              (grind (
                arith,
                boots.table_off (b - table mm),
                kept1.map_start,
                kept2.map_start,
                ap (λ (t : ℕ). t / 32 / 4096) map_size,
              ))
              (grind (
                arith,
                off_directory (b - directory mm),
                kept1.map_start,
                kept2.map_start,
                ap (λ (t : ℕ). t / 32 / 4096) map_size,
              )))

    pub IsGuarded-loaded : IsGuarded loaded
    IsGuarded-loaded = record {
      directory_off = λ b h. OffBitmap-loaded (directory mm + b) (off_directory b (omega arith));
      table_off = λ i h p b hb. elim (ℕ_discrete i 768) [
        | yes same ↦
            rw (same, directory_entry-built mm boots 768 (omega arith), table_at-built mm boots)
              (OffBitmap-loaded _ (boots.table_off b (omega arith)))
        | no other ↦ absurd (ground (arith, directory_entry-built mm boots i h))
      ];
    }
