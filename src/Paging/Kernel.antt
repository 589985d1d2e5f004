-- ===== src/Paging/Kernel.antt =====
-- The directory that `initVMM` loads: the first 4 MB of memory, mapped at 3 GB.
use pros.Prelude.{
  ℕ, ◌+◌, ◌-◌, ◌*◌, ◌/◌, ◌%◌, ◌^◌, ◌≤◌, ◌<◌, ◌≡◌, ◌≢◌, ◌⊎◌, ◌==◌, ◌∙◌, refl, ap, sym, none, some,
  if◌then◌else◌, arith, true, false, ltb, leb, ◌&&◌, ℕ_discrete, true_ne_false, ==_of_ne,
}
use pros.Memory.{Mem, load8, load32}
use pros.Memory.Laws.{load32-ext}
use pros.CString.{memset}
use pros.CString.Block.{memset_lem}
use pros.MemoryManager.{MemoryManager, get_free_physical_page, test_bit, null}
use pros.MemoryManager.Alloc.{get_free_physical_page-IsAllocated}
use pros.MemoryManager.Kept.{
  OffBitmap, get_free_physical_page-IsKept, get_free_physical_page-lt, test_bit-kept,
}
use pros.Paging.{
  phys_2_virt, virt_2_phys, virtual_base, page_size, pages_per_table, fill_entry, map_kernel,
  build_directory,
}
use pros.Paging.Entry.{
  load8-fill_entry_ne, load32-memset_page, load32-fill_entry, load32-fill_entry_ne,
  page_directory_index_lem,
}
use pros.Paging.Walk.{directory_entry, table_at, translate, IsPaged}
use pros.Paging.Identity.{load32-map_kernel, load8-map_kernel}

module _ (mm : MemoryManager) where
  -- The two pages, and the states after them.
  abbrev pub table : ℕ
  table = phys_2_virt (get_free_physical_page mm 1).0

  abbrev pub with_table : MemoryManager
  with_table = record (get_free_physical_page mm 1).1 {
    mem = memset (get_free_physical_page mm 1).1.mem table 0 page_size;
  }

  abbrev pub directory : ℕ
  directory = phys_2_virt (get_free_physical_page with_table 1).0

  abbrev pub with_directory : Mem
  with_directory = (get_free_physical_page with_table 1).1.mem

  -- Both pages are there and in the first 4 MB of memory, the bitmap is not on the page of the table nor on the byte behind it, and the
  -- byte of the directory that `memset` misses is zero.
  pub record IsBootable : Type 0 where
    pub memory_size_fits : mm.memory_size < 2 ^ 32
    pub table_page : (get_free_physical_page mm 1).0 ≢ null
    pub directory_page : (get_free_physical_page with_table 1).0 ≢ null
    pub table_off : (b : ℕ) → b ≤ page_size → OffBitmap mm (table + b)
    pub first : load8 with_directory directory ≡ 0
    -- Both, and the bitmap, are reached through the first 4 MB of memory, which the boot code has mapped
    -- at 3 GB.
    pub map_low : virtual_base ≤ mm.memory_map
    pub map_high : mm.memory_map + mm.memory_size / 32 / 4096 * 4 ≤ virtual_base + 2 ^ 22
    pub table_low : (get_free_physical_page mm 1).0 + page_size < 2 ^ 22
    pub directory_low : (get_free_physical_page with_table 1).0 + page_size < 2 ^ 22

  module _ (ok : IsBootable) where
    -- The bytes of the bitmap are not cleared.
    pub bitmap_off :
        (b : ℕ)
        → (get_free_physical_page mm 1).1.memory_map ≤ b
        → b
          < (get_free_physical_page mm 1).1.memory_map
            + (get_free_physical_page mm 1).1.memory_size / 32 / 4096 * 4
        → load8 with_table.mem b ≡ load8 (get_free_physical_page mm 1).1.mem b
    bitmap_off b lo hi =
        let kept = get_free_physical_page-IsKept mm in
        ground (
          arith,
          memset_lem (get_free_physical_page mm 1).1.mem table 0 page_size b,
          ok.table_off (b - table),
          kept.map_start,
          ap (λ (t : ℕ). t / 32 / 4096) kept.map_size,
        )

    pub table_aligned :
        ((get_free_physical_page mm 1).0 % 2 ^ 12 ≡ 0)
        × ((get_free_physical_page mm 1).0 < 2 ^ 32)
        × (test_bit with_table ((get_free_physical_page mm 1).0 / 2 ^ 12) ≡ true)
    table_aligned =
        let (frame, at, done) =
          get_free_physical_page-IsAllocated mm 1 (omega arith) ok.memory_size_fits ok.table_page in
        let kept = get_free_physical_page-IsKept mm in
        let e : (get_free_physical_page mm 1).0 / 2 ^ 12 ≡ frame = omega arith in
        (
          omega arith,
          get_free_physical_page-lt mm 1,
          ap (test_bit with_table) e
              ∙ test_bit-kept (get_free_physical_page mm 1).1 with_table frame refl
                  (omega (arith, done.inside, ap (λ (t : ℕ). t / 32 / 4096) kept.map_size))
                  bitmap_off
              ∙ done.marked frame
              ∙ ground arith,
        )

    pub directory_aligned :
        ((get_free_physical_page with_table 1).0 % 2 ^ 12 ≡ 0)
        × ((get_free_physical_page with_table 1).0 < 2 ^ 32)
        × (test_bit with_table ((get_free_physical_page with_table 1).0 / 2 ^ 12) ≡ false)
    directory_aligned =
        let kept = get_free_physical_page-IsKept mm in
        let (frame, at, done) =
          get_free_physical_page-IsAllocated with_table 1 (omega arith)
            (omega (arith, ok.memory_size_fits, kept.map_size)) ok.directory_page in
        let e : frame + 0 ≡ (get_free_physical_page with_table 1).0 / 2 ^ 12 = omega arith in
        (
          omega arith,
          get_free_physical_page-lt with_table 1,
          sym (ap (test_bit with_table) e) ∙ done.was_free 0 (omega arith),
        )

    pub table_ne_directory : table ≢ directory
    table_ne_directory e =
        let same : (get_free_physical_page mm 1).0 / 2 ^ 12
            ≡ (get_free_physical_page with_table 1).0 / 2 ^ 12 =
          omega (arith, table_aligned.1, directory_aligned.1) in
        true_ne_false (sym table_aligned.2 ∙ ap (test_bit with_table) same ∙ directory_aligned.2)

    abbrev pub cleared : Mem
    cleared = memset with_directory directory 0 page_size

    abbrev pub filled_table : Mem
    filled_table = map_kernel cleared table pages_per_table 0

    abbrev pub built : Mem
    built = fill_entry filled_table (directory + 768 * 4) (virt_2_phys table)

    pub build_directory-built :
        build_directory mm
        ≡ (directory, record (get_free_physical_page with_table 1).1 { mem = built })
    unfolding build_directory
    build_directory-built = rw (page_directory_index_lem virtual_base)

    -- The words of the directory before the link to the table.
    directory_entry-filled_table : (j : ℕ) → j < 1024 → directory_entry filled_table directory j ≡ 0
    directory_entry-filled_table j h =
        load32-ext filled_table cleared (directory + j * 4) (λ b lo hi.
          load8-map_kernel cleared table pages_per_table 0 b (omega arith) (
            omega (
              arith, table_ne_directory, table_aligned.0, directory_aligned.0, table_aligned.1,
              directory_aligned.1,
            )))
        ∙ load32-memset_page with_directory directory j ok.first h

    pub directory_entry-built :
        (j : ℕ)
        → j < 1024
        → directory_entry built directory j
          ≡ (if j == 768 then (get_free_physical_page mm 1).0 + 3 else 0)
    directory_entry-built j h = ground (
      arith,
      directory_entry-filled_table j h,
      load32-fill_entry filled_table (directory + 768 * 4) (virt_2_phys table),
      load32-fill_entry_ne filled_table (directory + 768 * 4) (virt_2_phys table)
          (directory + j * 4),
      table_aligned.0,
      table_aligned.1,
      ap (λ t. directory_entry built directory t) {x = j} {y = 768},
      ap (λ t. directory_entry filled_table directory t) {x = j} {y = 768},
    )

    page_entry-built : (k : ℕ) → k < 1024 → load32 built (table + k * 4) ≡ k * page_size + 3
    page_entry-built k h =
        load32-fill_entry_ne filled_table (directory + 768 * 4) (virt_2_phys table) (table + k * 4)
          (omega (
            arith, table_ne_directory, table_aligned.0, directory_aligned.0, table_aligned.1,
            directory_aligned.1,
          ))
        ∙ ground (arith, load32-map_kernel cleared table pages_per_table 0 k (omega arith))

    pub directory-IsPaged : IsPaged built directory
    directory-IsPaged = record {
      aligned = omega (arith, directory_aligned.0);
      outside = λ i h p e.
          ground (
            arith,
            directory_entry-built i h,
            table_ne_directory,
            table_aligned.0,
            table_aligned.1,
          );
      apart = λ i j hi hj ne p q e.
          ground (arith, directory_entry-built i hi, directory_entry-built j hj);
    }

    pub table_at-built : table_at ((get_free_physical_page mm 1).0 + 3) ≡ table
    table_at-built = omega (arith, table_aligned.0)

    abbrev page_of : ℕ → ℕ
    page_of v = v / 2 ^ 12 % 1024 * page_size + 3

    walk-built :
        (v : ℕ) → v / 2 ^ 22 ≡ 768 → page_of v / 2 ^ 12 * 2 ^ 12 + v % 2 ^ 12 ≡ v - virtual_base
    walk-built v e = omega arith

    pub translate-built :
        (v : ℕ)
        → v < 2 ^ 32
        → translate built directory v ≡ (
            if leb virtual_base v && ltb v (virtual_base + 2 ^ 22)
            then some (v - virtual_base)
            else none)
    unfolding translate
    translate-built v h = elim (ℕ_discrete (v / 2 ^ 22) 768) [
      | yes same ↦
          let odd : ((get_free_physical_page mm 1).0 + 3) % 2 ≡ 1 =
            omega (arith, table_aligned.0) in
          let odd' : page_of v % 2 ≡ 1 = omega arith in
          rw
            (
              same,
              directory_entry-built 768 (omega arith),
              odd,
              table_at-built,
              page_entry-built (v / 2 ^ 12 % 1024) (omega arith),
            )
            (ground (arith, odd', walk-built v same))
      | no other ↦
          rw (directory_entry-built (v / 2 ^ 22) (omega arith), ==_of_ne _ _ other) (ground arith)
    ]

    -- The bitmap is as the second allocation left it, if it is off the page of the directory and the byte
    -- behind it.
    pub load8-built :
        (b : ℕ)
        → (b < table) ⊎ (table + page_size ≤ b)
        → (b < directory) ⊎ (directory + page_size < b)
        → load8 built b ≡ load8 with_directory b
    load8-built b off_table off_directory =
        load8-fill_entry_ne filled_table (directory + 768 * 4) (virt_2_phys table) b (omega arith)
        ∙ load8-map_kernel cleared table pages_per_table 0 b (omega arith) off_table
        ∙ ground (arith, memset_lem with_directory directory 0 page_size b)

-- Where two pages are free, the bitmap is off the first of them and the first byte of the second is
-- zero, `initVMM` loads a directory under which the processor finds the first 4 MB of physical memory
-- at 3 GB and nothing else, and whose table is a page of its own.
pub build_directory-translate :
    (mm : MemoryManager)
    → IsBootable mm
    → let (dir, mm') = build_directory mm in
      ((v : ℕ)
        → v < 2 ^ 32
        → translate mm'.mem dir v ≡ (
            if leb virtual_base v && ltb v (virtual_base + 2 ^ 22)
            then some (v - virtual_base)
            else none))
      × IsPaged mm'.mem dir
build_directory-translate mm ok =
    rw (build_directory-built mm ok) (translate-built mm ok, directory-IsPaged mm ok)
