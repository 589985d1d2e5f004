-- ===== src/Paging/Fresh.antt =====
-- `mapPage` where the directory has no table for the page yet.
use pros.Prelude.{
  ℕ, ◌+◌, ◌-◌, ◌*◌, ◌/◌, ◌%◌, ◌^◌, ◌≤◌, ◌<◌, ◌≡◌, ◌≢◌, ◌⊎◌, inl, inr, ◌==◌, ◌∙◌, refl, ap, sym,
  Bool-cases, eq_of_==, true_ne_false, arith, true, false, ℕ_discrete,
}
use pros.Memory.{Mem, load8, load32}
use pros.Memory.Laws.{load32-lt, load32-ext}
use pros.CString.{memset}
use pros.CString.Block.{memset_lem}
use pros.MemoryManager.{MemoryManager, get_free_physical_page, test_bit, null}
use pros.MemoryManager.Alloc.{get_free_physical_page-IsAllocated}
use pros.MemoryManager.Kept.{OffBitmap, get_free_physical_page-IsKept, get_free_physical_page-lt}
use pros.Paging.{phys_2_virt, virt_2_phys, page_size, fill_entry, add_table}
use pros.Paging.Entry.{filled, load32-fill_entry, load8-fill_entry_ne}
use pros.Paging.Walk.{directory_entry, table_at, translate, IsPaged, IsGuarded}

-- The bitmap counts the pages of the directory as used, and is none of them.
pub record IsReserved (mm : MemoryManager) : Type 0 where
  pub memory_size_fits : mm.memory_size < 2 ^ 32
  pub directory_fits : mm.current_page_directory < 2 ^ 32
  pub directory_used : test_bit mm (virt_2_phys mm.current_page_directory / 2 ^ 12) ≡ true
  pub table_used :
      (i : ℕ)
      → i < 1024
      → directory_entry mm.mem mm.current_page_directory i % 2 ≡ 1
      → test_bit mm (directory_entry mm.mem mm.current_page_directory i / 2 ^ 12) ≡ true
  pub guarded : IsGuarded mm

-- What makes up for the byte that `memset` misses and for the one that it writes behind the page: the
-- first byte of the page at `table` is zero, and the page behind it is not one of the directory.
pub record IsSpare (m m' : Mem) (dir table : ℕ) : Type 0 where
  pub first : load8 m' table ≡ 0
  pub behind : table + page_size ≢ dir
  pub behind_table :
      (i : ℕ)
      → i < 1024
      → directory_entry m dir i % 2 ≡ 1
      → table + page_size ≢ table_at (directory_entry m dir i)

module _ (mm : MemoryManager) (i : ℕ) (paged : IsPaged mm.mem mm.current_page_directory)
    (reserved : IsReserved mm) (small : i < 1024)
    (absent : directory_entry mm.mem mm.current_page_directory i % 2 ≡ 0)
    (got : (get_free_physical_page mm 1).0 ≢ null)
    (spare : IsSpare mm.mem
      (get_free_physical_page mm 1).1.mem
      mm.current_page_directory
      (phys_2_virt (get_free_physical_page mm 1).0)) where
  abbrev dir : ℕ
  dir = mm.current_page_directory

  abbrev page : ℕ
  page = (get_free_physical_page mm 1).0

  abbrev allocated : Mem
  allocated = (get_free_physical_page mm 1).1.mem

  abbrev table : ℕ
  table = phys_2_virt page

  abbrev cleared : Mem
  cleared = memset allocated table 0 page_size

  abbrev pub linked : Mem
  linked = fill_entry cleared (dir + i * 4) (virt_2_phys table)

  pub add_table-linked : (add_table mm (dir + i * 4)).mem ≡ linked
  unfolding add_table
  add_table-linked = refl

  -- The page is aligned, and was free.
  pub page_aligned : (page % 2 ^ 12 ≡ 0) × (page < 2 ^ 32) × (test_bit mm (page / 2 ^ 12) ≡ false)
  page_aligned =
      let (frame, at, done) =
        get_free_physical_page-IsAllocated mm 1 (omega arith) reserved.memory_size_fits got in
      let e : frame + 0 ≡ page / 2 ^ 12 = omega arith in
      (
        omega arith,
        get_free_physical_page-lt mm 1,
        sym (ap (test_bit mm) e) ∙ done.was_free 0 (omega arith),
      )

  table_ne_dir : table ≢ dir
  table_ne_dir e =
      let same : virt_2_phys dir / 2 ^ 12 ≡ page / 2 ^ 12 =
        omega (arith, page_aligned.0, page_aligned.1, reserved.directory_fits) in
      true_ne_false (sym reserved.directory_used ∙ ap (test_bit mm) same ∙ page_aligned.2)

  table_ne_table :
      (j : ℕ)
      → j < 1024
      → directory_entry mm.mem dir j % 2 ≡ 1
      → table_at (directory_entry mm.mem dir j) ≢ table
  table_ne_table j h p e =
      let same : directory_entry mm.mem dir j / 2 ^ 12 ≡ page / 2 ^ 12 =
        omega (arith, page_aligned.0, page_aligned.1, load32-lt mm.mem (dir + j * 4)) in
      true_ne_false (sym (reserved.table_used j h p) ∙ ap (test_bit mm) same ∙ page_aligned.2)

  -- Off the new table, the byte behind it and the new entry, memory is as the allocation left it.
  pub load8-linked_allocated :
      (b : ℕ)
      → (b < table) ⊎ (table + page_size < b) ⊎ (b ≡ table)
      → (b < dir + i * 4) ⊎ (dir + i * 4 + 4 ≤ b)
      → load8 linked b ≡ load8 allocated b
  load8-linked_allocated b out far =
      load8-fill_entry_ne cleared (dir + i * 4) (virt_2_phys table) b far
      ∙ ground (arith, memset_lem allocated table 0 page_size b)

  -- Off the bitmap as well, memory is as it was.
  load8-linked :
      (b : ℕ)
      → OffBitmap mm b
      → (b < table) ⊎ (table + page_size < b) ⊎ (b ≡ table)
      → (b < dir + i * 4) ⊎ (dir + i * 4 + 4 ≤ b)
      → load8 linked b ≡ load8 mm.mem b
  load8-linked b off out far =
      load8-linked_allocated b out far ∙ (get_free_physical_page-IsKept mm).bytes b off

  pub directory_entry-linked :
      (j : ℕ) → j < 1024 → j ≢ i → directory_entry linked dir j ≡ directory_entry mm.mem dir j
  directory_entry-linked j h ne = load32-ext linked mm.mem (dir + j * 4) (λ b lo hi.
      load8-linked b (omega (arith, reserved.guarded.directory_off (b - dir) (omega arith)))
        (omega (arith, table_ne_dir, spare.behind, page_aligned.0, page_aligned.1, paged.aligned))
        (omega arith))

  directory_entry-linked_self :
      directory_entry linked dir i ≡ filled (directory_entry cleared dir i) page
  directory_entry-linked_self =
      load32-fill_entry cleared (dir + i * 4) (virt_2_phys table)
      ∙ ap (filled (directory_entry cleared dir i)) (omega (arith, page_aligned.1))

  pub table_at-linked : table_at (directory_entry linked dir i) ≡ table
  table_at-linked = omega (arith, directory_entry-linked_self, page_aligned.0, page_aligned.1)

  pub there : directory_entry linked dir i % 2 ≡ 1
  there = omega (arith, directory_entry-linked_self)

  page_entry-linked :
      (j k : ℕ)
      → j < 1024
      → k < 1024
      → directory_entry mm.mem dir j % 2 ≡ 1
      → load32 linked (table_at (directory_entry mm.mem dir j) + k * 4)
        ≡ load32 mm.mem (table_at (directory_entry mm.mem dir j) + k * 4)
  page_entry-linked j k hj hk p = load32-ext linked mm.mem _ (λ b lo hi.
      load8-linked b
        (omega (
          arith,
          reserved.guarded.table_off j hj p (b - table_at (directory_entry mm.mem dir j))
              (omega arith),
        ))
        (omega
          (arith, table_ne_table j hj p, spare.behind_table j hj p, page_aligned.0, page_aligned.1))
        (omega (arith, paged.outside j hj p, paged.aligned)))

  load8-linked_new : (b : ℕ) → table ≤ b → b < table + page_size → load8 linked b ≡ 0
  load8-linked_new b lo hi =
      load8-fill_entry_ne cleared (dir + i * 4) (virt_2_phys table) b
        (omega (arith, table_ne_dir, page_aligned.0, page_aligned.1, paged.aligned))
      ∙ ground (
        arith,
        memset_lem allocated table 0 page_size b,
        spare.first,
        ap (load8 allocated) {x = b} {y = table},
      )

  -- The new table has no page.
  page_entry-linked_new : (k : ℕ) → k < 1024 → load32 linked (table + k * 4) ≡ 0
  page_entry-linked_new k h =
      unfold load32 in
      omega (
        arith,
        load8-linked_new (table + k * 4) (omega arith) (omega arith),
        load8-linked_new (table + k * 4 + 1) (omega arith) (omega arith),
        load8-linked_new (table + k * 4 + 2) (omega arith) (omega arith),
        load8-linked_new (table + k * 4 + 3) (omega arith) (omega arith),
      )

  -- An entry that was there before.
  present-linked :
      (j : ℕ)
      → j < 1024
      → j ≢ i
      → directory_entry linked dir j % 2 ≡ 1
      → directory_entry mm.mem dir j % 2 ≡ 1
  present-linked j h ne p = sym (ap (λ (t : ℕ). t % 2) (directory_entry-linked j h ne)) ∙ p

  table_ne_linked :
      (j : ℕ)
      → j < 1024
      → j ≢ i
      → directory_entry linked dir j % 2 ≡ 1
      → table_at (directory_entry linked dir j) ≢ table
  table_ne_linked j h ne p =
      rw (directory_entry-linked j h ne) (table_ne_table j h (present-linked j h ne p))

  pub IsPaged-linked : IsPaged linked dir
  IsPaged-linked = record {
    aligned = paged.aligned;
    outside = λ j h p. elim (ℕ_discrete j i) [
      | yes same ↦ rw same (λ e. table_ne_dir (sym table_at-linked ∙ e))
      | no other ↦
          rw (directory_entry-linked j h other) (paged.outside j h (present-linked j h other p))
    ];
    apart = λ j k hj hk ne p q e. elim (ℕ_discrete j i) [
      | yes a ↦
          let b : k ≢ i = λ b. ne (a ∙ sym b) in
          table_ne_linked k hk b q
            (sym e ∙ ap (λ t. table_at (directory_entry linked dir t)) a ∙ table_at-linked)
      | no a ↦ elim (ℕ_discrete k i) [
        | yes b ↦
            table_ne_linked j hj a p
              (e ∙ ap (λ t. table_at (directory_entry linked dir t)) b ∙ table_at-linked)
        | no b ↦ paged.apart j k hj hk ne (present-linked j hj a p) (present-linked k hk b q) (
            sym (ap table_at (directory_entry-linked j hj a))
            ∙ e
            ∙ ap table_at (directory_entry-linked k hk b))
      ]
    ];
  }

  pub translate-linked : (v : ℕ) → v < 2 ^ 32 → translate linked dir v ≡ translate mm.mem dir v
  unfolding translate
  translate-linked v h = elim (ℕ_discrete (v / 2 ^ 22) i) [
    | yes same ↦ rw (
      same,
      there,
      absent,
      table_at-linked,
      page_entry-linked_new (v / 2 ^ 12 % 1024) (omega arith),
    )
    | no other ↦ elim (Bool-cases (directory_entry mm.mem dir (v / 2 ^ 22) % 2 == 1)) [
      | inl p ↦ rw (
        directory_entry-linked (v / 2 ^ 22) (omega arith) other,
        p,
        page_entry-linked (v / 2 ^ 22) (v / 2 ^ 12 % 1024) (omega arith) (omega arith)
            (eq_of_== _ _ p),
      )
      | inr p ↦ rw (directory_entry-linked (v / 2 ^ 22) (omega arith) other, p)
    ]
  ]
