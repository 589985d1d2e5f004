-- ===== src/Paging/Keeps.antt =====
-- The directory and its tables while pages are allocated: `getFreePhysicalPage` writes the bitmap only.
use pros.Prelude.{
  ℕ, ◌+◌, ◌-◌, ◌*◌, ◌/◌, ◌%◌, ◌^◌, ◌<◌, ◌≡◌, inl, inr, ◌==◌, ◌∙◌, ap, sym, arith, Bool-cases,
  eq_of_==,
}
use pros.Memory.{load32}
use pros.Memory.Laws.{load32-ext}
use pros.MemoryManager.{MemoryManager}
use pros.MemoryManager.Kept.{OffBitmap, IsKept}
use pros.Paging.Walk.{directory_entry, table_at, translate, IsPaged, IsGuarded}

-- Pages that are off the bitmap do not change when a page is allocated.
module _ (mm mm' : MemoryManager) (kept : IsKept mm mm') (guarded : IsGuarded mm) where
  abbrev dir : ℕ
  dir = mm.current_page_directory

  pub directory_entry-kept :
      (i : ℕ) → i < 1024 → directory_entry mm'.mem dir i ≡ directory_entry mm.mem dir i
  directory_entry-kept i h =
      load32-ext mm'.mem mm.mem (dir + i * 4)
        (λ b lo hi. kept.bytes b (omega (arith, guarded.directory_off (b - dir) (omega arith))))

  present-kept :
      (i : ℕ)
      → i < 1024
      → directory_entry mm'.mem dir i % 2 ≡ 1
      → directory_entry mm.mem dir i % 2 ≡ 1
  present-kept i h p = sym (ap (λ (t : ℕ). t % 2) (directory_entry-kept i h)) ∙ p

  page_entry-kept :
      (i k : ℕ)
      → i < 1024
      → k < 1024
      → directory_entry mm.mem dir i % 2 ≡ 1
      → load32 mm'.mem (table_at (directory_entry mm.mem dir i) + k * 4)
        ≡ load32 mm.mem (table_at (directory_entry mm.mem dir i) + k * 4)
  page_entry-kept i k hi hk p = load32-ext mm'.mem mm.mem _ (λ b lo up. kept.bytes b (
      omega (
        arith,
        guarded.table_off i hi p (b - table_at (directory_entry mm.mem dir i)) (omega arith),
      )))

  pub translate-kept : (v : ℕ) → v < 2 ^ 32 → translate mm'.mem dir v ≡ translate mm.mem dir v
  unfolding translate
  translate-kept v h = elim (Bool-cases (directory_entry mm.mem dir (v / 2 ^ 22) % 2 == 1)) [
    | inl p ↦ rw (
      directory_entry-kept (v / 2 ^ 22) (omega arith),
      p,
      page_entry-kept (v / 2 ^ 22) (v / 2 ^ 12 % 1024) (omega arith) (omega arith) (eq_of_== _ _ p),
    )
    | inr p ↦ rw (directory_entry-kept (v / 2 ^ 22) (omega arith), p)
  ]

  pub IsPaged-kept : IsPaged mm.mem dir → IsPaged mm'.mem dir
  IsPaged-kept paged = record {
    aligned = paged.aligned;
    outside = λ i h p. rw (directory_entry-kept i h) (paged.outside i h (present-kept i h p));
    apart = λ i j hi hj ne p q.
        rw (directory_entry-kept i hi, directory_entry-kept j hj)
          (paged.apart i j hi hj ne (present-kept i hi p) (present-kept j hj q));
  }

  pub OffBitmap-kept : (b : ℕ) → OffBitmap mm b → OffBitmap mm' b
  OffBitmap-kept b off =
      omega (arith, off, kept.map_start, ap (λ (t : ℕ). t / 32 / 4096) kept.map_size)

  pub same_entry :
      (i : ℕ)
      → i < 1024
      → directory_entry mm'.mem mm'.current_page_directory i ≡ directory_entry mm.mem dir i
  same_entry i h = ap (λ d. directory_entry mm'.mem d i) kept.directory ∙ directory_entry-kept i h

  pub IsGuarded-kept : IsGuarded mm'
  IsGuarded-kept = record {
    directory_off = λ b h. rw kept.directory (OffBitmap-kept (dir + b) (guarded.directory_off b h));
    table_off = λ i h p b hb. rw (same_entry i h) (
        OffBitmap-kept _
          (guarded.table_off i h (sym (ap (λ (t : ℕ). t % 2) (same_entry i h)) ∙ p) b hb));
  }
