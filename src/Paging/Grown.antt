-- ===== src/Paging/Grown.antt =====
-- The loop over the pages of the kernel heap where its first round allocates the table.
use pros.Prelude.{
  ℕ, suc, ◌+◌, ◌*◌, ◌/◌, ◌%◌, ◌^◌, ◌≤◌, ◌<◌, ◌≡◌, ◌≢◌, ◌-◌, ◌∙◌, ap, sym, refl, true, arith,
  ℕ_discrete,
}
use mathlib.Core.Path.{subst}
use pros.Memory.{Mem}
use pros.MemoryManager.{MemoryManager, get_free_physical_page, null, test_bit}
use pros.MemoryManager.Kept.{OffBitmap, IsKept, get_free_physical_page-IsKept, test_bit-kept}
use pros.MemoryManager.Supply.{HasFree, HasFree-ext, frame_of, get_free_physical_page-IsSupplied}
use pros.Paging.{phys_2_virt, page_size, map_page, map_heap, add_table}
use pros.Paging.Walk.{directory_entry, table_at, IsPaged, IsGuarded, IsMapped}
use pros.Paging.Mapped.{
  map_page-absent, map_entry-mapped, mapped, directory_entry-mapped, load8-mapped,
}
use pros.Paging.Fresh.{
  IsReserved, IsSpare, linked, there, IsPaged-linked, directory_entry-linked, table_at-linked,
  load8-linked_allocated,
}
use pros.Paging.Created.{map_page-creates}
use pros.Paging.Frames.{AreMapped, AreMapped-step, IsNext-of_supplied}
use pros.Paging.Pages.{map_heap-AreMapped, next, round-IsMapped, round-IsMappable}

-- A directory to which a table for entry `i` can be added: `getFreePhysicalPage` has a page, which is
-- spare and off the bitmap.
pub record IsExtensible (mm : MemoryManager) (i : ℕ) : Type 0 where
  pub paged : IsPaged mm.mem mm.current_page_directory
  pub reserved : IsReserved mm
  pub small : i < 1024
  pub absent : directory_entry mm.mem mm.current_page_directory i % 2 ≡ 0
  pub got : (get_free_physical_page mm 1).0 ≢ null
  pub spare :
      IsSpare mm.mem
        (get_free_physical_page mm 1).1.mem
        mm.current_page_directory
        (phys_2_virt (get_free_physical_page mm 1).0)
  pub off : (b : ℕ) → b ≤ page_size → OffBitmap mm (phys_2_virt (get_free_physical_page mm 1).0 + b)

module _ (mm : MemoryManager) (page virt : ℕ) (fits : virt < 2 ^ 32)
    (ok : IsExtensible mm (virt / 2 ^ 22)) where
  abbrev i : ℕ
  i = virt / 2 ^ 22

  abbrev dir : ℕ
  dir = mm.current_page_directory

  abbrev allocated : MemoryManager
  allocated = (get_free_physical_page mm 1).1

  kept : IsKept mm allocated
  kept = get_free_physical_page-IsKept mm

  abbrev extended : Mem
  extended = linked mm i ok.paged ok.reserved ok.small ok.absent ok.got ok.spare

  shape : IsPaged extended dir
  shape = IsPaged-linked mm i ok.paged ok.reserved ok.small ok.absent ok.got ok.spare

  present : directory_entry extended dir i % 2 ≡ 1
  present = there mm i ok.paged ok.reserved ok.small ok.absent ok.got ok.spare

  abbrev grown : MemoryManager
  grown = record allocated { mem = mapped extended dir page virt shape fits present }

  map_page-grown : map_page mm page virt ≡ grown
  unfolding add_table
  map_page-grown =
      map_page-absent mm page virt fits ok.absent
      ∙ ap (λ m. record allocated { mem = m })
          (map_entry-mapped extended dir page virt shape fits present)

  grown-IsMapped : IsMapped mm grown page virt
  grown-IsMapped =
      subst (λ s. IsMapped mm s page virt) map_page-grown
        (map_page-creates mm page virt ok.paged ok.reserved fits ok.absent ok.got ok.spare)

  directory_entry-grown :
      (j : ℕ)
      → j < 1024
      → directory_entry grown.mem grown.current_page_directory j ≡ directory_entry extended dir j
  directory_entry-grown j h =
      ap (λ d. directory_entry grown.mem d j) kept.directory
      ∙ directory_entry-mapped extended dir page virt shape fits present j h

  there-grown : directory_entry grown.mem grown.current_page_directory i % 2 ≡ 1
  there-grown = rw (directory_entry-grown i ok.small, present)

  OffBitmap-grown : (b : ℕ) → OffBitmap mm b → OffBitmap grown b
  OffBitmap-grown b off =
      omega (arith, off, kept.map_start, ap (λ (t : ℕ). t / 32 / 4096) kept.map_size)

  table_off-grown :
      (j : ℕ)
      → j < 1024
      → directory_entry extended dir j % 2 ≡ 1
      → (b : ℕ) → b < page_size
      → OffBitmap grown (table_at (directory_entry extended dir j) + b)
  table_off-grown j h p b hb = elim (ℕ_discrete j i) [
    | yes same ↦
        rw (same, table_at-linked mm i ok.paged ok.reserved ok.small ok.absent ok.got ok.spare)
          (OffBitmap-grown _ (ok.off b (omega arith)))
    | no other ↦
        let e =
          directory_entry-linked mm i ok.paged ok.reserved ok.small ok.absent ok.got ok.spare j h
            other in
        rw e (
          OffBitmap-grown _
            (ok.reserved.guarded.table_off j h (sym (ap (λ (t : ℕ). t % 2) e) ∙ p) b hb))
  ]

  IsGuarded-grown : IsGuarded grown
  IsGuarded-grown = record {
    directory_off = λ b h.
        rw kept.directory (OffBitmap-grown (dir + b) (ok.reserved.guarded.directory_off b h));
    table_off = λ j h p b hb.
        rw (directory_entry-grown j h)
          (table_off-grown j h (sym (ap (λ (t : ℕ). t % 2) (directory_entry-grown j h)) ∙ p) b hb);
  }

  -- Once the page is allocated, the call leaves the bitmap alone.
  test_bit-grown :
      (b : ℕ) → b < mm.memory_size / 32 / 4096 * 32 → test_bit grown b ≡ test_bit allocated b
  test_bit-grown b h =
      let table = phys_2_virt (get_free_physical_page mm 1).0 in
      let at : table_at (directory_entry extended dir i) ≡ table =
        table_at-linked mm i ok.paged ok.reserved ok.small ok.absent ok.got ok.spare in
      let size = ap (λ (t : ℕ). t / 32 / 4096) kept.map_size in
      test_bit-kept allocated grown b refl (omega (arith, size)) (λ c lo hi.
        load8-mapped extended dir page virt shape fits present c
          (λ k lt e. omega (arith, e, at, ok.off k (omega arith), kept.map_start, size))
        ∙ load8-linked_allocated mm i ok.paged ok.reserved ok.small ok.absent ok.got ok.spare c
            (grind (arith, ok.off (c - table), kept.map_start, size))
            (grind
              (arith, ok.reserved.guarded.directory_off (c - dir), ok.small, kept.map_start, size)))

-- As `map_heap-AreMapped`, for at least one page and a directory without the table, for which one page
-- more is free.
pub map_heap-grown :
    (mm : MemoryManager) (page left virt : ℕ)
    → IsExtensible mm (virt / 2 ^ 22)
    → HasFree mm (suc (suc left))
    → test_bit mm (frame_of page) ≡ true
    → virt % page_size ≡ 0
    → virt + suc left * page_size ≤ (virt / 2 ^ 22 + 1) * 2 ^ 22
    → AreMapped mm (map_heap mm page (suc left) virt) page (suc left) virt
unfolding map_heap
map_heap-grown mm page left virt ok supply used aligned hi =
    let i = virt / 2 ^ 22 in
    let fits : virt < 2 ^ 32 = omega (arith, ok.small) in
    let s0 = allocated mm page virt fits ok in
    let s1 = grown mm page virt fits ok in
    let bits = test_bit-grown mm page virt fits ok in
    let size = (get_free_physical_page-IsKept mm).map_size in
    let table_taken = get_free_physical_page-IsSupplied mm (suc left) supply in
    let taken = get_free_physical_page-IsSupplied s1 left (
      HasFree-ext s0 s1 (suc left) refl refl refl
        (λ b h. bits b (omega (arith, h, ap (λ (t : ℕ). t / 32 / 4096) size))) (omega arith)
        table_taken.rest) in
    let mapped' = grown-IsMapped mm page virt fits ok in
    let guarded = IsGuarded-grown mm page virt fits ok in
    let there' = there-grown mm page virt fits ok in
    let s = next mm s1 page virt i mapped' guarded ok.small there' in
    let frame = (get_free_physical_page s1 1).0 in
    let one = round-IsMapped mm s1 page virt i mapped' guarded ok.small there' in
    let more = round-IsMappable mm s1 page virt i mapped' guarded ok.small there' in
    let later =
      map_heap-AreMapped s frame left (virt + page_size) i more taken.rest taken.used (omega arith)
        (omega arith) (omega arith) in
    rw (map_page-grown mm page virt fits ok) (
      AreMapped-step mm s (map_heap s frame left (virt + page_size)) page frame left virt one later
        (IsNext-of_supplied mm s1 left size (λ b h e. table_taken.keeps b (sym (bits b h) ∙ e))
          taken)
        used aligned (omega (arith, ok.small)))
