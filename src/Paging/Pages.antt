-- ===== src/Paging/Pages.antt =====
-- The loop of `initVMM` that maps the pages of the kernel heap.
use pros.Prelude.{
  ℕ, zero, suc, ◌+◌, ◌*◌, ◌/◌, ◌%◌, ◌^◌, ◌≤◌, ◌<◌, ◌≡◌, true, ◌∙◌, refl, ap, sym, arith,
}
use mathlib.Core.Path.{subst}
use pros.MemoryManager.{MemoryManager, get_free_physical_page, test_bit}
use pros.MemoryManager.Kept.{IsKept, get_free_physical_page-IsKept, test_bit-kept}
use pros.MemoryManager.Supply.{HasFree, HasFree-ext, frame_of, get_free_physical_page-IsSupplied}
use pros.Paging.{page_size, map_page, map_heap}
use pros.Paging.Walk.{directory_entry, translate, IsPaged, IsGuarded, IsMapped}
use pros.Paging.Mapped.{
  map_page-present, map_page-translate, map_entry-mapped, directory_entry-mapped, load8-mapped,
  mapped,
}
use pros.Paging.Frames.{AreMapped, AreMapped-step, IsNext-of_supplied}
use pros.Paging.Keeps.{translate-kept, IsPaged-kept, same_entry, IsGuarded-kept}

-- A directory whose table `i` can take pages.
pub record IsMappable (mm : MemoryManager) (i : ℕ) : Type 0 where
  pub paged : IsPaged mm.mem mm.current_page_directory
  pub guarded : IsGuarded mm
  pub small : i < 1024
  pub there : directory_entry mm.mem mm.current_page_directory i % 2 ≡ 1

-- The allocation at the end of a round, where `mapPage` has left `after`.
module _ (mm after : MemoryManager) (page virt i : ℕ) (mapped : IsMapped mm after page virt)
    (guarded : IsGuarded after) (small : i < 1024)
    (there : directory_entry after.mem after.current_page_directory i % 2 ≡ 1) where
  abbrev pub next : MemoryManager
  next = (get_free_physical_page after 1).1

  next-IsKept : IsKept after next
  next-IsKept = get_free_physical_page-IsKept after

  pub round-IsMapped : IsMapped mm next page virt
  round-IsMapped = record {
    walk = λ v h.
        ap (λ d. translate next.mem d v) (sym mapped.same_directory)
        ∙ translate-kept after next next-IsKept guarded v h
        ∙ ap (λ d. translate after.mem d v) mapped.same_directory
        ∙ mapped.walk v h;
    shape = subst (IsPaged next.mem) mapped.same_directory (
        IsPaged-kept after next next-IsKept guarded
          (subst (IsPaged after.mem) (sym mapped.same_directory) mapped.shape));
    same_directory = next-IsKept.directory ∙ mapped.same_directory;
  }

  pub round-IsMappable : IsMappable next i
  round-IsMappable = record {
    paged =
        subst (IsPaged next.mem) (sym (next-IsKept.directory ∙ mapped.same_directory))
          round-IsMapped.shape;
    guarded = IsGuarded-kept after next next-IsKept guarded;
    small = small;
    there = rw (same_entry after next next-IsKept guarded i small, there);
  }

module _ (mm : MemoryManager) (page virt : ℕ) (small : virt < 2 ^ 32)
    (ok : IsMappable mm (virt / 2 ^ 22)) where
  abbrev after : MemoryManager
  after = record mm {
    mem = mapped mm.mem mm.current_page_directory page virt ok.paged small ok.there;
  }

  map_page-after : map_page mm page virt ≡ after
  map_page-after =
      map_page-present mm page virt small ok.there
      ∙ ap (λ m. record mm { mem = m })
          (map_entry-mapped mm.mem mm.current_page_directory page virt ok.paged small ok.there)

  map_page-IsMapped : IsMapped mm after page virt
  map_page-IsMapped =
      subst (λ s. IsMapped mm s page virt) map_page-after
        (map_page-translate mm page virt ok.paged small ok.there)

  directory_entry-after :
      (i : ℕ)
      → i < 1024
      → directory_entry after.mem mm.current_page_directory i
        ≡ directory_entry mm.mem mm.current_page_directory i
  directory_entry-after i h =
      directory_entry-mapped mm.mem mm.current_page_directory page virt ok.paged small ok.there i h

  IsGuarded-after : IsGuarded after
  IsGuarded-after = record {
    directory_off = ok.guarded.directory_off;
    table_off = λ i h p b hb. rw (directory_entry-after i h) (
        ok.guarded.table_off i h (sym (ap (λ (t : ℕ). t % 2) (directory_entry-after i h)) ∙ p) b
          hb);
  }

  -- The call leaves the bitmap alone.
  test_bit-after : (b : ℕ) → b < mm.memory_size / 32 / 4096 * 32 → test_bit after b ≡ test_bit mm b
  test_bit-after b h = test_bit-kept mm after b refl h (λ c lo hi.
      load8-mapped mm.mem mm.current_page_directory page virt ok.paged small ok.there c
        (λ k lt e. omega (arith, e, ok.guarded.table_off (virt / 2 ^ 22) ok.small ok.there k lt)))

  there-after : directory_entry after.mem after.current_page_directory (virt / 2 ^ 22) % 2 ≡ 1
  there-after = rw (directory_entry-after (virt / 2 ^ 22) ok.small, ok.there)

-- For pages that share one table of a directory whose pages are off the bitmap, a first page that is
-- used, and as many free pages as the loop of `initVMM` has rounds: the loop maps every address of the
-- pages to the same offset of a frame, which is the first page's for the first, and for every other a
-- different one that was free; it changes the walk of no other address, and keeps the shape of the
-- directory.
pub map_heap-AreMapped :
    (mm : MemoryManager) (page left virt i : ℕ)
    → IsMappable mm i
    → HasFree mm left
    → test_bit mm (frame_of page) ≡ true
    → virt % page_size ≡ 0
    → i * 2 ^ 22 ≤ virt
    → virt + left * page_size ≤ (i + 1) * 2 ^ 22
    → AreMapped mm (map_heap mm page left virt) page left virt
unfolding map_heap
map_heap-AreMapped mm page zero virt i ok supply used aligned lo hi = record {
  frames = λ k. 0;
  first = λ pos. absurd (omega arith);
  inside = λ v a b. absurd (omega arith);
  fresh = λ k pos h. absurd (omega arith);
  different = λ j k lt h e. omega arith;
  outside = λ v h out. refl;
  shape = ok.paged;
  same_directory = refl;
}
map_heap-AreMapped mm page (suc left) virt i ok supply used aligned lo hi =
    let e : i ≡ virt / 2 ^ 22 = omega arith in
    let ok' : IsMappable mm (virt / 2 ^ 22) = subst (IsMappable mm) e ok in
    let small : virt < 2 ^ 32 = omega (arith, ok.small) in
    let s1 = after mm page virt small ok' in
    let bits = test_bit-after mm page virt small ok' in
    let taken =
      get_free_physical_page-IsSupplied s1 left
        (HasFree-ext mm s1 (suc left) refl refl refl bits (omega arith) supply) in
    let mapped' = map_page-IsMapped mm page virt small ok' in
    let guarded = IsGuarded-after mm page virt small ok' in
    let there = there-after mm page virt small ok' in
    let s = next mm s1 page virt (virt / 2 ^ 22) mapped' guarded ok'.small there in
    let frame = (get_free_physical_page s1 1).0 in
    let one = round-IsMapped mm s1 page virt (virt / 2 ^ 22) mapped' guarded ok'.small there in
    let more = round-IsMappable mm s1 page virt (virt / 2 ^ 22) mapped' guarded ok'.small there in
    let later =
      map_heap-AreMapped s frame left (virt + page_size) i (subst (IsMappable s) (sym e) more)
        taken.rest taken.used (omega arith) (omega arith) (omega arith) in
    rw (map_page-after mm page virt small ok') (
      AreMapped-step mm s (map_heap s frame left (virt + page_size)) page frame left virt one later
        (IsNext-of_supplied mm s1 left refl (λ b h e. sym (bits b h) ∙ e) taken) used aligned
        (omega (arith, ok.small)))
