-- ===== src/Paging/Walk.antt =====
-- The page walk of the processor, and the shape of a directory under which a page can be mapped
-- without a change to others.
use pros.Prelude.{
  ℕ, ◌+◌, ◌*◌, ◌/◌, ◌%◌, ◌^◌, ◌<◌, ◌≡◌, ◌≢◌, ◌==◌, Option, none, some, if◌then◌else◌,
}
use pros.Memory.{Mem, load32}
use pros.MemoryManager.{MemoryManager}
use pros.MemoryManager.Kept.{OffBitmap}
use pros.Paging.{phys_2_virt, page_size}

-- Entry `i` of the directory, and the table that it leads to.
abbrev pub directory_entry : Mem → (dir i : ℕ) → ℕ
directory_entry m dir i = load32 m (dir + i * 4)

abbrev pub table_at : (entry : ℕ) → ℕ
table_at entry = phys_2_virt (entry / 2 ^ 12 * 2 ^ 12)

-- The entry for the page of `virt` in a table.
abbrev pub page_entry : Mem → (table virt : ℕ) → ℕ
page_entry m table virt = load32 m (table + virt / 2 ^ 12 % 1024 * 4)

-- The address that an entry of a table gives.
abbrev pub walk_entry : (entry virt : ℕ) → Option ℕ
walk_entry entry virt =
    if entry % 2 == 1 then some (entry / 2 ^ 12 * 2 ^ 12 + virt % 2 ^ 12) else none

-- The physical address of `virt`, or `none` for a page fault.
unfoldable pub translate : Mem → (dir virt : ℕ) → Option ℕ
translate m dir virt =
    let entry = directory_entry m dir (virt / 2 ^ 22) in
    if entry % 2 == 1 then walk_entry (page_entry m (table_at entry) virt) virt else none

-- The directory is a page, and its tables are other pages, each with one entry in the directory.
pub record IsPaged (m : Mem) (dir : ℕ) : Type 0 where
  pub aligned : dir % 2 ^ 12 ≡ 0
  pub outside :
      (i : ℕ)
      → i < 1024
      → directory_entry m dir i % 2 ≡ 1
      → table_at (directory_entry m dir i) ≢ dir
  pub apart :
      (i j : ℕ)
      → i < 1024
      → j < 1024
      → i ≢ j
      → directory_entry m dir i % 2 ≡ 1
      → directory_entry m dir j % 2 ≡ 1
      → table_at (directory_entry m dir i) ≢ table_at (directory_entry m dir j)

-- The bitmap of the page allocator is none of the pages of the directory.
pub record IsGuarded (mm : MemoryManager) : Type 0 where
  pub directory_off : (b : ℕ) → b < page_size → OffBitmap mm (mm.current_page_directory + b)
  pub table_off :
      (i : ℕ)
      → i < 1024
      → directory_entry mm.mem mm.current_page_directory i % 2 ≡ 1
      → (b : ℕ) → b < page_size
      → OffBitmap mm (table_at (directory_entry mm.mem mm.current_page_directory i) + b)

-- What `mapPage` promises: the walk finds every address of the page at the same offset of the frame,
-- and every other address where it was, and the directory keeps its shape.
pub record IsMapped (mm mm' : MemoryManager) (phys virt : ℕ) : Type 0 where
  pub walk :
      (v : ℕ)
      → v < 2 ^ 32
      → translate mm'.mem mm.current_page_directory v ≡ (
          if v / 2 ^ 12 == virt / 2 ^ 12
          then some (phys / 2 ^ 12 % 2 ^ 20 * 2 ^ 12 + v % 2 ^ 12)
          else translate mm.mem mm.current_page_directory v)
  pub shape : IsPaged mm'.mem mm.current_page_directory
  pub same_directory : mm'.current_page_directory ≡ mm.current_page_directory
