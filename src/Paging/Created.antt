-- ===== src/Paging/Created.antt =====
-- The whole of `mapPage` where it allocates a table.
use pros.Prelude.{ℕ, ◌/◌, ◌%◌, ◌^◌, ◌<◌, ◌≡◌, ◌≢◌, ◌∙◌, arith}
use pros.MemoryManager.{MemoryManager, get_free_physical_page, null}
use pros.MemoryManager.Kept.{get_free_physical_page-IsKept}
use pros.Paging.{phys_2_virt, map_page, add_table}
use pros.Paging.Walk.{directory_entry, IsPaged, IsMapped}
use pros.Paging.Mapped.{map_page-absent, map_entry-mapped, translate-mapped, IsPaged-mapped}
use pros.Paging.Fresh.{
  IsReserved, IsSpare, linked, there, add_table-linked, IsPaged-linked, translate-linked,
}

-- For a directory under which each present table is a page of its own, and a page of a 32-bit address
-- for which the directory has no table: if the bitmap counts the directory's pages as used and is none
-- of them, a page is free, its first byte is zero and the page behind it is not one of the
-- directory, then after `mapPage` the processor finds every address of the page at the same offset of
-- the given frame, and every other address where it was (or faults as before).
pub map_page-creates :
    (mm : MemoryManager) (phys virt : ℕ)
    → IsPaged mm.mem mm.current_page_directory
    → IsReserved mm
    → virt < 2 ^ 32
    → directory_entry mm.mem mm.current_page_directory (virt / 2 ^ 22) % 2 ≡ 0
    → (get_free_physical_page mm 1).0 ≢ null
    → IsSpare mm.mem
        (get_free_physical_page mm 1).1.mem
        mm.current_page_directory
        (phys_2_virt (get_free_physical_page mm 1).0)
    → IsMapped mm (map_page mm phys virt) phys virt
map_page-creates mm phys virt paged reserved small absent got spare =
    let dir = mm.current_page_directory in
    let i = virt / 2 ^ 22 in
    let fits : i < 1024 = omega arith in
    let m = linked mm i paged reserved fits absent got spare in
    let shape = IsPaged-linked mm i paged reserved fits absent got spare in
    let present = there mm i paged reserved fits absent got spare in
    rw
      (
        map_page-absent mm phys virt small absent,
        add_table-linked mm i paged reserved fits absent got spare,
        map_entry-mapped m dir phys virt shape small present,
      )
      (record {
        walk = λ v h.
            translate-mapped m dir phys virt shape small present v h
            ∙ rw (translate-linked mm i paged reserved fits absent got spare v h);
        shape = IsPaged-mapped m dir phys virt shape small present;
        same_directory = unfold add_table in (get_free_physical_page-IsKept mm).directory;
      })
