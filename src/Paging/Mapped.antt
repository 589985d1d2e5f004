-- ===== src/Paging/Mapped.antt =====
-- `mapPage` where the directory has a table for the page.
use pros.Prelude.{
  ℕ, ◌+◌, ◌*◌, ◌/◌, ◌%◌, ◌^◌, ◌-◌, dec_lt, ◌<◌, ◌≡◌, ◌≢◌, inl, inr, ◌==◌, ◌∙◌, refl, ap, sym, some,
  if◌then◌else◌, arith, ℕ_discrete, ==_of_eq, ==_of_ne, Bool-cases, eq_of_==,
}
use pros.Memory.{Mem, load8}
use pros.Memory.Laws.{load32-lt}
use pros.MemoryManager.{MemoryManager}
use pros.Paging.{
  phys_2_virt, entry_at, page_table_index, page_directory_index, get_physical_address, map_entry,
  page_size, map_page, present, fill_entry, add_table,
}
use pros.Paging.Entry.{
  load8-fill_entry_ne, load32-fill_entry, load32-fill_entry_ne, page_table_index_lem,
  page_directory_index_lem, get_physical_address_lem,
}
use pros.Paging.Walk.{directory_entry, table_at, page_entry, translate, IsPaged, IsMapped}

-- The address of the entry that `mapPage` fills.
entry_address :
    (w virt : ℕ)
    → w < 2 ^ 32
    → phys_2_virt (entry_at (get_physical_address w) (page_table_index virt))
      ≡ table_at w + virt / 2 ^ 12 % 1024 * 4
entry_address w virt small = omega (arith, get_physical_address_lem w, page_table_index_lem virt)

module _ (m : Mem) (dir phys virt : ℕ) (paged : IsPaged m dir) (small : virt < 2 ^ 32)
    (there : directory_entry m dir (virt / 2 ^ 22) % 2 ≡ 1) where
  abbrev entry : ℕ
  entry = directory_entry m dir (virt / 2 ^ 22)

  abbrev slot : ℕ
  slot = table_at entry + virt / 2 ^ 12 % 1024 * 4

  abbrev pub mapped : Mem
  mapped = fill_entry m slot phys

  pub map_entry-mapped : map_entry m (dir + virt / 2 ^ 22 * 4) phys virt ≡ mapped
  unfolding map_entry
  map_entry-mapped = ap (λ a. fill_entry m a phys) (entry_address entry virt (load32-lt _ _))

  pub directory_entry-mapped :
      (i : ℕ) → i < 1024 → directory_entry mapped dir i ≡ directory_entry m dir i
  directory_entry-mapped i h =
      let ne = paged.outside (virt / 2 ^ 22) (omega arith) there in
      load32-fill_entry_ne m slot phys (dir + i * 4) (omega (arith, paged.aligned))

  -- Off the table, memory is as it was.
  pub load8-mapped :
      (b : ℕ) → ((k : ℕ) → k < page_size → b ≢ table_at entry + k) → load8 mapped b ≡ load8 m b
  load8-mapped b off = load8-fill_entry_ne m slot phys b (elim (dec_lt b slot) [
    | yes lo ↦ inl lo
    | no ge ↦ elim (dec_lt b (slot + 4)) [
      | yes lt ↦ absurd (off (b - table_at entry) (omega arith) (omega arith))
      | no hi ↦ inr (omega arith)
    ]
  ])

  pub IsPaged-mapped : IsPaged mapped dir
  IsPaged-mapped = record {
    aligned = paged.aligned;
    outside = λ i h p.
        rw (directory_entry-mapped i h)
          (paged.outside i h (sym (ap (λ (t : ℕ). t % 2) (directory_entry-mapped i h)) ∙ p));
    apart = λ i j hi hj ne p q.
        rw (directory_entry-mapped i hi, directory_entry-mapped j hj)
          (paged.apart i j hi hj ne (sym (ap (λ (t : ℕ). t % 2) (directory_entry-mapped i hi)) ∙ p)
            (sym (ap (λ (t : ℕ). t % 2) (directory_entry-mapped j hj)) ∙ q));
  }

  -- An entry of a table of the directory, after the call.
  page_entry-mapped :
      (v : ℕ)
      → v < 2 ^ 32
      → directory_entry m dir (v / 2 ^ 22) % 2 ≡ 1
      → v / 2 ^ 12 ≢ virt / 2 ^ 12
      → page_entry mapped (table_at (directory_entry m dir (v / 2 ^ 22))) v
        ≡ page_entry m (table_at (directory_entry m dir (v / 2 ^ 22))) v
  page_entry-mapped v h p ne =
      load32-fill_entry_ne m slot phys _ (elim (ℕ_discrete (v / 2 ^ 22) (virt / 2 ^ 22)) [
        | yes same ↦ omega (arith, ap (λ i. table_at (directory_entry m dir i)) same)
        | no other ↦ omega (
          arith,
          paged.apart (v / 2 ^ 22) (virt / 2 ^ 22) (omega arith) (omega arith) other p there,
        )
      ])

  translate_ne :
      (v : ℕ) → v < 2 ^ 32 → v / 2 ^ 12 ≢ virt / 2 ^ 12 → translate mapped dir v ≡ translate m dir v
  unfolding translate
  translate_ne v h ne = elim (Bool-cases (directory_entry m dir (v / 2 ^ 22) % 2 == 1)) [
    | inl p ↦ rw (
      directory_entry-mapped (v / 2 ^ 22) (omega arith),
      p,
      page_entry-mapped v h (eq_of_== _ _ p) ne,
    )
    | inr p ↦ rw (directory_entry-mapped (v / 2 ^ 22) (omega arith), p)
  ]

  translate_self :
      (v : ℕ)
      → v / 2 ^ 12 ≡ virt / 2 ^ 12
      → translate mapped dir v ≡ some (phys / 2 ^ 12 % 2 ^ 20 * 2 ^ 12 + v % 2 ^ 12)
  unfolding translate
  translate_self v same =
      let i : v / 2 ^ 22 ≡ virt / 2 ^ 22 = omega arith in
      let k : v / 2 ^ 12 % 1024 ≡ virt / 2 ^ 12 % 1024 = omega arith in
      rw
        (
          i,
          k,
          directory_entry-mapped (virt / 2 ^ 22) (omega arith),
          there,
          load32-fill_entry m slot phys,
        )
        (ground arith)

  -- The walk after the entry has been filled.
  pub translate-mapped :
      (v : ℕ)
      → v < 2 ^ 32
      → translate mapped dir v ≡ (
          if v / 2 ^ 12 == virt / 2 ^ 12
          then some (phys / 2 ^ 12 % 2 ^ 20 * 2 ^ 12 + v % 2 ^ 12)
          else translate m dir v)
  translate-mapped v h = elim (ℕ_discrete (v / 2 ^ 12) (virt / 2 ^ 12)) [
    | yes same ↦ rw (==_of_eq _ _ same) (translate_self v same)
    | no other ↦ rw (==_of_ne _ _ other) (translate_ne v h other)
  ]

-- The two branches of `mapPage`.
module _ (mm : MemoryManager) (phys virt : ℕ) (small : virt < 2 ^ 32) where
  abbrev address : ℕ
  address = entry_at mm.current_page_directory (page_directory_index virt)

  address_lem : address ≡ mm.current_page_directory + virt / 2 ^ 22 * 4
  address_lem = omega (arith, page_directory_index_lem virt)

  pub map_page-present :
      directory_entry mm.mem mm.current_page_directory (virt / 2 ^ 22) % 2 ≡ 1
      → map_page mm phys virt ≡ record mm {
        mem = map_entry mm.mem (mm.current_page_directory + virt / 2 ^ 22 * 4) phys virt;
      }
  unfolding map_page present
  map_page-present p = rw (address_lem, p)

  pub map_page-absent :
      directory_entry mm.mem mm.current_page_directory (virt / 2 ^ 22) % 2 ≡ 0
      → map_page mm phys virt
        ≡ record (add_table mm (mm.current_page_directory + virt / 2 ^ 22 * 4)) {
          mem =
              map_entry
                (add_table mm (mm.current_page_directory + virt / 2 ^ 22 * 4)).mem
                (mm.current_page_directory + virt / 2 ^ 22 * 4)
                phys
                virt;
        }
  unfolding map_page present
  map_page-absent p = rw (address_lem, p)

-- For a directory under which each present table is a page of its own, and a page of a 32-bit address
-- for which the directory has a table: after `mapPage` the processor finds every address of the page
-- at the same offset of the given frame, and every other address where it was (or faults as before),
-- and the directory keeps its shape.
pub map_page-translate :
    (mm : MemoryManager) (phys virt : ℕ)
    → IsPaged mm.mem mm.current_page_directory
    → virt < 2 ^ 32
    → directory_entry mm.mem mm.current_page_directory (virt / 2 ^ 22) % 2 ≡ 1
    → IsMapped mm (map_page mm phys virt) phys virt
map_page-translate mm phys virt paged small there =
    let dir = mm.current_page_directory in
    rw
      (
        map_page-present mm phys virt small there,
        map_entry-mapped mm.mem dir phys virt paged small there,
      )
      (record {
        walk = translate-mapped mm.mem dir phys virt paged small there;
        shape = IsPaged-mapped mm.mem dir phys virt paged small there;
        same_directory = refl;
      })
