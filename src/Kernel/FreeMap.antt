-- ===== src/Kernel/FreeMap.antt =====
-- The memory map of a machine with 4 MB of memory, for the tests: after `initPMM` the first 2 MB are
-- used, and the others are free.
use pros.Prelude.{ℕ, ◌+◌, ◌*◌, ◌/◌, ◌^◌, ◌≤◌, ◌≡◌, inr, ◌∙◌, arith, [], ◌∷◌}
use pros.Memory.{load8}
use pros.CString.Block.{memset_lem}
use pros.MemoryManager.{MemoryManager}
use pros.MemoryManager.Init.{
  MmapEntry, apply_entry, apply_entries, fill, init_pmm, kernel_region, claimed, init_pmm-claimed,
  memory_size-init_pmm,
}
use pros.MemoryManager.Layout.{IsMarked, apply_entry-IsMarked, set_region_used-IsMarked}
use pros.MemoryManager.Counted.{used_blocks-set_region_used, used_blocks-set_region_free}
use pros.Paging.{virtual_base}
use pros.Paging.Boot.{IsFilled}

abbrev pub low_entry : MmapEntry
low_entry = record { addr_low = 0; len_low = 0x100000; kind = 1 }

abbrev pub high_entry : MmapEntry
high_entry = record { addr_low = 0x100000; len_low = 0x300000; kind = 1 }

module _ (mm : MemoryManager) (kernel_end : ℕ) (size : mm.memory_size ≡ 1024 * 4096)
    (high : virtual_base ≤ kernel_end) (low : kernel_end + 2 ^ 18 ≤ virtual_base + 512 * 4096) where
  abbrev start : MemoryManager
  start = fill mm kernel_end

  abbrev pub marked : MemoryManager
  marked = init_pmm mm kernel_end (low_entry ∷ high_entry ∷ [])

  after_low : IsMarked start (apply_entry start low_entry)
  after_low = apply_entry-IsMarked start low_entry (omega arith) (omega arith)

  after_high :
      IsMarked (apply_entry start low_entry) (apply_entry (apply_entry start low_entry) high_entry)
  after_high =
      apply_entry-IsMarked (apply_entry start low_entry) high_entry (omega arith) (omega arith)

  after_kernel : IsMarked (apply_entry (apply_entry start low_entry) high_entry) marked
  unfolding init_pmm apply_entries
  after_kernel =
      set_region_used-IsMarked (apply_entry (apply_entry start low_entry) high_entry) 0
        kernel_region (omega arith) (omega arith)

  map_start : marked.memory_map ≡ kernel_end
  unfolding fill
  map_start = after_kernel.start ∙ after_high.start ∙ after_low.start

  block_count : marked.max_blocks ≡ 1024
  unfolding fill
  block_count = after_kernel.blocks ∙ after_high.blocks ∙ after_low.blocks ∙ omega (arith, size)

  counted_low : (apply_entry start low_entry).used_blocks ≡ 1280
  unfolding fill apply_entry
  counted_low =
      used_blocks-set_region_free start 0 0x100000 (omega (arith, size)) ∙ omega (arith, size)

  counted_high : (apply_entry (apply_entry start low_entry) high_entry).used_blocks ≡ 2048
  unfolding apply_entry
  counted_high =
      used_blocks-set_region_free (apply_entry start low_entry) 0x100000 0x300000
        (omega (arith, counted_low))
      ∙ omega (arith, counted_low)

  counted : marked.used_blocks ≡ 1536
  unfolding init_pmm apply_entries
  counted =
      used_blocks-set_region_used (apply_entry (apply_entry start low_entry) high_entry) 0
        kernel_region (omega (arith, counted_high)) (omega arith)
      ∙ omega (arith, counted_high)

  pub init_pmm-IsFilled : IsFilled marked 512
  unfolding claimed
  init_pmm-IsFilled = record {
    size = memory_size-init_pmm mm kernel_end (low_entry ∷ high_entry ∷ []) ∙ size;
    map_low = omega (arith, map_start, high);
    start = omega (arith, map_start, low);
    bits = λ j h. ground (arith, init_pmm-claimed mm kernel_end (low_entry ∷ high_entry ∷ []) j);
    count = omega (arith, counted, block_count);
  }

  -- Behind the bitmap, memory is as it was.
  pub init_pmm-bytes : (b : ℕ) → kernel_end + 2 ^ 18 ≤ b → load8 marked.mem b ≡ load8 mm.mem b
  unfolding fill
  init_pmm-bytes b h =
      after_kernel.bytes b (inr (omega (arith, after_high.start, after_low.start)))
      ∙ after_high.bytes b (inr (omega (arith, after_low.start)))
      ∙ after_low.bytes b (inr h)
      ∙ ground (arith, memset_lem mm.mem kernel_end 0xF (mm.memory_size / 4096 / 8) b, size)
