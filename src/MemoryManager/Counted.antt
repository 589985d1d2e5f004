-- ===== src/MemoryManager/Counted.antt =====
-- The counter of used blocks while `initPMM` marks regions: it goes up for the blocks that are released,
-- and down for the ones that are used.
use pros.Prelude.{ℕ, zero, suc, ◌+◌, ◌/◌, ◌^◌, ◌≤◌, ◌<◌, ◌≡◌, arith, ◌∙◌, u32, sub32}
use pros.MemoryManager.{
  MemoryManager, set_bit, unset_bit, use_blocks, release_blocks, set_region_used, set_region_free,
  block_size,
}

used_blocks-use_blocks :
    (mm : MemoryManager) (base n : ℕ)
    → mm.used_blocks < 2 ^ 32
    → n ≤ 2 ^ 20
    → (use_blocks mm base n).used_blocks ≡ sub32 mm.used_blocks n
unfolding use_blocks set_bit
used_blocks-use_blocks mm base zero small short = omega arith
used_blocks-use_blocks mm base (suc n) small short =
    used_blocks-use_blocks (record (set_bit mm base) { used_blocks = sub32 mm.used_blocks 1 })
      (base + 1) n (omega arith) (omega arith)
    ∙ omega arith

used_blocks-release_blocks :
    (mm : MemoryManager) (base n : ℕ)
    → mm.used_blocks < 2 ^ 32
    → (release_blocks mm base n).used_blocks ≡ u32 (mm.used_blocks + n)
unfolding release_blocks unset_bit
used_blocks-release_blocks mm base zero small = omega arith
used_blocks-release_blocks mm base (suc n) small =
    used_blocks-release_blocks
      (record (unset_bit mm base) { used_blocks = u32 (mm.used_blocks + 1) }) (base + 1) n
      (omega arith)
    ∙ omega arith

pub used_blocks-set_region_used :
    (mm : MemoryManager) (start size : ℕ)
    → mm.used_blocks < 2 ^ 32
    → size < 2 ^ 32
    → (set_region_used mm start size).used_blocks ≡ sub32 mm.used_blocks (size / block_size)
unfolding set_region_used set_bit
used_blocks-set_region_used mm start size small short =
    used_blocks-use_blocks mm (start / block_size) (size / block_size) small (omega arith)

pub used_blocks-set_region_free :
    (mm : MemoryManager) (start size : ℕ)
    → mm.used_blocks < 2 ^ 32
    → (set_region_free mm start size).used_blocks ≡ u32 (mm.used_blocks + size / block_size)
unfolding set_region_free
used_blocks-set_region_free mm start size small =
    used_blocks-release_blocks mm (start / block_size) (size / block_size) small
