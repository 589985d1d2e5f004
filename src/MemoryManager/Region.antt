-- ===== src/MemoryManager/Region.antt =====
-- `setRegionUsed` and `setRegionFree`: the blocks that they mark, and what they do to the counter.
use pros.Prelude.{
  ℕ, zero, suc, ◌+◌, ◌/◌, ◌^◌, ◌<◌, ◌≡◌, refl, arith, Bool, true, false, ◌==◌, ◌&&◌, ◌||◌, ltb, leb,
  if◌then◌else◌, sub32, u32,
}
use pros.MemoryManager.{
  MemoryManager, block_size, set_bit, unset_bit, test_bit, use_blocks, release_blocks,
  set_region_used, set_region_free, get_free_block_count,
}
use pros.MemoryManager.Bitmap.{test_bit-set_bit, test_bit-unset_bit}

-- The `n` blocks from `base` on.
abbrev pub in_range : ℕ → ℕ → ℕ → Bool
in_range base n j = leb base j && ltb j (base + n)

pub test_bit-used_blocks :
    (mm : MemoryManager) (u j : ℕ) → test_bit (record mm { used_blocks = u }) j ≡ test_bit mm j
unfolding test_bit
test_bit-used_blocks mm u j = refl

test_bit-use_blocks :
    (mm : MemoryManager) (base n j : ℕ)
    → test_bit (use_blocks mm base n) j ≡ (if in_range base n j then true else test_bit mm j)
unfolding use_blocks
test_bit-use_blocks mm base zero j = ground arith
test_bit-use_blocks mm base (suc n) j =
    let mm' = set_bit mm base in
    let next = record mm' { used_blocks = sub32 mm'.used_blocks 1 } in
    ground (
      arith,
      test_bit-use_blocks next (base + 1) n j,
      test_bit-used_blocks mm' (sub32 mm'.used_blocks 1) j,
      test_bit-set_bit mm base j,
    )

used_blocks-use_blocks :
    (mm : MemoryManager) (base n : ℕ)
    → u32 ((use_blocks mm base n).used_blocks + n) ≡ u32 mm.used_blocks
unfolding use_blocks set_bit
used_blocks-use_blocks mm base zero = ground arith
used_blocks-use_blocks mm base (suc n) =
    let mm' = set_bit mm base in
    let next = record mm' { used_blocks = sub32 mm'.used_blocks 1 } in
    omega (arith, used_blocks-use_blocks next (base + 1) n)

test_bit-release_blocks :
    (mm : MemoryManager) (base n j : ℕ)
    → test_bit (release_blocks mm base n) j ≡ (if in_range base n j then false else test_bit mm j)
unfolding release_blocks
test_bit-release_blocks mm base zero j = ground arith
test_bit-release_blocks mm base (suc n) j =
    let mm' = unset_bit mm base in
    let next = record mm' { used_blocks = u32 (mm'.used_blocks + 1) } in
    ground (
      arith,
      test_bit-release_blocks next (base + 1) n j,
      test_bit-used_blocks mm' (u32 (mm'.used_blocks + 1)) j,
      test_bit-unset_bit mm base j,
    )

used_blocks-release_blocks :
    (mm : MemoryManager) (base n : ℕ)
    → u32 (release_blocks mm base n).used_blocks ≡ u32 (mm.used_blocks + n)
unfolding release_blocks unset_bit
used_blocks-release_blocks mm base zero = ground arith
used_blocks-release_blocks mm base (suc n) =
    let mm' = unset_bit mm base in
    let next = record mm' { used_blocks = u32 (mm'.used_blocks + 1) } in
    omega (arith, used_blocks-release_blocks next (base + 1) n)

max_blocks-use_blocks :
    (mm : MemoryManager) (base n : ℕ) → (use_blocks mm base n).max_blocks ≡ mm.max_blocks
unfolding use_blocks set_bit
max_blocks-use_blocks mm base zero = refl
max_blocks-use_blocks mm base (suc n) =
    let mm' = set_bit mm base in
    max_blocks-use_blocks (record mm' { used_blocks = sub32 mm'.used_blocks 1 }) (base + 1) n

used_blocks-use_blocks_lt :
    (mm : MemoryManager) (base n : ℕ)
    → mm.used_blocks < 2 ^ 32
    → (use_blocks mm base n).used_blocks < 2 ^ 32
unfolding use_blocks set_bit
used_blocks-use_blocks_lt mm base zero h = h
used_blocks-use_blocks_lt mm base (suc n) h =
    let mm' = set_bit mm base in
    used_blocks-use_blocks_lt (record mm' { used_blocks = sub32 mm'.used_blocks 1 }) (base + 1) n
      (omega arith)

max_blocks-release_blocks :
    (mm : MemoryManager) (base n : ℕ) → (release_blocks mm base n).max_blocks ≡ mm.max_blocks
unfolding release_blocks unset_bit
max_blocks-release_blocks mm base zero = refl
max_blocks-release_blocks mm base (suc n) =
    let mm' = unset_bit mm base in
    max_blocks-release_blocks (record mm' { used_blocks = u32 (mm'.used_blocks + 1) }) (base + 1) n

used_blocks-release_blocks_lt :
    (mm : MemoryManager) (base n : ℕ)
    → mm.used_blocks < 2 ^ 32
    → (release_blocks mm base n).used_blocks < 2 ^ 32
unfolding release_blocks unset_bit
used_blocks-release_blocks_lt mm base zero h = h
used_blocks-release_blocks_lt mm base (suc n) h =
    let mm' = unset_bit mm base in
    used_blocks-release_blocks_lt (record mm' { used_blocks = u32 (mm'.used_blocks + 1) })
      (base + 1) n (omega arith)

-- `setRegionUsed` marks block 0 and the blocks of the region as used, and no others.
pub set_region_used-marks :
    (mm : MemoryManager) (start size j : ℕ)
    → test_bit (set_region_used mm start size) j ≡ (
        if (j == 0) || in_range (start / block_size) (size / block_size) j
        then true
        else test_bit mm j)
unfolding set_region_used
set_region_used-marks mm start size j =
    let used = use_blocks mm (start / block_size) (size / block_size) in
    ground (
      arith,
      test_bit-set_bit used 0 j,
      test_bit-use_blocks mm (start / block_size) (size / block_size) j,
    )

-- `setRegionFree` marks the blocks of the region as free, and no others.
pub set_region_free-marks :
    (mm : MemoryManager) (start size j : ℕ)
    → test_bit (set_region_free mm start size) j
      ≡ (if in_range (start / block_size) (size / block_size) j then false else test_bit mm j)
unfolding set_region_free
set_region_free-marks mm start size j =
    test_bit-release_blocks mm (start / block_size) (size / block_size) j

-- The counter runs the wrong way, whatever the blocks were before: reserving a region raises the
-- number of blocks reported as free by the size of the region in blocks, modulo 2 ^ 32, and
-- releasing a region lowers it by as many.
pub get_free_block_count-inverted :
    (mm : MemoryManager) (start size : ℕ)
    → mm.max_blocks < 2 ^ 32
    → mm.used_blocks < 2 ^ 32
    → (get_free_block_count (set_region_used mm start size)
        ≡ u32 (get_free_block_count mm + size / block_size))
      × (u32 (get_free_block_count (set_region_free mm start size) + size / block_size)
          ≡ get_free_block_count mm)
unfolding set_region_used set_region_free get_free_block_count
get_free_block_count-inverted mm start size hm hu =
    let base = start / block_size in
    let n = size / block_size in
    (
      omega (
        arith,
        used_blocks-use_blocks mm base n,
        used_blocks-use_blocks_lt mm base n hu,
        max_blocks-use_blocks mm base n,
      ),
      omega (
        arith,
        used_blocks-release_blocks mm base n,
        used_blocks-release_blocks_lt mm base n hu,
        max_blocks-release_blocks mm base n,
      ),
    )
