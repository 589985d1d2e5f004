-- ===== src/MemoryManager/Alloc.antt =====
-- `getFreePhysicalPage` and `freePage` on the blocks that the bitmap marks.
use pros.Prelude.{
  ◌≤◌, Option-cases, inl, inr, true_ne_false, dec_lt, sym, ◌∙◌, ℕ, zero, suc, ◌+◌, ◌-◌, ◌*◌, ◌/◌,
  ◌^◌, ◌<◌, ◌≡◌, ◌≢◌, refl, arith, true, false, if◌then◌else◌, sub32, u32, none, some, ℕ_discrete,
  ==_of_ne, ==_of_eq, ap,
}
use mathlib.Core.Path.{subst}
use pros.MemoryManager.{
  MemoryManager, block_size, null, set_bit, unset_bit, test_bit, set_bits, unset_bits,
  get_free_physical_page, free_page, get_free_block_count, first_free_physical_pages_bits,
}
use pros.MemoryManager.Bitmap.{test_bit-set_bit, test_bit-unset_bit}
use pros.MemoryManager.Region.{in_range, test_bit-used_blocks}
use pros.MemoryManager.Search.{IsFree, IsTaken, Finds, first_free-Finds}

test_bit-set_bits :
    (mm : MemoryManager) (frame left i j : ℕ)
    → test_bit (set_bits mm frame left i) j
      ≡ (if in_range (frame + i) left j then true else test_bit mm j)
unfolding set_bits
test_bit-set_bits mm frame zero i j = ground arith
test_bit-set_bits mm frame (suc left) i j = ground (
  arith,
  test_bit-set_bits (set_bit mm (frame + i)) frame left (i + 1) j,
  test_bit-set_bit mm (frame + i) j,
)

test_bit-unset_bits :
    (mm : MemoryManager) (frame left i j : ℕ)
    → test_bit (unset_bits mm frame left i) j
      ≡ (if in_range (frame + i) left j then false else test_bit mm j)
unfolding unset_bits
test_bit-unset_bits mm frame zero i j = ground arith
test_bit-unset_bits mm frame (suc left) i j = ground (
  arith,
  test_bit-unset_bits (unset_bit mm (frame + i)) frame left (i + 1) j,
  test_bit-unset_bit mm (frame + i) j,
)

used_blocks-set_bits :
    (mm : MemoryManager) (frame left i : ℕ)
    → (set_bits mm frame left i).used_blocks ≡ mm.used_blocks
unfolding set_bits set_bit
used_blocks-set_bits mm frame zero i = refl
used_blocks-set_bits mm frame (suc left) i =
    used_blocks-set_bits (set_bit mm (frame + i)) frame left (i + 1)

used_blocks-unset_bits :
    (mm : MemoryManager) (frame left i : ℕ)
    → (unset_bits mm frame left i).used_blocks ≡ mm.used_blocks
unfolding unset_bits unset_bit
used_blocks-unset_bits mm frame zero i = refl
used_blocks-unset_bits mm frame (suc left) i =
    used_blocks-unset_bits (unset_bit mm (frame + i)) frame left (i + 1)

-- What an allocation of `size` blocks at `frame` promises.
pub record IsAllocated (mm mm' : MemoryManager) (size frame : ℕ) : Type 0 where
  pub inside : frame < mm.memory_size / 32 / 4096 * 32
  pub was_free : IsFree mm size frame
  pub lowest : (b : ℕ) → b < frame → IsTaken mm size b
  pub marked : (j : ℕ) → test_bit mm' j ≡ (if in_range frame size j then true else test_bit mm j)
  pub counted : mm'.used_blocks ≡ u32 (mm.used_blocks + size)

module _ (mm : MemoryManager) (size : ℕ) (pos : 0 < size) (small : mm.memory_size < 2 ^ 32) where
  -- A run that the search has found, and no run.
  IsAllocated-of_some :
      (frame : ℕ)
      → Finds mm size 0 (mm.memory_size / 32 / 4096 * 32) (some frame)
      → get_free_block_count mm ≢ 0
      → first_free_physical_pages_bits mm size ≡ some frame
      → ((get_free_physical_page mm size).0 ≡ frame * block_size)
        × IsAllocated mm (get_free_physical_page mm size).1 size frame
  unfolding get_free_physical_page
  IsAllocated-of_some frame f room e =
      let marked' = set_bits mm frame size 0 in
      rw (==_of_ne _ _ room, e)
        (
          omega arith,
          record {
            inside = f.1;
            was_free = f.2;
            lowest = λ b h. f.3 b (omega arith) h;
            marked = λ j. ground (
              arith,
              test_bit-used_blocks marked' (u32 (marked'.used_blocks + size)) j,
              test_bit-set_bits mm frame size 0 j,
            );
            counted = ap (λ t. u32 (t + size)) (used_blocks-set_bits mm frame size 0);
          },
        )

  null-of_none :
      first_free_physical_pages_bits mm size ≡ none → (get_free_physical_page mm size).0 ≡ null
  unfolding get_free_physical_page
  null-of_none e = ground arith

  -- For a positive size and a memory size of 32 bits, a call of `getFreePhysicalPage` that returns
  -- an address other than `nullptr` has found the lowest run of blocks that were all free, has
  -- marked exactly these as used and has counted them; the address is that of the run, with no
  -- overflow.
  pub get_free_physical_page-IsAllocated :
      (get_free_physical_page mm size).0 ≢ null
      → (frame : ℕ) × ((get_free_physical_page mm size).0 ≡ frame * block_size)
        × IsAllocated mm (get_free_physical_page mm size).1 size frame
  get_free_physical_page-IsAllocated got = elim (ℕ_discrete (get_free_block_count mm) 0) [
    | yes none_left ↦ absurd (got (unfold get_free_physical_page in rw (==_of_eq _ _ none_left)))
    | no room ↦ elim (Option-cases (first_free_physical_pages_bits mm size)) [
      | inl e ↦ absurd (got (null-of_none e))
      | inr (frame, e) ↦
          let f =
            subst (Finds mm size 0 (mm.memory_size / 32 / 4096 * 32)) e
              (first_free-Finds mm size pos) in
          let (at, done) = IsAllocated-of_some frame f room e in (frame, at, done)
    ]
  ]

-- For a positive size and a memory size of 32 bits, `getFreePhysicalPage` never fails where it could
-- succeed: if it counts a free block, and `size` blocks from some block of the searched words on are
-- free, then it allocates a run that begins there or below.
pub get_free_physical_page-finds :
    (mm : MemoryManager) (size b : ℕ)
    → 0 < size
    → mm.memory_size < 2 ^ 32
    → get_free_block_count mm ≢ 0
    → b < mm.memory_size / 32 / 4096 * 32
    → IsFree mm size b
    → (frame : ℕ) × (frame ≤ b)
      × ((get_free_physical_page mm size).0 ≡ frame * block_size)
      × IsAllocated mm (get_free_physical_page mm size).1 size frame
get_free_physical_page-finds mm size b pos small room inside free =
    let f = first_free-Finds mm size pos in
    elim (Option-cases (first_free_physical_pages_bits mm size)) [
      | inl e ↦
          let (k, h, busy) = subst (Finds mm size 0 to) e f b (omega arith) inside in
          absurd (true_ne_false (sym busy ∙ free k h))
      | inr (frame, e) ↦
          let f' = subst (Finds mm size 0 to) e f in
          let (at, done) = IsAllocated-of_some mm size pos small frame f' room e in
          (
            frame,
            elim (dec_lt b frame) [
              | yes below ↦
                  let (k, h, busy) = f'.3 b (omega arith) below in
                  absurd (true_ne_false (sym busy ∙ free k h))
              | no above ↦ omega arith
            ],
            at,
            done,
          )
    ]
  where
    to : ℕ
    to = mm.memory_size / 32 / 4096 * 32

-- `freePage` marks exactly the blocks from the address on as free, and takes their number off the
-- count, modulo 2 ^ 32.
pub free_page-marks :
    (mm : MemoryManager) (ptr size : ℕ)
    → ((j : ℕ)
        → test_bit (free_page mm ptr size) j
          ≡ (if in_range (ptr / block_size) size j then false else test_bit mm j))
      × ((free_page mm ptr size).used_blocks ≡ sub32 mm.used_blocks size)
unfolding free_page
free_page-marks mm ptr size =
    let cleared = unset_bits mm (ptr / block_size) size 0 in
    (
      λ j. ground (
        arith,
        test_bit-used_blocks cleared (sub32 cleared.used_blocks size) j,
        test_bit-unset_bits mm (ptr / block_size) size 0 j,
      ),
      ap (λ t. sub32 t size) (used_blocks-unset_bits mm (ptr / block_size) size 0),
    )

-- Freeing what `getFreePhysicalPage` has just returned restores every bit of the bitmap and the
-- count of used blocks.
pub free_page-get_free_physical_page :
    (mm : MemoryManager) (size : ℕ)
    → 0 < size
    → size < 2 ^ 32
    → mm.memory_size < 2 ^ 32
    → mm.used_blocks < 2 ^ 32
    → (get_free_physical_page mm size).0 ≢ null
    → let (ptr, taken) = get_free_physical_page mm size in
      let freed = free_page taken ptr size in
      ((j : ℕ) → test_bit freed j ≡ test_bit mm j) × (freed.used_blocks ≡ mm.used_blocks)
free_page-get_free_physical_page mm size pos fits small count got =
    let (ptr, taken) = get_free_physical_page mm size in
    let (frame, at, done) = get_free_physical_page-IsAllocated mm size pos small got in
    let block : ptr / block_size ≡ frame = omega arith in
    let (marks, counts) = free_page-marks taken ptr size in
    (
      λ j. ground (
        arith,
        marks j,
        ap (λ f. in_range f size j) block,
        done.marked j,
        done.was_free (j - frame),
        ap (test_bit mm) {x = frame + (j - frame)} {y = j},
      ),
      omega (arith, counts, done.counted),
    )
