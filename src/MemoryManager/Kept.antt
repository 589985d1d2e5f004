-- ===== src/MemoryManager/Kept.antt =====
-- What a call of `getFreePhysicalPage` for one page leaves alone.
use pros.Prelude.{
  ap, ◌∙◌, ℕ, ◌+◌, ◌*◌, ◌/◌, ◌^◌, ◌≤◌, ◌<◌, ◌≡◌, ◌≢◌, ◌⊎◌, refl, arith, Option, none, some,
  ℕ_discrete, ==_of_ne, ==_of_eq, Option-cases, inl, inr,
}
use pros.Memory.{load8, load32}
use pros.Memory.Laws.{load8-store32_ne, load32-ext}
use pros.MemoryManager.{
  MemoryManager, set_bit, set_bits, get_free_physical_page, get_free_block_count,
  first_free_physical_pages_bits, word, test_bit,
}
use pros.MemoryManager.Search.{Finds, first_free-Finds}

-- The address lies behind or before the words of the bitmap that the search reads.
abbrev pub OffBitmap : MemoryManager → ℕ → Type 0
OffBitmap mm b = (b < mm.memory_map) ⊎ (mm.memory_map + mm.memory_size / 32 / 4096 * 4 ≤ b)

pub record IsKept (mm mm' : MemoryManager) : Type 0 where
  pub directory : mm'.current_page_directory ≡ mm.current_page_directory
  pub map_start : mm'.memory_map ≡ mm.memory_map
  pub block_count : mm'.max_blocks ≡ mm.max_blocks
  pub map_size : mm'.memory_size ≡ mm.memory_size
  pub bytes : (b : ℕ) → OffBitmap mm b → load8 mm'.mem b ≡ load8 mm.mem b

IsKept-refl : (mm : MemoryManager) → IsKept mm mm
IsKept-refl mm = record {
  directory = refl;
  map_start = refl;
  block_count = refl;
  map_size = refl;
  bytes = λ b off. refl;
}

IsKept-of_found :
    (mm : MemoryManager) (found : Option ℕ)
    → Finds mm 1 0 (mm.memory_size / 32 / 4096 * 32) found
    → get_free_block_count mm ≢ 0
    → first_free_physical_pages_bits mm 1 ≡ found
    → IsKept mm (get_free_physical_page mm 1).1
unfolding get_free_physical_page
IsKept-of_found mm none f room e = rw (==_of_ne _ _ room, e) (IsKept-refl mm)
IsKept-of_found mm (some frame) f room e =
    rw (==_of_ne _ _ room, e)
      (unfold set_bits set_bit in
        record {
          directory = refl;
          map_start = refl;
          block_count = refl;
          map_size = refl;
          bytes = λ b off. load8-store32_ne _ _ _ b (omega (arith, f.1));
        })

-- Only the bitmap and the counter change.
pub get_free_physical_page-IsKept : (mm : MemoryManager) → IsKept mm (get_free_physical_page mm 1).1
get_free_physical_page-IsKept mm = elim (ℕ_discrete (get_free_block_count mm) 0) [
  | yes full ↦ unfold get_free_physical_page in rw (==_of_eq _ _ full) (IsKept-refl mm)
  | no room ↦
      IsKept-of_found mm (first_free_physical_pages_bits mm 1) (first_free-Finds mm 1 (omega arith))
        room refl
]

-- The address is one of 32 bits.
pub get_free_physical_page-lt :
    (mm : MemoryManager) (size : ℕ) → (get_free_physical_page mm size).0 < 2 ^ 32
unfolding get_free_physical_page
get_free_physical_page-lt mm size = elim (ℕ_discrete (get_free_block_count mm) 0) [
  | yes full ↦ rw (==_of_eq _ _ full) (omega arith)
  | no room ↦ elim (Option-cases (first_free_physical_pages_bits mm size)) [
    | inl e ↦ rw (==_of_ne _ _ room, e) (omega arith)
    | inr (frame, e) ↦ rw (==_of_ne _ _ room, e) (omega arith)
  ]
]

-- A bit of the bitmap depends on the bytes of the bitmap.
pub test_bit-kept :
    (mm mm' : MemoryManager) (n : ℕ)
    → mm'.memory_map ≡ mm.memory_map
    → n < mm.memory_size / 32 / 4096 * 32
    → ((b : ℕ)
        → mm.memory_map ≤ b
        → b < mm.memory_map + mm.memory_size / 32 / 4096 * 4
        → load8 mm'.mem b ≡ load8 mm.mem b)
    → test_bit mm' n ≡ test_bit mm n
unfolding test_bit
test_bit-kept mm mm' n e h same =
    let words : word mm' (n / 32) ≡ word mm (n / 32) =
      ap (λ a. load32 mm'.mem (a + n / 32 * 4)) e
      ∙ load32-ext mm'.mem mm.mem (mm.memory_map + n / 32 * 4)
          (λ b lo hi. same b (omega arith) (omega arith)) in
    rw words
