-- ===== src/Heap/Last.antt =====
-- First fit on a list of blocks whose last one is free and the only one that fits.
use pros.Prelude.{
  ℕ, ◌+◌, ◌-◌, ◌<◌, ◌≡◌, inl, inr, refl, arith, true, false, ap, List, [], ◌∷◌, ◌++◌, Bool-cases,
  Option, none, some,
}
use pros.Heap.{chunk_size}
use pros.Heap.Blocks.{Block, block, span, fits_in, find_block, allocate, HasRoom}

none-later :
    (size : ℕ) (b : Block) (bs : List Block)
    → find_block size (b ∷ bs) ≡ none
    → (fits_in size b ≡ false) × (find_block size bs ≡ none)
unfolding find_block
none-later size b bs h = elim (Bool-cases (fits_in size b)) [
  | inl fit ↦ ground arith
  | inr full ↦ (full, none-none (find_block size bs) (rw full at h))
]
  where
    none-none :
        (o : Option ℕ)
        → ◌≡◌ {A = Option ℕ} (elim o [ none ↦ none | some d ↦ some (chunk_size + b.size + d) ]) none
        → o ≡ none
    none-none none h = refl
    none-none (some d) h = cc

-- First fit takes the free block at the end, if it takes none before it.
pub find_block-last :
    (size z : ℕ) (bs : List Block)
    → find_block size bs ≡ none
    → size < z
    → find_block size (bs ++ (block z false ∷ [])) ≡ some (span bs)
unfolding find_block
find_block-last size z [] none_fit room = ground arith
find_block-last size z (b ∷ bs) none_fit room =
    let (full, later) = none-later size b bs none_fit in
    rw (full, find_block-last size z bs later room) refl

pub allocate-last :
    (size z : ℕ) (bs : List Block)
    → find_block size bs ≡ none
    → size < z
    → allocate size (bs ++ (block z false ∷ []))
      ≡ bs ++ (block size true ∷ block (z - chunk_size - size) false ∷ [])
unfolding find_block allocate
allocate-last size z [] none_fit room = ground arith
allocate-last size z (b ∷ bs) none_fit room =
    let (full, later) = none-later size b bs none_fit in
    rw (full, allocate-last size z bs later room) refl

pub HasRoom-last :
    (size z : ℕ) (bs : List Block)
    → find_block size bs ≡ none
    → size + chunk_size < z
    → HasRoom size (bs ++ (block z false ∷ []))
unfolding find_block
HasRoom-last size z [] none_fit room = ground arith
HasRoom-last size z (b ∷ bs) none_fit room =
    let (full, later) = none-later size b bs none_fit in rw full (HasRoom-last size z bs later room)

-- An allocated block at the end changes nothing.
pub find_block-used :
    (size y : ℕ) (bs : List Block)
    → find_block size bs ≡ none
    → find_block size (bs ++ (block y true ∷ [])) ≡ none
unfolding find_block
find_block-used size y [] none_fit = ground arith
find_block-used size y (b ∷ bs) none_fit =
    let (full, later) = none-later size b bs none_fit in
    rw (full, find_block-used size y bs later) refl

pub span-append : (bs cs : List Block) → span (bs ++ cs) ≡ span bs + span cs
span-append [] cs = omega arith
span-append (b ∷ bs) cs = omega (arith, span-append bs cs)

pub append_assoc :
    (bs : List Block) (b c : Block) → bs ++ (b ∷ c ∷ []) ≡ (bs ++ (b ∷ [])) ++ (c ∷ [])
append_assoc [] b c = refl
append_assoc (x ∷ bs) b c = ap (λ ys. x ∷ ys) (append_assoc bs b c)
