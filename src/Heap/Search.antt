-- ===== src/Heap/Search.antt =====
-- The search of `malloc` and first fit on the list of blocks.
use pros.Prelude.{
  ℕ, zero, suc, ◌+◌, ◌<◌, ◌≡◌, inl, inr, refl, arith, ap, ==_of_ne, Bool-cases, List, [], ◌∷◌,
  Option, none, some,
}
use pros.Memory.{Mem}
use pros.Heap.{chunk_size, null, find_chunk}
use pros.Heap.Blocks.{Block, span, link, Chain, fits_in, find_block}

further :
    (a b : ℕ) (r : Option ℕ)
    → ◌≡◌ {A = ℕ}
        (elim r [ none ↦ null | some d ↦ a + chunk_size + b + d ])
        (elim (elim r as (λ _. Option ℕ) [ none ↦ none | some d ↦ some (chunk_size + b + d) ]) [
          | none ↦ null
          | some d ↦ a + d
        ])
further a b none = refl
further a b (some d) = omega arith

-- The search in memory and the search in the list of blocks agree, and one round for each block and
-- one more are enough.
pub find_chunk-find_block :
    (m : Mem) (prev a size fuel : ℕ) (bs : List Block)
    → 0 < a
    → span bs < fuel
    → Chain m prev a bs
    → find_chunk m size fuel (link a bs)
      ≡ some (elim (find_block size bs) [ none ↦ null | some d ↦ a + d ])
unfolding find_chunk find_block
find_chunk-find_block m prev a size zero bs pos fuel c = elim fuel [ ]
find_chunk-find_block m prev a size (suc f) [] pos fuel c = refl
find_chunk-find_block m prev a size (suc f) (b ∷ bs) pos fuel (at, rest) =
    let later =
      find_chunk-find_block m a (a + chunk_size + b.size) size f bs (omega arith) (omega arith)
        rest in
    elim (Bool-cases (fits_in size b)) [
      | inl fit ↦ rw (at, ==_of_ne a null (omega arith), fit) (ap some (omega arith))
      | inr full ↦
          rw (at, ==_of_ne a null (omega arith), full, later)
            (ap some (further a b.size (find_block size bs)))
    ]
