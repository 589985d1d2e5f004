-- ===== src/Heap/Fit.antt =====
-- First fit on the list of blocks: what the chain of headers becomes.
use mathlib.Core.Path.{subst, sym}
use pros.Prelude.{
  ℕ, ◌+◌, ◌^◌, ◌<◌, ◌≡◌, ◌⊎◌, inl, inr, refl, arith, true, false, ◌∙◌, ap, Bool-cases, List, [],
  ◌∷◌, Option, none, some,
}
use pros.Memory.{Mem, load8}
use pros.Heap.{chunk_size, read_chunk, split_chunk}
use pros.Heap.Chunk.{read_chunk-ext}
use pros.Heap.Blocks.{Block, span, link, header, Chain, fits_in, find_block, allocate, HasRoom}
use pros.Heap.Carve.{split-Chain, IsData, split-untouched}

-- The split at `r`, where first fit finds its block: the chain that it leaves, and what it spares.
pub record IsSplit (m : Mem) (prev a size r : ℕ) (bs : List Block) : Type 0 where
  pub chain : Chain (split_chunk m r size) prev a (allocate size bs)
  pub spares : (y : ℕ) → (y < a) ⊎ IsData a bs y → load8 (split_chunk m r size) y ≡ load8 m y

link-allocate : (x size : ℕ) (bs : List Block) → link x (allocate size bs) ≡ link x bs
unfolding allocate
link-allocate x size [] = refl
link-allocate x size (b ∷ bs) = elim (Bool-cases (fits_in size b)) [
  | inl fit ↦ rw fit
  | inr full ↦ rw full
]

pub some-later :
    (k d : ℕ) (r : Option ℕ)
    → ◌≡◌ {A = Option ℕ} (elim r [ none ↦ none | some e ↦ some (k + e) ]) (some d)
    → (e : ℕ) × (r ≡ some e) × (k + e ≡ d)
some-later k d none h = cc
some-later k d (some e) h = (e, refl, ground arith)

module _ (m : Mem) (prev a size : ℕ) (b : Block) (bs : List Block) (pos : 0 < a)
    (bound : a + span (b ∷ bs) < 2 ^ 32) (room : HasRoom size (b ∷ bs))
    (c : Chain m prev a (b ∷ bs)) where
  IsSplit-here : fits_in size b ≡ true → IsSplit m prev a size a (b ∷ bs)
  unfolding allocate
  IsSplit-here fit =
      let free : b.allocated ≡ false = ground arith in
      let room' : size + chunk_size < b.size = rw fit at room in
      record {
        chain = rw fit (split-Chain m prev a size b bs pos bound free room' c);
        spares = λ y out. split-untouched m prev a size b bs y pos bound free room' c out;
      }

  IsSplit-later :
      (r : ℕ)
      → fits_in size b ≡ false
      → IsSplit m a (a + chunk_size + b.size) size r bs
      → IsSplit m prev a size r (b ∷ bs)
  unfolding allocate
  IsSplit-later r full later =
      let same : read_chunk (split_chunk m r size) a ≡ read_chunk m a =
        read_chunk-ext _ m a (λ y lo hi. later.spares y (inl (omega arith))) in
      let linked = link-allocate (a + chunk_size + b.size) size bs in
      record {
        chain = rw full (same ∙ c.0 ∙ ap (λ x. header x prev b) (sym linked), later.chain);
        spares = λ y out. later.spares y (weaken y out);
      }
    where
      weaken :
          (y : ℕ)
          → (y < a) ⊎ IsData a (b ∷ bs) y
          → (y < a + chunk_size + b.size) ⊎ IsData (a + chunk_size + b.size) bs y
      weaken y (inl lo) = inl (omega arith)
      weaken y (inr (inl d)) = inl d.2
      weaken y (inr (inr d)) = inr d

pub allocate-IsSplit :
    (m : Mem) (prev a size d : ℕ) (bs : List Block)
    → 0 < a
    → a + span bs < 2 ^ 32
    → HasRoom size bs
    → find_block size bs ≡ some d
    → Chain m prev a bs
    → IsSplit m prev a size (a + d) bs
unfolding find_block
allocate-IsSplit m prev a size d [] pos bound room found c = cc
allocate-IsSplit m prev a size d (b ∷ bs) pos bound room found c =
    elim (Bool-cases (fits_in size b)) [
      | inl fit ↦
          let zero_d : d ≡ 0 = ground arith in
          subst (λ r. IsSplit m prev a size r (b ∷ bs)) (omega arith)
            (IsSplit-here m prev a size b bs pos bound room c fit)
      | inr full ↦
          let (e, found', sum) =
            some-later (chunk_size + b.size) d (find_block size bs) (rw full at found) in
          let room' : HasRoom size bs = rw full at room in
          let later =
            allocate-IsSplit m a (a + chunk_size + b.size) size e bs (omega arith) (omega arith)
              room' found' c.1 in
          IsSplit-later m prev a size b bs pos bound room c (a + d) full
            (subst (λ r. IsSplit m a (a + chunk_size + b.size) size r bs) (omega arith) later)
    ]
