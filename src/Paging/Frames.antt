-- ===== src/Paging/Frames.antt =====
-- The frames that the loop of `initVMM` gives to the pages of the kernel heap.
use pros.Prelude.{
  ℕ, zero, suc, ◌+◌, ◌*◌, ◌/◌, ◌%◌, ◌^◌, ◌≤◌, ◌<◌, ◌≡◌, ◌≢◌, ◌⊎◌, inl, ◌-◌, true, false,
  true_ne_false, ◌∙◌, refl, ap, sym, some, arith, dec_lt, ==_of_eq, ==_of_ne,
}
use mathlib.Core.Path.{subst}
use pros.MemoryManager.{MemoryManager, get_free_physical_page, test_bit}
use pros.MemoryManager.Kept.{get_free_physical_page-IsKept}
use pros.MemoryManager.Supply.{frame_of, IsSupplied}
use pros.Paging.{page_size}
use pros.Paging.Walk.{translate, IsPaged, IsMapped}

-- A number in front of a sequence.
abbrev pub shift : ℕ → (ℕ → ℕ) → ℕ → ℕ
shift a f zero = a
shift a f (suc k) = f k

-- Every address of `left` pages from `virt` on is mapped, each page to a frame of its own: the first to
-- the one of `page`, and the others to frames whose blocks were free. No other address changes.
pub record AreMapped (mm mm' : MemoryManager) (page left virt : ℕ) : Type 0 where
  pub frames : ℕ → ℕ
  pub first : 0 < left → frames 0 ≡ frame_of page
  pub inside :
      (v : ℕ)
      → virt ≤ v
      → v < virt + left * page_size
      → translate mm'.mem mm.current_page_directory v
        ≡ some (frames ((v - virt) / page_size) * page_size + v % page_size)
  pub fresh :
      (k : ℕ)
      → 0 < k
      → k < left
      → (test_bit mm (frames k) ≡ false) × (frames k < mm.memory_size / 32 / 4096 * 32)
  pub different : (j k : ℕ) → j < k → k < left → frames j ≢ frames k
  pub outside :
      (v : ℕ)
      → v < 2 ^ 32
      → (v < virt) ⊎ (virt + left * page_size ≤ v)
      → translate mm'.mem mm.current_page_directory v ≡ translate mm.mem mm.current_page_directory v
  pub shape : IsPaged mm'.mem mm.current_page_directory
  pub same_directory : mm'.current_page_directory ≡ mm.current_page_directory

-- The page that the next round maps: its block was free, and no block has been released.
pub record IsNext (mm s : MemoryManager) (page' : ℕ) : Type 0 where
  pub size : s.memory_size ≡ mm.memory_size
  pub was_free : test_bit mm (frame_of page') ≡ false
  pub within : frame_of page' < mm.memory_size / 32 / 4096 * 32
  pub keeps :
      (b : ℕ) → b < mm.memory_size / 32 / 4096 * 32 → test_bit s b ≡ false → test_bit mm b ≡ false

-- The frames of one page more, in front.
module _ (mm s mm' : MemoryManager) (page page' left virt : ℕ)
    (later : AreMapped s mm' page' left (virt + page_size)) (n : IsNext mm s page') where
  fresh-shift :
      (k : ℕ)
      → k < left
      → (test_bit mm (later.frames k) ≡ false) × (later.frames k < mm.memory_size / 32 / 4096 * 32)
  fresh-shift zero h =
      (ap (test_bit mm) (later.first h) ∙ n.was_free, omega (arith, later.first h, n.within))
  fresh-shift (suc k) h =
      let (free, within) = later.fresh (suc k) (omega arith) h in
      let within' : later.frames (suc k) < mm.memory_size / 32 / 4096 * 32 =
        omega (arith, within, ap (λ (t : ℕ). t / 32 / 4096) n.size) in
      (n.keeps _ within' free, within')

  different-shift :
      test_bit mm (frame_of page) ≡ true
      → (j k : ℕ) → j < k
      → k < suc left
      → shift (frame_of page) later.frames j ≢ shift (frame_of page) later.frames k
  different-shift used j zero lt h = absurd (omega arith)
  different-shift used zero (suc k) lt h =
      λ e. true_ne_false (sym used ∙ ap (test_bit mm) e ∙ (fresh-shift k (omega arith)).0)
  different-shift used (suc j) (suc k) lt h = later.different j k (omega arith) (omega arith)

  fresh-front :
      (k : ℕ)
      → 0 < k
      → k < suc left
      → (test_bit mm (shift (frame_of page) later.frames k) ≡ false)
        × (shift (frame_of page) later.frames k < mm.memory_size / 32 / 4096 * 32)
  fresh-front zero pos h = absurd (omega arith)
  fresh-front (suc k) pos h = fresh-shift k (omega arith)

-- One page more, in front.
pub AreMapped-step :
    (mm s mm' : MemoryManager) (page page' left virt : ℕ)
    → IsMapped mm s page virt
    → AreMapped s mm' page' left (virt + page_size)
    → IsNext mm s page'
    → test_bit mm (frame_of page) ≡ true
    → virt % page_size ≡ 0
    → virt + suc left * page_size ≤ 2 ^ 32
    → AreMapped mm mm' page (suc left) virt
AreMapped-step mm s mm' page page' left virt one later n used aligned fits =
    let dir = mm.current_page_directory in
    let same : s.current_page_directory ≡ dir = one.same_directory in
    let front = shift (frame_of page) later.frames in
    let outside' : (v : ℕ)
        → v < 2 ^ 32
        → (v < virt + page_size) ⊎ (virt + page_size + left * page_size ≤ v)
        → translate mm'.mem dir v ≡ translate s.mem dir v =
      subst
        (λ d.
          (v : ℕ)
          → v < 2 ^ 32
          → (v < virt + page_size) ⊎ (virt + page_size + left * page_size ≤ v)
          → translate mm'.mem d v ≡ translate s.mem d v)
        same later.outside in
    record {
      frames = front;
      first = λ pos. refl;
      inside = λ v lo hi. elim (dec_lt v (virt + page_size)) [
        | yes here ↦
            let at : v / 2 ^ 12 ≡ virt / 2 ^ 12 = omega arith in
            let round : 0 ≡ (v - virt) / page_size = omega arith in
            outside' v (omega arith) (inl here)
            ∙ one.walk v (omega arith)
            ∙ rw (==_of_eq _ _ at) (ap (λ k. some (front k * page_size + v % page_size)) round)
        | no there ↦
            let round : suc ((v - (virt + page_size)) / page_size) ≡ (v - virt) / page_size =
              omega arith in
            ap (λ d. translate mm'.mem d v) (sym same)
            ∙ later.inside v (omega arith) (omega arith)
            ∙ ap (λ k. some (front k * page_size + v % page_size)) round
      ];
      fresh = fresh-front mm s mm' page page' left virt later n;
      different = different-shift mm s mm' page page' left virt later n used;
      outside = λ v h out.
          let ne : v / 2 ^ 12 ≢ virt / 2 ^ 12 = omega arith in
          outside' v h (omega arith) ∙ one.walk v h ∙ rw (==_of_ne _ _ ne);
      shape = subst (IsPaged mm'.mem) same later.shape;
      same_directory = later.same_directory ∙ same;
    }

-- The page that is allocated at the end of a round, from a supply that `mapPage` leaves alone.
pub IsNext-of_supplied :
    (mm after : MemoryManager) (n : ℕ)
    → after.memory_size ≡ mm.memory_size
    → ((b : ℕ)
        → b < mm.memory_size / 32 / 4096 * 32
        → test_bit after b ≡ false
        → test_bit mm b ≡ false)
    → IsSupplied after n
    → IsNext mm (get_free_physical_page after 1).1 (get_free_physical_page after 1).0
IsNext-of_supplied mm after n size keeps taken =
    let within : frame_of (get_free_physical_page after 1).0 < mm.memory_size / 32 / 4096 * 32 =
      omega (arith, taken.inside, ap (λ (t : ℕ). t / 32 / 4096) size) in
    record {
      size = (get_free_physical_page-IsKept after).map_size ∙ size;
      was_free = keeps _ within taken.was_free;
      within = within;
      keeps = λ b h e. keeps b h (taken.keeps b e);
    }
