-- ===== src/MemoryManager/Layout.antt =====
-- `MemoryManager::init` on a memory map that lies in memory, against the list of its entries.
use pros.Prelude.{
  ℕ, zero, suc, ◌+◌, ◌/◌, ◌^◌, ◌≤◌, ◌<◌, ◌≡◌, ◌⊎◌, inl, inr, ◌∙◌, refl, arith, List, [], ◌∷◌, map,
  length, some, ◌==◌, u32, sub32, Bool-cases, ltb_of_lt,
}
use mathlib.Core.Path.{subst}
use pros.Memory.{Mem, load8, load32}
use pros.Memory.Laws.{load32-lt, load32-ext, load8-store32_ne}
use pros.CString.Block.{memset_lem}
use pros.MemoryManager.{
  MemoryManager, block_size, set_bit, unset_bit, use_blocks, release_blocks, set_region_used,
  set_region_free,
}
use pros.MemoryManager.Init.{
  MmapEntry, memory_available, add_lengths, apply_entry, apply_entries, fill, init_pmm,
}
use pros.MemoryManager.BootMap.{
  read_entry, next_entry, sum_lengths, mark_entries, init_pmm_at, mmap_length, mmap_addr, init,
}
use pros.Paging.{phys_2_virt, init_vmm}

-- An entry with the value of its `size` member, which does not count itself.
pub record Sized : Type 0 where
  pub size : ℕ
  pub entry : MmapEntry

abbrev pub entries : List Sized → List MmapEntry
entries es = map (λ (s : Sized). s.entry) es

abbrev pub extent : List Sized → ℕ
extent [] = 0
extent (s ∷ es) = s.size + 4 + extent es

-- The entries stand one behind the other from `p` on.
abbrev pub HasEntries : Mem → (p : ℕ) → List Sized → Type 0
HasEntries m p [] = Unit {0}
HasEntries m p (s ∷ es) =
    (load32 m p ≡ s.size)
    × (20 ≤ s.size)
    × (read_entry m p ≡ s.entry)
    × HasEntries m (p + s.size + 4) es

pub HasEntries-ext :
    (m m' : Mem) (p : ℕ) (es : List Sized)
    → ((b : ℕ) → p ≤ b → b < p + extent es → load8 m' b ≡ load8 m b)
    → HasEntries m p es
    → HasEntries m' p es
unfolding read_entry
HasEntries-ext m m' p [] same h = h
HasEntries-ext m m' p (s ∷ es) same (size, long, at, rest) =
    let word : (k : ℕ) → k ≤ 20 → load32 m' (p + k) ≡ load32 m (p + k) =
      λ k hk. load32-ext m' m (p + k) (λ b lo hi. same b (omega arith) (omega arith)) in
    (
      load32-ext m' m p (λ b lo hi. same b (omega arith) (omega arith)) ∙ size,
      long,
      rw (word 4 (omega arith), word 12 (omega arith), word 20 (omega arith)) at,
      HasEntries-ext m m' (p + s.size + 4) es (λ b lo hi. same b (omega arith) (omega arith)) rest,
    )

-- The bytes that a bitmap of all addresses of 32 bits can take, with a region behind the last one.
abbrev pub OffMap : MemoryManager → ℕ → Type 0
OffMap mm b = (b < mm.memory_map) ⊎ (mm.memory_map + 2 ^ 18 ≤ b)

-- The state after marking: the same bitmap, with as many blocks, and the bytes off it.
pub record IsMarked (mm mm' : MemoryManager) : Type 0 where
  pub start : mm'.memory_map ≡ mm.memory_map
  pub blocks : mm'.max_blocks ≡ mm.max_blocks
  pub bytes : (b : ℕ) → OffMap mm b → load8 mm'.mem b ≡ load8 mm.mem b

use_blocks-IsMarked :
    (mm : MemoryManager) (base n : ℕ) → base + n ≤ 2 ^ 21 → IsMarked mm (use_blocks mm base n)
unfolding use_blocks set_bit
use_blocks-IsMarked mm base zero h = record { start = refl; blocks = refl; bytes = λ b off. refl }
use_blocks-IsMarked mm base (suc n) h =
    let s = set_bit mm base in
    let later =
      use_blocks-IsMarked (record s { used_blocks = sub32 s.used_blocks 1 }) (base + 1) n
        (omega arith) in
    record {
      start = later.start;
      blocks = later.blocks;
      bytes = λ b off. later.bytes b off ∙ load8-store32_ne mm.mem _ _ b (omega arith);
    }

release_blocks-IsMarked :
    (mm : MemoryManager) (base n : ℕ) → base + n ≤ 2 ^ 21 → IsMarked mm (release_blocks mm base n)
unfolding release_blocks unset_bit
release_blocks-IsMarked mm base zero h = record {
  start = refl;
  blocks = refl;
  bytes = λ b off. refl;
}
release_blocks-IsMarked mm base (suc n) h =
    let s = unset_bit mm base in
    let later =
      release_blocks-IsMarked (record s { used_blocks = u32 (s.used_blocks + 1) }) (base + 1) n
        (omega arith) in
    record {
      start = later.start;
      blocks = later.blocks;
      bytes = λ b off. later.bytes b off ∙ load8-store32_ne mm.mem _ _ b (omega arith);
    }

pub set_region_used-IsMarked :
    (mm : MemoryManager) (start size : ℕ)
    → start < 2 ^ 32
    → size < 2 ^ 32
    → IsMarked mm (set_region_used mm start size)
unfolding set_region_used set_bit
set_region_used-IsMarked mm start size small short =
    let one = use_blocks-IsMarked mm (start / block_size) (size / block_size) (omega arith) in
    record {
      start = one.start;
      blocks = one.blocks;
      bytes = λ b off. load8-store32_ne _ _ _ b (omega (arith, one.start)) ∙ one.bytes b off;
    }

pub apply_entry-IsMarked :
    (mm : MemoryManager) (e : MmapEntry)
    → e.addr_low < 2 ^ 32
    → e.len_low < 2 ^ 32
    → IsMarked mm (apply_entry mm e)
unfolding apply_entry set_region_free
apply_entry-IsMarked mm e small short = elim (Bool-cases (e.kind == memory_available)) [
  | inl free ↦
      rw free (
        release_blocks-IsMarked mm (e.addr_low / block_size) (e.len_low / block_size) (omega arith))
  | inr used ↦ rw used (set_region_used-IsMarked mm e.addr_low e.len_low small short)
]

-- The length fields add up as those of the list.
sum_lengths-add_lengths :
    (fuel : ℕ) (m : Mem) (p total : ℕ) (es : List Sized)
    → length es < fuel
    → p + extent es < 2 ^ 32
    → HasEntries m p es
    → sum_lengths fuel m p (p + extent es) total ≡ some (add_lengths total (entries es))
unfolding sum_lengths add_lengths next_entry
sum_lengths-add_lengths zero m p total es enough fits h = absurd (omega arith)
sum_lengths-add_lengths (suc fuel) m p total [] enough fits h = ground arith
sum_lengths-add_lengths (suc fuel) m p total (s ∷ es) enough fits (size, long, at, rest) =
    let step : u32 (p + load32 m p + 4) ≡ p + s.size + 4 = omega (arith, size) in
    let whole : p + s.size + 4 + extent es ≡ p + (s.size + 4 + extent es) = omega arith in
    let total' = u32 (total + s.entry.len_low) in
    let later =
      sum_lengths-add_lengths fuel m (p + s.size + 4) total' es (omega arith) (omega arith) rest in
    rw (ltb_of_lt p (p + (s.size + 4 + extent es)) (omega arith), step, at)
      (subst
        (λ end.
          sum_lengths fuel m (p + s.size + 4) end total' ≡ some (add_lengths total' (entries es)))
        whole later)

mark_entries-apply_entries :
    (fuel : ℕ) (mm : MemoryManager) (p : ℕ) (es : List Sized)
    → length es < fuel
    → p + extent es < 2 ^ 32
    → ((b : ℕ) → p ≤ b → b < p + extent es → OffMap mm b)
    → HasEntries mm.mem p es
    → mark_entries fuel mm p (p + extent es) ≡ some (apply_entries mm (entries es))
unfolding mark_entries apply_entries next_entry
mark_entries-apply_entries zero mm p es enough fits off h = absurd (omega arith)
mark_entries-apply_entries (suc fuel) mm p [] enough fits off h = ground arith
mark_entries-apply_entries (suc fuel) mm p (s ∷ es) enough fits off (size, long, at, rest) =
    let small : s.entry.addr_low < 2 ^ 32 =
      unfold read_entry in
      subst (λ (e : MmapEntry). e.addr_low < 2 ^ 32) at (load32-lt mm.mem (p + 4)) in
    let short : s.entry.len_low < 2 ^ 32 =
      unfold read_entry in
      subst (λ (e : MmapEntry). e.len_low < 2 ^ 32) at (load32-lt mm.mem (p + 12)) in
    let mm' = apply_entry mm s.entry in
    let marked = apply_entry-IsMarked mm s.entry small short in
    let same : load32 mm'.mem p ≡ load32 mm.mem p =
      load32-ext mm'.mem mm.mem p (λ b lo hi. marked.bytes b (off b lo (omega arith))) in
    let step : u32 (p + load32 mm'.mem p + 4) ≡ p + s.size + 4 = omega (arith, size, same) in
    let whole : p + s.size + 4 + extent es ≡ p + (s.size + 4 + extent es) = omega arith in
    let off' : (b : ℕ) → p + s.size + 4 ≤ b → b < p + s.size + 4 + extent es → OffMap mm' b =
      λ b lo hi. omega (arith, off b (omega arith) (omega arith), marked.start) in
    let rest' =
      HasEntries-ext mm.mem mm'.mem (p + s.size + 4) es
        (λ b lo hi. marked.bytes b (off b (omega arith) (omega arith))) rest in
    let later =
      mark_entries-apply_entries fuel mm' (p + s.size + 4) es (omega arith) (omega arith) off'
        rest' in
    rw (ltb_of_lt p (p + (s.size + 4 + extent es)) (omega arith), at, step)
      (subst
        (λ end. mark_entries fuel mm' (p + s.size + 4) end ≡ some (apply_entries mm' (entries es)))
        whole later)

add_lengths-lt : (total : ℕ) (es : List MmapEntry) → total < 2 ^ 32 → add_lengths total es < 2 ^ 32
unfolding add_lengths
add_lengths-lt total [] h = h
add_lengths-lt total (e ∷ es) h = add_lengths-lt (u32 (total + e.len_low)) es (omega arith)

init_pmm_at-init_pmm :
    (fuel : ℕ) (mm : MemoryManager) (kernel_end p : ℕ) (es : List Sized)
    → length es < fuel
    → p + extent es < 2 ^ 32
    → ((b : ℕ) → p ≤ b → b < p + extent es → (b < kernel_end) ⊎ (kernel_end + 2 ^ 18 ≤ b))
    → mm.memory_size < 2 ^ 32
    → HasEntries mm.mem p es
    → init_pmm_at fuel mm kernel_end p (extent es) ≡ some (init_pmm mm kernel_end (entries es))
unfolding init_pmm_at init_pmm fill
init_pmm_at-init_pmm fuel mm kernel_end p es enough fits off small h =
    let start = fill mm kernel_end in
    let n = mm.memory_size / block_size / 8 in
    let h' =
      HasEntries-ext mm.mem start.mem p es
        (λ b lo hi. ground (arith, memset_lem mm.mem kernel_end 0xF n b, off b lo hi)) h in
    let e : u32 (p + extent es) ≡ p + extent es = omega arith in
    rw (e, mark_entries-apply_entries fuel start p es enough fits off h', init_pmm_at)

-- For a memory map of 32-bit addresses that lies in memory entry by entry, off the bytes that the
-- bitmap can take, and more fuel than entries, `init` returns: it does what `initVMM` does on the state
-- that `initPMM` leaves for the list of the entries, where the memory size is the sum of their lengths,
-- although the bitmap is written between the reads of the map.
pub init-init_vmm :
    (fuel : ℕ) (mm : MemoryManager) (kernel_end phys_mbi : ℕ) (es : List Sized)
    → length es < fuel
    → mm.memory_size < 2 ^ 32
    → mmap_length mm.mem (phys_2_virt phys_mbi) ≡ extent es
    → let p = phys_2_virt (mmap_addr mm.mem (phys_2_virt phys_mbi)) in
      p + extent es < 2 ^ 32
      → ((b : ℕ) → p ≤ b → b < p + extent es → (b < kernel_end) ⊎ (kernel_end + 2 ^ 18 ≤ b))
      → HasEntries mm.mem p es
      → init fuel mm kernel_end phys_mbi
        ≡ some (
            init_vmm (
              init_pmm
                (record mm { memory_size = add_lengths mm.memory_size (entries es) })
                kernel_end
                (entries es)))
unfolding init
init-init_vmm fuel mm kernel_end phys_mbi es enough small size fits off h =
    let p = phys_2_virt (mmap_addr mm.mem (phys_2_virt phys_mbi)) in
    let total = add_lengths mm.memory_size (entries es) in
    let e : u32 (p + extent es) ≡ p + extent es = omega arith in
    rw (
      size,
      e,
      sum_lengths-add_lengths fuel mm.mem p mm.memory_size es enough fits h,
      size,
      init_pmm_at-init_pmm fuel (record mm { memory_size = total }) kernel_end p es enough fits off
          (add_lengths-lt mm.memory_size (entries es) small) h,
      init,
    )
