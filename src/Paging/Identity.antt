-- ===== src/Paging/Identity.antt =====
-- The first loop of `initVMM`, which fills the kernel's table.
use pros.Prelude.{
  ℕ, zero, suc, ◌+◌, ◌*◌, ◌≤◌, ◌<◌, ◌≡◌, ◌⊎◌, ◌∙◌, refl, ap, if◌then◌else◌, arith, ltb, leb, ◌&&◌,
  bit_or,
}
use pros.Bits.Masks.{bit_or-one, bit_or-two}
use pros.Memory.{Mem, load8, load32, store32}
use pros.Memory.Laws.{load32-store32_self, load32-store32_ne, load8-store32_ne}
use pros.Paging.{
  virtual_base, page_size, set_present, set_write, set_frame, get_frame_address, page_table_index,
  map_kernel,
}
use pros.Paging.Entry.{page_table_index_lem, get_frame_address_lem}

page_word :
    (i : ℕ)
    → i < 1024
    → set_frame (set_write (set_present 0)) (get_frame_address (i * page_size)) ≡ i * page_size + 3
unfolding set_frame set_write set_present
page_word i h =
    omega (arith, bit_or-one 0, bit_or-two (bit_or 0 1), get_frame_address_lem (i * page_size))

page_slot : (i : ℕ) → i < 1024 → page_table_index (virtual_base + i * page_size) ≡ i
page_slot i h = omega (arith, page_table_index_lem (virtual_base + i * page_size))

-- The rounds fill the entries from `i` on, and nothing else.
pub load32-map_kernel :
    (m : Mem) (table left i k : ℕ)
    → i + left ≤ 1024
    → load32 (map_kernel m table left i) (table + k * 4)
      ≡ (if leb i k && ltb k (i + left) then k * page_size + 3 else load32 m (table + k * 4))
unfolding map_kernel
load32-map_kernel m table zero i k h = ground arith
load32-map_kernel m table (suc left) i k h =
    rw (page_word i (omega arith), page_slot i (omega arith))
      (ground (
        arith,
        load32-map_kernel (store32 m (table + i * 4) (i * page_size + 3)) table left (i + 1) k
            (omega arith),
        load32-store32_self m (table + i * 4) (i * page_size + 3),
        load32-store32_ne m (table + i * 4) (i * page_size + 3) (table + k * 4),
        ap (λ t. load32 (store32 m (table + i * 4) (i * page_size + 3)) (table + t * 4)) {x = k}
            {y = i},
      ))

pub load8-map_kernel :
    (m : Mem) (table left i b : ℕ)
    → i + left ≤ 1024
    → (b < table) ⊎ (table + page_size ≤ b)
    → load8 (map_kernel m table left i) b ≡ load8 m b
unfolding map_kernel
load8-map_kernel m table zero i b h out = refl
load8-map_kernel m table (suc left) i b h out = rw (page_slot i (omega arith)) (
    load8-map_kernel
      (store32 m (table + i * 4)
        (set_frame (set_write (set_present 0)) (get_frame_address (i * page_size))))
      table left (i + 1) b (omega arith) out
    ∙ load8-store32_ne m (table + i * 4) _ b (omega arith))
