-- ===== src/Paging/Entry.antt =====
-- The words of the entries that the code writes, and what the processor reads from them.
use pros.Prelude.{ℕ, ◌+◌, ◌*◌, ◌/◌, ◌%◌, ◌^◌, ◌≤◌, ◌<◌, ◌≡◌, ◌⊎◌, arith, ◌∙◌, ap, bit_and, bit_or}
use pros.Bits.Masks.{bit_and-mask, bit_and-shifted, bit_or-one, bit_or-two}
use pros.Memory.{Mem, load8, load32, store32}
use pros.Memory.Laws.{load32-store32_self, load32-store32_ne, load8-store32_ne, load32-lt}
use pros.CString.{memset}
use pros.CString.Block.{memset_lem}
use pros.Paging.{
  set_present, set_write, set_frame, get_frame_address, get_physical_address, page_directory_index,
  page_table_index, fill_entry, page_size,
}

pub page_directory_index_lem : (x : ℕ) → page_directory_index x ≡ x / 2 ^ 22 % 1024
unfolding page_directory_index
page_directory_index_lem x = bit_and-mask 10 (x / 2 ^ 22)

pub page_table_index_lem : (x : ℕ) → page_table_index x ≡ x / 2 ^ 12 % 1024
unfolding page_table_index
page_table_index_lem x = bit_and-mask 10 (x / 2 ^ 12)

clear_offset : (x : ℕ) → bit_and x 0xFFFFF000 ≡ x / 2 ^ 12 % 2 ^ 20 * 2 ^ 12
clear_offset x =
    bit_and-shifted 12 x 0xFFFFF ∙ ap (λ (t : ℕ). t * 2 ^ 12) (bit_and-mask 20 (x / 2 ^ 12))

pub get_frame_address_lem : (x : ℕ) → get_frame_address x ≡ x / 2 ^ 12 % 2 ^ 20
unfolding get_frame_address
get_frame_address_lem x = omega (arith, clear_offset x)

pub get_physical_address_lem : (x : ℕ) → get_physical_address x ≡ x / 2 ^ 12 % 2 ^ 20 * 2 ^ 12
unfolding get_physical_address
get_physical_address_lem x = clear_offset x

-- The word that the three assignments make of `w`, for an address.
abbrev pub filled : (w address : ℕ) → ℕ
filled w address = address / 2 ^ 12 % 2 ^ 20 * 2 ^ 12 + (w % 2 ^ 12 / 4 * 4 + 3)

module _ (m : Mem) (e address : ℕ) where
  pub load32-fill_entry : load32 (fill_entry m e address) e ≡ filled (load32 m e) address
  unfolding fill_entry set_present set_write set_frame
  load32-fill_entry =
      let w = load32 m e in
      let m1 = store32 m e (bit_or w 1) in
      let m2 = store32 m1 e (bit_or (load32 m1 e) 2) in
      omega (
        arith,
        load32-lt m e,
        load32-store32_self m e (bit_or w 1),
        bit_or-one w,
        load32-store32_self m1 e (bit_or (load32 m1 e) 2),
        bit_or-two (load32 m1 e),
        load32-store32_self m2 e
            (get_frame_address address % 2 ^ 20 * 2 ^ 12 + load32 m2 e % 2 ^ 12),
        get_frame_address_lem address,
      )

  -- Nothing else changes.
  pub load8-fill_entry_ne :
      (b : ℕ) → (b < e) ⊎ (e + 4 ≤ b) → load8 (fill_entry m e address) b ≡ load8 m b
  unfolding fill_entry
  load8-fill_entry_ne b out =
      load8-store32_ne _ e _ b out ∙ load8-store32_ne _ e _ b out ∙ load8-store32_ne _ e _ b out

  pub load32-fill_entry_ne :
      (b : ℕ) → (b + 4 ≤ e) ⊎ (e + 4 ≤ b) → load32 (fill_entry m e address) b ≡ load32 m b
  unfolding fill_entry
  load32-fill_entry_ne b out =
      load32-store32_ne _ e _ b out ∙ load32-store32_ne _ e _ b out ∙ load32-store32_ne _ e _ b out

load8-memset_page :
    (m : Mem) (page b : ℕ)
    → load8 m page ≡ 0
    → page ≤ b
    → b < page + page_size
    → load8 (memset m page 0 page_size) b ≡ 0
load8-memset_page m page b first lo hi =
    ground (arith, memset_lem m page 0 page_size b, ap (load8 m) {x = b} {y = page})

-- The words of a page that `memset` clears, where the byte that it misses is zero.
pub load32-memset_page :
    (m : Mem) (page k : ℕ)
    → load8 m page ≡ 0
    → k < 1024
    → load32 (memset m page 0 page_size) (page + k * 4) ≡ 0
unfolding load32
load32-memset_page m page k first h =
    let a = page + k * 4 in
    omega (
      arith,
      load8-memset_page m page a first (omega arith) (omega arith),
      load8-memset_page m page (a + 1) first (omega arith) (omega arith),
      load8-memset_page m page (a + 2) first (omega arith) (omega arith),
      load8-memset_page m page (a + 3) first (omega arith) (omega arith),
    )
