-- ===== src/MemoryManager/Bitmap.antt =====
-- The three bit operations of the bitmap against the set of blocks that it stands for.
use native.Mathlib.Nat.{one-le-pow}
use pros.Prelude.{
  ℕ, ◌+◌, ◌-◌, ◌*◌, ◌/◌, ◌%◌, ◌^◌, ◌<◌, ◌≡◌, ◌≢◌, inl, inr, arith, true, false, not, ◌==◌,
  if◌then◌else◌, bit_and, bit_or, ◌∙◌, ap, sym, ℕ_discrete, Bool-cases, eq_of_==, ne_of_==,
}
use pros.Bits.{
  bit_at, bit_at-bit_or, bit_at-bit_and, bit_at-pow_self, bit_at-pow_ne, bit_at-complement,
  bit_and-pow, bit_at-le-one, bit_or-lt, bit_and-lt, pow-lt,
}
use pros.Memory.{load32, store32}
use pros.Memory.Laws.{load32-store32_self, load32-store32_ne, load32-lt}
use pros.MemoryManager.{MemoryManager, word, set_bit, unset_bit, test_bit}

abbrev pub bit_of : MemoryManager → ℕ → ℕ
bit_of mm n = bit_at (word mm (n / 32)) (n % 32)

pub and_pow-zero : (w k : ℕ) → (bit_and w (2 ^ k) == 0) ≡ (bit_at w k == 0)
and_pow-zero w k = elim (Bool-cases (bit_at w k == 0)) [
  | inl e ↦ ground (arith, bit_and-pow w k, ap (λ (t : ℕ). t * 2 ^ k) (eq_of_== (bit_at w k) 0 e))
  | inr ne ↦
      let one : bit_at w k ≡ 1 = omega (arith, bit_at-le-one w k, ne_of_== (bit_at w k) 0 ne) in
      ground (arith, bit_and-pow w k, one-le-pow k 2, ap (λ (t : ℕ). t * 2 ^ k) one)
]

pub test_bit_lem : (mm : MemoryManager) (n : ℕ) → test_bit mm n ≡ not (bit_of mm n == 0)
unfolding test_bit
test_bit_lem mm n = ap not (and_pow-zero _ _)

-- A store to word `q` of the bitmap, seen at bit `j`.
abbrev put_word : MemoryManager → ℕ → ℕ → MemoryManager
put_word mm q w = record mm { mem = store32 mm.mem (mm.memory_map + q * 4) w }

bit_of-put_word_self :
    (mm : MemoryManager) (q w j : ℕ)
    → w < 2 ^ 32
    → q ≡ j / 32
    → bit_of (put_word mm q w) j ≡ bit_at w (j % 32)
bit_of-put_word_self mm q w j h e =
    ap (λ v. bit_at v (j % 32))
      (ap (λ k. load32 (store32 mm.mem (mm.memory_map + q * 4) w) (mm.memory_map + k * 4)) (sym e)
        ∙ load32-store32_self mm.mem (mm.memory_map + q * 4) w
        ∙ omega arith)

bit_of-put_word_ne :
    (mm : MemoryManager) (q w j : ℕ) → q ≢ j / 32 → bit_of (put_word mm q w) j ≡ bit_of mm j
bit_of-put_word_ne mm q w j ne =
    ap (λ v. bit_at v (j % 32))
      (load32-store32_ne mm.mem (mm.memory_map + q * 4) w (mm.memory_map + j / 32 * 4)
        (grind arith))

module _ (mm : MemoryManager) (n j : ℕ) where
  set_word-lt : bit_or (word mm (n / 32)) (2 ^ (n % 32)) < 2 ^ 32
  set_word-lt = bit_or-lt 32 _ _ (load32-lt _ _) (pow-lt (n % 32) 32 (omega arith))

  bit_of-set_bit : bit_of (set_bit mm n) j ≡ (if n == j then 1 else bit_of mm j)
  unfolding set_bit
  bit_of-set_bit = elim (ℕ_discrete (n / 32) (j / 32)) [
    | yes e ↦ ground (
      arith,
      bit_of-put_word_self mm (n / 32) (bit_or (word mm (n / 32)) (2 ^ (n % 32))) j set_word-lt e,
      bit_at-bit_or (word mm (n / 32)) (2 ^ (n % 32)) (j % 32),
      ap (λ q. bit_at (word mm q) (j % 32)) e,
      bit_at-pow_self (n % 32),
      bit_at-pow_ne (n % 32) (j % 32),
      bit_at-le-one (word mm (j / 32)) (j % 32),
      ap (λ k. bit_at (2 ^ k) (j % 32)) {x = n % 32} {y = j % 32},
    )
    | no ne ↦
        ground
          (arith, bit_of-put_word_ne mm (n / 32) (bit_or (word mm (n / 32)) (2 ^ (n % 32))) j ne)
  ]

  -- Setting a bit adds its block to the blocks in use, and changes no other.
  pub test_bit-set_bit : test_bit (set_bit mm n) j ≡ (if n == j then true else test_bit mm j)
  test_bit-set_bit =
      ground (arith, test_bit_lem (set_bit mm n) j, test_bit_lem mm j, bit_of-set_bit)

  clear_word-lt : bit_and (word mm (n / 32)) (2 ^ 32 - 1 - 2 ^ (n % 32)) < 2 ^ 32
  clear_word-lt = bit_and-lt 32 _ _ (load32-lt _ _)

  mask :
      (k : ℕ)
      → k < 32
      → (i : ℕ) → i < 32
      → bit_at (2 ^ 32 - 1 - 2 ^ k) i ≡ (if k == i then 0 else 1)
  mask k hk i hi = ground (
    arith,
    bit_at-complement 32 (2 ^ k) i (pow-lt k 32 hk) hi,
    bit_at-pow_self k,
    bit_at-pow_ne k i,
    ap (λ t. bit_at (2 ^ k) t) {x = k} {y = i},
  )

  bit_of-unset_bit : bit_of (unset_bit mm n) j ≡ (if n == j then 0 else bit_of mm j)
  unfolding unset_bit
  bit_of-unset_bit = elim (ℕ_discrete (n / 32) (j / 32)) [
    | yes e ↦ ground (
      arith,
      bit_of-put_word_self mm (n / 32) (bit_and (word mm (n / 32)) (2 ^ 32 - 1 - 2 ^ (n % 32))) j
          clear_word-lt e,
      bit_at-bit_and (word mm (n / 32)) (2 ^ 32 - 1 - 2 ^ (n % 32)) (j % 32),
      ap (λ q. bit_at (word mm q) (j % 32)) e,
      mask (n % 32) (omega arith) (j % 32) (omega arith),
      bit_at-le-one (word mm (j / 32)) (j % 32),
    )
    | no ne ↦ ground (
      arith,
      bit_of-put_word_ne mm (n / 32) (bit_and (word mm (n / 32)) (2 ^ 32 - 1 - 2 ^ (n % 32))) j ne,
    )
  ]

  -- Clearing a bit takes its block out of the blocks in use, and changes no other.
  pub test_bit-unset_bit : test_bit (unset_bit mm n) j ≡ (if n == j then false else test_bit mm j)
  test_bit-unset_bit =
      ground (arith, test_bit_lem (unset_bit mm n) j, test_bit_lem mm j, bit_of-unset_bit)
