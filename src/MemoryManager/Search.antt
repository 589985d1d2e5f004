-- ===== src/MemoryManager/Search.antt =====
-- `firstFreePhysicalPagesBits` and the runs of free blocks.
use pros.Prelude.{
  ℕ, zero, suc, ◌+◌, ◌-◌, ◌*◌, ◌/◌, ◌%◌, ◌^◌, ◌≤◌, ◌<◌, ◌≡◌, inl, inr, refl, arith, true, false,
  not, ◌==◌, bit_and, Option, none, some, Bool-cases, ℕ_discrete, eq_of_==, ne_of_==, ==_of_ne, ap,
  ◌∙◌, dec_lt,
}
use mathlib.Core.Path.{subst}
use pros.Bits.{bit_at-zero, bit_at, bit_at-complement}
use pros.MemoryManager.{
  MemoryManager, word, test_bit, check_run, scan_word, scan_words, first_free_physical_pages_bits,
}
use pros.MemoryManager.Bitmap.{and_pow-zero}

module _ (mm : MemoryManager) (size : ℕ) where
  -- The run of `size` blocks from `bit` on is free.
  abbrev pub IsFree : ℕ → Type 0
  IsFree bit = (k : ℕ) → k < size → test_bit mm (bit + k) ≡ false

  -- A block of the run is in use.
  abbrev pub IsTaken : ℕ → Type 0
  IsTaken bit = (k : ℕ) × (k < size) × (test_bit mm (bit + k) ≡ true)

  -- Once a block of the run was in use, the count stays below `size`.
  check_run-late :
      (bit left k free : ℕ) → free + left < size → check_run mm bit size left k free ≡ false
  unfolding check_run
  check_run-late bit zero k free h = refl
  check_run-late bit (suc left) k free h =
      ground
        (arith, check_run-late bit left (k + 1) free, check_run-late bit left (k + 1) (free + 1))

  check_run-true :
      (bit left k : ℕ)
      → k + left ≡ size
      → ((i : ℕ) → i < k → test_bit mm (bit + i) ≡ false)
      → check_run mm bit size left k k ≡ true
      → IsFree bit
  unfolding check_run
  check_run-true bit zero k e before h = cc
  check_run-true bit (suc left) k e before h = elim (Bool-cases (test_bit mm (bit + k))) [
    | inl busy ↦ ground (arith, check_run-late bit left (k + 1) k)
    | inr free ↦
        let before' : (i : ℕ) → i < k + 1 → test_bit mm (bit + i) ≡ false = λ i hi.
          elim (ℕ_discrete i k) [ yes i=k ↦ rw i=k free | no ne ↦ before i (omega arith) ] in
        elim (Bool-cases (k + 1 == size)) [
          | inl last ↦ λ i hi. before' i (omega (arith, eq_of_== (k + 1) size last))
          | inr more ↦ check_run-true bit left (k + 1) (omega arith) before' (ground arith)
        ]
  ]

  check_run-false :
      (bit left k : ℕ)
      → k + left ≡ size
      → 0 < left
      → check_run mm bit size left k k ≡ false
      → IsTaken bit
  unfolding check_run
  check_run-false bit zero k e pos h = elim pos [ ]
  check_run-false bit (suc left) k e pos h = elim (Bool-cases (test_bit mm (bit + k))) [
    | inl busy ↦ (k, omega arith, busy)
    | inr free ↦ elim (Bool-cases (k + 1 == size)) [
      | inl last ↦ absurd (ground arith)
      | inr more ↦
          check_run-false bit left (k + 1) (omega arith) (omega (arith, ne_of_== (k + 1) size more))
            (ground arith)
    ]
  ]

  -- What a search of the blocks from `from` up to `to` says: `some bit` is the lowest free run, and
  -- `none` means that there is none.
  abbrev pub Finds : (from to : ℕ) → Option ℕ → Type 0
  Finds from to (some bit) =
      (from ≤ bit) × (bit < to) × IsFree bit × ((b : ℕ) → from ≤ b → b < bit → IsTaken b)
  Finds from to none = (b : ℕ) → from ≤ b → b < to → IsTaken b

  Finds-extend :
      (from mid to : ℕ) (r : Option ℕ)
      → from ≤ mid
      → ((b : ℕ) → from ≤ b → b < mid → IsTaken b)
      → Finds mid to r
      → Finds from to r
  Finds-extend from mid to (some bit) le below f = (
    omega arith,
    f.1,
    f.2,
    λ b lo hi. elim (dec_lt b mid) [ yes p ↦ below b lo p | no p ↦ f.3 b (omega arith) hi ],
  )
  Finds-extend from mid to none le below f =
      λ b lo hi. elim (dec_lt b mid) [ yes p ↦ below b lo p | no p ↦ f b (omega arith) hi ]

  -- A search of one word, and of the words behind it if that finds nothing.
  Finds-first :
      (from mid to : ℕ) (r rest : Option ℕ)
      → from ≤ mid
      → mid ≤ to
      → Finds from mid r
      → Finds mid to rest
      → Finds from to (elim r [ some bit ↦ some bit | none ↦ rest ])
  Finds-first from mid to (some bit) rest le le' f g = (f.0, omega arith, f.2, f.3)
  Finds-first from mid to none rest le le' f g = Finds-extend from mid to rest le f g

  test_bit-word :
      (i j : ℕ) → j < 32 → test_bit mm (i * 32 + j) ≡ not (bit_and (word mm i) (2 ^ j) == 0)
  unfolding test_bit
  test_bit-word i j h =
      let q : (i * 32 + j) / 32 ≡ i = omega arith in
      let r : (i * 32 + j) % 32 ≡ j = omega arith in rw (q, r)

  -- A block whose own bit is set begins no free run.
  IsTaken-of_set : (b : ℕ) → 0 < size → test_bit mm b ≡ true → IsTaken b
  IsTaken-of_set b pos h = (0, pos, ap (test_bit mm) (omega arith) ∙ h)

  module _ (pos : 0 < size) where
    scan_word-Finds :
        (i left j : ℕ)
        → j + left ≡ 32
        → Finds (i * 32 + j) (i * 32 + 32) (scan_word mm size i left j)
    unfolding scan_word
    scan_word-Finds i zero j e = λ b lo hi. absurd (omega arith)
    scan_word-Finds i (suc left) j e =
        let at = i * 32 + j in
        let rest = scan_word mm size i left (j + 1) in
        let later : Finds (at + 1) (i * 32 + 32) rest =
          let shift : i * 32 + (j + 1) ≡ at + 1 = omega arith in
          subst (λ from. Finds from (i * 32 + 32) rest) shift
            (scan_word-Finds i left (j + 1) (omega arith)) in
        let skip : IsTaken at → Finds at (i * 32 + 32) rest = λ taken.
          Finds-extend at (at + 1) (i * 32 + 32) rest (omega arith)
            (λ b lo hi. subst IsTaken (omega arith) taken) later in
        elim (Bool-cases (bit_and (word mm i) (2 ^ j) == 0)) [
          | inr set ↦
              rw set (skip (IsTaken-of_set at pos (test_bit-word i j (omega arith) ∙ ap not set)))
          | inl clear ↦ elim (Bool-cases (check_run mm at size size 0 0)) [
            | inl good ↦
                rw (clear, good)
                  (
                    omega arith,
                    omega arith,
                    check_run-true at size 0 (omega arith) (λ k h. elim h [ ]) good,
                    λ b lo hi. absurd (omega arith),
                  )
            | inr bad ↦ rw (clear, bad) (skip (check_run-false at size 0 (omega arith) pos bad))
          ]
        ]

    word_full : (i j : ℕ) → j < 32 → word mm i ≡ 2 ^ 32 - 1 → test_bit mm (i * 32 + j) ≡ true
    word_full i j h full =
        let one : bit_at (word mm i) j ≡ 1 =
          ap (λ w. bit_at w j) full
          ∙ omega (arith, bit_at-complement 32 0 j (omega arith) h, bit_at-zero j) in
        test_bit-word i j h ∙ ap not (and_pow-zero (word mm i) j ∙ ap (λ t. t == 0) one)

    scan_words-Finds : (left i : ℕ) → Finds (i * 32) ((i + left) * 32) (scan_words mm size left i)
    unfolding scan_words
    scan_words-Finds zero i = λ b lo hi. absurd (omega arith)
    scan_words-Finds (suc left) i =
        let to = (i + suc left) * 32 in
        let rest = scan_words mm size left (i + 1) in
        let found = scan_word mm size i 32 0 in
        let later : Finds (i * 32 + 32) to rest =
          let shift : (i + 1) * 32 ≡ i * 32 + 32 = omega arith in
          let goal : (i + 1 + left) * 32 ≡ to = omega arith in
          subst (λ t. Finds (i * 32 + 32) t rest) goal
            (subst (λ from. Finds from ((i + 1 + left) * 32) rest) shift
              (scan_words-Finds left (i + 1))) in
        let here : Finds (i * 32) (i * 32 + 32) found =
          subst (λ from. Finds from (i * 32 + 32) found) (omega arith)
            (scan_word-Finds i 32 0 (omega arith)) in
        elim (Bool-cases (word mm i == 2 ^ 32 - 1)) [
          | inl full ↦ rw full (
              Finds-extend (i * 32) (i * 32 + 32) to rest (omega arith)
                (λ b lo hi.
                  let same : i * 32 + (b - i * 32) ≡ b = omega arith in
                  IsTaken-of_set b pos (
                    subst (λ t. test_bit mm t ≡ true) same
                      (word_full i (b - i * 32) (omega arith)
                        (eq_of_== (word mm i) (2 ^ 32 - 1) full))))
                later)
          | inr room ↦ rw room (
              Finds-first (i * 32) (i * 32 + 32) to found rest (omega arith) (omega arith) here
                later)
        ]

-- For a positive size, `firstFreePhysicalPagesBits` returns the lowest block, among those that the
-- words of the bitmap hold, from which on `size` blocks are free; where it returns -1, each of these
-- blocks has a block in use among the `size` from it on.
pub first_free-Finds :
    (mm : MemoryManager) (size : ℕ)
    → 0 < size
    → Finds mm size 0 (mm.memory_size / 32 / 4096 * 32) (first_free_physical_pages_bits mm size)
unfolding first_free_physical_pages_bits
first_free-Finds mm size pos =
    let words = mm.memory_size / 32 / 4096 in
    let ne : (size == 0) ≡ false = ==_of_ne size 0 (omega arith) in
    let full : (0 + words) * 32 ≡ words * 32 = omega arith in
    rw ne (
      subst (λ t. Finds mm size 0 t (scan_words mm size words 0)) full
        (scan_words-Finds mm size pos words 0))
