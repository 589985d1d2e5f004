-- ===== src/Ata/Sector.antt =====
-- The words of a sector, from the data port into the buffer of `readSector`.
use pros.Prelude.{
  ℕ, zero, suc, ◌+◌, ◌*◌, ◌/◌, ◌%◌, ◌^◌, ◌≤◌, ◌<◌, ◌≡◌, arith, ◌∙◌, ap, bit_and, ◌>>>◌,
}
use pros.Bits.Masks.{bit_and-mask}
use pros.Memory.{Mem, load8, store8}

-- The status of a drive that is busy for a number of reads of it.
abbrev pub status : ℕ → ℕ
status zero = 0x58
status (suc busy) = 0xD0

abbrev pub less : ℕ → ℕ
less zero = zero
less (suc n) = n

bytes_of_word :
    (w : ℕ) → (bit_and w 0xFF ≡ w % 2 ^ 8) × (bit_and (w >>> 8) 0xFF ≡ w / 2 ^ 8 % 2 ^ 8)
bytes_of_word w = (bit_and-mask 8 w, bit_and-mask 8 (w / 2 ^ 8))

-- After `left` words from byte `i` of the buffer.
pub record IsFetched (words : ℕ → ℕ) (at left k : ℕ) (m m' : Mem) : Type 0 where
  pub low : (j p : ℕ) → p ≡ at + 2 * j → j < left → load8 m' p ≡ words (k + j) % 2 ^ 8
  pub high : (j p : ℕ) → p ≡ at + 2 * j + 1 → j < left → load8 m' p ≡ words (k + j) / 2 ^ 8 % 2 ^ 8
  pub before : (p : ℕ) → p < at → load8 m' p ≡ load8 m p
  pub after : (p : ℕ) → at + 2 * left ≤ p → load8 m' p ≡ load8 m p

-- The two bytes of the first word.
first_word :
    (m : Mem) (at w : ℕ)
    → let m' = store8 (store8 m at (bit_and w 0xFF)) (at + 1) (bit_and (w >>> 8) 0xFF) in
      (load8 m' at ≡ w % 2 ^ 8)
      × (load8 m' (at + 1) ≡ w / 2 ^ 8 % 2 ^ 8)
      × ((p : ℕ) → p < at → load8 m' p ≡ load8 m p)
      × ((p : ℕ) → at + 2 ≤ p → load8 m' p ≡ load8 m p)
unfolding load8 store8
first_word m at w =
    let (low, high) = bytes_of_word w in
    (ground arith, ground arith, λ p h. ground arith, λ p h. ground arith)

-- A byte of each word, at `b` in the word.
words_step :
    (words g : ℕ → ℕ) (b at at' left k k' : ℕ) (m' : Mem)
    → at' ≡ at + 2
    → k' ≡ k + 1
    → load8 m' (at + b) ≡ g (words k)
    → ((j p : ℕ) → p ≡ at' + 2 * j + b → j < left → load8 m' p ≡ g (words (k' + j)))
    → (j p : ℕ) → p ≡ at + 2 * j + b
    → j < suc left
    → load8 m' p ≡ g (words (k + j))
words_step words g b at at' left k k' m' e e' first rest zero p h l =
    ap (load8 m') {x = p} {y = at + b} (omega arith)
    ∙ first
    ∙ ap (λ x. g (words x)) {x = k} {y = k + 0} (omega arith)
words_step words g b at at' left k k' m' e e' first rest (suc j) p h l =
    rest j p (omega arith) (omega arith)
    ∙ ap (λ x. g (words x)) {x = k' + j} {y = k + suc j} (omega arith)

pub step-IsFetched :
    (words : ℕ → ℕ) (at at' left k k' : ℕ) (m m' : Mem)
    → at' ≡ at + 2
    → k' ≡ k + 1
    → let m2 =
        store8 (store8 m at (bit_and (words k) 0xFF)) (at + 1) (bit_and (words k >>> 8) 0xFF) in
      IsFetched words at' left k' m2 m' → IsFetched words at (suc left) k m m'
step-IsFetched words at at' left k k' m m' e e' rest =
    let (low, high, before, after) = first_word m at (words k) in
    record {
      low = λ j p e1.
          words_step words (λ x. x % 2 ^ 8) 0 at at' left k k' m' e e'
            (ap (load8 m') {x = at + 0} {y = at} (omega arith) ∙ rest.before at (omega arith) ∙ low)
            (λ j p h. rest.low j p (omega arith)) j p (omega arith);
      high =
          words_step words (λ x. x / 2 ^ 8 % 2 ^ 8) 1 at at' left k k' m' e e'
            (rest.before (at + 1) (omega arith) ∙ high) rest.high;
      before = λ p h. rest.before p (omega arith) ∙ before p h;
      after = λ p h. rest.after p (omega arith) ∙ after p (omega arith);
    }
