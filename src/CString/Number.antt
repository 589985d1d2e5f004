-- ===== src/CString/Number.antt =====
-- The digits of a number and its text, as a specification of `countDigit` and `itos`.
use native.Mathlib.Nat.{div-add-mod', div-lt_iff_lt-mul, pow-suc, pow-zero}
use pros.Prelude.{
  ℕ, ◌^◌, zero, suc, ◌+◌, ◌-◌, ◌*◌, ◌/◌, ◌%◌, ◌≤◌, ◌<◌, ◌≡◌, ◌≢◌, refl, arith, List, [], ◌∷◌, ◌++◌,
  map, some, ◌==◌, leb, if◌then◌else◌, length, ap, ◌∙◌, Bool-cases, inl, inr, eq_of_==, ne_of_==,
  length-append,
}
use pros.CString.{count_from, count_digit, digit_char}

-- The digits of `n` from the lowest on; none for 0.
unfoldable pub digits : (fuel base n : ℕ) → List ℕ
digits zero base n = []
digits (suc fuel) base n = if n == 0 then [] else (n % base) ∷ digits fuel base (n / base)

abbrev pub rev {ℓ} : {A : Type ℓ} → List A → List A
rev [] = []
rev (x ∷ xs) = rev xs ++ (x ∷ [])

-- The usual notation of `n`: its digits from the highest on, and a single 0 for 0.
unfoldable pub numeral : (base n : ℕ) → List ℕ
numeral base n = if n == 0 then 48 ∷ [] else rev (map digit_char (digits (n + 1) base n))

-- What a reader makes of a character and of a text.
unfoldable pub digit_value : ℕ → ℕ
digit_value c = if leb c 57 then c - 48 else c - 55

unfoldable pub read_from : (base acc : ℕ) → List ℕ → ℕ
read_from base acc [] = acc
read_from base acc (c ∷ cs) = read_from base (acc * base + digit_value c) cs

digit_value-digit_char : (r : ℕ) → digit_value (digit_char r) ≡ r
unfolding digit_value digit_char
digit_value-digit_char r = ground arith

read_from-snoc :
    (base acc : ℕ) (cs : List ℕ) (c : ℕ)
    → read_from base acc (cs ++ (c ∷ [])) ≡ read_from base acc cs * base + digit_value c
unfolding read_from
read_from-snoc base acc [] c = refl
read_from-snoc base acc (d ∷ cs) c = read_from-snoc base (acc * base + digit_value d) cs c

pub div-lt : (n base : ℕ) → 2 ≤ base → n ≢ 0 → n / base < n
div-lt n base h ne = grind arith

read_nil : (base n : ℕ) → n ≡ 0 → read_from base 0 [] ≡ n
unfolding read_from
read_nil base n e = omega arith

read_digits :
    (fuel base n : ℕ)
    → 2 ≤ base
    → n < fuel
    → read_from base 0 (rev (map digit_char (digits fuel base n))) ≡ n
unfolding digits
read_digits zero base n h enough = elim enough [ ]
read_digits (suc fuel) base n h enough = elim (Bool-cases (n == 0)) [
  | inl z ↦ rw z (read_nil base n (eq_of_== n 0 z))
  | inr p ↦
      rw
        (
          p,
          read_from-snoc,
          read_digits fuel base (n / base) h (omega (arith, div-lt n base h (ne_of_== n 0 p))),
          digit_value-digit_char,
        )
        (div-add-mod' n base)
]

read_zero : (base n : ℕ) → n ≡ 0 → read_from base 0 (48 ∷ []) ≡ n
unfolding read_from digit_value
read_zero base n e = omega arith

-- For a base of at least 2, the notation of a number stands for that number.
pub read_from-numeral : (base n : ℕ) → 2 ≤ base → read_from base 0 (numeral base n) ≡ n
unfolding numeral
read_from-numeral base n h = elim (Bool-cases (n == 0)) [
  | inl z ↦ rw z (read_zero base n (eq_of_== n 0 z))
  | inr p ↦ rw p (read_digits (n + 1) base n h (omega arith))
]

pub length-rev {ℓ} : {A : Type ℓ} (xs : List A) → length (rev xs) ≡ length xs
length-rev [] = refl
length-rev (x ∷ xs) = omega (arith, length-append (rev xs) (x ∷ []), length-rev xs)

pub length-map {ℓ κ} :
    {A : Type ℓ} {B : Type κ} (f : A → B) (xs : List A) → length (map f xs) ≡ length xs
length-map f [] = refl
length-map f (x ∷ xs) = ap suc (length-map f xs)

count_from-length :
    (fuel n base count : ℕ)
    → 2 ≤ base
    → n < fuel
    → count_from fuel n base count ≡ some (count + length (digits fuel base n))
unfolding count_from digits
count_from-length zero n base count h enough = elim enough [ ]
count_from-length (suc fuel) n base count h enough = elim (Bool-cases (n == 0)) [
  | inl z ↦ rw z (ap some (omega arith))
  | inr p ↦ rw p (
      count_from-length fuel (n / base) base (count + 1) h
        (omega (arith, div-lt n base h (ne_of_== n 0 p)))
      ∙ ap some (omega arith))
]

-- For a base of at least 2, `countDigit` returns, and returns the number of characters of the
-- notation.
pub count_digit-length :
    (n base : ℕ) → 2 ≤ base → count_digit n base ≡ some (length (numeral base n))
unfolding count_digit numeral
count_digit-length n base h = elim (Bool-cases (n == 0)) [
  | inl z ↦ rw z
  | inr p ↦ rw p (
      count_from-length (n + 1) n base 0 h (omega arith)
      ∙ ap some (
          omega (
            arith,
            length-rev (map digit_char (digits (n + 1) base n)),
            length-map digit_char (digits (n + 1) base n),
          )))
]

fewer_digits : (n base k : ℕ) → 2 ≤ base → n < base ^ suc k → n / base < base ^ k
fewer_digits n base k h small =
    (div-lt_iff_lt-mul {k = base} {x = n} {y = base ^ k} (omega arith)).1
      (omega (arith, pow-suc base k))

digits-length : (fuel base n k : ℕ) → 2 ≤ base → n < base ^ k → length (digits fuel base n) ≤ k
unfolding digits
digits-length zero base n k h small = omega arith
digits-length (suc fuel) base n zero h small = elim (Bool-cases (n == 0)) [
  | inl z ↦ rw z (omega arith)
  | inr p ↦ absurd (ne_of_== n 0 p (omega (arith, pow-zero base)))
]
digits-length (suc fuel) base n (suc k) h small = elim (Bool-cases (n == 0)) [
  | inl z ↦ rw z (omega arith)
  | inr p ↦
      rw p (omega (arith, digits-length fuel base (n / base) k h (fewer_digits n base k h small)))
]

-- A number below a power of the base has at most that many digits.
pub length-numeral : (base n k : ℕ) → 2 ≤ base → 0 < k → n < base ^ k → length (numeral base n) ≤ k
unfolding numeral
length-numeral base n k h pos small = elim (Bool-cases (n == 0)) [
  | inl z ↦ rw z (omega arith)
  | inr p ↦ rw p (
      omega (
        arith,
        length-rev (map digit_char (digits (n + 1) base n)),
        length-map digit_char (digits (n + 1) base n),
        digits-length (n + 1) base n k h small,
      ))
]
