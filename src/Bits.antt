-- ===== src/Bits.antt =====
-- The bits of a word: how `&`, `|` and `~` act on each of them, at every word and position.
mod Step
pub mod Masks
use Step.{bit_or_step, bit_and_step}
use Prim.Native.Nat.{bit_and-bitwise}
use native.Mathlib.Nat.{pow-suc, one-le-pow}
use pros.Prelude.{
  ℕ, zero, suc, ◌+◌, ◌-◌, ◌*◌, ◌/◌, ◌%◌, ◌^◌, ◌≤◌, ◌<◌, ◌≡◌, ◌≢◌, refl, arith, bit_and, bit_or, min,
  max, ap, ◌∙◌, if◌then◌else◌, ◌==◌,
}

-- Bit `k` of `w`, as 0 or 1.
abbrev pub bit_at : ℕ → ℕ → ℕ
bit_at w zero = w % 2
bit_at w (suc k) = bit_at (w / 2) k

pub bit_at-le-one : (w k : ℕ) → bit_at w k ≤ 1
bit_at-le-one w zero = omega arith
bit_at-le-one w (suc k) = bit_at-le-one (w / 2) k

pub bit_at-bit_or : (a b k : ℕ) → bit_at (bit_or a b) k ≡ max (bit_at a k) (bit_at b k)
bit_at-bit_or a b zero = omega (arith, bit_or_step a b)
bit_at-bit_or a b (suc k) =
    ap (λ w. bit_at w k) (omega (arith, bit_or_step a b)) ∙ bit_at-bit_or (a / 2) (b / 2) k

pub bit_at-bit_and : (a b k : ℕ) → bit_at (bit_and a b) k ≡ min (bit_at a k) (bit_at b k)
bit_at-bit_and a b zero = omega (arith, bit_and_step a b)
bit_at-bit_and a b (suc k) =
    ap (λ w. bit_at w k) (omega (arith, bit_and_step a b)) ∙ bit_at-bit_and (a / 2) (b / 2) k

-- Nothing and everything.
pub bit_at-zero : (k : ℕ) → bit_at 0 k ≡ 0
bit_at-zero zero = refl
bit_at-zero (suc k) = bit_at-zero k

-- `1 << k` has bit `k` and no other.
pub bit_at-pow_self : (k : ℕ) → bit_at (2 ^ k) k ≡ 1
bit_at-pow_self zero = refl
bit_at-pow_self (suc k) = ap (λ w. bit_at w k) (omega (arith, pow-suc 2 k)) ∙ bit_at-pow_self k

pub bit_at-pow_ne : (k j : ℕ) → k ≢ j → bit_at (2 ^ k) j ≡ 0
bit_at-pow_ne zero zero h = absurd (h refl)
bit_at-pow_ne zero (suc j) h = bit_at-zero j
bit_at-pow_ne (suc k) zero h = omega (arith, pow-suc 2 k)
bit_at-pow_ne (suc k) (suc j) h =
    ap (λ w. bit_at w j) (omega (arith, pow-suc 2 k)) ∙ bit_at-pow_ne k j (λ e. h (ap suc e))

-- `~x` at width `n`.
pub bit_at-complement : (n x j : ℕ) → x < 2 ^ n → j < n → bit_at (2 ^ n - 1 - x) j + bit_at x j ≡ 1
bit_at-complement zero x j hx hj = absurd (omega arith)
bit_at-complement (suc n) x zero hx hj = omega (arith, pow-suc 2 n, one-le-pow n 2)
bit_at-complement (suc n) x (suc j) hx hj =
    ap (λ w. bit_at w j + bit_at (x / 2) j) (omega (arith, pow-suc 2 n, one-le-pow n 2))
    ∙ bit_at-complement n (x / 2) j (omega (arith, pow-suc 2 n)) (omega arith)

zero-bit_and : (b : ℕ) → bit_and 0 b ≡ 0
zero-bit_and b = bit_and-bitwise 0 b

-- `w & (1 << k)`: the test of a single bit.
bit_and-zero : (a k : ℕ) → a ≤ k → bit_and a 0 ≡ 0
bit_and-zero zero k h = refl
bit_and-zero (suc a) zero h = absurd (omega arith)
bit_and-zero (suc a) (suc k) h =
    omega (arith, bit_and_step (suc a) 0, bit_and-zero (suc a / 2) k (omega arith))

pub bit_and-pow : (w k : ℕ) → bit_and w (2 ^ k) ≡ bit_at w k * 2 ^ k
bit_and-pow w zero = omega (arith, bit_and_step w 1, bit_and-zero (w / 2) (w / 2) (omega arith))
bit_and-pow w (suc k) =
    let step : bit_and (w / 2) (2 ^ suc k / 2) ≡ bit_and (w / 2) (2 ^ k) =
      ap (bit_and (w / 2)) (omega (arith, pow-suc 2 k)) in
    grind (arith, step, bit_and_step w (2 ^ suc k), bit_and-pow (w / 2) k, pow-suc 2 k)

-- The operations stay within a width.
pub bit_or-lt : (n a b : ℕ) → a < 2 ^ n → b < 2 ^ n → bit_or a b < 2 ^ n
bit_or-lt zero a b p q =
    let za : a ≡ 0 = omega arith in let zb : b ≡ 0 = omega arith in rw (za, zb) (omega arith)
bit_or-lt (suc n) a b p q = omega (
  arith,
  bit_or_step a b,
  pow-suc 2 n,
  bit_or-lt n (a / 2) (b / 2) (omega (arith, pow-suc 2 n)) (omega (arith, pow-suc 2 n)),
)

pub bit_and-lt : (n a b : ℕ) → a < 2 ^ n → bit_and a b < 2 ^ n
bit_and-lt zero a b p =
    let za : a ≡ 0 = omega arith in rw za (omega (arith, bit_and_step 0 b, zero-bit_and b))
bit_and-lt (suc n) a b p = omega (
  arith,
  bit_and_step a b,
  pow-suc 2 n,
  bit_and-lt n (a / 2) (b / 2) (omega (arith, pow-suc 2 n)),
)

pub pow-lt : (k n : ℕ) → k < n → 2 ^ k < 2 ^ n
pow-lt zero zero h = elim h [ ]
pow-lt zero (suc n) h = omega (arith, pow-suc 2 n, one-le-pow n 2)
pow-lt (suc k) zero h = elim h [ ]
pow-lt (suc k) (suc n) h = omega (arith, pow-suc 2 k, pow-suc 2 n, pow-lt k n (omega arith))
