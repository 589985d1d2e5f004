-- ===== src/Bits/Masks.antt =====
-- Masks, shifted masks and disjoint fields as arithmetic, at every width.
use Prim.Native.Nat.{bit_or-bitwise}
use mathlib.Core.Path.{sym}
use native.Mathlib.Nat.{pow-suc, one-le-pow, div-div-eq-div-mul}
use pros.Prelude.{
  ℕ, zero, suc, ◌+◌, ◌-◌, ◌*◌, ◌/◌, ◌%◌, ◌^◌, ◌≤◌, ◌<◌, ◌≡◌, refl, arith, bit_and, bit_or, ap, ◌∙◌,
}
use pros.Bits.Step.{bit_or_step, bit_and_step}

bit_and-zero : (a k : ℕ) → a ≤ k → bit_and a 0 ≡ 0
bit_and-zero zero k h = omega (arith, bit_and_step 0 0)
bit_and-zero (suc a) zero h = absurd (omega arith)
bit_and-zero (suc a) (suc k) h =
    omega (arith, bit_and_step (suc a) 0, bit_and-zero (suc a / 2) k (omega arith))

bit_or-zero : (a k : ℕ) → a ≤ k → bit_or a 0 ≡ a
bit_or-zero zero k h = refl
bit_or-zero (suc a) zero h = absurd (omega arith)
bit_or-zero (suc a) (suc k) h =
    omega (arith, bit_or_step (suc a) 0, bit_or-zero (suc a / 2) k (omega arith))

double : (q k : ℕ) → q * 2 ^ suc k ≡ 2 * (q * 2 ^ k)
double q k = omega (arith, ap (λ (t : ℕ). q * t) (pow-suc 2 k))

half_mod : (a p : ℕ) → 0 < p → a % (2 * p) ≡ 2 * (a / 2 % p) + a % 2
half_mod a p pos = grind arith

-- `a & (2^k - 1)`
pub bit_and-mask : (k a : ℕ) → bit_and a (2 ^ k - 1) ≡ a % 2 ^ k
bit_and-mask zero a = omega (arith, bit_and-zero a a (omega arith))
bit_and-mask (suc k) a =
    let half : bit_and (a / 2) ((2 ^ suc k - 1) / 2) ≡ a / 2 % 2 ^ k =
      ap (bit_and (a / 2)) (omega (arith, pow-suc 2 k, one-le-pow k 2)) ∙ bit_and-mask k (a / 2) in
    let e : 2 ^ suc k ≡ 2 * 2 ^ k = omega (arith, pow-suc 2 k) in
    bit_and_step a (2 ^ suc k - 1)
    ∙ omega (
      arith,
      half,
      half_mod a (2 ^ k) (omega (arith, one-le-pow k 2)),
      ap (λ (t : ℕ). a % t) e,
      e,
      one-le-pow k 2,
    )

-- `a & (mask << k)`
pub bit_and-shifted : (k a mask : ℕ) → bit_and a (mask * 2 ^ k) ≡ bit_and (a / 2 ^ k) mask * 2 ^ k
bit_and-shifted zero a mask =
    ap (bit_and a) (omega arith)
    ∙ ap (λ t. bit_and t mask) {x = a} {y = a / 1} (omega arith)
    ∙ omega arith
bit_and-shifted (suc k) a mask =
    let low : bit_and (a / 2) (mask * 2 ^ suc k / 2) ≡ bit_and (a / 2) (mask * 2 ^ k) =
      ap (bit_and (a / 2)) (omega (arith, double mask k)) in
    let div : a / 2 / 2 ^ k ≡ a / 2 ^ suc k =
      div-div-eq-div-mul a 2 (2 ^ k) ∙ ap (λ (t : ℕ). a / t) (omega (arith, pow-suc 2 k)) in
    omega (
      arith,
      bit_and_step a (mask * 2 ^ suc k),
      double mask k,
      low,
      bit_and-shifted k (a / 2) mask,
      ap (λ t. bit_and t mask * 2 ^ k) div,
      double (bit_and (a / 2 ^ suc k) mask) k,
    )

-- `(q << k) | r` where `r` fits below.
pub bit_or-fields : (k q r : ℕ) → r < 2 ^ k → bit_or (q * 2 ^ k) r ≡ q * 2 ^ k + r
bit_or-fields zero q r fits = omega (
  arith,
  bit_or-zero q q (omega arith),
  ap (bit_or q) {x = r} {y = 0} (omega arith),
  ap (λ t. bit_or t r) {x = q * 2 ^ 0} {y = q} (omega arith),
)
bit_or-fields (suc k) q r fits =
    let high : bit_or (q * 2 ^ suc k / 2) (r / 2) ≡ bit_or (q * 2 ^ k) (r / 2) =
      ap (λ t. bit_or t (r / 2)) (omega (arith, double q k)) in
    omega (
      arith,
      bit_or_step (q * 2 ^ suc k) r,
      double q k,
      high,
      bit_or-fields k q (r / 2) (omega (arith, pow-suc 2 k)),
    )

bit_or_comm_fuel : (n a b : ℕ) → a ≤ n → bit_or a b ≡ bit_or b a
bit_or_comm_fuel zero a b h =
    let z : a ≡ 0 = omega arith in rw z (bit_or-bitwise 0 b ∙ sym (bit_or-zero b b (omega arith)))
bit_or_comm_fuel (suc n) zero b h = bit_or-bitwise 0 b ∙ sym (bit_or-zero b b (omega arith))
bit_or_comm_fuel (suc n) (suc a) b h = omega (
  arith,
  bit_or_step (suc a) b,
  bit_or_step b (suc a),
  bit_or_comm_fuel n (suc a / 2) (b / 2) (omega arith),
)

pub bit_or_comm : (a b : ℕ) → bit_or a b ≡ bit_or b a
bit_or_comm a b = bit_or_comm_fuel a a b (omega arith)

-- `a | 1` and `a | 2`
pub bit_or-one : (a : ℕ) → bit_or a 1 ≡ a / 2 * 2 + 1
bit_or-one a = omega (arith, bit_or_step a 1, bit_or-zero (a / 2) (a / 2) (omega arith))

pub bit_or-two : (a : ℕ) → bit_or a 2 ≡ a / 4 * 4 + 2 + a % 2
bit_or-two a = omega (arith, bit_or_step a 2, bit_or-one (a / 2))
