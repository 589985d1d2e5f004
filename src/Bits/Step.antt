-- ===== src/Bits/Step.antt =====
-- The lowest binary digit of the native bit operations.
use Prim.Native.Nat.{min, max, digits, bit_and-bitwise, bit_or-bitwise}
use pros.Prelude.{
  ℕ, zero, suc, ◌+◌, ◌*◌, ◌/◌, ◌%◌, ◌≤◌, bit_and, bit_or, ◌≡◌, refl, arith, ap, ◌∙◌, dec_lt,
}

module _ (rest : ℕ → ℕ) (op : ℕ → ℕ → ℕ) where
  -- A spare round is never entered.
  spare_round :
      (a b rounds : ℕ) → a ≤ rounds → digits rest op (suc rounds) a b ≡ digits rest op rounds a b
  spare_round zero b zero h = refl
  spare_round zero b (suc rounds) h = refl
  spare_round (suc a) b zero h = elim h [ ]
  spare_round (suc a) b (suc rounds) h = rw (spare_round (suc a / 2) (b / 2) rounds (omega arith))

  -- As many rounds as the number itself are enough.
  enough_rounds : (rounds a b : ℕ) → a ≤ rounds → digits rest op rounds a b ≡ digits rest op a a b
  enough_rounds zero zero b h = refl
  enough_rounds zero (suc a) b h = elim h [ ]
  enough_rounds (suc rounds) a b h = elim (dec_lt rounds a) [
    | yes all ↦ ap (λ r. digits rest op r a b) {x = suc rounds} {y = a} (omega arith)
    | no fewer ↦ spare_round a b rounds (omega arith) ∙ enough_rounds rounds a b (omega arith)
  ]

pub bit_and_step : (a b : ℕ) → bit_and a b ≡ min (a % 2) (b % 2) + 2 * bit_and (a / 2) (b / 2)
bit_and_step zero b = omega (arith, bit_and-bitwise 0 b, bit_and-bitwise 0 (b / 2))
bit_and_step (suc a) b =
    let lower = enough_rounds (λ y. 0) min a (suc a / 2) (b / 2) (omega arith) in
    omega (arith, lower, bit_and-bitwise (suc a / 2) (b / 2), bit_and-bitwise (suc a) b)

pub bit_or_step : (a b : ℕ) → bit_or a b ≡ max (a % 2) (b % 2) + 2 * bit_or (a / 2) (b / 2)
bit_or_step zero b = omega (arith, bit_or-bitwise 0 b, bit_or-bitwise 0 (b / 2))
bit_or_step (suc a) b =
    let lower = enough_rounds (λ y. y) max a (suc a / 2) (b / 2) (omega arith) in
    omega (arith, lower, bit_or-bitwise (suc a / 2) (b / 2), bit_or-bitwise (suc a) b)
