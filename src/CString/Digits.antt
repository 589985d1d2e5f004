-- ===== src/CString/Digits.antt =====
-- `reverse` and the digit loop of `itos` in memory.
use pros.Prelude.{
  ℕ, zero, suc, ◌+◌, ◌-◌, ◌*◌, ◌/◌, ◌%◌, ◌≤◌, ◌<◌, ◌≡◌, ◌⊎◌, refl, arith, List, ◌∷◌, map, some,
  ◌==◌, leb, ltb, ◌&&◌, if◌then◌else◌, length, get_or, ap, ◌∙◌, Bool-cases, inl, inr, ne_of_==,
  lt_of_ltb, dec_lt, ℕ_discrete,
}
use pros.Memory.{Mem, load8, store8}
use pros.Memory.Laws.{load8-store8_self, load8-store8_ne, load8-lt}
use pros.CString.{swap, reverse_from, reverse, put_digits, digit_char}
use pros.CString.Number.{digits, div-lt}

load8-swap :
    (m : Mem) (x y a : ℕ)
    → load8 (swap m x y) a ≡ (if a == y then load8 m x else if a == x then load8 m y else load8 m a)
unfolding swap
load8-swap m x y a = ground (
  arith,
  load8-store8_self (store8 m x (load8 m y)) y (load8 m x),
  load8-store8_ne (store8 m x (load8 m y)) y (load8 m x) a,
  load8-store8_self m x (load8 m y),
  load8-store8_ne m x (load8 m y) a,
  load8-lt m x,
  load8-lt m y,
)

-- One exchange, seen at the address `a`, in terms of what the rounds inside do.
module _ (m : Mem) (s e a v : ℕ) (below : s < e)
    (inner : v ≡ (
      if leb (s + 1) a && leb a (e - 1)
      then load8 (swap m s e) (s + 1 + (e - 1) - a)
      else load8 (swap m s e) a)) where
  outside_case : (a < s) ⊎ (e < a) → v ≡ load8 m a
  outside_case out = ground (arith, load8-swap m s e a)

  low_case : a ≡ s → v ≡ load8 m e
  low_case at = ground (arith, load8-swap m s e a)

  high_case : a ≡ e → v ≡ load8 m s
  high_case at = ground (arith, load8-swap m s e a)

  inner_case : s < a → a < e → v ≡ load8 m (s + e - a)
  inner_case lo hi =
      let same : s + 1 + (e - 1) - a ≡ s + e - a = omega arith in
      ground (arith, same, load8-swap m s e (s + 1 + (e - 1) - a), ap (load8 m) same)

  exchange : v ≡ (if leb s a && leb a e then load8 m (s + e - a) else load8 m a)
  exchange = elim (dec_lt a s) [
    | yes lo ↦ ground (arith, outside_case (inl lo))
    | no ge ↦ elim (dec_lt e a) [
      | yes hi ↦ ground (arith, outside_case (inr hi))
      | no le ↦ elim (ℕ_discrete a s) [
        | yes at ↦
            let same : e ≡ s + e - a = omega arith in ground (arith, low_case at, ap (load8 m) same)
        | no ne ↦ elim (ℕ_discrete a e) [
          | yes at ↦
              let same : s ≡ s + e - a = omega arith in
              ground (arith, high_case at, ap (load8 m) same)
          | no ne' ↦ ground (arith, inner_case (omega arith) (omega arith))
        ]
      ]
    ]
  ]

load8-reverse_from :
    (fuel : ℕ) (m : Mem) (b i j a : ℕ)
    → j ≤ i + 2 * fuel
    → load8 (reverse_from fuel m b i j) a
      ≡ (if leb (b + i) a && leb a (b + j) then load8 m (b + i + (b + j) - a) else load8 m a)
unfolding reverse_from
load8-reverse_from zero m b i j a enough =
    ground (arith, ap (load8 m) {x = b + i + (b + j) - a} {y = a})
load8-reverse_from (suc fuel) m b i j a enough = elim (Bool-cases (ltb i j)) [
  | inl more ↦
      let lt = lt_of_ltb i j more in
      let m1 = swap m (b + i) (b + j) in
      let first : b + (i + 1) ≡ b + i + 1 = omega arith in
      let last : b + (j - 1) ≡ b + j - 1 = omega arith in
      let rest = load8-reverse_from fuel m1 b (i + 1) (j - 1) a (omega arith) in
      rw more (exchange m (b + i) (b + j) a _ (omega arith) (rw (first, last) at rest))
  | inr done ↦ rw done (ground (arith, ap (load8 m) {x = b + i + (b + j) - a} {y = a}))
]

-- `reverse` exchanges the bytes from index `i = 0` to `j`, end for end, and changes no others.
pub reverse_lem :
    (m : Mem) (buffer j a : ℕ)
    → load8 (reverse m buffer 0 j) a ≡ (
        if leb buffer a && leb a (buffer + j)
        then load8 m (buffer + (buffer + j) - a)
        else load8 m a)
unfolding reverse
reverse_lem m buffer j a = ground (
  arith,
  load8-reverse_from j m buffer 0 j a,
  ap (load8 m) {x = buffer + 0 + (buffer + j) - a} {y = buffer + (buffer + j) - a},
)

-- What the loop of `itos` writes, lowest digit first.
pub record IsPut (m m' : Mem) (at : ℕ) (cs : List ℕ) : Type 0 where
  pub bytes : (k : ℕ) → k < length cs → load8 m' (at + k) ≡ get_or cs k 0
  pub spares : (a : ℕ) → (a < at) ⊎ (at + length cs ≤ a) → load8 m' a ≡ load8 m a

pub put_digits-IsPut :
    (fuel : ℕ) (m : Mem) (n buffer base i : ℕ)
    → 2 ≤ base
    → base ≤ 32
    → n < fuel
    → let cs = map digit_char (digits fuel base n) in
      (m' : Mem) × (put_digits fuel m n buffer base i ≡ some (i + length cs, m'))
      × IsPut m m' (buffer + i) cs
unfolding put_digits digits
put_digits-IsPut zero m n buffer base i lo hi enough = elim enough [ ]
put_digits-IsPut (suc fuel) m n buffer base i lo hi enough = elim (Bool-cases (n == 0)) [
  | inl z ↦ rw z (
    m,
    ap (λ t. some (t, m)) (omega arith),
    record { bytes = λ k h. elim h [ ]; spares = λ a out. refl },
  )
  | inr p ↦
      let m1 = store8 m (buffer + i) (digit_char (n % base)) in
      let small : digit_char (n % base) < 256 = digit_char-lt (n % base) (omega arith) in
      let (m', runs, put) =
        put_digits-IsPut fuel m1 (n / base) buffer base (i + 1) lo hi
          (omega (arith, div-lt n base lo (ne_of_== n 0 p))) in
      let cs = map digit_char (digits fuel base (n / base)) in
      rw p (
        m',
        runs ∙ ap (λ t. some (t, m')) (omega arith),
        record {
          bytes = put_cons m m1 m' buffer i (digit_char (n % base)) cs put.bytes (
              put.spares (buffer + i) (inl (omega arith))
              ∙ load8-store8_self m (buffer + i) (digit_char (n % base))
              ∙ omega arith);
          spares = λ a out.
              put.spares a (wider buffer i a cs out)
              ∙ load8-store8_ne m (buffer + i) (digit_char (n % base)) a (grind arith);
        },
      )
]
  where
    digit_char-lt : (r : ℕ) → r < 32 → digit_char r < 256
    digit_char-lt r h = unfold digit_char in ground arith

    put_cons :
        (m m1 m' : Mem) (buffer i c : ℕ) (cs : List ℕ)
        → ((k : ℕ) → k < length cs → load8 m' (buffer + (i + 1) + k) ≡ get_or cs k 0)
        → load8 m' (buffer + i) ≡ c
        → (k : ℕ) → k < length (c ∷ cs)
        → load8 m' (buffer + i + k) ≡ get_or (c ∷ cs) k 0
    put_cons m m1 m' buffer i c cs rest head zero h = ap (load8 m') (omega arith) ∙ head
    put_cons m m1 m' buffer i c cs rest head (suc k) h =
        ap (load8 m') (omega arith) ∙ rest k (omega arith)

    wider :
        (buffer i a : ℕ) (cs : List ℕ)
        → (a < buffer + i) ⊎ (buffer + i + suc (length cs) ≤ a)
        → (a < buffer + (i + 1)) ⊎ (buffer + (i + 1) + length cs ≤ a)
    wider buffer i a cs (inl lo) = inl (omega arith)
    wider buffer i a cs (inr hi) = inr (omega arith)
