-- ===== src/CString/Itos.antt =====
-- `itos` and the usual notation of a number.
use mathlib.Core.Path.{sym, subst}
use pros.Prelude.{
  ℕ, zero, suc, ◌+◌, ◌-◌, ◌≤◌, ◌<◌, ◌≡◌, ◌≢◌, ◌⊎◌, arith, List, [], ◌∷◌, ◌++◌, map, some, length,
  get_or, ap, ◌∙◌, ==_of_ne, inl, inr, get_or-append_left, get_or-append_right, ltb_of_le, dec_lt,
  ℕ_discrete,
}
use pros.Memory.{Mem, load8, store8}
use pros.Memory.Laws.{load8-store8_self, load8-store8_ne}
use pros.CString.{reverse, put_digits, digit_char, itos}
use pros.CString.Text.{IsString}
use pros.CString.Copy.{IsCopied}
use pros.CString.Number.{digits, rev, numeral, length-rev}
use pros.CString.Digits.{reverse_lem, IsPut, put_digits-IsPut}

IsString_of_bytes :
    (m : Mem) (p : ℕ) (cs : List ℕ)
    → ((k : ℕ) → k < length cs → load8 m (p + k) ≡ get_or cs k 0)
    → ((k : ℕ) → k < length cs → get_or cs k 0 ≢ 0)
    → load8 m (p + length cs) ≡ 0
    → IsString m p cs
IsString_of_bytes m p [] bytes ne nul = ap (load8 m) (omega arith) ∙ nul
IsString_of_bytes m p (c ∷ cs) bytes ne nul = (
  ap (load8 m) (omega arith) ∙ bytes 0 (omega arith),
  ne 0 (omega arith),
  IsString_of_bytes m (p + 1) cs (λ k h. ap (load8 m) (omega arith) ∙ bytes (suc k) (omega arith))
      (λ k h. ne (suc k) (omega arith)) (ap (load8 m) (omega arith) ∙ nul),
)

get_or-rev :
    (xs : List ℕ) (k : ℕ) → k < length xs → get_or (rev xs) k 0 ≡ get_or xs (length xs - 1 - k) 0
get_or-rev [] k h = elim h [ ]
get_or-rev (x ∷ xs) k h = elim (dec_lt k (length xs)) [
  | yes lt ↦
      let back : suc (length xs - 1 - k) ≡ suc (length xs) - 1 - k = omega arith in
      get_or-append_left (rev xs) (x ∷ []) k 0 (omega (arith, length-rev xs))
      ∙ get_or-rev xs k lt
      ∙ ap (λ t. get_or (x ∷ xs) t 0) back
  | no ge ↦
      let at : k ≡ length (rev xs) + 0 = omega (arith, length-rev xs) in
      let back : 0 ≡ suc (length xs) - 1 - k = omega arith in
      ap (λ t. get_or (rev xs ++ (x ∷ [])) t 0) at
      ∙ get_or-append_right (rev xs) (x ∷ []) 0 0
      ∙ ap (λ t. get_or (x ∷ xs) t 0) back
]

get_or-map-digit_char :
    (ds : List ℕ) (k : ℕ) → k < length (map digit_char ds) → get_or (map digit_char ds) k 0 ≢ 0
unfolding digit_char
get_or-map-digit_char [] k h = elim h [ ]
get_or-map-digit_char (d ∷ ds) zero h = ground arith
get_or-map-digit_char (d ∷ ds) (suc k) h = get_or-map-digit_char ds k (omega arith)

-- Characters that stand lowest first, closed by a NUL and reversed, are a string.
rev-IsCopied :
    (m m1 : Mem) (p : ℕ) (cs : List ℕ)
    → 0 < length cs
    → ((k : ℕ) → k < length cs → get_or cs k 0 ≢ 0)
    → IsPut m m1 p cs
    → let n = length cs in IsCopied m (reverse (store8 m1 (p + n) 0) p 0 (n - 1)) p (rev cs)
rev-IsCopied m m1 p cs pos ne put =
    let n = length cs in
    let m2 = store8 m1 (p + n) 0 in
    let m3 = reverse m2 p 0 (n - 1) in
    let same = length-rev cs in
    let nul : load8 m3 (p + n) ≡ 0 =
      ground (arith, reverse_lem m2 p (n - 1) (p + n), load8-store8_self m1 (p + n) 0) in
    record {
      text =
          IsString_of_bytes m3 p (rev cs)
            (λ k h.
              let place : p + (p + (n - 1)) - (p + k) ≡ p + (n - 1 - k) = omega arith in
              ground (
                arith,
                reverse_lem m2 p (n - 1) (p + k),
                ap (load8 m2) place,
                load8-store8_ne m1 (p + n) 0 (p + (n - 1 - k)) (omega arith),
                put.bytes (n - 1 - k) (omega arith),
                get_or-rev cs k (omega arith),
              ))
            (λ k h e. ne (n - 1 - k) (omega arith) (sym (get_or-rev cs k (omega arith)) ∙ e))
            (ap (λ t. load8 m3 (p + t)) same ∙ nul);
      spares = λ b out.
          let out' : (b < p) ⊎ (p + (n + 1) ≤ b) =
            subst (λ t. (b < p) ⊎ (p + (t + 1) ≤ b)) same out in
          kept b out';
    }
  where
    kept :
        (b : ℕ)
        → (b < p) ⊎ (p + (length cs + 1) ≤ b)
        → load8 (reverse (store8 m1 (p + length cs) 0) p 0 (length cs - 1)) b ≡ load8 m b
    kept b (inl lo) = ground (
      arith,
      reverse_lem (store8 m1 (p + length cs) 0) p (length cs - 1) b,
      load8-store8_ne m1 (p + length cs) 0 b (omega arith),
      put.spares b (inl lo),
    )
    kept b (inr hi) = ground (
      arith,
      reverse_lem (store8 m1 (p + length cs) 0) p (length cs - 1) b,
      load8-store8_ne m1 (p + length cs) 0 b (omega arith),
      put.spares b (inr (omega arith)),
    )

length-digits_pos :
    (fuel base n : ℕ) → n ≢ 0 → n < fuel → 0 < length (map digit_char (digits fuel base n))
unfolding digits
length-digits_pos zero base n ne enough = elim enough [ ]
length-digits_pos (suc fuel) base n ne enough = rw (==_of_ne n 0 ne) (omega arith)

zero_case :
    (m : Mem) (value buffer base : ℕ)
    → 2 ≤ base
    → base ≤ 32
    → value ≡ 0
    → itos m value buffer base
      ≡ some (reverse (store8 (store8 m (buffer + 0) 48) (buffer + 1) 0) buffer 0 0)
unfolding itos put_digits
zero_case m value buffer base lo hi z = rw (z, ltb_of_le base 2 lo, ltb_of_le 32 base hi)

digits_case :
    (m : Mem) (value buffer base n : ℕ)
    → 2 ≤ base
    → base ≤ 32
    → (m1 : Mem) → n ≢ 0
    → put_digits (value + 1) m value buffer base 0 ≡ some (n, m1)
    → itos m value buffer base ≡ some (reverse (store8 m1 (buffer + n) 0) buffer 0 (n - 1))
unfolding itos
digits_case m value buffer base n lo hi m1 ne runs =
    rw (ltb_of_le base 2 lo, ltb_of_le 32 base hi, runs, ==_of_ne n 0 ne)

-- For a base from 2 to 32, `itos` returns, leaves in the buffer the usual notation of the number,
-- closed by a NUL, and changes no byte but these.
pub itos-IsCopied :
    (m : Mem) (value buffer base : ℕ)
    → 2 ≤ base
    → base ≤ 32
    → (m' : Mem) × (itos m value buffer base ≡ some m') × IsCopied m m' buffer (numeral base value)
unfolding itos numeral
itos-IsCopied m value buffer base lo hi =
    let cs = map digit_char (digits (value + 1) base value) in
    let (m1, runs, put) = put_digits-IsPut (value + 1) m value buffer base 0 lo hi (omega arith) in
    elim (ℕ_discrete value 0) [
      | yes z ↦
          let m0 = store8 m (buffer + 0) 48 in
          let m2 = reverse (store8 m0 (buffer + 1) 0) buffer 0 0 in
          let single : IsPut m m0 buffer (48 ∷ []) = record {
            bytes = λ k h. ground (
              arith,
              load8-store8_self m (buffer + 0) 48,
              ap (load8 m0) {x = buffer + k} {y = buffer + 0},
              h,
            );
            spares = λ a out. load8-store8_ne m (buffer + 0) 48 a (grind arith);
          } in
          (
            m2,
            zero_case m value buffer base lo hi z,
            rw z (rev-IsCopied m m0 buffer (48 ∷ []) (omega arith) (λ k h. grind arith) single),
          )
      | no ne ↦
          let n = length cs in
          let pos = length-digits_pos (value + 1) base value ne (omega arith) in
          let m2 = reverse (store8 m1 (buffer + n) 0) buffer 0 (n - 1) in
          let put' : IsPut m m1 buffer cs = subst (λ p. IsPut m m1 p cs) (omega arith) put in
          (
            m2,
            digits_case m value buffer base n lo hi m1 (omega arith)
                (runs ∙ ap (λ t. some (t, m1)) (omega arith)),
            rw (==_of_ne value 0 ne) (
                rev-IsCopied m m1 buffer cs pos
                  (get_or-map-digit_char (digits (value + 1) base value)) put'),
          )
    ]
