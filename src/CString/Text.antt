-- ===== src/CString/Text.antt =====
-- C strings in memory, and `strlen`.
use pros.Prelude.{
  ℕ, zero, suc, ◌+◌, ◌≤◌, ◌<◌, ◌≡◌, ◌≢◌, arith, List, [], ◌∷◌, some, length, ap, ◌∙◌, ==_of_eq,
  ==_of_ne,
}
use pros.Memory.{Mem, load8}
use pros.CString.{strlen_from, strlen}

-- At `p` stand the characters `cs`, none of them NUL, and a NUL behind them.
abbrev pub IsString : Mem → ℕ → List ℕ → Type 0
IsString m p [] = load8 m p ≡ 0
IsString m p (c ∷ cs) = (load8 m p ≡ c) × (c ≢ 0) × IsString m (p + 1) cs

-- A string depends on its bytes, the NUL included.
pub IsString-ext :
    (m m' : Mem) (p : ℕ) (cs : List ℕ)
    → ((b : ℕ) → p ≤ b → b < p + (length cs + 1) → load8 m' b ≡ load8 m b)
    → IsString m p cs
    → IsString m' p cs
IsString-ext m m' p [] same s = same p (omega arith) (omega arith) ∙ s
IsString-ext m m' p (c ∷ cs) same (at, ne, rest) = (
  same p (omega arith) (omega arith) ∙ at,
  ne,
  IsString-ext m m' (p + 1) cs (λ b lo hi. same b (omega arith) (omega arith)) rest,
)

strlen_from-length :
    (fuel : ℕ) (m : Mem) (str len p : ℕ) (cs : List ℕ)
    → str + len ≡ p
    → length cs < fuel
    → IsString m p cs
    → strlen_from fuel m str len ≡ some (len + length cs)
unfolding strlen_from
strlen_from-length zero m str len p cs e enough s = elim enough [ ]
strlen_from-length (suc fuel) m str len p [] e enough s =
    rw (e, ==_of_eq _ _ s) (ap some (omega arith))
strlen_from-length (suc fuel) m str len p (c ∷ cs) e enough (at, ne, rest) =
    rw (e, at, ==_of_ne c 0 ne)
      (strlen_from-length fuel m str (len + 1) (p + 1) cs (omega arith) (omega arith) rest
        ∙ ap some (omega arith))

-- With more fuel than characters, `strlen` returns the number of characters before the NUL.
pub strlen-length :
    (fuel : ℕ) (m : Mem) (p : ℕ) (cs : List ℕ)
    → length cs < fuel
    → IsString m p cs
    → strlen fuel m p ≡ some (length cs)
unfolding strlen
strlen-length fuel m p cs enough s =
    strlen_from-length fuel m p 0 p cs (omega arith) enough s ∙ ap some (omega arith)
