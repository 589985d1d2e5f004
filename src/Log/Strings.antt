-- ===== src/Log/Strings.antt =====
-- The strings that `printf` reads, and what it keeps of them while it writes numbers to its buffer.
use mathlib.Core.Path.{subst}
use pros.Prelude.{
  ℕ, zero, suc, ◌+◌, ◌^◌, ◌≤◌, ◌<◌, ◌≡◌, ◌⊎◌, refl, arith, ap, ◌∙◌, Option, none, some, List, [],
  ◌∷◌, ◌++◌, ◌==◌, length, Bool-cases, inl, inr, ==_of_ne,
}
use pros.Memory.{Mem, load8}
use pros.CString.Text.{IsString, IsString-ext}
use pros.Log.{percent, scan_text}
use pros.Log.Render.{prepend, plain}

-- The words of the arguments are of 32 bits.
abbrev pub Words : List ℕ → Type 0
Words [] = Unit {0}
Words (a ∷ as') = (a < 2 ^ 32) × Words as'

-- A string of `n` characters at `p` lies apart from the local buffer: from the eleven bytes that a
-- number of 32 bits can take there.
abbrev pub Clear : (buffer p n : ℕ) → Type 0
Clear buffer p n = (p + n < buffer) ⊎ (buffer + 11 ≤ p)

-- Memory holds the strings that `texts` names.
pub record Holds (texts : ℕ → Option (List ℕ)) (buffer limit : ℕ) (m : Mem) : Type 0 where
  pub strings : (a : ℕ) (t : List ℕ) → texts a ≡ some t → IsString m a t
  pub clear : (a : ℕ) (t : List ℕ) → texts a ≡ some t → Clear buffer a (length t)
  pub short : (a : ℕ) (t : List ℕ) → texts a ≡ some t → length t < limit

-- The bytes outside the buffer.
abbrev pub Spares : (buffer : ℕ) (m m' : Mem) → Type 0
Spares buffer m m' = (b : ℕ) → (b < buffer) ⊎ (buffer + 11 ≤ b) → load8 m' b ≡ load8 m b

pub IsString-Spares :
    (buffer p : ℕ) (m m' : Mem) (cs : List ℕ)
    → Spares buffer m m'
    → Clear buffer p (length cs)
    → IsString m p cs
    → IsString m' p cs
IsString-Spares buffer p m m' cs same clear s =
    IsString-ext m m' p cs (λ b lo hi. same b (out b lo hi clear)) s
  where
    out :
        (b : ℕ)
        → p ≤ b
        → b < p + (length cs + 1)
        → Clear buffer p (length cs)
        → (b < buffer) ⊎ (buffer + 11 ≤ b)
    out b lo hi (inl below) = inl (omega arith)
    out b lo hi (inr above) = inr (omega arith)

pub Holds-Spares :
    (texts : ℕ → Option (List ℕ)) (buffer limit : ℕ) (m m' : Mem)
    → Spares buffer m m'
    → Holds texts buffer limit m
    → Holds texts buffer limit m'
Holds-Spares texts buffer limit m m' same h = record {
  strings = λ a t e. IsString-Spares buffer a m m' t same (h.clear a t e) (h.strings a t e);
  clear = h.clear;
  short = h.short;
}

pub scan_text-plain :
    (fuel : ℕ) (m : Mem) (p k : ℕ) (cs : List ℕ)
    → length cs < fuel
    → IsString m (p + k) cs
    → scan_text fuel m p k ≡ some (k + length (plain cs))
unfolding scan_text plain
scan_text-plain zero m p k cs enough s = elim enough [ ]
scan_text-plain (suc fuel) m p k [] enough s = rw s (ap some (omega arith))
scan_text-plain (suc fuel) m p k (c ∷ cs) enough (at, ne, s) = elim (Bool-cases (c == percent)) [
  | inl e ↦ rw (at, e, ==_of_ne c 0 ne) (ap some (omega arith))
  | inr other ↦
      rw (at, other, ==_of_ne c 0 ne)
        (scan_text-plain fuel m p (k + 1) cs (omega arith)
            (subst (λ q. IsString m q cs) {x = p + k + 1} {y = p + (k + 1)} (omega arith) s)
          ∙ ap some {x = k + 1 + length (plain cs)} {y = k + suc (length (plain cs))} (omega arith))
]

-- A text before what is rendered of the rest.
pub prepend-some :
    (xs : List ℕ) (o : Option (List ℕ)) (out : List ℕ)
    → prepend xs o ≡ some out
    → (rest : List ℕ) × (o ≡ some rest) × (out ≡ xs ++ rest)
prepend-some xs none out h = cc
prepend-some xs (some ys) out h = (ys, refl, cc)
