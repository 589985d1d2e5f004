-- ===== src/Vfs/Tokens.antt =====
-- The tokens of a path and `strsep` with the delimiter "/".
use pros.Prelude.{
  ℕ, inl, inr, ℕ_discrete, ==_of_ne, true, none, some, List, [], ◌∷◌, ◌≡◌, refl, Bool-cases,
  eq_of_==, ==_of_eq, ◌==◌,
}
use mathlib.Core.Path.{ap₂, sym}
use pros.CString.Sep.{before, behind}
use pros.Vfs.{slash, split, same_name}

-- Cutting the string again and again with `strsep`'s results, until the rest is `nullptr`, gives
-- the tokens of the string.
pub split-strsep :
    (cs : List ℕ)
    → split cs
      ≡ before (slash ∷ []) cs
        ∷ elim (behind (slash ∷ []) cs) [ none ↦ [] | some rest ↦ split rest ]
unfolding split before behind
split-strsep [] = refl
split-strsep (c ∷ cs) = elim (ℕ_discrete c slash) [
  | yes e ↦ rw (==_of_eq c slash e, ==_of_eq slash c (sym e)) refl
  | no ne ↦ rw (==_of_ne c slash ne, ==_of_ne slash c (λ e. ne (sym e)), split-strsep cs) refl
]

-- `strcmp` is 0 on equal names only.
pub same_name-eq : (a b : List ℕ) → same_name a b ≡ true → a ≡ b
unfolding same_name
same_name-eq [] [] h = refl
same_name-eq [] (d ∷ ds) h = cc
same_name-eq (c ∷ cs) [] h = cc
same_name-eq (c ∷ cs) (d ∷ ds) h = elim (Bool-cases (c == d)) [
  | inl e ↦ ap₂ (λ x xs. x ∷ xs) (eq_of_== c d e) (same_name-eq cs ds (rw e at h))
  | inr ne ↦ absurd (cc)
]

pub same_name_self : (a : List ℕ) → same_name a a ≡ true
unfolding same_name
same_name_self [] = refl
same_name_self (c ∷ cs) = rw (==_of_eq c c refl, same_name_self cs) refl
