-- ===== src/Kernel/Strings.antt =====
-- `strcmp2` and `strcmp`.
use mathlib.Core.Path.{sym}
use pros.Prelude.{
  ℕ, zero, suc, ◌+◌, ◌<◌, ◌≡◌, ◌⊎◌, ◌↔◌, refl, arith, List, [], ◌∷◌, some, ◌==◌, if◌then◌else◌,
  length, ap, ◌∙◌, ==_of_eq, ==_of_ne, ℤ, pos, Bool-cases, inl, inr,
}
use pros.Memory.{Mem}
use pros.CString.{strcmp}
use pros.CString.Text.{IsString}
use pros.CString.Compare.{difference, strcmp_lem}
use pros.Kernel.{strcmp2_from, strcmp2}

-- 0 for equal strings, and 1 for others.
unfoldable pub unequal : List ℕ → List ℕ → ℕ
unequal [] [] = 0
unequal [] (d ∷ ds) = 1
unequal (c ∷ cs) [] = 1
unequal (c ∷ cs) (d ∷ ds) = if c == d then unequal cs ds else 1

strcmp2_from-unequal :
    (fuel : ℕ) (m : Mem) (a b i p q : ℕ) (cs ds : List ℕ)
    → a + i ≡ p
    → b + i ≡ q
    → length cs < fuel
    → IsString m p cs
    → IsString m q ds
    → strcmp2_from fuel m a b i ≡ some (unequal cs ds)
unfolding strcmp2_from unequal
strcmp2_from-unequal zero m a b i p q cs ds e f enough s t = elim enough [ ]
strcmp2_from-unequal (suc fuel) m a b i p q [] [] e f enough s t = rw (e, f, s, t) refl
strcmp2_from-unequal (suc fuel) m a b i p q [] (d ∷ ds) e f enough s (bt, bn, t) =
    rw (e, f, s, bt, ==_of_ne 0 d (λ z. bn (sym z))) refl
strcmp2_from-unequal (suc fuel) m a b i p q (c ∷ cs) [] e f enough (at, an, s) t =
    rw (e, f, at, t, ==_of_ne c 0 an) refl
strcmp2_from-unequal (suc fuel) m a b i p q (c ∷ cs) (d ∷ ds) e f enough (at, an, s) (bt, bn, t) =
    elim (Bool-cases (c == d)) [
      | inl same ↦
          rw (e, f, at, bt, same, ==_of_ne d 0 bn)
            (strcmp2_from-unequal fuel m a b (i + 1) (p + 1) (q + 1) cs ds (omega arith)
              (omega arith) (omega arith) s t)
      | inr differ ↦ rw (e, f, at, bt, differ) refl
    ]

unequal-difference : (cs ds : List ℕ) → unequal cs ds ≡ 0 → difference cs ds ≡ pos 0
unfolding unequal difference
unequal-difference [] [] h = refl
unequal-difference [] (d ∷ ds) h = absurd (omega arith)
unequal-difference (c ∷ cs) [] h = absurd (omega arith)
unequal-difference (c ∷ cs) (d ∷ ds) h = elim (Bool-cases (c == d)) [
  | inl same ↦ rw same (unequal-difference cs ds (rw same at h))
  | inr differ ↦ absurd (let no : 1 ≡ 0 = rw differ at h in omega arith)
]

unequal_self : (cs : List ℕ) → unequal cs cs ≡ 0
unfolding unequal
unequal_self [] = refl
unequal_self (c ∷ cs) = rw (==_of_eq c c refl) (unequal_self cs)

unequal-cases : (cs ds : List ℕ) → (unequal cs ds ≡ 0) ⊎ (unequal cs ds ≡ 1)
unfolding unequal
unequal-cases [] [] = inl refl
unequal-cases [] (d ∷ ds) = inr refl
unequal-cases (c ∷ cs) [] = inr refl
unequal-cases (c ∷ cs) (d ∷ ds) = ground (arith, unequal-cases cs ds)

-- With more fuel than the first string has characters, both return, and `strcmp2` is 0 exactly where
-- `strcmp` is 0; it is 0 or 1.
pub strcmp2-strcmp :
    (fuel : ℕ) (m : Mem) (a b : ℕ) (cs ds : List ℕ)
    → length cs < fuel
    → IsString m a cs
    → IsString m b ds
    → (r : ℕ) × (d : ℤ) × (strcmp2 fuel m a b ≡ some r)
      × (strcmp fuel m a b ≡ some d)
      × ((r ≡ 0) ↔ (d ≡ pos 0))
      × ((r ≡ 0) ⊎ (r ≡ 1))
unfolding strcmp2
strcmp2-strcmp fuel m a b cs ds enough s t =
    let (run, zero_iff) = strcmp_lem fuel m a b cs ds enough s t in
    (
      unequal cs ds,
      difference cs ds,
      strcmp2_from-unequal fuel m a b 0 a b cs ds (omega arith) (omega arith) enough s t,
      run,
      (unequal-difference cs ds, λ e. ap (unequal cs) (sym (zero_iff.0 e)) ∙ unequal_self cs),
      unequal-cases cs ds,
    )
