-- ===== src/CString/Compare.antt =====
-- `strcmp` against the characters of the two strings.
use pros.Prelude.{
  ℕ, zero, suc, ◌+◌, ◌<◌, ◌≡◌, ◌↔◌, refl, arith, List, [], ◌∷◌, some, ◌==◌, if◌then◌else◌, length,
  ap, ◌∙◌, ==_of_eq, ==_of_ne, ℤ, pos, sub_ℕ, Bool-cases, inl, inr,
}
use mathlib.Core.Path.{sym}
use pros.Memory.{Mem}
use pros.CString.{strcmp}
use pros.CString.Text.{IsString}

-- The difference at the first place where the strings differ, their ends counted as NUL.
unfoldable pub difference : List ℕ → List ℕ → ℤ
difference [] [] = pos 0
difference [] (d ∷ ds) = sub_ℕ 0 d
difference (c ∷ cs) [] = sub_ℕ c 0
difference (c ∷ cs) (d ∷ ds) = if c == d then difference cs ds else sub_ℕ c d

strcmp-difference :
    (fuel : ℕ) (m : Mem) (a b : ℕ) (cs ds : List ℕ)
    → length cs < fuel
    → IsString m a cs
    → IsString m b ds
    → strcmp fuel m a b ≡ some (difference cs ds)
unfolding strcmp difference
strcmp-difference zero m a b cs ds enough s t = elim enough [ ]
strcmp-difference (suc fuel) m a b [] [] enough s t = rw (s, t)
strcmp-difference (suc fuel) m a b [] (d ∷ ds) enough s (bt, bn, t) = rw (s, bt)
strcmp-difference (suc fuel) m a b (c ∷ cs) [] enough (at, an, s) t = rw (at, t, ==_of_ne c 0 an)
strcmp-difference (suc fuel) m a b (c ∷ cs) (d ∷ ds) enough (at, an, s) (bt, bn, t) =
    elim (Bool-cases (c == d)) [
      | inl same ↦
          rw (at, bt, ==_of_ne c 0 an, same)
            (strcmp-difference fuel m (a + 1) (b + 1) cs ds (omega arith) s t)
      | inr differ ↦ rw (at, bt, ==_of_ne c 0 an, differ)
    ]

difference-zero :
    (m : Mem) (a b : ℕ) (cs ds : List ℕ)
    → IsString m a cs
    → IsString m b ds
    → difference cs ds ≡ pos 0
    → cs ≡ ds
unfolding difference
difference-zero m a b [] [] s t h = refl
difference-zero m a b [] (d ∷ ds) s (bt, bn, t) h = absurd (bn (ground arith))
difference-zero m a b (c ∷ cs) [] (at, an, s) t h = absurd (an (ground arith))
difference-zero m a b (c ∷ cs) (d ∷ ds) (at, an, s) (bt, bn, t) h =
    ground (arith, difference-zero m (a + 1) (b + 1) cs ds s t)

difference_refl : (cs : List ℕ) → difference cs cs ≡ pos 0
unfolding difference
difference_refl [] = refl
difference_refl (c ∷ cs) = rw (==_of_eq c c refl) (difference_refl cs)

-- With more fuel than the first string has characters, `strcmp` returns the difference of the bytes
-- at the first place where the strings differ, the NUL that ends each included; and that is 0
-- exactly when the strings are equal.
pub strcmp_lem :
    (fuel : ℕ) (m : Mem) (a b : ℕ) (cs ds : List ℕ)
    → length cs < fuel
    → IsString m a cs
    → IsString m b ds
    → (strcmp fuel m a b ≡ some (difference cs ds)) × ((difference cs ds ≡ pos 0) ↔ (cs ≡ ds))
strcmp_lem fuel m a b cs ds enough s t = (
  strcmp-difference fuel m a b cs ds enough s t,
  (difference-zero m a b cs ds s t, λ e. ap (difference cs) (sym e) ∙ difference_refl cs),
)
