-- ===== src/Log/Bytes.antt =====
-- The bytes that the print functions take from a string in memory.
use mathlib.Core.Path.{subst}
use pros.Prelude.{ℕ, ◌+◌, ◌≡◌, refl, arith, ap, ◌∙◌, List, [], ◌∷◌, ◌++◌, length}
use pros.Memory.{Mem}
use pros.Log.{print_bytes}
use pros.CString.Text.{IsString}

-- Characters one after the other.
unfoldable pub puts : {S : Type 0} → (S → ℕ → S) → List ℕ → S → S
puts put [] s = s
puts put (c ∷ cs) s = puts put cs (put s c)

pub puts-append :
    {S : Type 0} (put : S → ℕ → S) (xs ys : List ℕ) (s : S)
    → puts put (xs ++ ys) s ≡ puts put ys (puts put xs s)
unfolding puts
puts-append put [] ys s = refl
puts-append put (x ∷ xs) ys s = puts-append put xs ys (put s x)

-- The end of a string is a string.
pub IsString-drop :
    (m : Mem) (p : ℕ) (xs ys : List ℕ) → IsString m p (xs ++ ys) → IsString m (p + length xs) ys
IsString-drop m p [] ys h = subst (λ q. IsString m q ys) (omega arith) h
IsString-drop m p (x ∷ xs) ys (at, ne, rest) =
    subst (λ q. IsString m q ys) (omega arith) (IsString-drop m (p + 1) xs ys rest)

print_bytes-puts :
    {S : Type 0} (put : S → ℕ → S) (m : Mem) (str i : ℕ) (xs ys : List ℕ) (s : S)
    → IsString m (str + i) (xs ++ ys)
    → print_bytes put m str (length xs) i s ≡ puts put xs s
unfolding print_bytes puts
print_bytes-puts put m str i [] ys s h = refl
print_bytes-puts put m str i (x ∷ xs) ys s (at, ne, rest) =
    ap (λ b. print_bytes put m str (length xs) (i + 1) (put s b)) at
    ∙ print_bytes-puts put m str (i + 1) xs ys (put s x) (
        subst (λ q. IsString m q (xs ++ ys)) {x = str + i + 1} {y = str + (i + 1)} (omega arith)
          rest)

-- A print function prints the beginning of a string character by character.
pub print_bytes-string :
    {S : Type 0} (put : S → ℕ → S) (m : Mem) (str : ℕ) (xs ys : List ℕ) (s : S)
    → IsString m str (xs ++ ys)
    → print_bytes put m str (length xs) 0 s ≡ puts put xs s
print_bytes-string put m str xs ys s h =
    print_bytes-puts put m str 0 xs ys s (subst (λ q. IsString m q (xs ++ ys)) (omega arith) h)
