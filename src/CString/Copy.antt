-- ===== src/CString/Copy.antt =====
-- The string that `strcpy` and `strcat` leave, and the bytes outside it.
use pros.Prelude.{
  ℕ, zero, suc, ◌+◌, ◌≤◌, ◌<◌, ◌≡◌, ◌⊎◌, inl, inr, arith, List, [], ◌∷◌, ◌++◌, some, length, ◌∙◌,
  ==_of_eq, ==_of_ne, length-append,
}
use mathlib.Core.Path.{subst}
use pros.Memory.{Mem, load8, store8}
use pros.Memory.Laws.{load8-store8_self, load8-store8_ne, load8-lt}
use pros.CString.{strcpy, strcat}
use pros.CString.Block.{Apart}
use pros.CString.Text.{IsString, IsString-ext, strlen-length}

-- Memory `m'` has the string `cs` at `dest`, and otherwise the bytes of `m`.
pub record IsCopied (m m' : Mem) (dest : ℕ) (cs : List ℕ) : Type 0 where
  pub text : IsString m' dest cs
  pub spares : (b : ℕ) → (b < dest) ⊎ (dest + (length cs + 1) ≤ b) → load8 m' b ≡ load8 m b

-- With more fuel than characters, and a destination that does not overlap the source string,
-- `strcpy` returns, leaves the string at the destination, and changes nothing but its bytes and its
-- NUL.
pub strcpy-IsCopied :
    (fuel : ℕ) (m : Mem) (dest src : ℕ) (cs : List ℕ)
    → length cs < fuel
    → Apart dest src (length cs + 1)
    → IsString m src cs
    → (m' : Mem) × (strcpy fuel m dest src ≡ some m') × IsCopied m m' dest cs
unfolding strcpy
strcpy-IsCopied zero m dest src cs enough apart s = elim enough [ ]
strcpy-IsCopied (suc fuel) m dest src [] enough apart s =
    let m' = store8 m dest (load8 m src) in
    let nul : load8 m' dest ≡ 0 = omega (arith, load8-store8_self m dest (load8 m src)) in
    (
      m',
      rw (==_of_eq _ _ nul),
      record { text = nul; spares = λ b out. load8-store8_ne m dest (load8 m src) b (grind arith) },
    )
strcpy-IsCopied (suc fuel) m dest src (c ∷ cs) enough apart (at, ne, rest) =
    let m1 = store8 m dest (load8 m src) in
    let put : load8 m1 dest ≡ c =
      omega (arith, load8-store8_self m dest (load8 m src), load8-lt m src) in
    let source : IsString m1 (src + 1) cs =
      IsString-ext m m1 (src + 1) cs
        (λ b lo hi. load8-store8_ne m dest (load8 m src) b (grind arith)) rest in
    let (m', runs, copied) =
      strcpy-IsCopied fuel m1 (dest + 1) (src + 1) cs (omega arith) (grind arith) source in
    (
      m',
      rw (==_of_ne (load8 m1 dest) 0 (λ e. ne (omega arith)), runs),
      record {
        text = (copied.spares dest (inl (omega arith)) ∙ put, ne, copied.text);
        spares = λ b out.
            copied.spares b (grind arith) ∙ load8-store8_ne m dest (load8 m src) b (grind arith);
      },
    )

-- A string that is followed by another is the string of both.
IsString-append :
    (m m' : Mem) (p : ℕ) (cs ds : List ℕ)
    → IsString m p cs
    → ((b : ℕ) → p ≤ b → b < p + length cs → load8 m' b ≡ load8 m b)
    → IsString m' (p + length cs) ds
    → IsString m' p (cs ++ ds)
IsString-append m m' p [] ds s same t = subst (λ q. IsString m' q ds) (omega arith) t
IsString-append m m' p (c ∷ cs) ds (at, ne, s) same t = (
  same p (omega arith) (omega arith) ∙ at,
  ne,
  IsString-append m m' (p + 1) cs ds s (λ b lo hi. same b (omega arith) (omega arith))
      (subst (λ q. IsString m' q ds) (omega arith) t),
)

-- With enough fuel, and a source string that overlaps neither the destination's string nor the
-- place where the result ends, `strcat` leaves both strings, one behind the other, at the
-- destination, and changes nothing outside.
pub strcat-IsCopied :
    (fuel : ℕ) (m : Mem) (dest src : ℕ) (cs ds : List ℕ)
    → length cs < fuel
    → length ds < fuel
    → Apart (dest + length cs) src (length ds + 1)
    → IsString m dest cs
    → IsString m src ds
    → (m' : Mem) × (strcat fuel m dest src ≡ some m') × IsCopied m m' dest (cs ++ ds)
unfolding strcat
strcat-IsCopied fuel m dest src cs ds enough enough' apart s t =
    let (m', runs, copied) = strcpy-IsCopied fuel m (dest + length cs) src ds enough' apart t in
    (
      m',
      rw (strlen-length fuel m dest cs enough s, strcat) runs,
      record {
        text =
            IsString-append m m' dest cs ds s (λ b lo hi. copied.spares b (inl (omega arith)))
              copied.text;
        spares = λ b out. copied.spares b (outer b out);
      },
    )
  where
    outer :
        (b : ℕ)
        → (b < dest) ⊎ (dest + (length (cs ++ ds) + 1) ≤ b)
        → (b < dest + length cs) ⊎ (dest + length cs + (length ds + 1) ≤ b)
    outer b (inl lo) = inl (omega arith)
    outer b (inr hi) = inr (omega (arith, length-append cs ds))
