-- ===== src/CString/Sep.antt =====
-- `strsep`: the token up to the first delimiter, and the string behind it.
use pros.Prelude.{
  ℕ, zero, suc, ◌+◌, ◌<◌, ◌≡◌, ◌≢◌, inl, inr, refl, arith, Bool, false, ◌||◌, List, [], ◌∷◌, Option,
  none, some, ◌==◌, if◌then◌else◌, length, ap, ◌∙◌, ==_of_ne, Bool-cases,
}
use pros.Memory.{Mem, load8, store8}
use pros.Memory.Laws.{load8-store8_self, load8-store8_ne}
use pros.CString.{is_delim, strsep_from, strsep}
use pros.CString.Text.{IsString, IsString-ext}

abbrev pub contains : List ℕ → ℕ → Bool
contains [] c = false
contains (d ∷ ds) c = d == c || contains ds c

is_delim-contains :
    (fuel : ℕ) (m : Mem) (p c : ℕ) (ds : List ℕ)
    → length ds < fuel
    → IsString m p ds
    → is_delim fuel m p c ≡ some (contains ds c || c == 0)
unfolding is_delim
is_delim-contains zero m p c ds enough s = elim enough [ ]
is_delim-contains (suc fuel) m p c [] enough s = rw s (ground arith)
is_delim-contains (suc fuel) m p c (d ∷ ds) enough (at, ne, s) =
    rw (at, ==_of_ne d 0 ne, is_delim-contains fuel m (p + 1) c ds (omega arith) s) (ground arith)

-- The characters before the first delimiter, and those behind it, if there is one.
unfoldable pub before : List ℕ → List ℕ → List ℕ
before ds [] = []
before ds (c ∷ cs) = if contains ds c then [] else c ∷ before ds cs

unfoldable pub behind : List ℕ → List ℕ → Option (List ℕ)
behind ds [] = none
behind ds (c ∷ cs) = if contains ds c then some cs else behind ds cs

-- What `strsep` leaves of the string `cs` at `p`: the token is the string before the first
-- delimiter. If there is one, it has become a NUL, and the rest is the string behind it; if there is
-- none, the rest is `nullptr` and memory is unchanged.
pub data IsCut (m m' : Mem) (p : ℕ) (ds cs : List ℕ) : ℕ → Type 0 where
  last : behind ds cs ≡ none → before ds cs ≡ cs → m' ≡ m → IsCut m m' p ds cs 0
  more :
      {rest : ℕ} (tail : List ℕ)
      → behind ds cs ≡ some tail
      → rest ≡ p + length (before ds cs) + 1
      → IsString m' p (before ds cs)
      → IsString m' rest tail
      → m' ≡ store8 m (p + length (before ds cs)) 0
      → IsCut m m' p ds cs rest

IsCut-cons :
    {m m' : Mem} {p c : ℕ} {ds cs : List ℕ} {rest : ℕ}
    → load8 m p ≡ c
    → c ≢ 0
    → contains ds c ≡ false
    → IsCut m m' (p + 1) ds cs rest
    → IsCut m m' p ds (c ∷ cs) rest
unfolding before behind
IsCut-cons {c} {cs} at ne pass (last none_left whole same) =
    last (rw pass none_left) (rw pass (ap (λ t. c ∷ t) whole)) same
IsCut-cons {m} {m'} {p} {c} {ds} {cs} at ne pass (more tail found place token rest stored) =
    let n = length (before ds cs) in
    let shift : p + 1 + n ≡ p + suc n = omega arith in
    let kept : load8 m' p ≡ load8 m p =
      ap (λ (x : Mem). load8 x p) stored ∙ load8-store8_ne m (p + 1 + n) 0 p (omega arith) in
    more tail (rw pass found) (rw pass (omega arith)) (rw pass (kept ∙ at, ne, token)) rest
      (rw pass (stored ∙ ap (λ a. store8 m a 0) shift))

strsep_from-IsCut :
    (fuel : ℕ) (m : Mem) (p delim : ℕ) (cs ds : List ℕ)
    → length cs + length ds < fuel
    → IsString m delim ds
    → IsString m p cs
    → (rest : ℕ) × (m' : Mem) × (strsep_from fuel m p delim ≡ some (rest, m'))
      × IsCut m m' p ds cs rest
unfolding strsep_from before behind
strsep_from-IsCut zero m p delim cs ds enough d s = elim enough [ ]
strsep_from-IsCut (suc fuel) m p delim [] ds enough d s =
    let test = is_delim-contains (suc fuel) m delim (load8 m p) ds (omega arith) d in
    (0, m, ground (arith, test, s), last refl refl refl)
strsep_from-IsCut (suc fuel) m p delim (c ∷ cs) ds enough d (at, ne, s) =
    let test = is_delim-contains (suc fuel) m delim c ds (omega arith) d in
    elim (Bool-cases (contains ds c)) [
      | inl hit ↦
          let m' = store8 m p 0 in
          let nul : load8 m' p ≡ 0 = load8-store8_self m p 0 in
          let tail : IsString m' (p + 1) cs =
            IsString-ext m m' (p + 1) cs (λ b lo hi. load8-store8_ne m p 0 b (omega arith)) s in
          (
            p + 1,
            m',
            ground (arith, test, at),
            more cs (rw hit) (rw hit (omega arith)) (rw hit nul) tail
                (rw hit (ap (λ a. store8 m a 0) (omega arith))),
          )
      | inr pass ↦
          let (rest, m', runs, cut) =
            strsep_from-IsCut fuel m (p + 1) delim cs ds (omega arith) d s in
          (rest, m', ground (arith, test, at, runs), IsCut-cons at ne pass cut)
    ]

-- With more fuel than the string and the delimiters have characters together, `strsep` on a string
-- returns its address as the token, cuts it at the first delimiter, and leaves the rest.
pub strsep-IsCut :
    (fuel : ℕ) (m : Mem) (p delim : ℕ) (cs ds : List ℕ)
    → p ≢ 0
    → length cs + length ds < fuel
    → IsString m delim ds
    → IsString m p cs
    → (rest : ℕ) × (m' : Mem) × (strsep fuel m p delim ≡ some (p, rest, m'))
      × IsCut m m' p ds cs rest
unfolding strsep
strsep-IsCut fuel m p delim cs ds ne enough d s =
    let (rest, m', runs, cut) = strsep_from-IsCut fuel m p delim cs ds enough d s in
    (rest, m', ground (arith, runs), cut)
