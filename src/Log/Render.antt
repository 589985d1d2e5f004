-- ===== src/Log/Render.antt =====
-- What a format and its arguments stand for, character by character.
use pros.Prelude.{
  ℕ, ◌≡◌, refl, ap, ◌∙◌, false, not, Option, none, some, List, [], ◌∷◌, ◌++◌, ◌==◌, if◌then◌else◌,
  u8, Bool-cases, inl, inr,
}
use mathlib.Core.Path.{sym}
use pros.Log.{percent}
use pros.CString.Number.{numeral}

abbrev pub prepend : List ℕ → Option (List ℕ) → Option (List ℕ)
prepend xs none = none
prepend xs (some ys) = some (xs ++ ys)

-- The text of a format, where `texts` gives the string at an address; `none` where an argument is
-- missing, or is no string for `%s`. A `%` with no known letter behind it ends the format: the rest is
-- text.
unfoldable pub render : (texts : ℕ → Option (List ℕ)) (cs args : List ℕ) → Option (List ℕ)
render texts [] args = some []
render texts (c ∷ []) args = some (c ∷ [])
render texts (c ∷ d ∷ cs) args =
    let next = render texts (d ∷ cs) args in
    let rest = λ (as' : List ℕ). render texts cs as' in
    if not (c == percent)
    then prepend (c ∷ []) next
    else if d == percent
    then prepend (percent ∷ []) (rest args)
    else if d == 99
    then elim args [ [] ↦ none | a ∷ args ↦ prepend (u8 a ∷ []) (rest args) ]
    else if d == 115
    then elim args [
      | [] ↦ none
      | a ∷ args ↦ elim (texts a) [ none ↦ none | some text ↦ prepend text (rest args) ]
    ]
    else if d == 100
    then elim args [ [] ↦ none | a ∷ args ↦ prepend (numeral 10 a) (rest args) ]
    else if d == 120
    then elim args [ [] ↦ none | a ∷ args ↦ prepend (numeral 16 a) (rest args) ]
    else some (c ∷ d ∷ cs)

-- The characters up to the next `%`, and those from it on.
unfoldable pub plain : List ℕ → List ℕ
plain [] = []
plain (c ∷ cs) = if c == percent then [] else c ∷ plain cs

unfoldable pub directives : List ℕ → List ℕ
directives [] = []
directives (c ∷ cs) = if c == percent then c ∷ cs else directives cs

pub plain-append-directives : (cs : List ℕ) → plain cs ++ directives cs ≡ cs
unfolding plain directives
plain-append-directives [] = refl
plain-append-directives (c ∷ cs) = elim (Bool-cases (c == percent)) [
  | inl e ↦ rw e refl
  | inr ne ↦ rw ne (ap (λ t. c ∷ t) (plain-append-directives cs))
]

prepend_nil : (o : Option (List ℕ)) → prepend [] o ≡ o
prepend_nil none = refl
prepend_nil (some ys) = refl

pub prepend_cons :
    (c : ℕ) (xs : List ℕ) (o : Option (List ℕ))
    → prepend (c ∷ []) (prepend xs o) ≡ prepend (c ∷ xs) o
prepend_cons c xs none = refl
prepend_cons c xs (some ys) = refl

render_text :
    (texts : ℕ → Option (List ℕ)) (c : ℕ) (cs args : List ℕ)
    → (c == percent) ≡ false
    → render texts (c ∷ cs) args ≡ prepend (c ∷ []) (render texts cs args)
unfolding render
render_text texts c [] args ne = refl
render_text texts c (d ∷ cs) args ne = rw (render, ne) refl

-- Text is rendered as it stands.
pub render-plain :
    (texts : ℕ → Option (List ℕ)) (cs args : List ℕ)
    → render texts cs args ≡ prepend (plain cs) (render texts (directives cs) args)
unfolding plain directives
render-plain texts [] args = sym (prepend_nil (render texts [] args))
render-plain texts (c ∷ cs) args = elim (Bool-cases (c == percent)) [
  | inl e ↦ rw e (sym (prepend_nil (render texts (c ∷ cs) args)))
  | inr ne ↦ rw ne (
      render_text texts c cs args ne
      ∙ ap (prepend (c ∷ [])) (render-plain texts cs args)
      ∙ prepend_cons c (plain cs) (render texts (directives cs) args))
]
