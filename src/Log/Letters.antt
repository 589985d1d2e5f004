-- ===== src/Log/Letters.antt =====
-- The round of `printf` at a `%`, by the letter behind it.
use mathlib.Core.Path.{subst}
use pros.Prelude.{
  ℕ, ◌+◌, ◌^◌, ◌<◌, ◌≡◌, refl, arith, true, false, Option, none, some, List, [], ◌∷◌, ◌==◌, length,
  Bool-cases, Option-cases, List-cases, inl, inr, eq_of_==,
}
use pros.CString.Text.{IsString}
use pros.CString.Number.{length-numeral}
use pros.Log.{percent, Round, print_string, round}
use pros.Log.Render.{render, prepend}
use pros.Log.Strings.{Words}
use pros.Log.Rounds.{Clear_later, by_bytes, IsReady, IsRound, text-IsRound}
use pros.Log.Directives.{character-IsRound, string-IsRound, number-IsRound, rest-IsRound}

module _ {S : Type 0} (put : S → ℕ → S) (buffer limit : ℕ) (texts : ℕ → Option (List ℕ)) where
  -- `%%`
  percent-IsRound :
      (r : Round S) (d : ℕ) (cs out : List ℕ)
      → (d == percent) ≡ true
      → IsReady put buffer limit texts r (percent ∷ d ∷ cs)
      → render texts (percent ∷ d ∷ cs) r.args ≡ some out
      → IsRound put buffer limit texts r (percent ∷ d ∷ cs) out
  unfolding round render
  percent-IsRound r d cs out e ready result =
      let same : d ≡ percent = eq_of_== d percent e in
      text-IsRound put buffer limit texts r (r.format + 1) percent cs (percent ∷ d ∷ cs) out
        (rw (ready.at.0, ready.at.2.0, e) refl) (rw ready.at.0 refl)
        (subst (λ c. IsString r.mem (r.format + 1) (c ∷ cs)) same ready.at.2)
        (Clear_later buffer r.format (length (percent ∷ d ∷ cs)) (r.format + 1)
          (length (percent ∷ cs)) (omega arith) (omega arith) ready.clear)
        (omega (arith, ready.short)) ready.words (omega arith) (rw e refl) result

  -- A letter that takes an argument: `go` treats the case that there is one.
  with_argument :
      (r : Round S) (cs out : List ℕ)
      → (r.args ≡ [] → ⊥)
      → ((a : ℕ) (args : List ℕ)
          → r.args ≡ a ∷ args
          → a < 2 ^ 32
          → Words args
          → IsRound put buffer limit texts r cs out)
      → Words r.args
      → IsRound put buffer limit texts r cs out
  with_argument r cs out missing go words = elim (List-cases r.args) [
    | inl none_left ↦ absurd (missing none_left)
    | inr (a, args, has) ↦
        (let (small, others) = subst Words has words in go a args has small others)
  ]

  string_argument :
      (r : Round S) (d a : ℕ) (cs out args : List ℕ)
      → IsReady put buffer limit texts r (percent ∷ d ∷ cs)
      → r.args ≡ a ∷ args
      → round (by_bytes put buffer limit texts) buffer limit r
        ≡ print_string (by_bytes put buffer limit texts) buffer limit r
      → Words args
      → ◌≡◌ {A = Option (List ℕ)}
          (elim (texts a) [ none ↦ none | some text ↦ prepend text (render texts cs args) ])
          (some out)
      → IsRound put buffer limit texts r (percent ∷ d ∷ cs) out
  string_argument r d a cs out args ready has runs words result = elim (Option-cases (texts a)) [
    | inl e ↦ (let wrong = rw e at result in absurd (cc))
    | inr (t, e) ↦
        string-IsRound put buffer limit texts r d a cs out args t ready has runs words e
          (rw e at result)
  ]

  -- `%d`, `%x`, and a letter that is none of them.
  number_letter-IsRound :
      (r : Round S) (d : ℕ) (cs out : List ℕ)
      → (d == percent) ≡ false
      → (d == 99) ≡ false
      → (d == 115) ≡ false
      → IsReady put buffer limit texts r (percent ∷ d ∷ cs)
      → render texts (percent ∷ d ∷ cs) r.args ≡ some out
      → IsRound put buffer limit texts r (percent ∷ d ∷ cs) out
  unfolding round render
  number_letter-IsRound r d cs out n1 n2 n3 ready result =
      let at = ready.at.0 in
      let at' = ready.at.2.0 in
      elim (Bool-cases (d == 100)) [
        | inl e ↦
            with_argument r (percent ∷ d ∷ cs) out
              (λ h. (let wrong = rw (n1, n2, n3, e, h) at result in cc))
              (λ a args has small words.
                number-IsRound put buffer limit texts 10 r d a cs out args (omega arith)
                  (omega arith) (length-numeral 10 a 10 (omega arith) (omega arith) (omega arith))
                  ready has (rw (at, at', n1, n2, n3, e) refl) words
                  (rw (n1, n2, n3, e, has) at result))
              ready.words
        | inr n4 ↦ elim (Bool-cases (d == 120)) [
          | inl e ↦
              with_argument r (percent ∷ d ∷ cs) out
                (λ h. (let wrong = rw (n1, n2, n3, n4, e, h) at result in cc))
                (λ a args has small words.
                  number-IsRound put buffer limit texts 16 r d a cs out args (omega arith)
                    (omega arith) (length-numeral 16 a 10 (omega arith) (omega arith) (omega arith))
                    ready has (rw (at, at', n1, n2, n3, n4, e) refl) words
                    (rw (n1, n2, n3, n4, e, has) at result))
                ready.words
          | inr n5 ↦
              rest-IsRound put buffer limit texts r percent (d ∷ cs) out ready
                (rw (at, at', n1, n2, n3, n4, n5) refl)
                (let same = rw (n1, n2, n3, n4, n5) at result in cc)
        ]
      ]

  -- The letter behind a `%`.
  pub letter-IsRound :
      (r : Round S) (d : ℕ) (cs out : List ℕ)
      → IsReady put buffer limit texts r (percent ∷ d ∷ cs)
      → render texts (percent ∷ d ∷ cs) r.args ≡ some out
      → IsRound put buffer limit texts r (percent ∷ d ∷ cs) out
  unfolding round render
  letter-IsRound r d cs out ready result =
      let at = ready.at.0 in
      let at' = ready.at.2.0 in
      elim (Bool-cases (d == percent)) [
        | inl e ↦ percent-IsRound r d cs out e ready result
        | inr n1 ↦ elim (Bool-cases (d == 99)) [
          | inl e ↦
              with_argument r (percent ∷ d ∷ cs) out
                (λ h. (let wrong = rw (n1, e, h) at result in cc))
                (λ a args has small words.
                  character-IsRound put buffer limit texts r d a cs out args ready has
                    (rw (at, at', n1, e) refl) words (rw (n1, e, has) at result))
                ready.words
          | inr n2 ↦ elim (Bool-cases (d == 115)) [
            | inl e ↦
                with_argument r (percent ∷ d ∷ cs) out
                  (λ h. (let wrong = rw (n1, n2, e, h) at result in cc))
                  (λ a args has small words.
                    string_argument r d a cs out args ready has (rw (at, at', n1, n2, e) refl) words
                      (rw (n1, n2, e, has) at result))
                  ready.words
            | inr n3 ↦ number_letter-IsRound r d cs out n1 n2 n3 ready result
          ]
        ]
      ]
