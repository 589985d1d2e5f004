-- ===== src/Log/Format.antt =====
-- `printf` against the text that a format and its arguments stand for.
use mathlib.Core.Path.{sym, subst}
use pros.Prelude.{
  ℕ, zero, suc, ◌<◌, ◌≡◌, refl, arith, ap, ◌∙◌, Option, none, some, List, [], ◌∷◌, ◌==◌, length,
  Bool-cases, inl, inr, eq_of_==, ==_of_ne,
}
use pros.Memory.{Mem}
use pros.CString.Text.{IsString}
use pros.Log.{percent, print_bytes, Round, round, print_rounds, printf}
use pros.Log.Bytes.{puts, puts-append}
use pros.Log.Render.{render}
use pros.Log.Strings.{Words, Clear, Holds, Spares, Holds-Spares}
use pros.Log.Rounds.{by_bytes, IsReady, IsRound, text-IsRound}
use pros.Log.Directives.{rest-IsRound}
use pros.Log.Letters.{letter-IsRound}

module _ {S : Type 0} (put : S → ℕ → S) (buffer limit : ℕ) (texts : ℕ → Option (List ℕ)) where
  round-IsRound :
      (r : Round S) (c : ℕ) (cs out : List ℕ)
      → IsReady put buffer limit texts r (c ∷ cs)
      → render texts (c ∷ cs) r.args ≡ some out
      → IsRound put buffer limit texts r (c ∷ cs) out
  unfolding round render
  round-IsRound r c [] out ready result = elim (Bool-cases (c == percent)) [
    | inl e ↦
        rest-IsRound put buffer limit texts r c [] out ready (rw (ready.at.0, ready.at.2, e) refl)
          (cc)
    | inr ne ↦
        text-IsRound put buffer limit texts r r.format c [] (c ∷ []) out (rw (ready.at.0, ne) refl)
          (rw (ready.at.0, ne) refl) ready.at ready.clear (omega (arith, ready.short)) ready.words
          (omega arith) refl result
  ]
  round-IsRound r c (d ∷ cs) out ready result = elim (Bool-cases (c == percent)) [
    | inl e ↦
        subst
          (λ x.
            IsReady put buffer limit texts r (x ∷ d ∷ cs)
            → render texts (x ∷ d ∷ cs) r.args ≡ some out
            → IsRound put buffer limit texts r (x ∷ d ∷ cs) out)
          (sym (eq_of_== c percent e)) (letter-IsRound put buffer limit texts r d cs out) ready
          result
    | inr ne ↦
        text-IsRound put buffer limit texts r r.format c (d ∷ cs) (c ∷ d ∷ cs) out
          (rw (ready.at.0, ne) refl) (rw (ready.at.0, ne) refl) ready.at ready.clear
          (omega (arith, ready.short)) ready.words (omega arith) (rw ne refl) result
  ]

  -- What all rounds together print.
  pub record IsPrinted (r : Round S) (fuel : ℕ) (out : List ℕ) : Type 0 where
    pub last : Round S
    pub runs : print_rounds (by_bytes put buffer limit texts) buffer limit fuel r ≡ some last
    pub printed : last.out ≡ puts put out r.out
    pub spares : Spares buffer r.mem last.mem

  print_rounds-IsPrinted :
      (fuel : ℕ) (r : Round S) (cs out : List ℕ)
      → length cs < fuel
      → IsReady put buffer limit texts r cs
      → render texts cs r.args ≡ some out
      → IsPrinted r fuel out
  unfolding print_rounds puts render
  print_rounds-IsPrinted zero r cs out enough ready result = absurd (omega arith)
  print_rounds-IsPrinted (suc fuel) r [] out enough ready result = record {
    last = r;
    runs = rw ready.at refl;
    printed = ap (λ t. puts put t r.out) {x = []} {y = out} (cc);
    spares = λ b away. refl;
  }
  print_rounds-IsPrinted (suc fuel) r (c ∷ cs) out enough ready result =
      let one = round-IsRound r c cs out ready result in
      let ready' : IsReady put buffer limit texts one.next one.left = record {
        at = one.at;
        clear = one.clear;
        short = omega (arith, one.shorter, ready.short);
        words = one.words;
        holds = Holds-Spares texts buffer limit r.mem one.next.mem one.spares ready.holds;
      } in
      let later =
        print_rounds-IsPrinted fuel one.next one.left one.rest (omega (arith, one.shorter)) ready'
          one.renders in
      record {
        last = later.last;
        runs = rw (ready.at.0, ==_of_ne c 0 ready.at.1, one.runs) later.runs;
        printed =
            later.printed
            ∙ ap (puts put one.rest) one.printed
            ∙ sym (puts-append put one.text one.rest r.out)
            ∙ ap (λ t. puts put t r.out) (sym one.whole);
        spares = λ b away. later.spares b away ∙ one.spares b away;
      }

-- For arguments of 32 bits, with more fuel than the format and each string have characters, and with
-- the format and the strings apart from the local buffer: if the format and its arguments stand for a
-- text, then `printf` returns, hands exactly the characters of that text to the print function, one
-- after the other, and changes no byte outside eleven at the buffer.
pub printf-render :
    {S : Type 0} (put : S → ℕ → S) (buffer fuel : ℕ) (texts : ℕ → Option (List ℕ)) (m : Mem)
    (format : ℕ) (cs args out : List ℕ) (s : S)
    → Holds texts buffer fuel m
    → IsString m format cs
    → Clear buffer format (length cs)
    → length cs < fuel
    → Words args
    → render texts cs args ≡ some out
    → (m' : Mem) × (printf
          (λ m str length s. print_bytes put m str length 0 s)
          buffer
          fuel
          m
          format
          args
          s
        ≡ some (m', puts put out s))
      × Spares buffer m m'
unfolding printf
printf-render {S} put buffer fuel texts m format cs args out s holds at clear short words result =
    let r : Round S = record { mem = m; format = format; args = args; out = s } in
    let done =
      print_rounds-IsPrinted put buffer fuel texts fuel r cs out short
        (record { at = at; clear = clear; short = short; words = words; holds = holds }) result in
    (
      done.last.mem,
      ap
            (λ (o : Option (Round S)). elim o as (λ _. Option (Mem × S)) [
              | none ↦ none
              | some r ↦ some (r.mem, r.out)
            ])
            done.runs
          ∙ ap (λ o. some (done.last.mem, o)) done.printed,
      done.spares,
    )
