-- ===== src/Log/Directives.antt =====
-- The rounds of `printf` that print an argument or the rest of the format.
use mathlib.Core.Path.{sym, subst}
use mathlib.Core.List.{append-nil}
use pros.Prelude.{
  ℕ, ◌+◌, ◌≤◌, ◌<◌, ◌≡◌, ◌⊎◌, refl, arith, ap, ◌∙◌, Option, some, List, [], ◌∷◌, ◌++◌, length, u8,
  inl, inr,
}
use pros.Memory.{load8, store8}
use pros.Memory.Laws.{load8-store8_self, load8-store8_ne}
use pros.CString.{strlen}
use pros.CString.Text.{IsString, strlen-length}
use pros.CString.Number.{numeral, count_digit-length}
use pros.CString.Itos.{itos-IsCopied}
use pros.Log.{
  percent, print_bytes, Round, print_rest, print_string, print_character, print_number, round,
}
use pros.Log.Bytes.{puts, IsString-drop, print_bytes-string}
use pros.Log.Render.{render, prepend}
use pros.Log.Strings.{Words, Clear, Spares, IsString-Spares, prepend-some}
use pros.Log.Rounds.{Clear_later, by_bytes, IsReady, IsRound}

module _ {S : Type 0} (put : S → ℕ → S) (buffer limit : ℕ) (texts : ℕ → Option (List ℕ)) where
  -- A directive of two characters that takes one argument.
  directive-IsRound :
      (r next : Round S) (d : ℕ) (cs out args text rest : List ℕ)
      → IsReady put buffer limit texts r (percent ∷ d ∷ cs)
      → round (by_bytes put buffer limit texts) buffer limit r ≡ some next
      → next.format ≡ r.format + 2
      → next.args ≡ args
      → Words args
      → render texts cs args ≡ some rest
      → out ≡ text ++ rest
      → next.out ≡ puts put text r.out
      → Spares buffer r.mem next.mem
      → IsRound put buffer limit texts r (percent ∷ d ∷ cs) out
  directive-IsRound r next d cs out args text rest ready runs format same words renders whole
        printed spares =
      let clear =
        Clear_later buffer r.format (length (percent ∷ d ∷ cs)) (r.format + 2) (length cs)
          (omega arith) (omega arith) ready.clear in
      let left =
        subst (λ q. IsString r.mem q cs) {x = r.format + 1 + 1} {y = r.format + 2} (omega arith)
          ready.at.2.2 in
      record {
        next = next;
        left = cs;
        text = text;
        rest = rest;
        runs = runs;
        shorter = omega arith;
        at =
            subst (λ q. IsString next.mem q cs) (sym format)
              (IsString-Spares buffer (r.format + 2) r.mem next.mem cs spares clear left);
        clear = subst (λ q. Clear buffer q (length cs)) (sym format) clear;
        words = subst Words (sym same) words;
        renders = ap (render texts cs) same ∙ renders;
        whole = whole;
        printed = printed;
        spares = spares;
      }

  -- `%c`
  pub character-IsRound :
      (r : Round S) (d a : ℕ) (cs out args : List ℕ)
      → IsReady put buffer limit texts r (percent ∷ d ∷ cs)
      → r.args ≡ a ∷ args
      → round (by_bytes put buffer limit texts) buffer limit r
        ≡ print_character (by_bytes put buffer limit texts) buffer limit r
      → Words args
      → prepend (u8 a ∷ []) (render texts cs args) ≡ some out
      → IsRound put buffer limit texts r (percent ∷ d ∷ cs) out
  unfolding print_character print_bytes puts
  character-IsRound r d a cs out args ready has runs words result =
      let m = store8 r.mem buffer a in
      let (rest, later, whole) = prepend-some (u8 a ∷ []) (render texts cs args) out result in
      directive-IsRound r
        (record {
          mem = m;
          format = r.format + 2;
          args = args;
          out = (by_bytes put buffer limit texts) m buffer 1 r.out;
        })
        d cs out args (u8 a ∷ []) rest ready (runs ∙ rw (print_character, has) refl) refl refl words
        later whole
        (ap (put r.out) (
          ap (load8 m) {x = buffer + 0} {y = buffer} (omega arith)
          ∙ load8-store8_self r.mem buffer a))
        (λ b out. load8-store8_ne r.mem buffer a b (grind arith))

  -- `%s`
  pub string-IsRound :
      (r : Round S) (d a : ℕ) (cs out args t : List ℕ)
      → IsReady put buffer limit texts r (percent ∷ d ∷ cs)
      → r.args ≡ a ∷ args
      → round (by_bytes put buffer limit texts) buffer limit r
        ≡ print_string (by_bytes put buffer limit texts) buffer limit r
      → Words args
      → texts a ≡ some t
      → prepend t (render texts cs args) ≡ some out
      → IsRound put buffer limit texts r (percent ∷ d ∷ cs) out
  unfolding print_string
  string-IsRound r d a cs out args t ready has runs words named result =
      let (rest, later, whole) = prepend-some t (render texts cs args) out result in
      let s = ready.holds.strings a t named in
      let len : strlen limit r.mem a ≡ some (length t) =
        strlen-length limit r.mem a t (ready.holds.short a t named) s in
      directive-IsRound r
        (record r {
          format = r.format + 2;
          args = args;
          out = (by_bytes put buffer limit texts) r.mem a (length t) r.out;
        })
        d cs out args t rest ready (runs ∙ rw (print_string, has, len) refl) refl refl words later
        whole
        (print_bytes-string put r.mem a t [] r.out
          (subst (IsString r.mem a) (sym (append-nil t)) s))
        (λ b out. refl)

  -- `%d` and `%x`
  pub number-IsRound :
      (base : ℕ) (r : Round S) (d a : ℕ) (cs out args : List ℕ)
      → 2 ≤ base
      → base ≤ 32
      → length (numeral base a) ≤ 10
      → IsReady put buffer limit texts r (percent ∷ d ∷ cs)
      → r.args ≡ a ∷ args
      → round (by_bytes put buffer limit texts) buffer limit r
        ≡ print_number (by_bytes put buffer limit texts) buffer limit base r
      → Words args
      → prepend (numeral base a) (render texts cs args) ≡ some out
      → IsRound put buffer limit texts r (percent ∷ d ∷ cs) out
  unfolding print_number
  number-IsRound base r d a cs out args lo hi few ready has runs words result =
      let t = numeral base a in
      let (rest, later, whole) = prepend-some t (render texts cs args) out result in
      let (m, put_there, copied) = itos-IsCopied r.mem a buffer base lo hi in
      directive-IsRound r
        (record {
          mem = m;
          format = r.format + 2;
          args = args;
          out = (by_bytes put buffer limit texts) m buffer (length t) r.out;
        })
        d cs out args t rest ready
        (runs ∙ rw (print_number, has, count_digit-length a base lo, put_there) refl) refl refl
        words later whole
        (print_bytes-string put m buffer t [] r.out
          (subst (IsString m buffer) (sym (append-nil t)) copied.text))
        (λ b out. copied.spares b (within b out))
    where
      within :
          (b : ℕ)
          → (b < buffer) ⊎ (buffer + 11 ≤ b)
          → (b < buffer) ⊎ (buffer + (length (numeral base a) + 1) ≤ b)
      within b (inl below) = inl below
      within b (inr above) = inr (omega (arith, few))

  -- The rest of the format, as it stands.
  pub rest-IsRound :
      (r : Round S) (c : ℕ) (cs out : List ℕ)
      → IsReady put buffer limit texts r (c ∷ cs)
      → round (by_bytes put buffer limit texts) buffer limit r
        ≡ print_rest (by_bytes put buffer limit texts) buffer limit r
      → out ≡ c ∷ cs
      → IsRound put buffer limit texts r (c ∷ cs) out
  unfolding print_rest render
  rest-IsRound r c cs out ready runs whole =
      let len : strlen limit r.mem r.format ≡ some (length (c ∷ cs)) =
        strlen-length limit r.mem r.format (c ∷ cs) ready.short ready.at in
      let all = subst (IsString r.mem r.format) (sym (append-nil (c ∷ cs))) ready.at in
      record {
        next = record r {
          format = r.format + length (c ∷ cs);
          out = (by_bytes put buffer limit texts) r.mem r.format (length (c ∷ cs)) r.out;
        };
        left = [];
        text = c ∷ cs;
        rest = [];
        runs = runs ∙ rw (print_rest, len) refl;
        shorter = omega arith;
        at = IsString-drop r.mem r.format (c ∷ cs) [] all;
        clear =
            Clear_later buffer r.format (length (c ∷ cs)) (r.format + length (c ∷ cs)) 0
              (omega arith) (omega arith) ready.clear;
        words = ready.words;
        renders = refl;
        whole = whole ∙ sym (append-nil (c ∷ cs));
        printed = print_bytes-string put r.mem r.format (c ∷ cs) [] r.out all;
        spares = λ b out. refl;
      }
