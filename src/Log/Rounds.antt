-- ===== src/Log/Rounds.antt =====
-- One round of `printf`: what it promises, and the round that prints text.
use mathlib.Core.Path.{sym, subst}
use pros.Prelude.{
  ℕ, suc, ◌+◌, ◌≤◌, ◌<◌, ◌≡◌, refl, arith, ap, ◌∙◌, Option, some, List, [], ◌∷◌, ◌++◌, ◌==◌,
  if◌then◌else◌, length, length-append, inl, inr,
}
use pros.Memory.{Mem, load8}
use pros.CString.Text.{IsString}
use pros.Log.{percent, print_bytes, scan_text, Round, print_until, print_text, round}
use pros.Log.Bytes.{puts, IsString-drop, print_bytes-string}
use pros.Log.Render.{
  render, prepend, plain, directives, prepend_cons, plain-append-directives, render-plain,
}
use pros.Log.Strings.{Words, Clear, Holds, Spares, scan_text-plain, prepend-some}

pub Clear_later : (buffer p n q k : ℕ) → p ≤ q → q + k ≤ p + n → Clear buffer p n → Clear buffer q k
Clear_later buffer p n q k lo hi (inl below) = inl (omega arith)
Clear_later buffer p n q k lo hi (inr above) = inr (omega arith)

module _ {S : Type 0} (put : S → ℕ → S) (buffer limit : ℕ) (texts : ℕ → Option (List ℕ)) where
  -- A print function that hands on one byte after the other.
  abbrev pub by_bytes : Mem → (str length : ℕ) → S → S
  by_bytes m str length s = print_bytes put m str length 0 s

  -- What the loop knows before a round: the rest of the format, the strings, the arguments.
  pub record IsReady (r : Round S) (cs : List ℕ) : Type 0 where
    pub at : IsString r.mem r.format cs
    pub clear : Clear buffer r.format (length cs)
    pub short : length cs < limit
    pub words : Words r.args
    pub holds : Holds texts buffer limit r.mem

  -- A round that prints `text` of the output `out`, and what is left to do.
  pub record IsRound (r : Round S) (cs out : List ℕ) : Type 0 where
    pub next : Round S
    pub left : List ℕ
    pub text : List ℕ
    pub rest : List ℕ
    pub runs : round by_bytes buffer limit r ≡ some next
    pub shorter : length left < length cs
    pub at : IsString next.mem next.format left
    pub clear : Clear buffer next.format (length left)
    pub words : Words next.args
    pub renders : render texts left next.args ≡ some rest
    pub whole : out ≡ text ++ rest
    pub printed : next.out ≡ puts put text r.out
    pub spares : Spares buffer r.mem next.mem

  -- The text from `p` on, which begins with the character `c`.
  pub text-IsRound :
      (r : Round S) (p c : ℕ) (cs all out : List ℕ)
      → round by_bytes buffer limit r ≡ print_text by_bytes buffer limit r
      → (if load8 r.mem r.format == percent then r.format + 1 else r.format) ≡ p
      → IsString r.mem p (c ∷ cs)
      → Clear buffer p (length (c ∷ cs))
      → length cs < limit
      → Words r.args
      → length (c ∷ cs) ≤ length all
      → render texts all r.args ≡ prepend (c ∷ []) (render texts cs r.args)
      → render texts all r.args ≡ some out
      → IsRound r all out
  unfolding print_text print_until
  text-IsRound r p c cs all out runs start s clear short words smaller eq result =
      let tail = subst (λ t. IsString r.mem p (c ∷ t)) (sym (plain-append-directives cs)) s in
      let len : length (plain cs) + length (directives cs) ≡ length cs =
        omega (
          arith,
          length-append (plain cs) (directives cs),
          ap length (plain-append-directives cs),
        ) in
      let scan : scan_text limit r.mem p 1 ≡ some (1 + length (plain cs)) =
        scan_text-plain limit r.mem p 1 cs short s.2 in
      let (rest, later, whole) =
        prepend-some (c ∷ plain cs) (render texts (directives cs) r.args) out (
          sym (
            eq
            ∙ ap (prepend (c ∷ [])) (render-plain texts cs r.args)
            ∙ prepend_cons c (plain cs) (render texts (directives cs) r.args))
          ∙ result) in
      record {
        next = record r {
          format = p + (1 + length (plain cs));
          out = by_bytes r.mem p (1 + length (plain cs)) r.out;
        };
        left = directives cs;
        text = c ∷ plain cs;
        rest = rest;
        runs =
            runs
            ∙ ap (λ q. print_until by_bytes buffer limit q r) start
            ∙ rw (print_until, scan) refl;
        shorter = omega arith;
        at =
            subst (λ q. IsString r.mem q (directives cs)) {x = p + suc (length (plain cs))}
              {y = p + (1 + length (plain cs))} (omega arith)
              (IsString-drop r.mem p (c ∷ plain cs) (directives cs) tail);
        clear =
            Clear_later buffer p (length (c ∷ cs)) (p + (1 + length (plain cs)))
              (length (directives cs)) (omega arith) (omega arith) clear;
        words = words;
        renders = later;
        whole = whole;
        printed =
            ap (λ k. by_bytes r.mem p k r.out) {x = 1 + length (plain cs)}
              {y = length (c ∷ plain cs)} (omega arith)
            ∙ print_bytes-string put r.mem p (c ∷ plain cs) (directives cs) r.out tail;
        spares = λ b out. refl;
      }
