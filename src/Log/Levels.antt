-- ===== src/Log/Levels.antt =====
-- `klog` on the serial port and `log` on the console, with the prefix of each level.
use mathlib.Core.Path.{sym, subst}
use pros.Prelude.{
  ℕ, ◌<◌, ◌≡◌, refl, ap, ◌∙◌, Option, none, some, List, [], ◌∷◌, ◌++◌, ◌==◌, if◌then◌else◌, length,
  Bool-cases, inl, inr,
}
use pros.Memory.{Mem}
use pros.CString.Text.{IsString}
use pros.Port.{Output}
use pros.Log.{Literals, printf, put_serial, serial_print, print_bytes, send, send_prefix, klog}
use pros.Log.Bytes.{puts, puts-append}
use pros.Log.Render.{render}
use pros.Log.Strings.{Words, Clear, Holds, Spares, IsString-Spares, Holds-Spares}
use pros.Log.Format.{printf-render}

-- The texts of the literals. Those of `klog` set the colour `\033[3<k>m` and `\033[39m`.
abbrev coloured : (k : ℕ) (name : List ℕ) → List ℕ
coloured k name =
    b'['
    ∷ 27
    ∷ b'['
    ∷ b'3'
    ∷ k
    ∷ b'm'
    ∷ (name ++ (27 ∷ b'[' ∷ b'3' ∷ b'9' ∷ b'm' ∷ b']' ∷ b' ' ∷ []))

abbrev pub klog_prefix : (level : ℕ) → List ℕ
klog_prefix level =
    if level == 0
    then coloured b'2' (b'L' ∷ b'O' ∷ b'G' ∷ [])
    else if level == 1
    then coloured b'3' (b'W' ∷ b'A' ∷ b'R' ∷ b'N' ∷ [])
    else if level == 2
    then coloured b'1' (b'E' ∷ b'R' ∷ b'R' ∷ [])
    else if level == 3
    then coloured b'6' (b'D' ∷ b'B' ∷ b'G' ∷ [])
    else []

abbrev pub newline : List ℕ
newline = 10 ∷ []

-- The texts stand at the addresses of the literals.
pub record IsNamed (texts : ℕ → Option (List ℕ)) (l : Literals) : Type 0 where
  pub newline_text : texts l.newline ≡ some newline
  pub klog_text : texts l.klog_level ≡ some (klog_prefix 0)
  pub kwarn_text : texts l.kwarn_level ≡ some (klog_prefix 1)
  pub kerr_text : texts l.kerr_level ≡ some (klog_prefix 2)
  pub kdbg_text : texts l.kdbg_level ≡ some (klog_prefix 3)

-- A string without directives, printed as a format.
module _ {S : Type 0} (put : S → ℕ → S) (buffer fuel : ℕ) (texts : ℕ → Option (List ℕ)) where
  pub printf-literal :
      (m : Mem) (a : ℕ) (args t : List ℕ) (s : S)
      → Holds texts buffer fuel m
      → texts a ≡ some t
      → Words args
      → render texts t args ≡ some t
      → (m' : Mem) × (printf
            (λ m str length s. print_bytes put m str length 0 s)
            buffer
            fuel
            m
            a
            args
            s
          ≡ some (m', puts put t s))
        × Spares buffer m m'
  printf-literal m a args t s holds named words same =
      printf-render put buffer fuel texts m a t args t s holds (holds.strings a t named)
        (holds.clear a t named) (holds.short a t named) words same

-- A print that returns the output `s` and leaves memory alone but for the buffer.
abbrev pub Leaves : {S : Type 0} (buffer : ℕ) (m : Mem) (s : S) → Option (Mem × S) → Type 0
Leaves buffer m s r = (m' : Mem) × (r ≡ some (m', s)) × Spares buffer m m'

pub Leaves-bind :
    {S : Type 0} (buffer : ℕ) (m : Mem) (s s' : S) (r : Option (Mem × S))
    (k : Mem × S → Option (Mem × S))
    → Leaves buffer m s r
    → ((m1 : Mem) → Spares buffer m m1 → Leaves buffer m1 s' (k (m1, s)))
    → Leaves buffer m s' (elim r [ none ↦ none | some s ↦ k s ])
Leaves-bind {S} buffer m s s' r k (m1, e, same) next =
    let (m2, e2, same2) = next m1 same in
    (
      m2,
      ap
            (λ (o : Option (Mem × S)). elim o as (λ _. Option (Mem × S)) [
              | none ↦ none
              | some s ↦ k s
            ])
            e
          ∙ e2,
      λ b away. same2 b away ∙ same b away,
    )

-- What a call of `log` or `klog` is given: its format and the words of its arguments.
pub record IsCall (texts : ℕ → Option (List ℕ)) (buffer fuel : ℕ) (m : Mem) (format : ℕ)
    (args out : List ℕ) : Type 0 where
  pub cs : List ℕ
  pub at : IsString m format cs
  pub clear : Clear buffer format (length cs)
  pub short : length cs < fuel
  pub words : Words args
  pub renders : render texts cs args ≡ some out
  pub holds : Holds texts buffer fuel m

pub IsCall-Spares :
    (texts : ℕ → Option (List ℕ)) (buffer fuel : ℕ) (m m' : Mem) (format : ℕ) (args out : List ℕ)
    → Spares buffer m m'
    → IsCall texts buffer fuel m format args out
    → IsCall texts buffer fuel m' format args out
IsCall-Spares texts buffer fuel m m' format args out same c = record {
  cs = c.cs;
  at = IsString-Spares buffer format m m' c.cs same c.clear c.at;
  clear = c.clear;
  short = c.short;
  words = c.words;
  renders = c.renders;
  holds = Holds-Spares texts buffer fuel m m' same c.holds;
}

module _ (buffer fuel : ℕ) (l : Literals) (texts : ℕ → Option (List ℕ))
    (named : IsNamed texts l) where
  -- The serial port.
  send-literal :
      (m : Mem) (a : ℕ) (args t : List ℕ) (os : List Output)
      → Holds texts buffer fuel m
      → texts a ≡ some t
      → Words args
      → render texts t args ≡ some t
      → Leaves buffer m (puts put_serial t os) (send buffer fuel l a args (m, os))
  unfolding send serial_print
  send-literal m a args t os holds here words same =
      printf-literal put_serial buffer fuel texts m a args t os holds here words same

  send-format :
      (m : Mem) (format : ℕ) (args out : List ℕ) (os : List Output)
      → IsCall texts buffer fuel m format args out
      → Leaves buffer m (puts put_serial out os) (send buffer fuel l format args (m, os))
  unfolding send serial_print
  send-format m format args out os c =
      printf-render put_serial buffer fuel texts m format c.cs args out os c.holds c.at c.clear
        c.short c.words c.renders

  send_prefix-Leaves :
      (m : Mem) (level : ℕ) (args : List ℕ) (os : List Output)
      → Holds texts buffer fuel m
      → Words args
      → Leaves buffer m
          (puts put_serial (klog_prefix level) os)
          (send_prefix buffer fuel l level args (m, os))
  unfolding send_prefix render puts
  send_prefix-Leaves m level args os holds words = elim (Bool-cases (level == 0)) [
    | inl e ↦
        rw e (send-literal m l.klog_level args (klog_prefix 0) os holds named.klog_text words refl)
    | inr n0 ↦ elim (Bool-cases (level == 1)) [
      | inl e ↦
          rw (n0, e)
            (send-literal m l.kwarn_level args (klog_prefix 1) os holds named.kwarn_text words refl)
      | inr n1 ↦ elim (Bool-cases (level == 2)) [
        | inl e ↦
            rw (n0, n1, e)
              (send-literal m l.kerr_level args (klog_prefix 2) os holds named.kerr_text words refl)
        | inr n2 ↦ elim (Bool-cases (level == 3)) [
          | inl e ↦
              rw (n0, n1, n2, e)
                (send-literal m l.kdbg_level args (klog_prefix 3) os holds named.kdbg_text words
                  refl)
          | inr n3 ↦ rw (n0, n1, n2, n3) (m, refl, λ b away. refl)
        ]
      ]
    ]
  ]

  -- For a format that stands for a text with its arguments, and literals that stand apart from the
  -- local buffer: `klog` returns, and sends to the serial port the prefix of the level (none for a
  -- level above 3), the text and a newline, in this order and nothing else.
  pub klog-Leaves :
      (m : Mem) (level format : ℕ) (args out : List ℕ) (os : List Output)
      → IsCall texts buffer fuel m format args out
      → Leaves buffer m
          (puts put_serial (klog_prefix level ++ (out ++ newline)) os)
          (klog buffer fuel l level format args (m, os))
  unfolding klog render
  klog-Leaves m level format args out os c =
      let all =
        puts-append put_serial (klog_prefix level) (out ++ newline) os
        ∙ puts-append put_serial out newline (puts put_serial (klog_prefix level) os) in
      subst (λ t. Leaves buffer m t (klog buffer fuel l level format args (m, os))) (sym all)
        (Leaves-bind buffer m _ _ _ _ (send_prefix-Leaves m level args os c.holds c.words)
          (λ m1 same.
            let c1 = IsCall-Spares texts buffer fuel m m1 format args out same c in
            Leaves-bind buffer m1 _ _ _ _
              (send-format m1 format args out (puts put_serial (klog_prefix level) os) c1)
              (λ m2 same2.
                let c2 = IsCall-Spares texts buffer fuel m1 m2 format args out same2 c1 in
                send-literal m2 l.newline args newline
                  (puts put_serial out (puts put_serial (klog_prefix level) os)) c2.holds
                  named.newline_text c2.words refl)))
