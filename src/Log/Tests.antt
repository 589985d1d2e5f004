-- ===== src/Log/Tests.antt =====
-- Messages with the strings of a small table in memory.
use mathlib.Core.Path.{subst, sym}
use pros.Prelude.{
  ℕ, ◌+◌, ◌<◌, ◌≡◌, inl, inr, refl, arith, Bool-cases, eq_of_==, Option, none, some, List, [], ◌∷◌,
  ◌++◌, ◌==◌, if◌then◌else◌, length,
}
use pros.Memory.{Mem, load8, store8}
use pros.CString.Text.{IsString}
use pros.CString.Number.{numeral, digits}
use pros.CString.{digit_char}
use pros.Vga.{Vga, put_char}
use pros.Vga.Put.{IsValid}
use pros.Log.{Literals, printf, print_bytes, put_serial, klog, log, panic}
use pros.Log.Bytes.{puts}
use pros.Log.Render.{render}
use pros.Log.Strings.{Clear, Holds, Spares}
use pros.Log.Format.{printf-render}
use pros.Log.Levels.{newline, klog_prefix, IsNamed, Leaves, IsCall, klog-Leaves}
use pros.Log.Console.{
  open_text, close_text, log_text, warn_text, err_text, IsLabelled, label_of, log-Leaves,
}
use pros.Log.Panic.{sent_error, shown_error, panic-Leaves}

abbrev Table : Type 0
Table = List (ℕ × List ℕ)

abbrev texts_of : Table → ℕ → Option (List ℕ)
texts_of [] a = none
texts_of ((p, t) ∷ es) a = if a == p then some t else texts_of es a

abbrev write : Mem → ℕ → List ℕ → Mem
write m p [] = m
write m p (c ∷ cs) = write (store8 m p c) (p + 1) cs

abbrev write_all : Mem → Table → Mem
write_all m [] = m
write_all m ((p, t) ∷ es) = write_all (write m p t) es

abbrev Stands : (buffer limit : ℕ) → Mem → Table → Type 0
Stands buffer limit m [] = Unit {0}
Stands buffer limit m ((p, t) ∷ es) =
    (IsString m p t × Clear buffer p (length t) × (length t < limit)) × Stands buffer limit m es

at-Stands :
    (buffer limit : ℕ) (m : Mem) (es : Table) (a : ℕ) (t : List ℕ)
    → Stands buffer limit m es
    → texts_of es a ≡ some t
    → IsString m a t × Clear buffer a (length t) × (length t < limit)
at-Stands buffer limit m [] a t h e = cc
at-Stands buffer limit m ((p, u) ∷ es) a t (here, later) e = elim (Bool-cases (a == p)) [
  | inl same ↦
      subst (λ x. IsString m x t × Clear buffer x (length t) × (length t < limit))
        (sym (eq_of_== a p same))
        (subst (λ x. IsString m p x × Clear buffer p (length x) × (length x < limit)) {x = u}
          {y = t} (let found = rw same at e in cc) here)
  | inr other ↦ at-Stands buffer limit m es a t later (rw other at e)
]

table-Holds :
    (buffer limit : ℕ) (m : Mem) (es : Table)
    → Stands buffer limit m es
    → Holds (texts_of es) buffer limit m
table-Holds buffer limit m es h = record {
  strings = λ a t e. (at-Stands buffer limit m es a t h e).0;
  clear = λ a t e. (at-Stands buffer limit m es a t h e).1;
  short = λ a t e. (at-Stands buffer limit m es a t h e).2;
}

-- "%s=%x%%" with "ab" and 0x2137.
abbrev format : List ℕ
format = b'%' ∷ b's' ∷ b'=' ∷ b'%' ∷ b'x' ∷ b'%' ∷ b'%' ∷ []

-- "Kernel panic!"
abbrev panic_text : List ℕ
panic_text =
    b'K' ∷ b'e' ∷ b'r' ∷ b'n' ∷ b'e' ∷ b'l' ∷ b' ' ∷ b'p' ∷ b'a' ∷ b'n' ∷ b'i' ∷ b'c' ∷ b'!' ∷ []

abbrev strings : Table
strings =
    (100, format)
    ∷ (200, b'a' ∷ b'b' ∷ [])
    ∷ (300, newline)
    ∷ (310, open_text)
    ∷ (320, close_text)
    ∷ (330, log_text)
    ∷ (340, warn_text)
    ∷ (350, err_text)
    ∷ (400, klog_prefix 0)
    ∷ (430, klog_prefix 1)
    ∷ (460, klog_prefix 2)
    ∷ (490, klog_prefix 3)
    ∷ (520, panic_text)
    ∷ []

abbrev memory : Mem
memory = write_all (λ a. 0) strings

strings-Stands : Stands 600 50 memory strings
unfolding load8 store8
strings-Stands = ground arith

abbrev literals : Literals
literals = record {
  newline = 300;
  open_bracket = 310;
  close_bracket = 320;
  log_level = 330;
  warn_level = 340;
  err_level = 350;
  klog_level = 400;
  kwarn_level = 430;
  kerr_level = 460;
  kdbg_level = 490;
}

abbrev arguments : List ℕ
arguments = 200 ∷ 0x2137 ∷ []

abbrev message : List ℕ
message = b'a' ∷ b'b' ∷ b'=' ∷ b'2' ∷ b'1' ∷ b'3' ∷ b'7' ∷ b'%' ∷ []

render-message : render (texts_of strings) format arguments ≡ some message
unfolding render numeral digits digit_char
render-message = refl

strings-Holds : Holds (texts_of strings) 600 50 memory
strings-Holds = table-Holds 600 50 memory strings strings-Stands

printf-render_example :
    (m' : Mem) × (printf
        (λ m str length s. print_bytes (λ out c. c ∷ out) m str length 0 s)
        600
        50
        memory
        100
        arguments
        []
      ≡ some (m', puts (λ out c. c ∷ out) message []))
    × Spares 600 memory m'
printf-render_example =
    printf-render (λ (out : List ℕ) c. c ∷ out) 600 50 (texts_of strings) memory 100 format
      arguments message [] strings-Holds strings-Stands.0.0 strings-Stands.0.1 (omega arith)
      (omega arith) render-message

call : IsCall (texts_of strings) 600 50 memory 100 arguments message
call = record {
  cs = format;
  at = strings-Stands.0.0;
  clear = strings-Stands.0.1;
  short = omega arith;
  words = omega arith;
  renders = render-message;
  holds = strings-Holds;
}

literals-IsNamed : IsNamed (texts_of strings) literals
literals-IsNamed = record {
  newline_text = refl;
  klog_text = refl;
  kwarn_text = refl;
  kerr_text = refl;
  kdbg_text = refl;
}

klog-Leaves_example :
    Leaves 600 memory
      (puts put_serial (klog_prefix 2 ++ (message ++ newline)) [])
      (klog 600 50 literals 2 100 arguments (memory, []))
klog-Leaves_example =
    klog-Leaves 600 50 literals (texts_of strings) literals-IsNamed memory 2 100 arguments message
      [] call

literals-IsLabelled : IsLabelled (texts_of strings) literals
literals-IsLabelled = record {
  newline_at = refl;
  open_at = refl;
  close_at = refl;
  log_at = refl;
  warn_at = refl;
  err_at = refl;
}

abbrev screen : Vga
screen = record {
  width = 80;
  height = 25;
  x = 0;
  y = 24;
  text_color = 7;
  background_color = 0;
  color = 7;
  memory = λ j. 0;
  outputs = [];
}

screen-IsValid : IsValid screen
screen-IsValid = record {
  x_in = omega arith;
  y_in = omega arith;
  width_fits = omega arith;
  height_fits = omega arith;
}

log-Leaves_example :
    let v' = puts put_char newline (puts put_char message (label_of 1 screen)) in
    Leaves 600 memory v' (log 600 50 literals 1 100 arguments (memory, screen)) × IsValid v'
log-Leaves_example =
    log-Leaves 600 50 literals (texts_of strings) literals-IsLabelled memory 1 100 arguments message
      screen screen-IsValid call

panic-IsCall : IsCall (texts_of strings) 600 50 memory 520 arguments panic_text
unfolding render
panic-IsCall =
    let at = at-Stands 600 50 memory strings 520 panic_text strings-Stands refl in
    record {
      cs = panic_text;
      at = at.0;
      clear = at.1;
      short = omega arith;
      words = omega arith;
      renders = refl;
      holds = strings-Holds;
    }

panic-Leaves_example :
    (m' : Mem) × (panic 600 50 literals 520 100 arguments (memory, [], screen)
      ≡ some (
        m',
        sent_error message (sent_error panic_text []),
        shown_error message (shown_error panic_text screen),
      ))
    × Spares 600 memory m'
panic-Leaves_example =
    panic-Leaves 600 50 literals (texts_of strings) memory 520 100 arguments panic_text message []
      screen literals-IsNamed literals-IsLabelled screen-IsValid panic-IsCall call
