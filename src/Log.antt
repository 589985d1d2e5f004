-- ===== src/Log.antt =====
-- The messages of the kernel, Kernel/src/Lib/Log.cpp: `printf` and the functions above it. A
-- `va_list` is the list of the words that the caller passed; since it is passed by value, every
-- `printf` of one call reads it from the first word on.
pub mod Bytes
pub mod Render
pub mod Strings
pub mod Rounds
pub mod Directives
pub mod Letters
pub mod Format
pub mod Levels
pub mod Console
pub mod Panic
mod Tests
use pros.Prelude.{
  ℕ, zero, suc, ◌+◌, Bool, true, false, not, ◌&&◌, ◌||◌, Option, none, some, List, [], ◌∷◌, ◌==◌,
  if◌then◌else◌, u8,
}
use pros.Memory.{Mem, load8, store8}
use pros.CString.{strlen, count_digit, itos}
use pros.Port.{Output, output}
use pros.Vga.{Vga, put_char, set_text_color}

-- The loop of `print` and of `serialPrint`, over what takes one byte, from index `i` on.
unfoldable pub print_bytes : {S : Type 0} → (S → ℕ → S) → Mem → (str left i : ℕ) → S → S
print_bytes put m str zero i s = s
print_bytes put m str (suc left) i s =
    print_bytes put m str left (i + 1) (put s (load8 m (str + i)))

unfoldable pub print : Mem → (str length : ℕ) → Vga → Vga
print m str length v = print_bytes put_char m str length 0 v

abbrev pub serial_port : ℕ
serial_port = 0x3F8

-- A write to the serial port; the writes are a list, the last one first.
unfoldable pub put_serial : List Output → ℕ → List Output
put_serial os b = output serial_port b ∷ os

unfoldable pub serial_print : Mem → (str length : ℕ) → List Output → List Output
serial_print m str length os = print_bytes put_serial m str length 0 os

abbrev pub percent : ℕ
percent = 37

-- `while (format[amount] && format[amount] != '%') amount++;` with fuel.
unfoldable pub scan_text : (fuel : ℕ) → Mem → (format amount : ℕ) → Option ℕ
scan_text zero m format amount = none
scan_text (suc fuel) m format amount =
    let rest = scan_text fuel m format (amount + 1) in
    if not (load8 m (format + amount) == 0) && not (load8 m (format + amount) == percent)
    then rest
    else some amount

-- What one round of the loop of `printf` leaves: memory, the format, the arguments and the output.
pub record Round (S : Type 0) : Type 0 where
  pub mem : Mem
  pub format : ℕ
  pub args : List ℕ
  pub out : S

module _ {S : Type 0} (print_function : Mem → (str length : ℕ) → S → S) (buffer limit : ℕ) where
  -- `%d` and `%x`: the text of the number goes to a local array, whose address is `buffer`.
  unfoldable pub print_number : (base : ℕ) → Round S → Option (Round S)
  print_number base r = elim r.args [
    | [] ↦ none
    | n ∷ args ↦ elim (count_digit n base) [
      | none ↦ none
      | some num_chars ↦ elim (itos r.mem n buffer base) [
        | none ↦ none
        | some m ↦ some (record {
          mem = m;
          format = r.format + 2;
          args = args;
          out = print_function m buffer num_chars r.out;
        })
      ]
    ]
  ]

  -- `%c`: the character goes to a local variable, at the same address.
  unfoldable pub print_character : Round S → Option (Round S)
  print_character r = elim r.args [
    | [] ↦ none
    | c ∷ args ↦
        let m = store8 r.mem buffer c in
        some (record {
          mem = m;
          format = r.format + 2;
          args = args;
          out = print_function m buffer 1 r.out;
        })
  ]

  unfoldable pub print_string : Round S → Option (Round S)
  print_string r = elim r.args [
    | [] ↦ none
    | str ∷ args ↦ elim (strlen limit r.mem str) [
      | none ↦ none
      | some len ↦ some (record r {
        format = r.format + 2;
        args = args;
        out = print_function r.mem str len r.out;
      })
    ]
  ]

  -- The last branch: the rest of the format is printed as it stands.
  unfoldable pub print_rest : Round S → Option (Round S)
  print_rest r = elim (strlen limit r.mem r.format) [
    | none ↦ none
    | some len ↦
        some (record r { format = r.format + len; out = print_function r.mem r.format len r.out })
  ]

  -- The text from `format` up to the next `%`.
  unfoldable pub print_until : (format : ℕ) → Round S → Option (Round S)
  print_until format r = elim (scan_text limit r.mem format 1) [
    | none ↦ none
    | some amount ↦
        some (record r { format = format + amount; out = print_function r.mem format amount r.out })
  ]

  -- The first branch: text, where `%%` stands for one `%`.
  unfoldable pub print_text : Round S → Option (Round S)
  print_text r = print_until (if load8 r.mem r.format == percent then r.format + 1 else r.format) r

  -- One round, where the format does not end. `none` is an argument that is missing, or a loop whose
  -- fuel ran out.
  unfoldable pub round : Round S → Option (Round S)
  round r =
      let c = load8 r.mem r.format in
      let d = load8 r.mem (r.format + 1) in
      if not (c == percent) || d == percent
      then print_text r
      else if d == 99
      then print_character r
      else if d == 115
      then print_string r
      else if d == 100
      then print_number 10 r
      else if d == 120
      then print_number 16 r
      else print_rest r

  unfoldable pub print_rounds : (fuel : ℕ) → Round S → Option (Round S)
  print_rounds zero r = none
  print_rounds (suc fuel) r =
      if load8 r.mem r.format == 0
      then some r
      else elim (round r) [ none ↦ none | some r ↦ print_rounds fuel r ]

-- `printf`: memory and the output after it. One number is the fuel of every loop.
unfoldable pub printf :
    {S : Type 0} (print_function : Mem → (str length : ℕ) → S → S) (buffer fuel : ℕ)
    → Mem
    → (format : ℕ) → (args : List ℕ) → S
    → Option (Mem × S)
printf print_function buffer fuel m format args s =
    elim (print_rounds print_function buffer fuel fuel
      (record { mem = m; format = format; args = args; out = s })) [
        | none ↦ none
        | some r ↦ some (r.mem, r.out)
      ]

-- The addresses of the string literals of `log` and `klog`. Those of `klog` hold their colours as
-- escape sequences.
pub record Literals : Type 0 where
  pub newline : ℕ
  pub open_bracket : ℕ
  pub close_bracket : ℕ
  pub log_level : ℕ
  pub warn_level : ℕ
  pub err_level : ℕ
  pub klog_level : ℕ
  pub kwarn_level : ℕ
  pub kerr_level : ℕ
  pub kdbg_level : ℕ

abbrev pub green : ℕ
green = 2

abbrev pub red : ℕ
red = 4

abbrev pub light_grey : ℕ
light_grey = 7

abbrev pub light_red : ℕ
light_red = 12

module _ (buffer fuel : ℕ) (text : Literals) where
  -- `printf` on the console.
  unfoldable pub show : (format : ℕ) → List ℕ → Mem × Vga → Option (Mem × Vga)
  show format args (m, v) = printf print buffer fuel m format args v

  -- The prefix of a level: a bracket, the name in a colour, a bracket in light grey.
  unfoldable pub show_level : (color name : ℕ) → List ℕ → Mem × Vga → Option (Mem × Vga)
  show_level color name args s = elim (show text.open_bracket args s) [
    | none ↦ none
    | some (m, v) ↦ elim (show name args (m, set_text_color v color)) [
      | none ↦ none
      | some (m, v) ↦ show text.close_bracket args (m, set_text_color v light_grey)
    ]
  ]

  -- The `switch` of `log`.
  unfoldable pub show_prefix : (level : ℕ) → List ℕ → Mem × Vga → Option (Mem × Vga)
  show_prefix level args s =
      if level == 0
      then show_level green text.log_level args s
      else if level == 1
      then show_level light_red text.warn_level args s
      else if level == 2
      then show_level red text.err_level args s
      else some s

  unfoldable pub log : (level format : ℕ) → List ℕ → Mem × Vga → Option (Mem × Vga)
  log level format args s = elim (show_prefix level args s) [
    | none ↦ none
    | some s ↦ elim (show format args s) [ none ↦ none | some s ↦ show text.newline args s ]
  ]

  -- `printf` on the serial port.
  unfoldable pub send : (format : ℕ) → List ℕ → Mem × List Output → Option (Mem × List Output)
  send format args (m, os) = printf serial_print buffer fuel m format args os

  -- The `switch` of `klog`.
  unfoldable pub send_prefix : (level : ℕ) → List ℕ → Mem × List Output → Option (Mem × List Output)
  send_prefix level args s =
      if level == 0
      then send text.klog_level args s
      else if level == 1
      then send text.kwarn_level args s
      else if level == 2
      then send text.kerr_level args s
      else if level == 3
      then send text.kdbg_level args s
      else some s

  unfoldable pub klog : (level format : ℕ) → List ℕ → Mem × List Output → Option (Mem × List Output)
  klog level format args s = elim (send_prefix level args s) [
    | none ↦ none
    | some s ↦ elim (send format args s) [ none ↦ none | some s ↦ send text.newline args s ]
  ]

  -- `panic`, up to the loop that never ends: the state that it stays in. The message is its own format,
  -- and `args` are the words that stand where the arguments would be; `kernel_panic` is the address of
  -- "Kernel panic!".
  unfoldable pub panic :
      (kernel_panic message : ℕ)
      → List ℕ
      → Mem × List Output × Vga
      → Option (Mem × List Output × Vga)
  panic kernel_panic message args (m, os, v) = elim (klog 2 kernel_panic args (m, os)) [
    | none ↦ none
    | some (m, os) ↦ elim (klog 2 message args (m, os)) [
      | none ↦ none
      | some (m, os) ↦ elim (log 2 kernel_panic args (m, v)) [
        | none ↦ none
        | some (m, v) ↦ elim (log 2 message args (m, v)) [
          | none ↦ none
          | some (m, v) ↦ some (m, os, v)
        ]
      ]
    ]
  ]
