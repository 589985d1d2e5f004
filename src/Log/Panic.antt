-- ===== src/Log/Panic.antt =====
-- `panic` on the serial port and on the console.
use pros.Prelude.{ℕ, ◌≡◌, refl, Option, some, ◌∙◌, List, ◌++◌}
use pros.Memory.{Mem}
use pros.Port.{Output}
use pros.Vga.{Vga, put_char}
use pros.Vga.Put.{IsValid}
use pros.Log.{Literals, put_serial, panic}
use pros.Log.Bytes.{puts}
use pros.Log.Strings.{Spares}
use pros.Log.Levels.{IsNamed, IsCall, IsCall-Spares, klog-Leaves, klog_prefix, newline}
use pros.Log.Console.{IsLabelled, label_of, log-Leaves}

-- What an error message adds to the serial port, and to the console.
abbrev pub sent_error : List ℕ → List Output → List Output
sent_error out os = puts put_serial (klog_prefix 2 ++ (out ++ newline)) os

abbrev pub shown_error : List ℕ → Vga → Vga
shown_error out v = puts put_char newline (puts put_char out (label_of 2 v))

-- For a message that stands, as a format, for a text, with "Kernel panic!" and the literals apart from
-- the local buffer, and the cursor on the screen: `panic` gets to its last loop; by then the serial
-- port has got both texts as errors, in this order, and then the console the same, and no byte of
-- memory but those of the local buffer has changed.
pub panic-Leaves :
    (buffer fuel : ℕ) (l : Literals) (texts : ℕ → Option (List ℕ)) (m : Mem)
    (kernel_panic message : ℕ) (args title text : List ℕ) (os : List Output) (v : Vga)
    → IsNamed texts l
    → IsLabelled texts l
    → IsValid v
    → IsCall texts buffer fuel m kernel_panic args title
    → IsCall texts buffer fuel m message args text
    → (m' : Mem) × (panic buffer fuel l kernel_panic message args (m, os, v)
        ≡ some (m', sent_error text (sent_error title os), shown_error text (shown_error title v)))
      × Spares buffer m m'
unfolding panic
panic-Leaves buffer fuel l texts m kernel_panic message args title text os v named labelled valid c
      d =
    let (m1, e1, s1) = klog-Leaves buffer fuel l texts named m 2 kernel_panic args title os c in
    let d1 = IsCall-Spares texts buffer fuel m m1 message args text s1 d in
    let (m2, e2, s2) =
      klog-Leaves buffer fuel l texts named m1 2 message args text (sent_error title os) d1 in
    let s02 : Spares buffer m m2 = λ b away. s2 b away ∙ s1 b away in
    let c2 = IsCall-Spares texts buffer fuel m m2 kernel_panic args title s02 c in
    let ((m3, e3, s3), valid3) =
      log-Leaves buffer fuel l texts labelled m2 2 kernel_panic args title v valid c2 in
    let s03 : Spares buffer m m3 = λ b away. s3 b away ∙ s02 b away in
    let d3 = IsCall-Spares texts buffer fuel m m3 message args text s03 d in
    let ((m4, e4, s4), valid4) =
      log-Leaves buffer fuel l texts labelled m3 2 message args text (shown_error title v) valid3
        d3 in
    (m4, rw (panic, e1, e2, e3, e4) refl, λ b away. s4 b away ∙ s03 b away)
