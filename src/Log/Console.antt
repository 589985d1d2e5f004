-- ===== src/Log/Console.antt =====
-- `log` on the console.
use pros.Prelude.{
  ℕ, ◌≡◌, refl, Option, some, List, [], ◌∷◌, ◌==◌, if◌then◌else◌, Bool-cases, inl, inr,
}
use pros.Memory.{Mem}
use pros.Vga.{Vga, put_char, set_text_color}
use pros.Vga.Put.{IsValid, put_char-IsPut}
use pros.Log.{
  Literals, print, show, show_level, show_prefix, log, green, red, light_red, light_grey,
}
use pros.Log.Bytes.{puts}
use pros.Log.Render.{render}
use pros.Log.Strings.{Words, Holds, Holds-Spares}
use pros.Log.Format.{printf-render}
use pros.Log.Levels.{newline, printf-literal, Leaves, Leaves-bind, IsCall, IsCall-Spares}

abbrev pub open_text : List ℕ
open_text = b'[' ∷ []

abbrev pub close_text : List ℕ
close_text = b']' ∷ b' ' ∷ []

abbrev pub log_text : List ℕ
log_text = b' ' ∷ b'L' ∷ b'O' ∷ b'G' ∷ b' ' ∷ []

abbrev pub warn_text : List ℕ
warn_text = b' ' ∷ b'W' ∷ b'A' ∷ b'R' ∷ b'N' ∷ b' ' ∷ []

abbrev pub err_text : List ℕ
err_text = b' ' ∷ b'E' ∷ b'R' ∷ b'R' ∷ b' ' ∷ []

-- The texts stand at the addresses of the literals.
pub record IsLabelled (texts : ℕ → Option (List ℕ)) (l : Literals) : Type 0 where
  pub newline_at : texts l.newline ≡ some newline
  pub open_at : texts l.open_bracket ≡ some open_text
  pub close_at : texts l.close_bracket ≡ some close_text
  pub log_at : texts l.log_level ≡ some log_text
  pub warn_at : texts l.warn_level ≡ some warn_text
  pub err_at : texts l.err_level ≡ some err_text

-- A level's label: its name in a colour, between brackets, and light grey from there on.
abbrev pub label : (color : ℕ) (name : List ℕ) → Vga → Vga
label color name v =
    let v = set_text_color (puts put_char open_text v) color in
    puts put_char close_text (set_text_color (puts put_char name v) light_grey)

abbrev pub label_of : (level : ℕ) → Vga → Vga
label_of level v =
    if level == 0
    then label green log_text v
    else if level == 1
    then label light_red warn_text v
    else if level == 2
    then label red err_text v
    else v

set_text_color-IsValid : (v : Vga) (color : ℕ) → IsValid v → IsValid (set_text_color v color)
unfolding set_text_color
set_text_color-IsValid v color h = record {
  x_in = h.x_in;
  y_in = h.y_in;
  width_fits = h.width_fits;
  height_fits = h.height_fits;
}

puts-IsValid : (cs : List ℕ) (v : Vga) → IsValid v → IsValid (puts put_char cs v)
unfolding puts
puts-IsValid [] v h = h
puts-IsValid (c ∷ cs) v h = puts-IsValid cs (put_char v c) (put_char-IsPut v c h).valid

label-IsValid : (color : ℕ) (name : List ℕ) (v : Vga) → IsValid v → IsValid (label color name v)
label-IsValid color name v h = puts-IsValid close_text _ (
    set_text_color-IsValid _ light_grey
      (puts-IsValid name _ (set_text_color-IsValid _ color (puts-IsValid open_text v h))))

label_of-IsValid : (level : ℕ) (v : Vga) → IsValid v → IsValid (label_of level v)
label_of-IsValid level v h = elim (Bool-cases (level == 0)) [
  | inl e ↦ rw e (label-IsValid green log_text v h)
  | inr n0 ↦ elim (Bool-cases (level == 1)) [
    | inl e ↦ rw (n0, e) (label-IsValid light_red warn_text v h)
    | inr n1 ↦ elim (Bool-cases (level == 2)) [
      | inl e ↦ rw (n0, n1, e) (label-IsValid red err_text v h)
      | inr n2 ↦ rw (n0, n1, n2) h
    ]
  ]
]

module _ (buffer fuel : ℕ) (l : Literals) (texts : ℕ → Option (List ℕ))
    (labelled : IsLabelled texts l) where
  show-literal :
      (m : Mem) (a : ℕ) (args t : List ℕ) (v : Vga)
      → Holds texts buffer fuel m
      → texts a ≡ some t
      → Words args
      → render texts t args ≡ some t
      → Leaves buffer m (puts put_char t v) (show buffer fuel l a args (m, v))
  unfolding show print
  show-literal m a args t v holds here words same =
      printf-literal put_char buffer fuel texts m a args t v holds here words same

  show-format :
      (m : Mem) (format : ℕ) (args out : List ℕ) (v : Vga)
      → IsCall texts buffer fuel m format args out
      → Leaves buffer m (puts put_char out v) (show buffer fuel l format args (m, v))
  unfolding show print
  show-format m format args out v c =
      printf-render put_char buffer fuel texts m format c.cs args out v c.holds c.at c.clear c.short
        c.words c.renders

  show_level-Leaves :
      (m : Mem) (color name : ℕ) (args t : List ℕ) (v : Vga)
      → Holds texts buffer fuel m
      → texts name ≡ some t
      → Words args
      → render texts t args ≡ some t
      → Leaves buffer m (label color t v) (show_level buffer fuel l color name args (m, v))
  unfolding show_level render
  show_level-Leaves m color name args t v holds here words same =
      let v1 = puts put_char open_text v in
      let v2 = puts put_char t (set_text_color v1 color) in
      Leaves-bind buffer m v1 (label color t v) (show buffer fuel l l.open_bracket args (m, v)) _
        (show-literal m l.open_bracket args open_text v holds labelled.open_at words refl)
        (λ m1 same1.
          let holds1 = Holds-Spares texts buffer fuel m m1 same1 holds in
          Leaves-bind buffer m1 v2 (label color t v)
            (show buffer fuel l name args (m1, set_text_color v1 color)) _
            (show-literal m1 name args t (set_text_color v1 color) holds1 here words same)
            (λ m2 same2.
              let holds2 = Holds-Spares texts buffer fuel m1 m2 same2 holds1 in
              show-literal m2 l.close_bracket args close_text (set_text_color v2 light_grey) holds2
                labelled.close_at words refl))

  show_prefix-Leaves :
      (m : Mem) (level : ℕ) (args : List ℕ) (v : Vga)
      → Holds texts buffer fuel m
      → Words args
      → Leaves buffer m (label_of level v) (show_prefix buffer fuel l level args (m, v))
  unfolding show_prefix render
  show_prefix-Leaves m level args v holds words = elim (Bool-cases (level == 0)) [
    | inl e ↦
        rw e
          (show_level-Leaves m green l.log_level args log_text v holds labelled.log_at words refl)
    | inr n0 ↦ elim (Bool-cases (level == 1)) [
      | inl e ↦
          rw (n0, e)
            (show_level-Leaves m light_red l.warn_level args warn_text v holds labelled.warn_at
              words refl)
      | inr n1 ↦ elim (Bool-cases (level == 2)) [
        | inl e ↦
            rw (n0, n1, e)
              (show_level-Leaves m red l.err_level args err_text v holds labelled.err_at words refl)
        | inr n2 ↦ rw (n0, n1, n2) (m, refl, λ b away. refl)
      ]
    ]
  ]

  -- For a format that stands for a text with its arguments, literals that stand apart from the local
  -- buffer, and the cursor on the screen: `log` returns; the console has shown the label of the level
  -- in its colours (none for a level above 2), the text and a newline, as `putChar` shows them one
  -- after the other; and the cursor is on the screen.
  pub log-Leaves :
      (m : Mem) (level format : ℕ) (args out : List ℕ) (v : Vga)
      → IsValid v
      → IsCall texts buffer fuel m format args out
      → let v' = puts put_char newline (puts put_char out (label_of level v)) in
        Leaves buffer m v' (log buffer fuel l level format args (m, v)) × IsValid v'
  unfolding log render
  log-Leaves m level format args out v valid c =
      let v1 = label_of level v in
      let v2 = puts put_char out v1 in
      (
        Leaves-bind buffer m v1 (puts put_char newline v2)
            (show_prefix buffer fuel l level args (m, v)) _
            (show_prefix-Leaves m level args v c.holds c.words)
            (λ m1 same.
              let c1 = IsCall-Spares texts buffer fuel m m1 format args out same c in
              Leaves-bind buffer m1 v2 (puts put_char newline v2)
                (show buffer fuel l format args (m1, v1)) _ (show-format m1 format args out v1 c1)
                (λ m2 same2.
                  let c2 = IsCall-Spares texts buffer fuel m1 m2 format args out same2 c1 in
                  show-literal m2 l.newline args newline v2 c2.holds labelled.newline_at c2.words
                    refl)),
        puts-IsValid newline v2 (puts-IsValid out v1 (label_of-IsValid level v valid)),
      )
