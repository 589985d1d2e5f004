-- ===== src/Vga/Tests.antt =====
-- Bytes written to the console at the last cell of a small screen.
use pros.Prelude.{ℕ, arith, []}
use pros.Vga.{Vga, put_char}
use pros.Vga.Put.{IsValid, IsPut, put_char-IsPut}

-- Three columns and two rows.
abbrev at : (x y : ℕ) → Vga
at x y = record {
  width = 3;
  height = 2;
  x = x;
  y = y;
  text_color = 7;
  background_color = 0;
  color = 7;
  memory = λ j. j;
  outputs = [];
}

last_cell-IsValid : IsValid (at 2 1)
last_cell-IsValid = record {
  x_in = omega arith;
  y_in = omega arith;
  width_fits = omega arith;
  height_fits = omega arith;
}

put_char-IsPut_example : IsPut (at 2 1) (put_char (at 2 1) 65) 65
put_char-IsPut_example = put_char-IsPut (at 2 1) 65 last_cell-IsValid
