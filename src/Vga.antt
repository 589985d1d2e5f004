-- ===== src/Vga.antt =====
-- The text console, Kernel/include/VGA.hpp and Kernel/src/VGA.cpp. The cells of the screen are a
-- function of their index from `memory` on, and the port writes are a list, the last one first.
pub mod Scroll
pub mod Put
pub mod Cursor
mod Tests
use pros.Prelude.{
  ℕ, zero, suc, ◌+◌, ◌-◌, ◌*◌, ◌%◌, ◌^◌, Bool, true, false, ◌&&◌, List, [], ◌∷◌, ◌==◌, ltb, leb,
  if◌then◌else◌, u8, u16, bit_and, bit_or, ◌<<<◌, ◌>>>◌,
}
use pros.Port.{Output, output}

-- The signed byte `ch` as u16.
abbrev pub extend16 : ℕ → ℕ
extend16 ch = if ltb ch 128 then ch else ch + 0xFF00

unfoldable pub vga_color : (foreground background : ℕ) → ℕ
vga_color foreground background = u8 (bit_or foreground (background <<< 4))

unfoldable pub vga_entry : (ch color : ℕ) → ℕ
vga_entry ch color = u16 (bit_or (extend16 ch) (color <<< 8))

pub record Vga : Type 0 where
  pub width : ℕ
  pub height : ℕ
  pub x : ℕ
  pub y : ℕ
  pub text_color : ℕ
  pub background_color : ℕ
  pub color : ℕ
  pub memory : ℕ → ℕ
  pub outputs : List Output

abbrev pub command_port : ℕ
command_port = 0x3D4

abbrev pub data_port : ℕ
data_port = 0x3D5

-- The constructor, on a screen that holds `memory`.
unfoldable pub construct : (ℕ → ℕ) → Vga
unfolding vga_color
construct memory = record {
  width = 80;
  height = 25;
  x = 0;
  y = 0;
  text_color = 7;
  background_color = 0;
  color = vga_color 7 0;
  memory = memory;
  outputs = [];
}

unfoldable pub poke : (ℕ → ℕ) → ℕ → ℕ → (ℕ → ℕ)
poke memory i v j = if j == i then v else memory j

-- The inner loop of `clear`, at column `j` of row `i`.
unfoldable pub clear_row : Vga → (left i j : ℕ) → Vga
clear_row v zero i j = v
clear_row v (suc left) i j =
    clear_row (record v { memory = poke v.memory (i * v.width + j) (vga_entry 32 v.color) }) left i
      (j + 1)

unfoldable pub clear_rows : Vga → (left i : ℕ) → Vga
clear_rows v zero i = v
clear_rows v (suc left) i = clear_rows (clear_row v v.width i 0) left (i + 1)

unfoldable pub clear : Vga → Vga
unfolding clear_rows clear_row poke vga_entry
clear v = clear_rows v v.height 0

-- The first loop of `scroll`, at cell `i`: each cell moves up by a row.
unfoldable pub move_up : (width : ℕ) → (ℕ → ℕ) → (left i : ℕ) → (ℕ → ℕ)
move_up width memory zero i = memory
move_up width memory (suc left) i =
    move_up width (if ltb i width then memory else poke memory (i - width) (memory i)) left (i + 1)

-- The second loop of `scroll`, at column `i`: the last row becomes blank.
unfoldable pub blank_row : (start blank : ℕ) → (ℕ → ℕ) → (left i : ℕ) → (ℕ → ℕ)
blank_row start blank memory zero i = memory
blank_row start blank memory (suc left) i =
    blank_row start blank (poke memory (start + i) blank) left (i + 1)

unfoldable pub scroll : Vga → Vga
scroll v =
    if leb v.height v.y
    then record v {
      memory =
          blank_row ((v.height - 1) * v.width) (vga_entry 32 v.color)
            (move_up v.width v.memory (v.width * v.height) 0) v.width 0;
      y = u8 (v.y + 255);
      x = 0;
    }
    else v

unfoldable pub update_cursor : Vga → Vga
update_cursor v =
    let pos = v.y * v.width + v.x in
    record v {
      outputs =
          output data_port (u8 (bit_and (pos >>> 8) 0xFF))
          ∷ output command_port 0x0E
          ∷ output data_port (u8 (bit_and pos 0xFF))
          ∷ output command_port 0x0F
          ∷ v.outputs;
    }

-- The steps of `putChar` before `scroll`. A byte from 128 on is negative as a `char`, so that it
-- is not printed.
unfoldable pub new_line : Vga → ℕ → Vga
new_line v ch = if ch == 10 then record v { x = 0; y = u8 (v.y + 1) } else v

unfoldable pub print_char : Vga → ℕ → Vga
print_char v ch =
    if leb 32 ch && ltb ch 128
    then record v {
      memory = poke v.memory (v.y * v.width + v.x) (vga_entry ch v.color);
      x = u8 (v.x + 1);
    }
    else v

unfoldable pub wrap_line : Vga → Vga
wrap_line v = if leb v.width v.x then record v { x = 0; y = u8 (v.y + 1) } else v

unfoldable pub put_char : Vga → ℕ → Vga
put_char v ch = update_cursor (scroll (wrap_line (print_char (new_line v ch) ch)))

unfoldable pub set_text_color : Vga → ℕ → Vga
set_text_color v color = record v { text_color = color; color = vga_color color v.background_color }

unfoldable pub set_background_color : Vga → ℕ → Vga
set_background_color v color = record v {
  background_color = color;
  color = vga_color v.text_color color;
}
