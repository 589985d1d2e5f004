-- ===== src/Vga/Cursor.antt =====
-- The hardware cursor, and the colours.
use pros.Prelude.{
  ℕ, ◌+◌, ◌*◌, ◌/◌, ◌^◌, ◌<◌, ◌≡◌, arith, ◌∷◌, u8, bit_and, bit_or, refl, ◌≤◌, ltb_of_lt, ◌>>>◌,
}
use pros.Bits.Masks.{bit_and-mask, bit_or-fields, bit_or_comm}
use pros.Port.{output}
use pros.Vga.{Vga, command_port, data_port, update_cursor, vga_color, vga_entry}
use pros.Vga.Put.{IsValid, position}

position-lt : (w h x y : ℕ) → x < w → y < h → w < 256 → h < 256 → y * w + x < 65536
position-lt w h x y p q r s =
    let row : y * w + x < h * w = grind arith in
    let cells : h * w ≤ 255 * w = grind arith in omega arith

-- With the cursor on the screen, `updateCursor` sends two bytes, each behind the number of its
-- register, and the two make up the position of the cursor; the rest of the state is unchanged.
pub update_cursor-position :
    (v : Vga)
    → IsValid v
    → (low : ℕ) × (high : ℕ) × ((update_cursor v).outputs
        ≡ output data_port high
          ∷ output command_port 0x0E
          ∷ output data_port low
          ∷ output command_port 0x0F
          ∷ v.outputs)
      × (high * 256 + low ≡ position v)
      × (update_cursor v ≡ record v { outputs = (update_cursor v).outputs })
unfolding update_cursor
update_cursor-position v h =
    let pos = position v in
    let small : pos < 65536 =
      position-lt v.width v.height v.x v.y h.x_in h.y_in h.width_fits h.height_fits in
    (
      u8 (bit_and pos 0xFF),
      u8 (bit_and (pos >>> 8) 0xFF),
      refl,
      omega (arith, bit_and-mask 8 pos, bit_and-mask 8 (pos / 256)),
      refl,
    )

-- For colours of four bits, the text colour is in the low half of the attribute and the background
-- colour in the high half; an entry for a printable character has that character in its low byte
-- and the attribute in its high byte.
pub vga_entry_fields :
    (ch foreground background : ℕ)
    → ch < 128
    → foreground < 16
    → background < 16
    → (vga_entry ch (vga_color foreground background) ≡ ch + 256 * (foreground + 16 * background))
unfolding vga_entry vga_color
vga_entry_fields ch foreground background c f b =
    let attribute : u8 (bit_or foreground (background * 2 ^ 4)) ≡ foreground + 16 * background =
      omega (
        arith,
        bit_or_comm foreground (background * 2 ^ 4),
        bit_or-fields 4 background foreground f,
      ) in
    rw (ltb_of_lt ch 128 c, attribute)
      (omega (
        arith,
        bit_or_comm ch ((foreground + 16 * background) * 2 ^ 8),
        bit_or-fields 8 (foreground + 16 * background) ch (omega arith),
      ))
