-- ===== src/Vga/Put.antt =====
-- `putChar` against a screen of rows and a cursor: every byte, in every position.
use pros.Prelude.{
  ℕ, ◌+◌, ◌-◌, ◌*◌, ◌≤◌, ◌<◌, ◌≡◌, ◌⊎◌, arith, Bool, true, false, ◌&&◌, ◌==◌, ltb, leb,
  if◌then◌else◌, ◌∙◌, ap, dec_lt, leb_of_lt, ltb_of_lt, ltb_of_le,
}
use mathlib.Core.Path.{sym}
use pros.Vga.{
  Vga, poke, scroll, vga_entry, new_line, print_char, wrap_line, update_cursor, put_char,
}
use pros.Vga.Scroll.{scroll_lem}

-- The cursor is on the screen, whose sizes fit in a byte.
pub record IsValid (v : Vga) : Type 0 where
  pub x_in : v.x < v.width
  pub y_in : v.y < v.height
  pub width_fits : v.width < 256
  pub height_fits : v.height < 256

-- Before `scroll` the cursor may be one row below the screen.
record IsPending (v v' : Vga) : Type 0 where
  x_in : v'.x < v.width
  y_in : v'.y ≤ v.height
  same_width : v'.width ≡ v.width
  same_height : v'.height ≡ v.height
  same_color : v'.color ≡ v.color

typed : Vga → ℕ → Vga
typed v ch = wrap_line (print_char (new_line v ch) ch)

typed-IsPending : (v : Vga) (ch : ℕ) → IsValid v → IsPending v (typed v ch)
unfolding typed new_line print_char wrap_line
typed-IsPending v ch h = ground arith

-- The screen as one row of cells, row behind row: the place of the cursor in it.
abbrev pub position : Vga → ℕ
position v = v.y * v.width + v.x

abbrev pub is_printable : ℕ → Bool
is_printable ch = leb 32 ch && ltb ch 128

-- Where the cursor goes on an endless screen, and the cells there.
unfoldable pub next_position : Vga → ℕ → ℕ
next_position v ch =
    if ch == 10 then (v.y + 1) * v.width else if is_printable ch then position v + 1 else position v

unfoldable pub written : Vga → ℕ → ℕ → ℕ
written v ch j = if is_printable ch && j == position v then vga_entry ch v.color else v.memory j

-- A screen of cells one row further up.
unfoldable pub scrolled : Vga → (ℕ → ℕ) → ℕ → ℕ
scrolled v cells j =
    let n = v.width * v.height in
    if ltb (j + v.width) n
    then cells (j + v.width)
    else if ltb j n
    then vga_entry 32 v.color
    else cells j

-- The cursor and the cells before `scroll`.
record IsTyped (v v' : Vga) (ch : ℕ) : Type 0 where
  at : position v' ≡ next_position v ch
  cells : (j : ℕ) → v'.memory j ≡ written v ch j
  new_row : (v'.y ≡ v.y) ⊎ ((v'.x ≡ 0) × (v'.y ≡ v.y + 1))

typed-IsTyped : (v : Vga) (ch : ℕ) → IsValid v → IsTyped v (typed v ch) ch
unfolding typed new_line print_char wrap_line next_position written poke
typed-IsTyped v ch h = record {
  at = ground arith;
  cells = λ j. ground arith;
  new_row = ground arith;
}

-- What `putChar` leaves: the cursor and the cells of the endless screen, moved up by one row if the
-- cursor would leave the screen.
pub record IsPut (v v' : Vga) (ch : ℕ) : Type 0 where
  pub valid : IsValid v'
  pub same_size : (v'.width ≡ v.width) × (v'.height ≡ v.height)
  pub moved : position v' ≡ (
      if ltb (next_position v ch) (v.width * v.height)
      then next_position v ch
      else next_position v ch - v.width)
  pub shown :
      (j : ℕ)
      → v'.memory j ≡ (
          if ltb (next_position v ch) (v.width * v.height)
          then written v ch j
          else scrolled v (written v ch) j)

size-scroll : (t : Vga) → ((scroll t).width ≡ t.width) × ((scroll t).height ≡ t.height)
unfolding scroll
size-scroll t = ground arith

on_screen : (w h x y : ℕ) → x < w → y < h → ltb (y * w + x) (w * h) ≡ true
on_screen w h x y p q = ltb_of_lt (y * w + x) (w * h) (grind arith)

off_screen : (w h x y : ℕ) → y ≡ h → ltb (y * w + x) (w * h) ≡ false
off_screen w h x y e = ltb_of_le (y * w + x) (w * h) (omega (arith, ap (λ (t : ℕ). t * w) e))

module _ (v t : Vga) (ch : ℕ) (h : IsValid v) (pending : IsPending v t)
    (typing : IsTyped v t ch) where
  same_position : t.y * v.width + t.x ≡ next_position v ch
  same_position = ap (λ (w : ℕ). t.y * w + t.x) (sym pending.same_width) ∙ typing.at

  IsPut-inside : t.y < v.height → IsPut v t ch
  IsPut-inside inside =
      let test : ltb (next_position v ch) (v.width * v.height) ≡ true =
        ap (λ p. ltb p (v.width * v.height)) (sym same_position)
        ∙ on_screen v.width v.height t.x t.y pending.x_in inside in
      record {
        valid = record {
          x_in = omega (arith, pending);
          y_in = omega (arith, pending);
          width_fits = omega (arith, pending);
          height_fits = omega (arith, pending);
        };
        same_size = (pending.same_width, pending.same_height);
        moved = rw test typing.at;
        shown = λ j. rw test (typing.cells j);
      }

  IsPut-below : t.y ≡ v.height → IsPut v (scroll t) ch
  unfolding scrolled
  IsPut-below below =
      let test : ltb (next_position v ch) (v.width * v.height) ≡ false =
        ap (λ p. ltb p (v.width * v.height)) (sym same_position)
        ∙ off_screen v.width v.height t.x t.y below in
      let up = λ (j : ℕ).
        scroll_lem t j (omega (arith, pending)) (omega (arith, pending)) (omega (arith, pending))
          (omega arith) in
      let (size_w, size_h) = size-scroll t in
      let column : t.x ≡ 0 = ground (arith, typing.new_row) in
      let at : position (scroll t) ≡ (scroll t).y * v.width + (scroll t).x =
        ap (λ (w : ℕ). (scroll t).y * w + (scroll t).x) (size_w ∙ pending.same_width) in
      record {
        valid = record {
          x_in = omega (arith, pending, up 0);
          y_in = omega (arith, pending, up 0);
          width_fits = omega (arith, pending);
          height_fits = omega (arith, pending);
        };
        same_size = (size_w ∙ pending.same_width, size_h ∙ pending.same_height);
        moved = rw test (
            omega
              (arith, at, ap (λ (y : ℕ). y * v.width) (up 0).2, (up 0).1, same_position, column));
        shown = λ j. rw test (
            let here =
              rw (pending.same_width, pending.same_height, pending.same_color) at ((up j).0) in
            ground (arith, here, typing.cells j, typing.cells (j + v.width)));
      }

IsPut-update_cursor : (v t : Vga) (ch : ℕ) → IsPut v t ch → IsPut v (update_cursor t) ch
unfolding update_cursor
IsPut-update_cursor v t ch p = record {
  valid = record {
    x_in = p.valid.x_in;
    y_in = p.valid.y_in;
    width_fits = p.valid.width_fits;
    height_fits = p.valid.height_fits;
  };
  same_size = p.same_size;
  moved = p.moved;
  shown = p.shown;
}

scroll_inside : (t : Vga) → t.y < t.height → scroll t ≡ t
unfolding scroll
scroll_inside t h = rw (leb_of_lt t.height t.y h)

-- With the cursor on the screen, and for every byte: `putChar` leaves the cursor on the screen. It
-- behaves as a write to an endless screen (a newline goes to the start of the next row, a printable
-- character is shown at the cursor in the current colour and moves it on by one cell, any other byte
-- does nothing), and where the cursor would leave the screen, the cells and the cursor move up by
-- one row and the last row is blank.
pub put_char-IsPut : (v : Vga) (ch : ℕ) → IsValid v → IsPut v (put_char v ch) ch
unfolding put_char typed
put_char-IsPut v ch h =
    let t = typed v ch in
    let pending = typed-IsPending v ch h in
    let typing = typed-IsTyped v ch h in
    elim (dec_lt t.y v.height) [
      | yes inside ↦ IsPut-update_cursor v (scroll t) ch (
          rw (scroll_inside t (omega (arith, pending)))
            (IsPut-inside v t ch h pending typing inside))
      | no below ↦
          IsPut-update_cursor v (scroll t) ch
            (IsPut-below v t ch h pending typing (omega (arith, pending)))
    ]
