-- ===== src/Vga/Scroll.antt =====
-- The screen after `clear` and after `scroll`, cell by cell.
use pros.Prelude.{
  ℕ, zero, suc, ◌+◌, ◌-◌, ◌*◌, ◌≤◌, ◌<◌, ◌≡◌, inl, inr, arith, ◌&&◌, ltb, leb, if◌then◌else◌, ◌∙◌,
  ap, ltb_of_le, Bool-cases,
}
use pros.Vga.{Vga, poke, move_up, blank_row, scroll, vga_entry, clear_row}

-- While the loop stands at `i`, the cells behind `i - width` are as they were.
move_up_lem :
    (width : ℕ) (memory start : ℕ → ℕ) (left i n j : ℕ)
    → 0 < width
    → i + left ≡ n
    → ((k : ℕ) → memory k ≡ (if ltb (k + width) i then start (k + width) else start k))
    → move_up width memory left i j ≡ (if ltb (j + width) n then start (j + width) else start j)
unfolding move_up
move_up_lem width memory start zero i n j pos e now =
    let e' : i ≡ n = omega arith in
    now j ∙ ap (λ t. if ltb (j + width) t then start (j + width) else start j) e'
move_up_lem width memory start (suc left) i n j pos e now =
    move_up_lem width (if ltb i width then memory else poke memory (i - width) (memory i)) start
      left (i + 1) n j pos (omega arith) next
  where
    next :
        (k : ℕ)
        → (if ltb i width then memory else poke memory (i - width) (memory i)) k
          ≡ (if ltb (k + width) (i + 1) then start (k + width) else start k)
    next k =
        unfold poke in
        elim (Bool-cases (ltb i width)) [
          | inl low ↦ rw low (ground (arith, now k))
          | inr high ↦ rw high (ground (arith, now k, now i, ap start {x = k + width} {y = i}))
        ]

blank_row_lem :
    (start blank : ℕ) (memory : ℕ → ℕ) (left i j : ℕ)
    → blank_row start blank memory left i j
      ≡ (if leb (start + i) j && ltb j (start + i + left) then blank else memory j)
unfolding blank_row poke
blank_row_lem start blank memory zero i j = ground arith
blank_row_lem start blank memory (suc left) i j =
    ground (arith, blank_row_lem start blank (poke memory (start + i) blank) left (i + 1) j)

-- What `scroll` does when the cursor is below the last row: each row moves up, the last row becomes
-- blank in the current colour, no cell outside the screen changes, and the cursor goes to the start
-- of the row above.
pub scroll_lem :
    (v : Vga) (j : ℕ)
    → 0 < v.width
    → 0 < v.height
    → v.height ≤ v.y
    → v.y < 256
    → ((scroll v).memory j ≡ (
        if ltb (j + v.width) (v.width * v.height)
        then v.memory (j + v.width)
        else if ltb j (v.width * v.height)
        then vga_entry 32 v.color
        else v.memory j))
      × ((scroll v).x ≡ 0)
      × ((scroll v).y + 1 ≡ v.y)
unfolding scroll
scroll_lem v j w h below small =
    let n = v.width * v.height in
    let start = (v.height - 1) * v.width in
    let blank = vga_entry 32 v.color in
    let moved = move_up v.width v.memory n 0 in
    let whole : start + v.width ≡ n =
      let e : v.height ≡ v.height - 1 + 1 = omega arith in
      omega (arith, ap (λ (t : ℕ). v.width * t) e) in
    let up =
      move_up_lem v.width v.memory v.memory n 0 n j w (omega arith)
        (λ k. rw (ltb_of_le (k + v.width) 0 (omega arith))) in
    ground (arith, up, whole, blank_row_lem start blank moved v.width 0 j)

clear_row_lem :
    (v : Vga) (left i j k : ℕ)
    → (clear_row v left i j).memory k ≡ (
        if leb (i * v.width + j) k && ltb k (i * v.width + j + left)
        then vga_entry 32 v.color
        else v.memory k)
unfolding clear_row poke
clear_row_lem v zero i j k = ground arith
clear_row_lem v (suc left) i j k =
    let v' = record v { memory = poke v.memory (i * v.width + j) (vga_entry 32 v.color) } in
    ground (arith, clear_row_lem v' left i (j + 1) k)
