-- ===== src/Ata/Transfer.antt =====
-- The bytes that `ATA::read` copies, across the borders of sectors.
use pros.Prelude.{
  ℕ, zero, suc, ◌+◌, ◌-◌, ◌*◌, ◌/◌, ◌%◌, ◌^◌, ◌≤◌, ◌<◌, ◌≡◌, ◌⊎◌, inl, inr, arith, ◌∙◌, ap, some,
  ◌==◌, leb, ltb, ◌&&◌, if◌then◌else◌, u32, sub32, leb_of_le, ltb_of_lt, dec_lt,
}
use mathlib.Core.Path.{ap₂}
use pros.Memory.{Mem, load8}
use pros.CString.{memcpy}
use pros.CString.Block.{memcpy_lem}
use pros.Ata.Serves.{Serves, byte_of, read_loop-stop, read_loop-step}
use pros.Ata.{Sectors, sector_size, sector_offset, read_size, read_loop, read}

module _ {W : Type 0} (o : Sectors W) (disk : ℕ → ℕ → ℕ) (buf size offset : ℕ)
    (serves : Serves o disk buf size) (pos : 0 < size) (small : size < 2 ^ 32)
    (fits : offset + size ≤ 2 ^ 32) where
  abbrev last : ℕ
  last = offset + size - 1

  abbrev start : ℕ
  start = offset / sector_size

  abbrev end : ℕ
  end = last / sector_size

  -- The disk bytes below this one have been copied when the loop reaches sector `counter`.
  abbrev reached : ℕ → ℕ
  reached counter =
      if counter == start
      then offset
      else if leb counter end
      then counter * sector_size
      else offset + size

  Done : ℕ → W → Type 0
  Done n w = (b : ℕ) → offset ≤ b → b < n → load8 (o.mem w) (buf + (b - offset)) ≡ byte_of disk b

  -- The sector `counter` gives the bytes up to where the next begins.
  read_size_lem :
      (counter : ℕ)
      → start ≤ counter
      → counter ≤ end
      → (read_size start (offset % sector_size) end (last % sector_size) counter + reached counter
          ≡ reached (counter + 1))
        × (counter * sector_size + sector_offset start (offset % sector_size) counter
            ≡ reached counter)
        × (sector_offset start (offset % sector_size) counter
              + read_size start (offset % sector_size) end (last % sector_size) counter
            ≤ sector_size)
        × (reached (counter + 1) ≤ offset + size)
        × (offset ≤ reached counter)
  read_size_lem counter lo hi = ground arith

  -- One round of the loop, from the world `w1` that `readSector` leaves.
  module _ (counter p : ℕ) (w w1 : W) (lo : start ≤ counter) (hi : counter ≤ end)
      (bytes : (i : ℕ) → i < sector_size → load8 (o.mem w1) (p + i) ≡ disk counter i)
      (keeps : (b : ℕ) → buf ≤ b → b < buf + size → load8 (o.mem w1) b ≡ load8 (o.mem w) b)
      (apart : (buf + size ≤ p) ⊎ (p + sector_size ≤ buf)) where
    abbrev skip : ℕ
    skip = sector_offset start (offset % sector_size) counter

    abbrev count : ℕ
    count = read_size start (offset % sector_size) end (last % sector_size) counter

    abbrev at : ℕ
    at = buf + (reached counter - offset)

    copied : Mem
    copied = memcpy (o.mem w1) at (p + skip) count

    copied_apart : (at + count ≤ p + skip) ⊎ (p + skip + count ≤ at)
    copied_apart = separate apart (read_size_lem counter lo hi)
      where
        separate :
            (buf + size ≤ p) ⊎ (p + sector_size ≤ buf)
            → (count + reached counter ≡ reached (counter + 1))
              × (counter * sector_size + skip ≡ reached counter)
              × (skip + count ≤ sector_size)
              × (reached (counter + 1) ≤ offset + size)
              × (offset ≤ reached counter)
            → (at + count ≤ p + skip) ⊎ (p + skip + count ≤ at)
        separate (inl h) f = inl (omega arith)
        separate (inr h) f = inr (omega arith)

    copied-load8 :
        (b : ℕ)
        → load8 copied b ≡ (
            if leb at b && ltb b (at + count)
            then load8 (o.mem w1) (p + skip + (b - at))
            else load8 (o.mem w1) b)
    unfolding copied
    copied-load8 b = memcpy_lem (o.mem w1) at (p + skip) count b copied_apart

    copied_outside : (b : ℕ) → (b < buf) ⊎ (buf + size ≤ b) → load8 copied b ≡ load8 (o.mem w1) b
    copied_outside b (inl h) = ground (arith, copied-load8 b)
    copied_outside b (inr h) =
        let above : at + count ≤ b = omega (arith, read_size_lem counter lo hi) in
        copied-load8 b ∙ ground arith

    copied-Done :
        Done (reached counter) w
        → (b : ℕ) → offset ≤ b
        → b < reached (counter + 1)
        → load8 copied (buf + (b - offset)) ≡ byte_of disk b
    unfolding Done
    copied-Done done b from to = elim (dec_lt b (reached counter)) [
      | yes early ↦
          let y = buf + (b - offset) in
          let below : y < at = omega arith in
          let inside : y < buf + size = omega (arith, read_size_lem counter lo hi) in
          copied-load8 y ∙ ground (arith, keeps y (omega arith) inside, done b from early)
      | no late ↦
          let y = buf + (b - offset) in
          let i = skip + (b - reached counter) in
          let facts = read_size_lem counter lo hi in
          let above : at ≤ y = omega (arith, facts) in
          let below : y < at + count = omega (arith, facts) in
          let small : i < sector_size = omega (arith, facts) in
          let place : p + skip + (y - at) ≡ p + i = omega (arith, facts) in
          let row : counter ≡ b / sector_size = omega (arith, facts) in
          let column : i ≡ b % sector_size = omega (arith, facts) in
          copied-load8 y
          ∙ rw (leb_of_le at y above, ltb_of_lt y (at + count) below)
              (ap (load8 (o.mem w1)) place ∙ bytes i small ∙ ap₂ disk row column)
    ]

  -- The arguments of the next round.
  next_round :
      (fuel : ℕ) (w2 : W) (counter : ℕ)
      → (read_size start (offset % sector_size) end (last % sector_size) counter + reached counter
          ≡ reached (counter + 1))
        × (counter * sector_size + sector_offset start (offset % sector_size) counter
            ≡ reached counter)
        × (sector_offset start (offset % sector_size) counter
              + read_size start (offset % sector_size) end (last % sector_size) counter
            ≤ sector_size)
        × (reached (counter + 1) ≤ offset + size)
        × (offset ≤ reached counter)
      → counter < 2 ^ 23
      → read_loop o fuel start
          (offset % sector_size)
          end
          (last % sector_size)
          (u32 (counter + 1))
          (buf
            + (reached counter - offset)
            + read_size start (offset % sector_size) end (last % sector_size) counter)
          (u32 (
            reached counter
            - offset
            + read_size start (offset % sector_size) end (last % sector_size) counter))
          w2
        ≡ read_loop o fuel start
            (offset % sector_size)
            end
            (last % sector_size)
            (counter + 1)
            (buf + (reached (counter + 1) - offset))
            (reached (counter + 1) - offset)
            w2
  next_round fuel w2 counter facts bound =
      let c : u32 (counter + 1) ≡ counter + 1 = omega arith in
      let b : buf
            + (reached counter - offset)
            + read_size start (offset % sector_size) end (last % sector_size) counter
          ≡ buf + (reached (counter + 1) - offset) =
        omega (arith, facts) in
      let t : u32 (
            reached counter
            - offset
            + read_size start (offset % sector_size) end (last % sector_size) counter)
          ≡ reached (counter + 1) - offset =
        omega (arith, facts) in
      λ i.
        read_loop o fuel start (offset % sector_size) end (last % sector_size) (c i) (b i) (t i) w2

  loop-Done :
      (fuel counter left : ℕ) (w : W)
      → start ≤ counter
      → counter + left ≡ end + 1
      → end + 1 < counter + fuel
      → serves.Ready left w
      → Done (reached counter) w
      → (w' : W) × (read_loop o fuel start
            (offset % sector_size)
            end
            (last % sector_size)
            counter
            (buf + (reached counter - offset))
            (reached counter - offset)
            w
          ≡ some (size, w'))
        × serves.Ready 0 w'
        × Done (offset + size) w'
  unfolding copied Done
  loop-Done zero counter left w lo hi enough ready done = absurd (omega arith)
  loop-Done (suc fuel) counter zero w lo hi enough ready done =
      let all : reached counter ≡ offset + size = ground arith in
      (
        w,
        read_loop-stop o fuel start (offset % sector_size) end (last % sector_size) counter
              (buf + (reached counter - offset)) (reached counter - offset) w (omega arith)
            ∙ ap (λ t. some (t, w)) (omega arith),
        ready,
        λ b from to. done b from (omega arith),
      )
  loop-Done (suc fuel) counter (suc left) w lo hi enough ready done =
      let inside : counter ≤ end = omega arith in
      let (p, w1, run, ready1, bytes, keeps, apart) =
        serves.sector left counter w (omega arith) ready in
      let m = copied counter p w w1 lo inside bytes keeps apart in
      let w2 = o.put w1 m in
      let facts = read_size_lem counter lo inside in
      let ready2 =
        serves.put-Ready left w1 m ready1
          (copied_outside counter p w w1 lo inside bytes keeps apart) in
      let done2 : Done (reached (counter + 1)) w2 = λ b from to.
        ap (λ (x : Mem). load8 x (buf + (b - offset))) (serves.mem-put w1 m)
        ∙ copied-Done counter p w w1 lo inside bytes keeps apart done b from to in
      let (w', runs, ready', done') =
        loop-Done fuel (counter + 1) left w2 (omega arith) (omega arith) (omega arith) ready2
          done2 in
      (
        w',
        read_loop-step o fuel start (offset % sector_size) end (last % sector_size) counter
              (buf + (reached counter - offset)) (reached counter - offset) w p w1 inside run
            ∙ next_round fuel w2 counter facts (omega arith)
            ∙ runs,
        ready',
        done',
      )

  -- The sectors that the request touches.
  abbrev pub sectors : ℕ
  sectors = end + 1 - start

  -- With a working `readSector` that is ready for its sectors, for a request of at least one byte that
  -- ends within 4 GB, and with fuel for its sectors: `ATA::read` returns the number of bytes asked for, and the buffer holds
  -- the bytes of the disk from the offset on.
  pub read-bytes :
      (fuel : ℕ) (w : W)
      → size + 1024 < fuel * sector_size
      → serves.Ready sectors w
      → (w' : W) × (read o fuel offset size buf w ≡ some (size, w'))
        × ((i : ℕ) → i < size → load8 (o.mem w') (buf + i) ≡ byte_of disk (offset + i))
  unfolding read Done
  read-bytes fuel w enough ready =
      let from : reached start ≡ offset = ground arith in
      let empty : Done (reached start) w = λ b lo hi. absurd (omega arith) in
      let (w', runs, ready', done) =
        loop-Done fuel start sectors w (omega arith) (omega arith) (omega arith) ready empty in
      let wrap : sub32 (u32 (offset + size)) 1 ≡ last = omega arith in
      let b : buf ≡ buf + (reached start - offset) = omega arith in
      let t : 0 ≡ reached start - offset = omega arith in
      (
        w',
        (λ i.
              read_loop o fuel start (offset % sector_size) (wrap i / sector_size)
                (wrap i % sector_size) start (b i) (t i) w)
            ∙ runs,
        λ i h.
            ap (λ k. load8 (o.mem w') (buf + k)) (omega arith)
            ∙ done (offset + i) (omega arith) (omega arith),
      )
