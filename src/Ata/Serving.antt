-- ===== src/Ata/Serving.antt =====
-- `readSector` with a disk drive: the bytes of the sector in the buffer.
use mathlib.Core.Path.{subst}
use pros.Prelude.{
  ℕ, zero, suc, ◌+◌, ◌*◌, ◌/◌, ◌%◌, ◌^◌, ◌≤◌, ◌<◌, ◌≡◌, ◌⊎◌, inl, inr, refl, arith, ◌∙◌, ap, some,
  ℕ_discrete, bit_and, ◌>>>◌,
}
use pros.Memory.{Mem, load8, store8}
use pros.Heap.{Heap, malloc}
use pros.Ata.{Ata, command_port, sector_size, wait, fetch, send_read, read_sector}
use pros.Ata.Command.{registers}
use pros.Ata.Sector.{status, less, IsFetched, step-IsFetched}
use pros.Ata.Device.{Device, word, disk_drive, send_read-seek, read_status-command, read_data-ready}

module _ (a : Ata) (disk : ℕ → ℕ → ℕ) (delay : ℕ → ℕ) where
  -- Fuel for the busy drive, and one step more, is enough.
  pub wait-seek :
      (b : Ata) (fuel busy : ℕ) (d : Device)
      → command_port b ≡ command_port a
      → busy < fuel
      → wait (disk_drive a disk delay) fuel b (status busy) (record d { busy = less busy })
        ≡ some (0x58, record d { busy = 0 })
  unfolding wait
  wait-seek b zero busy d port h = absurd (omega arith)
  wait-seek b (suc fuel) zero d port h = refl
  wait-seek b (suc fuel) (suc busy) d port h =
      ap (λ (r : ℕ × Device). wait (disk_drive a disk delay) fuel b r.0 r.1)
        (read_status-command a disk delay (record d { busy = busy }) (command_port b) port)
      ∙ wait-seek b fuel busy d port (omega arith)

  -- One word that is there.
  fetch-step :
      (buf left i : ℕ) (m : Mem) (d : Device)
      → d.busy ≡ 0
      → d.position < 256
      → let w = d.words d.position in
        fetch (disk_drive a disk delay) a buf (suc left) i m d
        ≡ fetch
            (disk_drive a disk delay)
            a
            buf
            left
            (i + 2)
            (store8
              (store8 m (buf + i) (bit_and w 0x00FF))
              (buf + i + 1)
              (bit_and (w >>> 8) 0x00FF))
            (record d { position = d.position + 1 })
  unfolding fetch
  fetch-step buf left i m d idle more =
      ap
        (λ (r : ℕ × Device).
          fetch (disk_drive a disk delay) a buf left (i + 2)
            (store8 (store8 m (buf + i) (bit_and r.0 0x00FF)) (buf + i + 1)
              (bit_and (r.0 >>> 8) 0x00FF))
            r.1)
        (read_data-ready a disk delay d idle more)

  -- As many words as there are.
  fetch-IsFetched :
      (buf left i : ℕ) (m : Mem) (d : Device)
      → d.busy ≡ 0
      → d.position + left ≤ 256
      → let (m', d') = fetch (disk_drive a disk delay) a buf left i m d in
        IsFetched d.words (buf + i) left d.position m m' × (d'.busy ≡ 0)
  unfolding fetch
  fetch-IsFetched buf zero i m d idle more = (
    record {
      low = λ j p e h. ground arith;
      high = λ j p e h. ground arith;
      before = λ p h. refl;
      after = λ p h. refl;
    },
    idle,
  )
  fetch-IsFetched buf (suc left) i m d idle more =
      let (f, e) =
        fetch-IsFetched buf left (i + 2) _ (record d { position = d.position + 1 }) idle
          (omega arith) in
      rw (fetch-step buf left i m d idle (omega arith)) (
        step-IsFetched d.words (buf + i) (buf + (i + 2)) left d.position (d.position + 1) m _
            (omega arith) refl f,
        e,
      )

  -- The bytes of a sector, from its words.
  bytes-word :
      (bytes : ℕ → ℕ) (at i : ℕ) (m m' : Mem)
      → ((k : ℕ) → bytes k < 256)
      → IsFetched (word bytes) at 256 0 m m'
      → i < sector_size
      → load8 m' (at + i) ≡ bytes i
  bytes-word bytes at i m m' small f h = elim (ℕ_discrete (i % 2) 0) [
    | yes even ↦
        let j = i / 2 in
        let same : 2 * (0 + j) ≡ i = omega arith in
        f.low j (at + i) (omega arith) (omega arith)
        ∙ omega (arith, small (2 * (0 + j)), small (2 * (0 + j) + 1))
        ∙ ap bytes same
    | no odd ↦
        let j = i / 2 in
        let same : 2 * (0 + j) + 1 ≡ i = omega arith in
        f.high j (at + i) (omega arith) (omega arith)
        ∙ omega (arith, small (2 * (0 + j)), small (2 * (0 + j) + 1))
        ∙ ap bytes same
  ]

  -- For ports and a sector number that fit, an idle drive with a disk of bytes, and fuel for its delay:
  -- with a buffer from the heap, `readSector` returns it with the 512 bytes of the sector, and changes no
  -- others; the drive is idle again.
  pub read_sector-disk :
      (fuel lba buf : ℕ) (heap heap' : Heap) (m m1 : Mem) (d : Device)
      → a.port_base + 7 < 2 ^ 16
      → lba < 2 ^ 28
      → ((k : ℕ) → disk lba k < 256)
      → delay lba < fuel
      → d.busy ≡ 0
      → malloc heap m sector_size ≡ some (buf, heap', m1)
      → (m' : Mem) × (d' : Device) × (read_sector
            (disk_drive a disk delay)
            fuel
            a
            lba
            (record { heap = heap; mem = m; state = d })
          ≡ some (buf, record { heap = heap'; mem = m'; state = d' }))
        × ((i : ℕ) → i < sector_size → load8 m' (buf + i) ≡ disk lba i)
        × ((b : ℕ) → (b < buf) ⊎ (buf + sector_size ≤ b) → load8 m' b ≡ load8 m1 b)
        × (d'.busy ≡ 0)
  unfolding read_sector
  read_sector-disk fuel lba buf heap heap' m m1 d ports small bytes enough idle got =
      let bus = disk_drive a disk delay in
      let d0 : Device = record d {
        registers = send_read registers a lba d.registers;
        busy = delay lba;
        words = word (disk lba);
        position = 0;
      } in
      let sought = send_read-seek a disk delay lba d ports small idle in
      let polled = read_status-command a disk delay d0 (command_port a) refl in
      let ready = wait-seek a fuel (delay lba) d0 refl enough in
      let (m', d') = fetch bus a buf 256 0 m1 (record d0 { busy = 0 }) in
      let (fetched, idle') =
        fetch-IsFetched buf 256 0 m1 (record d0 { busy = 0 }) refl (omega arith) in
      let f : IsFetched (word (disk lba)) buf 256 0 m1 m' =
        subst (λ at. IsFetched (word (disk lba)) at 256 0 m1 m') {x = buf + 0} {y = buf}
          (omega arith) fetched in
      (
        m',
        d',
        rw (read_sector, got, sought, polled, ready) refl,
        λ i h. bytes-word (disk lba) buf i m1 m' bytes f h,
        λ b out. elim out [ inl lo ↦ f.before b lo | inr hi ↦ f.after b (omega arith) ],
        idle',
      )
