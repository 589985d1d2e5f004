-- ===== src/Ata/Identify.antt =====
-- `identify` with a disk drive: it returns.
use pros.Prelude.{
  ℕ, zero, suc, ◌<◌, ◌≡◌, ◌≢◌, refl, arith, false, ◌∙◌, Option, none, some, Bool-cases, inl, inr,
  ◌==◌, if◌then◌else◌, ◌&&◌, ltb, ==_of_ne,
}
use pros.Ata.{
  Ata, command_port, device_port, sector_count_port, lba_low_port, lba_mid_port, lba_high_port,
  wait, skip_words, identify,
}
use pros.Ata.Sector.{status}
use pros.Ata.Device.{Device, accept, read_status, read_data, read_status-command, disk_drive}
use pros.Ata.Serving.{wait-seek}

module _ (a : Ata) (disk : ℕ → ℕ → ℕ) (delay : ℕ → ℕ) where
  -- A byte that is not the read command leaves the drive as busy as it was.
  accept-busy :
      (d : Device) (port value : ℕ)
      → value ≢ 0x20
      → (accept a disk delay d port value).busy ≡ d.busy
  unfolding accept
  accept-busy d port value ne = elim (Bool-cases (d.busy == 0)) [
    | inl idle ↦ elim (Bool-cases (port == command_port a)) [
      | inl e ↦ rw (idle, e, ==_of_ne value 0x20 ne) refl
      | inr e ↦ rw (idle, e) refl
    ]
    | inr busy ↦ rw busy refl
  ]

  read_data-busy : (d : Device) (port : ℕ) → (read_data a disk delay d port).1.busy ≡ d.busy
  unfolding read_data
  read_data-busy d port =
      elim (Bool-cases ((port == a.port_base) && (d.busy == 0) && ltb d.position 256)) [
        | inl e ↦ rw e refl
        | inr e ↦ rw e refl
      ]

  skip_words-busy :
      (b : Ata) (left : ℕ) (d : Device)
      → (skip_words (disk_drive a disk delay) b left d).busy ≡ d.busy
  unfolding skip_words
  skip_words-busy b zero d = refl
  skip_words-busy b (suc left) d =
      skip_words-busy b left (read_data a disk delay d b.port_base).1 ∙ read_data-busy d b.port_base

  status_ne : (busy : ℕ) → (status busy == 0) ≡ false
  status_ne zero = refl
  status_ne (suc busy) = refl

  -- From the first read of the status on.
  polled :
      (b : Ata) (fuel : ℕ) (d : Device)
      → command_port b ≡ command_port a
      → d.busy < fuel
      → let (read, s) = read_status a disk delay d (command_port b) in
        (d' : Device) × ◌≡◌ {A = Option Device}
          (if read == 0 then some s else elim (wait (disk_drive a disk delay) fuel b read s) [
            | none ↦ none
            | some (status, s) ↦ some (skip_words (disk_drive a disk delay) b 256 s)
          ])
          (some d')
        × (d'.busy ≡ 0)
  polled b fuel d port enough =
      let idle : Device = record d { busy = 0 } in
      rw (read_status-command a disk delay d (command_port b) port) (
        skip_words (disk_drive a disk delay) b 256 idle,
        rw (status_ne d.busy, wait-seek a disk delay b fuel d.busy d port enough) refl,
        skip_words-busy b 256 idle,
      )

  -- With fuel for the time that the drive is still busy, `identify` of either drive on its bus returns,
  -- and leaves the drive idle.
  pub identify-returns :
      (b : Ata) (fuel : ℕ) (d : Device)
      → command_port b ≡ command_port a
      → d.busy < fuel
      → (d' : Device) × (identify (disk_drive a disk delay) fuel b d ≡ some d') × (d'.busy ≡ 0)
  unfolding identify
  identify-returns b fuel d port enough =
      let kind = if b.master then 0xA0 else 0xB0 in
      let d1 = accept a disk delay d (device_port b) kind in
      let d2 = accept a disk delay d1 (sector_count_port b) 0 in
      let d3 = accept a disk delay d2 (lba_low_port b) 0 in
      let d4 = accept a disk delay d3 (lba_mid_port b) 0 in
      let d5 = accept a disk delay d4 (lba_high_port b) 0 in
      let d6 = accept a disk delay d5 (command_port b) 0xEC in
      let same : d6.busy ≡ d.busy =
        accept-busy d5 (command_port b) 0xEC (omega arith)
        ∙ accept-busy d4 (lba_high_port b) 0 (omega arith)
        ∙ accept-busy d3 (lba_mid_port b) 0 (omega arith)
        ∙ accept-busy d2 (lba_low_port b) 0 (omega arith)
        ∙ accept-busy d1 (sector_count_port b) 0 (omega arith)
        ∙ accept-busy d (device_port b) kind (ground arith) in
      polled b fuel d6 port (omega arith)
