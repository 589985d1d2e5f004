-- ===== src/Kernel/Loaded.antt =====
-- The second stage of `kmain`, from the drives to the master boot record.
use pros.Prelude.{ℕ, ◌+◌, ◌≤◌, ◌<◌, ◌≡◌, ◌≢◌, ap, refl, arith, Option, none, some}
use pros.Vfs.{Tree, init}
use pros.Vfs.Reach.{Reaches}
use pros.Port.{Bus}
use pros.Ata.{World, identify, driver}
use pros.Ata.Serves.{byte_of}
use pros.Ata.Device.{disk_drive}
use pros.Ata.Identify.{identify-returns}
use pros.Ata.Reserve.{HasReserve}
use pros.Partition.{mbr_size, read_mbr}
use pros.Kernel.{primary_master, primary_slave, mount_files, load_mbr, stage_2}
use pros.Kernel.Mounts.{mount_calls, mount_files-Reaches, load_mbr-disk}

-- The calls one by one.
stage_2-run :
    (bus : Bus) (fuel ata0s mbr total : ℕ) (w w' : World bus) (s1 s2 : bus.State)
    → identify bus fuel primary_master w.state ≡ some s1
    → identify bus fuel primary_slave s1 ≡ some s2
    → load_mbr
        (driver bus fuel primary_slave)
        fuel
        ata0s
        mbr
        (mount_files ata0s init)
        (record w { state = s2 })
      ≡ (total, some w')
    → stage_2 bus fuel ata0s mbr w ≡ some (mount_files ata0s init, total, w')
unfolding stage_2
stage_2-run bus fuel ata0s mbr total w w' s1 s2 e1 e2 e3 =
    rw (stage_2, e1, e2)
      (ap
        (λ (r : ℕ × Option (World bus)). elim r.1 as (λ _. Option (Tree × ℕ × World bus)) [
          | none ↦ none
          | some w' ↦ some (mount_files ata0s init, r.0, w')
        ])
        e3)

-- From end to end: with a disk of bytes in the primary slave, fuel for its delays and for the time that
-- it is still busy, a kernel heap with one buffer in reserve that lies above the local variable for the
-- record, and an address of the drive's object other than `nullptr`: the second stage of `kmain` gets to
-- the end; the tree is the one that its calls of `mount` leave, all 512 bytes are read through
-- "/dev/hda", and the record in memory is the one in the first sector of that disk.
pub stage_2-read_mbr :
    (disk : ℕ → ℕ → ℕ) (delay : ℕ → ℕ) (fuel ata0s mbr : ℕ)
    (w : World (disk_drive primary_slave disk delay))
    → ((lba k : ℕ) → disk lba k < 256)
    → ((lba : ℕ) → delay lba < fuel)
    → w.state.busy < fuel
    → 3 < fuel
    → ata0s ≢ 0
    → HasReserve w.heap w.mem 1
    → mbr + mbr_size ≤ w.heap.first
    → (t : Tree) × (w' : World (disk_drive primary_slave disk delay)) × (stage_2
          (disk_drive primary_slave disk delay)
          fuel
          ata0s
          mbr
          w
        ≡ some (t, mbr_size, w'))
      × Reaches t (mount_calls ata0s)
      × (read_mbr w'.mem mbr ≡ read_mbr (byte_of disk) 0)
stage_2-read_mbr disk delay fuel ata0s mbr w bytes enough idle long ne reserve above =
    let (d1, run1, idle1) =
      identify-returns primary_slave disk delay primary_master fuel w.state refl idle in
    let (d2, run2, idle2) =
      identify-returns primary_slave disk delay primary_slave fuel d1 refl (omega (arith, idle1)) in
    let (w', run, read) =
      load_mbr-disk disk delay fuel ata0s mbr (record w { state = d2 }) bytes enough long ne reserve
        above idle2 in
    (
      mount_files ata0s init,
      w',
      stage_2-run (disk_drive primary_slave disk delay) fuel ata0s mbr mbr_size w w' d1 d2 run1 run2
          run,
      mount_files-Reaches ata0s,
      read,
    )
