-- ===== src/Kernel/Mounts.antt =====
-- The files that `kmain` mounts, and the master boot record that it reads through one of them.
use pros.Prelude.{ℕ, ◌+◌, ◌≤◌, ◌<◌, ◌≡◌, ◌≢◌, refl, arith, some, List, [], ◌∷◌, ==_of_eq, ==_of_ne}
use pros.Memory.{Mem, load8}
use pros.Vfs.{VfsNode, Tree, init, open_file, mount, is_root, tokens, split, same_name, slash}
use pros.Vfs as Vfs
use pros.Vfs.Paths.{clean}
use pros.Vfs.Reach.{Call, Reaches, start, mounts, latest, same_path, open_file-latest}
use pros.Ata.{Sectors, World, driver}
use pros.Ata.Serves.{Serves, byte_of}
use pros.Ata.Device.{disk_drive}
use pros.Ata.Reserve.{HasReserve}
use pros.Ata.Disk.{driver-Serves}
use pros.Ata.Transfer.{read-bytes}
use pros.Partition.{mbr_size, read_mbr}
use pros.Partition.Record.{read_mbr-ext}
use pros.Kernel.{
  hda_path, root_path, test_path, asd_path, another_path, sus_path, amogus_path, hda_node,
  root_node, test_node, asd_node, another_node, sus_node, amogus_node, mount_files,
  ata_find_directory, storage_read, load_mbr, primary_slave,
}

-- The calls of `mount`, the last one first.
abbrev pub mount_calls : (ata0s : ℕ) → List Call
mount_calls ata0s =
    (amogus_path, amogus_node)
    ∷ (sus_path, sus_node)
    ∷ (another_path, another_node)
    ∷ (asd_path, asd_node)
    ∷ (test_path, test_node)
    ∷ (root_path, root_node)
    ∷ (hda_path, hda_node ata0s)
    ∷ []

pub mount_files-Reaches : (ata0s : ℕ) → Reaches (mount_files ata0s init) (mount_calls ata0s)
unfolding mount_files
mount_files-Reaches ata0s = mounts amogus_path amogus_node (
    mounts sus_path sus_node (
      mounts another_path another_node (
        mounts asd_path asd_node (
          mounts test_path test_node
            (mounts root_path root_node (mounts hda_path (hda_node ata0s) start))))))

-- The drive's file is the one that is opened.
open_file-hda :
    (ata0s : ℕ)
    → open_file ata_find_directory hda_path (mount_files ata0s init) ≡ some (hda_node ata0s)
unfolding is_root tokens split clean latest same_path same_name
open_file-hda ata0s =
    open_file-latest ata_find_directory (mount_files ata0s init) (mount_calls ata0s) hda_path
      (hda_node ata0s) (mount_files-Reaches ata0s) (λ e. cc) refl refl refl

load8-of : (m m' : Mem) (a a' : ℕ) → load8 m' a' ≡ m a → load8 m' a' ≡ load8 m a
unfolding load8
load8-of m m' a a' e = omega (arith, e)

module _ {W : Type 0} (o : Sectors W) (disk : ℕ → ℕ → ℕ) (mbr : ℕ)
    (serves : Serves o disk mbr mbr_size) where
  -- With a working drive, at an address other than `nullptr`, beside the local variable for the
  -- record, and fuel for its sectors: after the calls of `mount` in `kmain` on the tree of `init`, the
  -- read of "/dev/hda" returns all 512 bytes, and the record in memory is the one in the first sector
  -- of the disk.
  pub load_mbr-first_sector :
      (fuel ata0s : ℕ) (w : W)
      → 3 < fuel
      → ata0s ≢ 0
      → serves.Ready 1 w
      → (w' : W) × (load_mbr o fuel ata0s mbr (mount_files ata0s init) w ≡ (mbr_size, some w'))
        × (read_mbr (o.mem w') mbr ≡ read_mbr (byte_of disk) 0)
  unfolding load_mbr storage_read Vfs.read
  load_mbr-first_sector fuel ata0s w enough ne ready =
      let (w', run, bytes) =
        read-bytes o disk mbr mbr_size 0 serves (omega arith) (omega arith) (omega arith) fuel w
          (omega arith) ready in
      (
        w',
        rw
            (
              load_mbr,
              open_file-hda ata0s,
              Vfs.read,
              storage_read,
              ==_of_ne ata0s 0 ne,
              ==_of_eq ata0s ata0s refl,
              run,
            )
            refl,
        read_mbr-ext (byte_of disk) (o.mem w') 0 mbr
            (λ i lt. load8-of (byte_of disk) (o.mem w') (0 + i) (mbr + i) (bytes i lt)),
      )

-- From end to end: with a disk of bytes in the idle primary slave, fuel for its delays, a kernel heap with
-- one buffer in reserve that lies above the local variable for the record, and an address of the drive's
-- object other than `nullptr`: after the calls of `mount` in `kmain` on the tree of `init`, the read of
-- "/dev/hda" returns all 512 bytes, and the record in memory is the one in the first sector of that disk.
pub load_mbr-disk :
    (disk : ℕ → ℕ → ℕ) (delay : ℕ → ℕ) (fuel ata0s mbr : ℕ)
    (w : World (disk_drive primary_slave disk delay))
    → ((lba k : ℕ) → disk lba k < 256)
    → ((lba : ℕ) → delay lba < fuel)
    → 3 < fuel
    → ata0s ≢ 0
    → HasReserve w.heap w.mem 1
    → mbr + mbr_size ≤ w.heap.first
    → w.state.busy ≡ 0
    → (w' : World (disk_drive primary_slave disk delay)) × (load_mbr
          (driver (disk_drive primary_slave disk delay) fuel primary_slave)
          fuel
          ata0s
          mbr
          (mount_files ata0s init)
          w
        ≡ (mbr_size, some w'))
      × (read_mbr w'.mem mbr ≡ read_mbr (byte_of disk) 0)
unfolding driver driver-Serves
load_mbr-disk disk delay fuel ata0s mbr w bytes enough long ne reserve above idle =
    load_mbr-first_sector (driver (disk_drive primary_slave disk delay) fuel primary_slave) disk mbr
      (driver-Serves primary_slave disk delay fuel (omega arith) bytes enough mbr mbr_size) fuel
      ata0s w long ne (reserve, above, idle)
