-- ===== src/Partition.antt =====
-- The master boot record of Kernel/include/FS/PartitionTable.hpp as it lies in memory, and
-- Kernel/src/FS/PartitionTable.cpp.
pub mod Record
use pros.Prelude.{
  ℕ, zero, suc, ◌+◌, ◌*◌, ◌/◌, ◌%◌, Bool, not, ◌==◌, if◌then◌else◌, List, [], ◌∷◌, ◌++◌,
}
use pros.Memory.{Mem, load8, load16, load32}

-- `struct PartitionTableEntry`, 16 bytes. The sector has the low 6 bits of two bytes, and the cylinder
-- the other 10.
pub record PartitionTableEntry : Type 0 where
  pub bootable : ℕ
  pub start_head : ℕ
  pub start_sector : ℕ
  pub start_cylinder : ℕ
  pub type : ℕ
  pub end_head : ℕ
  pub end_sector : ℕ
  pub end_cylinder : ℕ
  pub start_lba : ℕ
  pub length : ℕ

unfoldable pub read_partition : Mem → ℕ → PartitionTableEntry
read_partition m p = record {
  bootable = load8 m p;
  start_head = load8 m (p + 1);
  start_sector = load16 m (p + 2) % 64;
  start_cylinder = load16 m (p + 2) / 64;
  type = load8 m (p + 4);
  end_head = load8 m (p + 5);
  end_sector = load16 m (p + 6) % 64;
  end_cylinder = load16 m (p + 6) / 64;
  start_lba = load32 m (p + 8);
  length = load32 m (p + 12);
}

-- `struct MasterBootRecord`, 512 bytes; its first 440, the code of the boot loader, are left out.
pub record MasterBootRecord : Type 0 where
  pub signature : ℕ
  pub unused : ℕ
  pub primary_partition : List PartitionTableEntry
  pub magic_number : ℕ

abbrev pub mbr_size : ℕ
mbr_size = 512

unfoldable pub read_mbr : Mem → ℕ → MasterBootRecord
read_mbr m p = record {
  signature = load32 m (p + 440);
  unused = load16 m (p + 444);
  primary_partition =
      read_partition m (p + 446)
      ∷ read_partition m (p + 462)
      ∷ read_partition m (p + 478)
      ∷ read_partition m (p + 494)
      ∷ [];
  magic_number = load16 m (p + 510);
}

-- What `readPartitions` logs.
pub data Message : Type 0 where
  mbr_error : Message
  partition : (number : ℕ) → (bootable : Bool) → (type : ℕ) → Message

-- Its loop, from partition `i` on.
unfoldable pub report_partitions : (i : ℕ) → List PartitionTableEntry → List Message
report_partitions i [] = []
report_partitions i (e ∷ es) =
    if e.type == 0
    then report_partitions (i + 1) es
    else partition i (e.bootable == 0x80) e.type ∷ report_partitions (i + 1) es

-- `readPartitions` on the record `mbr` that its local variable happens to hold, since the read of the
-- disk is commented out: what it logs; it returns the record.
unfoldable pub read_partitions : MasterBootRecord → List Message × MasterBootRecord
read_partitions mbr = (
  (if mbr.magic_number == 0xAA55 then [] else mbr_error ∷ [])
      ++ report_partitions 0 mbr.primary_partition,
  mbr,
)
