-- ===== src/CString/Block.antt =====
-- What `memset` and `memcpy` write, byte by byte.
use pros.Prelude.{
  ℕ, zero, suc, ◌+◌, ◌-◌, ◌≤◌, ◌<◌, ap, ◌≡◌, ◌⊎◌, arith, u8, ◌&&◌, ltb, leb, if◌then◌else◌,
}
use pros.Memory.{Mem, load8, store8}
use pros.Memory.Laws.{load8-store8_self, load8-store8_ne, load8-lt}
use pros.CString.{memset, memcpy, memcpy_from}

-- `memset` writes the `count` bytes that begin one past `dest`, and no other: the byte at `dest`
-- keeps its value.
pub memset_lem :
    (m : Mem) (dest val count a : ℕ)
    → load8 (memset m dest val count) a
      ≡ (if ltb dest a && leb a (dest + count) then u8 val else load8 m a)
unfolding memset
memset_lem m dest val zero a = ground arith
memset_lem m dest val (suc count) a = ground (
  arith,
  memset_lem (store8 m (dest + suc count) val) dest val count a,
  load8-store8_self m (dest + suc count) val,
  load8-store8_ne m (dest + suc count) val a,
)

-- Source and destination do not overlap.
abbrev pub Apart : ℕ → ℕ → ℕ → Type 0
Apart dest src size = (dest + size ≤ src) ⊎ (src + size ≤ dest)

memcpy_from-load8 :
    (m : Mem) (dest src left i n : ℕ) (a : ℕ)
    → i + left ≡ n
    → Apart dest src n
    → load8 (memcpy_from m dest src left i) a
      ≡ (if leb (dest + i) a && ltb a (dest + n) then load8 m (src + (a - dest)) else load8 m a)
unfolding memcpy_from
memcpy_from-load8 m dest src zero i n a e apart = ground arith
memcpy_from-load8 m dest src (suc left) i n a e apart =
    let m' = store8 m (dest + i) (load8 m (src + i)) in
    ground (
      arith,
      memcpy_from-load8 m' dest src left (i + 1) n a (omega arith) apart,
      load8-store8_self m (dest + i) (load8 m (src + i)),
      load8-store8_ne m (dest + i) (load8 m (src + i)) a,
      load8-store8_ne m (dest + i) (load8 m (src + i)) (src + (a - dest)),
      load8-lt m (src + i),
    )

-- `memcpy` between blocks that do not overlap: each byte of the destination has the value that the
-- source had, and nothing else changes.
pub memcpy_lem :
    (m : Mem) (dest src size a : ℕ)
    → Apart dest src size
    → load8 (memcpy m dest src size) a
      ≡ (if leb dest a && ltb a (dest + size) then load8 m (src + (a - dest)) else load8 m a)
unfolding memcpy
memcpy_lem m dest src size a apart =
    ground (arith, memcpy_from-load8 m dest src size 0 size a (omega arith) apart)

pub memcpy-inside :
    (m : Mem) (dest src size k : ℕ)
    → Apart dest src size
    → k < size
    → load8 (memcpy m dest src size) (dest + k) ≡ load8 m (src + k)
memcpy-inside m dest src size k apart h =
    let back : src + (dest + k - dest) ≡ src + k = omega arith in
    ground (arith, memcpy_lem m dest src size (dest + k) apart, ap (load8 m) back)

pub memcpy-outside :
    (m : Mem) (dest src size y : ℕ)
    → Apart dest src size
    → (y < dest) ⊎ (dest + size ≤ y)
    → load8 (memcpy m dest src size) y ≡ load8 m y
memcpy-outside m dest src size y apart out = ground (arith, memcpy_lem m dest src size y apart)
