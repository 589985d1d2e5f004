-- ===== src/Vfs/Tests.antt =====
-- Mounts of a file at "/" and at "/a/b" of a new tree.
use mathlib.Core.List.{Memᴰ}
use pros.Prelude.{
  ℕ, ◌+◌, ◌<◌, ◌≤◌, ◌⊎◌, inl, arith, Option, none, some, List, [], ◌∷◌, ◌≡◌, ◌≢◌, ◌↔◌, refl,
}
use pros.Memory.{Mem, load8, load32, store8, store32}
use pros.Heap.{
  Heap, construct, malloc, find_chunk, read_chunk, set_magic, set_size, set_next, set_prev,
  set_allocated, split_chunk, new_header,
}
use pros.CString.{memset}
use pros.CString.Text.{IsString}
use pros.Vfs.{
  Name, VfsNode, Tree, dump_line, dump, dump_recursive, name_of, update_last, same_name, init,
  slash, split, is_root, tokens, mount_recursive, mount, get_mount_recursive, get_mount, open_file,
  find_child, children_of,
}
use pros.Vfs.Paths.{at, Distinct, clean, overlay}
use pros.Vfs.Mounts.{at-mount_recursive}
use pros.Vfs.Open.{open_file-below_mount}
use pros.Vfs.Reach.{
  Call, Reaches, start, mounts, table, same_path, latest, at-Reaches, open_file-latest,
}
use pros.Vfs.Dump.{line_at, dump-line_at}
use pros.Vfs.Indent.{buffer_size, indent_buffer, blanks, indent_buffer-blanks}

abbrev file : VfsNode
file = record { name = 120 ∷ []; flags = 1; storage = 0 }

-- "/a/b"
abbrev path : List ℕ
path = slash ∷ 97 ∷ slash ∷ 98 ∷ []

abbrev names : List Name
names = (97 ∷ []) ∷ (98 ∷ []) ∷ []

-- A storage in which nothing is found.
abbrev nothing : ℕ → VfsNode → Name → Option VfsNode
nothing s n name = none

init-Distinct : Distinct init
unfolding init Distinct
init-Distinct = tt

at-mount_recursive_example :
    at ((97 ∷ []) ∷ []) (mount_recursive names file init)
    ≡ overlay ((97 ∷ []) ∷ []) (clean names) file (at ((97 ∷ []) ∷ []) init)
at-mount_recursive_example = at-mount_recursive names ((97 ∷ []) ∷ []) file init init-Distinct

-- The search for "/a/b" stops at the root, before the last token.
get_mount-path : (get_mount path init).1 ≡ (98 ∷ []) ∷ []
unfolding get_mount is_root tokens split get_mount_recursive find_child init children_of
get_mount-path = refl

below_root : (get_mount path init).1 ≢ []
below_root = rw get_mount-path (λ e. cc)

open_file-below_mount_example : open_file nothing path init ≡ none
open_file-below_mount_example =
    open_file-below_mount nothing (97 ∷ slash ∷ 98 ∷ []) init below_root (λ s n. refl)

abbrev other : VfsNode
other = record { name = 121 ∷ []; flags = 1; storage = 0 }

-- The path is mounted twice, and "/" in between.
abbrev calls : List Call
calls = (path, other) ∷ (slash ∷ [], file) ∷ (path, file) ∷ []

abbrev called : Tree
called = (mount path other (mount (slash ∷ []) file (mount path file init).1).1).1

called-Reaches : Reaches called calls
called-Reaches = mounts path other (mounts (slash ∷ []) file (mounts path file start))

at-Reaches_example : Distinct called × ((p : List Name) → at p called ≡ table calls p)
at-Reaches_example = at-Reaches called calls called-Reaches

open_file-latest_example : open_file nothing path called ≡ some other
unfolding is_root clean tokens split latest same_path same_name
open_file-latest_example =
    open_file-latest nothing called calls path other called-Reaches (λ e. cc) refl refl refl

-- The tree with one mount, at "/a".
abbrev small : Tree
small = (mount (slash ∷ 97 ∷ []) file init).1

small-Distinct : Distinct small
small-Distinct = (at-Reaches small _ (mounts (slash ∷ 97 ∷ []) file start)).0

dump-small : dump small ≡ dump_line 0 (name_of init) none ∷ dump_line 5 (97 ∷ []) (some file) ∷ []
unfolding dump mount init is_root tokens split mount_recursive update_last dump_recursive name_of
dump-small = refl

dump-line_at_example : Memᴰ (dump_line 5 (97 ∷ []) (some file)) (dump small) ↔ (
    (p : List Name) × (f : Option VfsNode) × (at p small ≡ some f)
    × (dump_line 5 (97 ∷ []) (some file) ≡ line_at 0 (name_of small) p f))
dump-line_at_example = dump-line_at small (dump_line 5 (97 ∷ []) (some file)) small-Distinct

-- A heap at address 4096, and the string " " at address 100.
abbrev memory : Mem
memory = (construct (store8 (λ a. 0) 100 32) 4096 200).1

abbrev heap : Heap
heap = (construct (store8 (λ a. 0) 100 32) 4096 200).0

granted :
    (h' : Heap) × (m1 : Mem) × (malloc heap memory buffer_size ≡ some (4116, h', m1))
    × (load8 m1 4116 ≡ 0)
    × IsString m1 100 (32 ∷ [])
unfolding malloc construct find_chunk read_chunk load32 load8 set_magic set_size set_next set_prev
    set_allocated store32 store8 split_chunk new_header memset
granted = (_, _, refl, refl, (refl, λ e. cc, refl))

indent_buffer-blanks_example :
    (m' : Mem) × (indent_buffer 10 heap memory 100 3 ≡ some (4116, granted.0, m'))
    × IsString m' 4116 (blanks 3)
    × ((b : ℕ)
        → (b < 4116) ⊎ ((4116 + buffer_size + 1 ≤ b) × (4116 + 3 + 1 ≤ b))
        → load8 m' b ≡ load8 granted.1 b)
indent_buffer-blanks_example =
    indent_buffer-blanks 10 heap granted.0 memory granted.1 4116 100 3 granted.2 granted.3
      (omega arith) (inl (omega arith)) granted.4
