-- ===== src/Vfs.antt =====
-- The virtual file system, Kernel/include/FS/VFS.hpp and Kernel/src/FS/VFS.cpp, over the tree of
-- Kernel/include/Lib/GenericTree.hpp and the list of Kernel/include/Lib/List.hpp. Strings are lists
-- of characters here, and a path is cut at once into the tokens that `strsep` hands out one by one.
pub mod Tokens
pub mod Paths
pub mod Mounts
pub mod Open
pub mod Reach
pub mod Dump
pub mod Indent
mod Tests
use pros.Prelude.{
  ℕ, zero, suc, ◌+◌, ◌^◌, Bool, true, false, not, ◌&&◌, Option, none, some, List, [], ◌∷◌, ◌==◌,
  if◌then◌else◌, bit_and, u32, length, ◌++◌,
}

abbrev pub Name : Type 0
Name = List ℕ

-- `strcmp(a, b) == 0`
unfoldable pub same_name : Name → Name → Bool
same_name [] [] = true
same_name [] (d ∷ ds) = false
same_name (c ∷ cs) [] = false
same_name (c ∷ cs) (d ∷ ds) = (c == d) && same_name cs ds

-- `/`
abbrev pub slash : ℕ
slash = 47

abbrev pub fs_directory : ℕ
fs_directory = 0x02

-- The tokens of a string: `n` delimiters make `n + 1` tokens, some of them perhaps empty. No token is
-- left where the string is `nullptr`, and only there.
unfoldable pub split : List ℕ → List Name
split [] = [] ∷ []
split (c ∷ cs) = if c == slash then [] ∷ split cs else first_grows c (split cs)
  where
    first_grows : ℕ → List Name → List Name
    first_grows c [] = (c ∷ []) ∷ []
    first_grows c (t ∷ ts) = (c ∷ t) ∷ ts

-- `struct VFSNode`. The storage is an address, 0 for `nullptr`.
pub record VfsNode : Type 0 where
  pub name : Name
  pub flags : ℕ
  pub storage : ℕ

-- `GenericTreeNode` with the `VFSMount` that it holds: the name, and the file or `nullptr`; and its
-- `List` of children.
mutual
  pub data Tree : Type 0 where
    node : (name : Name) (file : Option VfsNode) (children : Forest) → Tree

  pub data Forest : Type 0 where
    empty : Forest
    insert : Tree → Forest → Forest

unfoldable pub name_of : Tree → Name
name_of (node n f cs) = n

unfoldable pub file_of : Tree → Option VfsNode
file_of (node n f cs) = f

unfoldable pub children_of : Tree → Forest
children_of (node n f cs) = cs

-- `VFS::init`
unfoldable pub init : Tree
init = node (114 ∷ 111 ∷ 111 ∷ 116 ∷ []) none empty

-- The search of `mountRecursive`, which does not stop at a match, so that the last child of that
-- name is the one to change; `none` if there is none.
unfoldable pub update_last : Name → (Tree → Tree) → Forest → Option Forest
update_last token g empty = none
update_last token g (insert t ts) = elim (update_last token g ts) [
  | some ts' ↦ some (insert t ts')
  | none ↦ if same_name (name_of t) token then some (insert (g t) ts) else none
]

-- `mountRecursive`. A file that was mounted there before is replaced, which is only logged.
unfoldable pub mount_recursive : List Name → VfsNode → Tree → Tree
mount_recursive [] file (node n f cs) = node n (some file) cs
mount_recursive ([] ∷ ts) file (node n f cs) = node n (some file) cs
mount_recursive ((c ∷ t) ∷ ts) file (node n f cs) =
    elim (update_last (c ∷ t) (mount_recursive ts file) cs) [
      | some cs' ↦ node n f cs'
      | none ↦ node n f (insert (mount_recursive ts file (node (c ∷ t) none empty)) cs)
    ]

-- `path[0] == '/' && strlen(path) == 1`
unfoldable pub is_root : List ℕ → Bool
is_root [] = false
is_root (c ∷ []) = c == slash
is_root (c ∷ d ∷ cs) = false

-- `path + 1`. The code reads behind the NUL of the empty path, for which no tokens are given here.
unfoldable pub tokens : List ℕ → List Name
tokens [] = []
tokens (c ∷ cs) = split cs

-- `mount`: what it returns, and the tree.
unfoldable pub mount : List ℕ → VfsNode → Tree → Bool × Tree
mount path file (node n f cs) =
    if is_root path
    then elim f [
      | some mounted ↦ (false, node n (some mounted) cs)
      | none ↦ (true, node n (some file) cs)
    ]
    else (true, mount_recursive (tokens path) file (node n f cs))

unfoldable pub find_child : Name → Forest → Option Tree
find_child token empty = none
find_child token (insert t ts) = if same_name (name_of t) token then some t else find_child token ts

-- `getMountRecursive`: the mount, and the tokens that `*path` still holds.
unfoldable pub get_mount_recursive : List Name → Tree → Tree × List Name
get_mount_recursive [] t = (t, [])
get_mount_recursive ([] ∷ ts) t = (t, ts)
get_mount_recursive ((c ∷ token) ∷ ts) t = elim (find_child (c ∷ token) (children_of t)) [
  | some child ↦ get_mount_recursive ts child
  | none ↦ (t, ts)
]

-- Both overloads of `getMount`. For the root, `*path` stays as it is.
unfoldable pub get_mount : List ℕ → Tree → Tree × List Name
get_mount path t = if is_root path then (t, split path) else get_mount_recursive (tokens path) t

-- A line that `dump` logs: the blanks in front, the name, and the file or "empty".
pub record DumpLine : Type 0 where
  pub indent : ℕ
  pub name : Name
  pub file : Option VfsNode

abbrev pub dump_line : ℕ → Name → Option VfsNode → DumpLine
dump_line indent name file = record { indent = indent; name = name; file = file }

-- `dumpRecursive` on a node, and its loop over the children.
unfoldable mutual
  pub dump_recursive : Tree → (offset : ℕ) → List DumpLine
  dump_recursive (node n f cs) offset =
      dump_line offset n f ∷ dump_children cs (u32 (offset + length n + 1))

  pub dump_children : Forest → (offset : ℕ) → List DumpLine
  dump_children empty offset = []
  dump_children (insert t ts) offset = dump_recursive t offset ++ dump_children ts offset

unfoldable pub dump : Tree → List DumpLine
dump t = dump_recursive t 0

-- What the virtual methods of a `Storage` answer.
module _ (storage_find_directory : ℕ → VfsNode → Name → Option VfsNode) where
  unfoldable pub find_directory : Option VfsNode → Name → Option VfsNode
  find_directory none name = none
  find_directory (some n) name =
      if not (bit_and n.flags fs_directory == 0) && not (n.storage == 0)
      then storage_find_directory n.storage n name
      else none

  -- The loop of `openFile`.
  unfoldable pub walk : List Name → Option VfsNode → Option VfsNode
  walk [] start = start
  walk (t ∷ ts) start = elim (find_directory start t) [
    | none ↦ none
    | some next ↦ walk ts (some next)
  ]

  -- `openFile`: where the search for the mount has used up the path, the loop is not entered;
  -- otherwise it runs over the tokens of the whole path, from the slash at its start on.
  unfoldable pub open_file : List ℕ → Tree → Option VfsNode
  open_file path t =
      let (m, rest) = get_mount path t in
      elim rest [ [] ↦ file_of m | token ∷ more ↦ walk (split path) (file_of m) ]

-- `read`; the buffer belongs to the caller's state.
unfoldable pub read :
    {S : Type 0} (storage_read : ℕ → VfsNode → (offset size : ℕ) → S → ℕ × S)
    → VfsNode
    → (offset size : ℕ) → S
    → ℕ × S
read storage_read n offset size s =
    if not (n.storage == 0) then storage_read n.storage n offset size s else (0, s)
