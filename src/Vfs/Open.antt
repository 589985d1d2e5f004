-- ===== src/Vfs/Open.antt =====
-- Mounting a file and finding it again: `mount`, `getMount` and `openFile`.
use pros.Prelude.{
  ℕ, not, ◌&&◌, ◌==◌, bit_and, Bool, true, false, Option, none, some, List, [], ◌∷◌, ◌≡◌, ◌≢◌, inl,
  inr, refl, ap, ◌∙◌, Bool-cases, Option-cases,
}
use pros.Vfs.{
  fs_directory, Name, VfsNode, Tree, node, file_of, children_of, find_child, mount_recursive, mount,
  is_root, tokens, slash, split, get_mount_recursive, get_mount, find_directory, walk, open_file,
}
use pros.Vfs.Tokens.{same_name_self}
use pros.Vfs.Paths.{at, Distinct, clean, overlay}
use pros.Vfs.Mounts.{at-mount_recursive, mount_recursive-Distinct}

-- Where there is a node at the path, the search ends there.
get_mount_recursive-at :
    (ts : List Name) (t : Tree) (f : Option VfsNode)
    → at (clean ts) t ≡ some f
    → file_of (get_mount_recursive ts t).0 ≡ f
unfolding at clean get_mount_recursive
get_mount_recursive-at [] t f h = cc
get_mount_recursive-at ([] ∷ ts) t f h = cc
get_mount_recursive-at ((c ∷ token) ∷ ts) t f h =
    elim (Option-cases (find_child (c ∷ token) (children_of t))) [
      | inl e ↦ (let missing = rw (at, e) at h in absurd (cc))
      | inr (child, e) ↦
          rw (get_mount_recursive, e) (get_mount_recursive-at ts child f (rw (at, e) at h))
    ]

-- And the path is used up, if none of its tokens is empty.
get_mount_recursive-all :
    (ts : List Name) (t : Tree) (f : Option VfsNode)
    → at ts t ≡ some f
    → clean ts ≡ ts
    → (get_mount_recursive ts t).1 ≡ []
unfolding at clean get_mount_recursive
get_mount_recursive-all [] t f h whole = refl
get_mount_recursive-all ([] ∷ ts) t f h whole = absurd (cc)
get_mount_recursive-all ((c ∷ token) ∷ ts) t f h whole =
    elim (Option-cases (find_child (c ∷ token) (children_of t))) [
      | inl e ↦ (let missing = rw (at, e) at h in absurd (cc))
      | inr (child, e) ↦
          rw (get_mount_recursive, e) (get_mount_recursive-all ts child f (rw (at, e) at h) (cc))
    ]

pub overlay_self :
    (q : List Name) (file : VfsNode) (old : Option (Option VfsNode))
    → overlay q q file old ≡ some (some file)
unfolding overlay
overlay_self [] file old = refl
overlay_self (a ∷ q) file old = rw (same_name_self a) (overlay_self q file old)

pub mount-recursive :
    (path : List ℕ) (file : VfsNode) (t : Tree)
    → is_root path ≡ false
    → mount path file t ≡ (true, mount_recursive (tokens path) file t)
unfolding mount
mount-recursive path file (node n f cs) h = rw h refl

-- For a path other than "/", on a tree whose nodes have children of different names: `mount`
-- succeeds, keeps the tree so, and `getMount` of the same path then finds the file.
pub mount-get_mount :
    (path : List ℕ) (file : VfsNode) (t : Tree)
    → Distinct t
    → is_root path ≡ false
    → let (ok, t') = mount path file t in
      (ok ≡ true) × Distinct t' × (file_of (get_mount path t').0 ≡ some file)
unfolding get_mount
mount-get_mount path file t d h =
    let ts = tokens path in
    let found = get_mount_recursive-at ts (mount_recursive ts file t) (some file) (
      at-mount_recursive ts (clean ts) file t d ∙ overlay_self (clean ts) file (at (clean ts) t)) in
    rw (mount-recursive path file t h, h) (refl, mount_recursive-Distinct ts file t d, found)

used_up :
    (rest : List Name) (a b : Option VfsNode)
    → rest ≡ []
    → ◌≡◌ {A = Option VfsNode} (elim rest [ [] ↦ a | token ∷ more ↦ b ]) a
used_up rest a b h = rw h refl

left_over :
    (rest : List Name) (a b : Option VfsNode)
    → rest ≢ []
    → ◌≡◌ {A = Option VfsNode} (elim rest [ [] ↦ a | token ∷ more ↦ b ]) b
left_over [] a b h = absurd (h refl)
left_over (token ∷ more) a b h = refl

module _ (storage_find_directory : ℕ → VfsNode → Name → Option VfsNode) where
  -- What stands at such a path is opened, if it is there.
  pub open_file-at :
      (path : List ℕ) (f : Option VfsNode) (t : Tree)
      → is_root path ≡ false
      → clean (tokens path) ≡ tokens path
      → at (tokens path) t ≡ some f
      → open_file storage_find_directory path t ≡ f
  unfolding open_file get_mount
  open_file-at path f t h whole there =
      let ts = tokens path in
      let found = get_mount_recursive-at ts t f (ap (λ q. at q t) whole ∙ there) in
      let all = get_mount_recursive-all ts t f there whole in
      let search : get_mount path t ≡ get_mount_recursive ts t = rw (get_mount, h) refl in
      used_up (get_mount path t).1 _ _ (ap (λ (r : Tree × List Name). r.1) search ∙ all)
      ∙ ap (λ (r : Tree × List Name). file_of r.0) search
      ∙ found

  -- For a path other than "/" with no empty token behind its slash, on such a tree: `openFile` of
  -- the path where a file has just been mounted opens that file, whatever the storages hold.
  pub open_file-mount :
      (path : List ℕ) (file : VfsNode) (t : Tree)
      → Distinct t
      → is_root path ≡ false
      → clean (tokens path) ≡ tokens path
      → open_file storage_find_directory path (mount path file t).1 ≡ some file
  open_file-mount path file t d h whole =
      let ts = tokens path in
      let there : at ts (mount_recursive ts file t) ≡ some (some file) =
        at-mount_recursive ts ts file t d
        ∙ ap (λ q. overlay ts q file (at ts t)) whole
        ∙ overlay_self ts file (at ts t) in
      ap (λ (r : Bool × Tree). open_file storage_find_directory path r.1)
        (mount-recursive path file t h)
      ∙ open_file-at path (some file) (mount_recursive ts file t) h whole there

  find_directory-nameless :
      (start : Option VfsNode)
      → ((s : ℕ) (n : VfsNode) → storage_find_directory s n [] ≡ none)
      → find_directory storage_find_directory start [] ≡ none
  unfolding find_directory
  find_directory-nameless none nameless = refl
  find_directory-nameless (some n) nameless =
      elim (Bool-cases (not (bit_and n.flags fs_directory == 0) && not (n.storage == 0))) [
        | inl e ↦ rw e (nameless n.storage n)
        | inr e ↦ rw e refl
      ]

  walk-nameless :
      (ts : List Name) (start : Option VfsNode)
      → ((s : ℕ) (n : VfsNode) → storage_find_directory s n [] ≡ none)
      → walk storage_find_directory ([] ∷ ts) start ≡ none
  unfolding walk
  walk-nameless ts start nameless = rw (walk, find_directory-nameless start nameless) refl

  -- Where the search for the mount leaves a part of the path, and no storage has an entry with an
  -- empty name, `openFile` of a path that starts with a slash finds nothing: its loop begins with
  -- the empty token before that slash.
  pub open_file-below_mount :
      (cs : List ℕ) (t : Tree)
      → (get_mount (slash ∷ cs) t).1 ≢ []
      → ((s : ℕ) (n : VfsNode) → storage_find_directory s n [] ≡ none)
      → open_file storage_find_directory (slash ∷ cs) t ≡ none
  unfolding open_file walk split
  open_file-below_mount cs t more nameless =
      left_over (get_mount (slash ∷ cs) t).1 _ _ more
      ∙ walk-nameless (split cs) (file_of (get_mount (slash ∷ cs) t).0) nameless
