-- ===== src/Vfs/Reach.antt =====
-- The trees that calls of `mount` leave, from the one of `init` on.
use mathlib.Core.Path.{sym}
use pros.Prelude.{
  ℕ, Bool, true, false, ◌&&◌, ◌==◌, if◌then◌else◌, Option, none, some, List, [], ◌∷◌, ◌≡◌, ◌≢◌, inl,
  inr, refl, ap, ◌∙◌, Bool-cases, Option-cases,
}
use pros.Vfs.{
  Name, VfsNode, Tree, node, init, file_of, children_of, find_child, same_name, mount, is_root,
  tokens, slash, split, open_file,
}
use pros.Vfs.Paths.{at, Distinct, clean, overlay}
use pros.Vfs.Mounts.{at-mount_recursive, mount_recursive-Distinct}
use pros.Vfs.Open.{mount-recursive, open_file-at}

-- A call of `mount`, its path and its file.
abbrev pub Call : Type 0
Call = List ℕ × VfsNode

-- The tree after the calls `cs`, the last one first.
pub data Reaches : Tree → List Call → Type 0 where
  start : Reaches init []
  mounts :
      {t : Tree}
      → {cs : List Call} → (path : List ℕ) → (file : VfsNode) → Reaches t cs
      → Reaches (mount path file t).1 ((path, file) ∷ cs)

-- What `mount` of "/" does to the map: only the first one counts.
unfoldable pub overlay_root :
    List Name → VfsNode → Option (Option VfsNode) → Option (Option VfsNode)
overlay_root [] file (some none) = some (some file)
overlay_root [] file none = none
overlay_root [] file (some (some f)) = some (some f)
overlay_root (a ∷ p) file old = old

-- The map from paths to files that the calls describe.
unfoldable pub table : List Call → List Name → Option (Option VfsNode)
table [] [] = some none
table [] (a ∷ p) = none
table ((path, file) ∷ cs) p =
    if is_root path
    then overlay_root p file (table cs p)
    else overlay p (clean (tokens path)) file (table cs p)

mount-Distinct :
    (path : List ℕ) (file : VfsNode) (t : Tree) → Distinct t → Distinct (mount path file t).1
unfolding mount Distinct
mount-Distinct path file (node n f cs) d = elim (Bool-cases (is_root path)) [
  | inl e ↦ elim (Option-cases f) [
    | inl free ↦ rw (mount, e, free) d
    | inr (g, taken) ↦ rw (mount, e, taken) d
  ]
  | inr e ↦ rw (mount, e) (mount_recursive-Distinct (tokens path) file (node n f cs) d)
]

at-mount_root :
    (p : List Name) (path : List ℕ) (file : VfsNode) (t : Tree)
    → is_root path ≡ true
    → at p (mount path file t).1 ≡ overlay_root p file (at p t)
unfolding mount at overlay_root file_of children_of
at-mount_root [] path file (node n none cs) e = rw (mount, e) refl
at-mount_root [] path file (node n (some f) cs) e = rw (mount, e) refl
at-mount_root (a ∷ p) path file (node n none cs) e = rw (mount, e) refl
at-mount_root (a ∷ p) path file (node n (some f) cs) e = rw (mount, e) refl

at-init : (p : List Name) → at p init ≡ table [] p
unfolding at init table file_of children_of find_child
at-init [] = refl
at-init (a ∷ p) = refl

pub Distinct-Reaches : (t : Tree) (cs : List Call) → Reaches t cs → Distinct t
unfolding Distinct init
Distinct-Reaches t cs start = tt
Distinct-Reaches t cs (mounts path file r) = mount-Distinct path file _ (Distinct-Reaches _ _ r)

at-table : (t : Tree) (cs : List Call) → Reaches t cs → (p : List Name) → at p t ≡ table cs p
unfolding table
at-table t cs start p = at-init p
at-table t' cs' (mounts {t} {cs} path file r) p = elim (Bool-cases (is_root path)) [
  | inl e ↦ rw e (at-mount_root p path file t e ∙ ap (overlay_root p file) (at-table t cs r p))
  | inr e ↦ rw e (
      ap (λ (x : Bool × Tree). at p x.1) (mount-recursive path file t e)
      ∙ at-mount_recursive (tokens path) p file t (Distinct-Reaches t cs r)
      ∙ ap (overlay p (clean (tokens path)) file) (at-table t cs r p))
]

-- After any sequence of calls of `mount` on the tree of `init`, the children of every node have
-- different names, and what stands at a path is what the calls describe: a mount puts its file at
-- its path, up to the first empty token, over what was there, and makes the nodes on the way, but a
-- mount of "/" counts only if there is no file yet.
pub at-Reaches :
    (t : Tree) (cs : List Call)
    → Reaches t cs
    → Distinct t × ((p : List Name) → at p t ≡ table cs p)
at-Reaches t cs r = (Distinct-Reaches t cs r, at-table t cs r)

-- `strcmp` is 0 on each of the tokens.
unfoldable pub same_path : List Name → List Name → Bool
same_path [] [] = true
same_path [] (b ∷ q) = false
same_path (a ∷ p) [] = false
same_path (a ∷ p) (b ∷ q) = same_name a b && same_path p q

-- The file of the last call whose path has the tokens `p`.
unfoldable pub latest : List Name → List Call → Option VfsNode
latest p [] = none
latest p ((path, file) ∷ cs) = if same_path (clean (tokens path)) p then some file else latest p cs

overlay_same :
    (p q : List Name) (file : VfsNode) (old : Option (Option VfsNode))
    → same_path q p ≡ true
    → overlay p q file old ≡ some (some file)
unfolding overlay same_path
overlay_same [] [] file old h = refl
overlay_same [] (b ∷ q) file old h = cc
overlay_same (a ∷ p) [] file old h = cc
overlay_same (a ∷ p) (b ∷ q) file old h = elim (Bool-cases (same_name b a)) [
  | inl e ↦ rw e (overlay_same p q file old (rw e at h))
  | inr ne ↦ absurd (cc)
]

overlay_other :
    (p q : List Name) (file g : VfsNode)
    → same_path q p ≡ false
    → overlay p q file (some (some g)) ≡ some (some g)
unfolding overlay same_path
overlay_other [] [] file g h = cc
overlay_other [] (b ∷ q) file g h = refl
overlay_other (a ∷ p) [] file g h = refl
overlay_other (a ∷ p) (b ∷ q) file g h = elim (Bool-cases (same_name b a)) [
  | inl e ↦ rw e (overlay_other p q file g (rw e at h))
  | inr ne ↦ rw ne refl
]

-- The tokens of "/".
clean-root : (path : List ℕ) → is_root path ≡ true → clean (tokens path) ≡ []
unfolding is_root tokens split clean
clean-root [] h = cc
clean-root (c ∷ []) h = refl
clean-root (c ∷ d ∷ cs) h = cc

table-latest :
    (cs : List Call) (a : Name) (p : List Name) (file : VfsNode)
    → latest (a ∷ p) cs ≡ some file
    → table cs (a ∷ p) ≡ some (some file)
unfolding latest table overlay_root same_path
table-latest [] a p file h = cc
table-latest ((path, g) ∷ cs) a p file h = elim (Bool-cases (is_root path)) [
  | inl e ↦ rw e (table-latest cs a p file (rw (clean-root path e) at h))
  | inr e ↦ rw e (elim (Bool-cases (same_path (clean (tokens path)) (a ∷ p))) [
    | inl same ↦ overlay_same (a ∷ p) (clean (tokens path)) g _ same ∙ ap some (rw same at h)
    | inr other ↦
        ap (overlay (a ∷ p) (clean (tokens path)) g) (table-latest cs a p file (rw other at h))
        ∙ overlay_other (a ∷ p) (clean (tokens path)) g file other
  ])
]

split-first : (cs : List ℕ) → (a : Name) × (p : List Name) × (split cs ≡ a ∷ p)
unfolding split
split-first [] = ([], [], refl)
split-first (c ∷ cs) = elim (Bool-cases (c == slash)) [
  | inl e ↦ ([], split cs, rw e refl)
  | inr e ↦ let (a, p, first) = split-first cs in (c ∷ a, p, rw (e, first) refl)
]

tokens-first : (path : List ℕ) → path ≢ [] → (a : Name) × (p : List Name) × (tokens path ≡ a ∷ p)
unfolding tokens
tokens-first [] given = absurd (given refl)
tokens-first (c ∷ cs) given = split-first cs

-- `openFile` of a path other than "/" whose tokens behind the slash are not empty, on the tree that
-- any sequence of calls of `mount` leaves, opens the file of the last call with the same tokens,
-- whatever the storages hold.
pub open_file-latest :
    (storage_find_directory : ℕ → VfsNode → Name → Option VfsNode) (t : Tree) (cs : List Call)
    (path : List ℕ) (file : VfsNode)
    → Reaches t cs
    → path ≢ []
    → is_root path ≡ false
    → clean (tokens path) ≡ tokens path
    → latest (tokens path) cs ≡ some file
    → open_file storage_find_directory path t ≡ some file
open_file-latest find t cs path file r given not_root whole last =
    let (a, p, first) = tokens-first path given in
    let there : table cs (tokens path) ≡ some (some file) =
      ap (table cs) first ∙ table-latest cs a p file (ap (λ q. latest q cs) (sym first) ∙ last) in
    open_file-at find path (some file) t not_root whole (at-table t cs r (tokens path) ∙ there)
