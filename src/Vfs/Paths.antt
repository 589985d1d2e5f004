-- ===== src/Vfs/Paths.antt =====
-- The tree of mounts as a map from paths to files.
use mathlib.Core.Path.{subst}
use pros.Prelude.{
  true, false, Option, none, some, List, [], ◌∷◌, ◌≡◌, inl, inr, refl, ap, Bool-cases, Option-cases,
  if◌then◌else◌,
}
use pros.Vfs.{
  Name, VfsNode, Tree, node, Forest, empty, insert, name_of, file_of, children_of, same_name,
  find_child, update_last,
}
use pros.Vfs.Tokens.{same_name-eq}

-- What stands at a path: no node, a node with no file, or a file.
unfoldable pub at : List Name → Tree → Option (Option VfsNode)
at [] t = some (file_of t)
at (p ∷ ps) t = elim (find_child p (children_of t)) [ none ↦ none | some child ↦ at ps child ]

-- No two children of a node have the same name.
unfoldable mutual
  pub Distinct : Tree → Type 0
  Distinct (node n f cs) = AllDistinct cs

  pub AllDistinct : Forest → Type 0
  AllDistinct empty = Unit {0}
  AllDistinct (insert t ts) = (find_child (name_of t) ts ≡ none) × Distinct t × AllDistinct ts

-- The part of a path before its first empty token.
unfoldable pub clean : List Name → List Name
clean [] = []
clean ([] ∷ ts) = []
clean ((c ∷ t) ∷ ts) = (c ∷ t) ∷ clean ts

-- The map after `file` has been mounted at the path `q`: that file at `q`, a node on the way to it,
-- and elsewhere what stood there before.
unfoldable pub overlay :
    (p q : List Name) → VfsNode → Option (Option VfsNode) → Option (Option VfsNode)
overlay [] [] file old = some (some file)
overlay [] (b ∷ q) file old = elim old [ none ↦ some none | some f ↦ some f ]
overlay (a ∷ p) [] file old = old
overlay (a ∷ p) (b ∷ q) file old = if same_name b a then overlay p q file old else old

-- A child that is not there.
pub update_last-none :
    (token : Name) (g : Tree → Tree) (cs : Forest)
    → update_last token g cs ≡ none
    → find_child token cs ≡ none
unfolding update_last find_child
update_last-none token g empty h = refl
update_last-none token g (insert t ts) h = elim (Option-cases (update_last token g ts)) [
  | inr (ts', later) ↦ (let no_rest = rw later at h in absurd (cc))
  | inl later ↦ elim (Bool-cases (same_name (name_of t) token)) [
    | inl e ↦ (let no_rest = rw (later, e) at h in absurd (cc))
    | inr ne ↦ rw ne (update_last-none token g ts later)
  ]
]

-- The child that `update_last` changes is the one that `find_child` finds, and the others stay.
pub record IsUpdated (token : Name) (g : Tree → Tree) (cs cs' : Forest) : Type 0 where
  pub child : Tree
  pub found : find_child token cs ≡ some child
  pub changed : find_child token cs' ≡ some (g child)
  pub others : (a : Name) → same_name token a ≡ false → find_child a cs' ≡ find_child a cs

-- The first child is the one.
IsUpdated-here :
    (token : Name) (g : Tree → Tree) (t : Tree) (ts : Forest)
    → name_of (g t) ≡ name_of t
    → same_name (name_of t) token ≡ true
    → IsUpdated token g (insert t ts) (insert (g t) ts)
unfolding find_child
IsUpdated-here token g t ts name e =
    let same : name_of t ≡ token = same_name-eq (name_of t) token e in
    record {
      child = t;
      found = rw e refl;
      changed = rw (name, e) refl;
      others = λ a ne. rw (name, same, ne) refl;
    }

-- Another child stands before it.
IsUpdated-later :
    (token : Name) (g : Tree → Tree) (t : Tree) (ts ts' : Forest)
    → find_child (name_of t) ts ≡ none
    → IsUpdated token g ts ts'
    → IsUpdated token g (insert t ts) (insert t ts')
unfolding find_child
IsUpdated-later token g t ts ts' fresh u = elim (Bool-cases (same_name (name_of t) token)) [
  | inl e ↦ let missing = rw (same_name-eq (name_of t) token e, u.found) at fresh in absurd (cc)
  | inr ne ↦ record {
    child = u.child;
    found = rw ne u.found;
    changed = rw ne u.changed;
    others = λ a h. ap (λ r. if same_name (name_of t) a then some t else r) (u.others a h);
  }
]

pub update_last-IsUpdated :
    (token : Name) (g : Tree → Tree) (cs cs' : Forest)
    → ((t : Tree) → name_of (g t) ≡ name_of t)
    → AllDistinct cs
    → update_last token g cs ≡ some cs'
    → IsUpdated token g cs cs'
unfolding update_last AllDistinct
update_last-IsUpdated token g empty cs' names d h = cc
update_last-IsUpdated token g (insert t ts) cs' names d h =
    elim (Option-cases (update_last token g ts)) [
      | inr (ts', later) ↦
          let u = update_last-IsUpdated token g ts ts' names d.2 later in
          let whole : insert t ts' ≡ cs' = (let same = rw later at h in cc) in
          subst (λ c. IsUpdated token g (insert t ts) c) whole
            (IsUpdated-later token g t ts ts' d.0 u)
      | inl later ↦ elim (Bool-cases (same_name (name_of t) token)) [
        | inl e ↦
            let whole : insert (g t) ts ≡ cs' = (let same = rw (later, e) at h in cc) in
            subst (λ c. IsUpdated token g (insert t ts) c) whole
              (IsUpdated-here token g t ts (names t) e)
        | inr ne ↦ (let missing = rw (later, ne) at h in absurd (cc))
      ]
    ]
