-- ===== src/Vfs/Mounts.antt =====
-- `mountRecursive` on the map from paths to files.
use mathlib.Core.Path.{sym, subst}
use pros.Prelude.{
  ℕ, false, Option, none, some, List, [], ◌∷◌, ◌≡◌, ◌⊎◌, inl, inr, refl, ap, ◌∙◌, Bool-cases,
  Option-cases,
}
use pros.Vfs.{
  Name, VfsNode, Tree, node, Forest, empty, insert, name_of, file_of, children_of, same_name,
  find_child, update_last, mount_recursive,
}
use pros.Vfs.Tokens.{same_name-eq, same_name_self}
use pros.Vfs.Paths.{
  at, Distinct, AllDistinct, clean, overlay, update_last-none, IsUpdated, update_last-IsUpdated,
}

pub name_of-mount_recursive :
    (ts : List Name) (file : VfsNode) (t : Tree) → name_of (mount_recursive ts file t) ≡ name_of t
unfolding mount_recursive name_of
name_of-mount_recursive [] file (node n f cs) = refl
name_of-mount_recursive ([] ∷ ts) file (node n f cs) = refl
name_of-mount_recursive ((c ∷ token) ∷ ts) file (node n f cs) =
    elim (Option-cases (update_last (c ∷ token) (mount_recursive ts file) cs)) [
      | inl e ↦ rw (mount_recursive, e) refl
      | inr (cs', e) ↦ rw (mount_recursive, e) refl
    ]

-- The children after one step of `mountRecursive`: a child of that name is changed, or there is a
-- new one in front.
unfoldable IsStep : (token : Name) (ts : List Name) (file : VfsNode) (cs cs' : Forest) → Type 0
IsStep token ts file cs cs' =
    IsUpdated token (mount_recursive ts file) cs cs'
    ⊎ ((find_child token cs ≡ none)
        × (cs' ≡ insert (mount_recursive ts file (node token none empty)) cs))

mount_recursive-IsStep :
    (c : ℕ) (token : Name) (ts : List Name) (file : VfsNode) (n : Name) (f : Option VfsNode)
    (cs : Forest)
    → AllDistinct cs
    → (cs' : Forest) × (mount_recursive ((c ∷ token) ∷ ts) file (node n f cs) ≡ node n f cs')
      × IsStep (c ∷ token) ts file cs cs'
unfolding mount_recursive IsStep
mount_recursive-IsStep c token ts file n f cs d =
    elim (Option-cases (update_last (c ∷ token) (mount_recursive ts file) cs)) [
      | inl e ↦ (
        insert (mount_recursive ts file (node (c ∷ token) none empty)) cs,
        rw (mount_recursive, e) refl,
        inr (update_last-none (c ∷ token) (mount_recursive ts file) cs e, refl),
      )
      | inr (cs', e) ↦ (
        cs',
        rw (mount_recursive, e) refl,
        inl (
            update_last-IsUpdated (c ∷ token) (mount_recursive ts file) cs cs'
              (name_of-mount_recursive ts file) d e),
      )
    ]

-- Nothing stands below a new node.
at-new :
    (p : List Name) (name : Name)
    → at p (node name none empty) ≡ elim p [ [] ↦ some none | a ∷ ps ↦ none ]
unfolding at file_of children_of find_child
at-new [] name = refl
at-new (a ∷ p) name = refl

-- A mount at a new node, where nothing stood before.
overlay-new :
    (p q : List Name) (file : VfsNode)
    → overlay p q file (elim p [ [] ↦ some none | a ∷ ps ↦ none ]) ≡ overlay p q file none
unfolding overlay
overlay-new [] [] file = refl
overlay-new [] (b ∷ q) file = refl
overlay-new (a ∷ p) [] file = refl
overlay-new (a ∷ p) (b ∷ q) file = refl

-- The child of a name, after that step.
find_child-step :
    (token a : Name) (ts : List Name) (file : VfsNode) (cs cs' : Forest)
    → IsStep token ts file cs cs'
    → same_name token a ≡ false
    → find_child a cs' ≡ find_child a cs
unfolding IsStep find_child name_of
find_child-step token a ts file cs cs' (inl u) ne = u.others a ne
find_child-step token a ts file cs cs' (inr (fresh, e)) ne =
    ap (find_child a) e ∙ (rw (name_of-mount_recursive ts file (node token none empty), ne) refl)

Distinct-child :
    (a : Name) (cs : Forest) (child : Tree)
    → AllDistinct cs
    → find_child a cs ≡ some child
    → Distinct child
unfolding AllDistinct find_child
Distinct-child a empty child d h = cc
Distinct-child a (insert t ts) child d h = elim (Bool-cases (same_name (name_of t) a)) [
  | inl e ↦ subst Distinct {x = t} {y = child} (let same = rw e at h in cc) d.1
  | inr ne ↦ Distinct-child a ts child d.2 (rw ne at h)
]

-- What a mount does to the map, stated for one tree.
abbrev Lays : List Name → VfsNode → Tree → Type 0
Lays ts file t =
    (p : List Name) → at p (mount_recursive ts file t) ≡ overlay p (clean ts) file (at p t)

-- Below the child that the step changes or makes.
below-step :
    (token : Name) (ts p : List Name) (file : VfsNode) (cs cs' : Forest)
    → AllDistinct cs
    → ((t : Tree) → Distinct t → Lays ts file t)
    → IsStep token ts file cs cs'
    → elim (find_child token cs') as (λ _. Option (Option VfsNode)) [
      | none ↦ none
      | some t ↦ at p t
    ]
      ≡ overlay p (clean ts) file (elim (find_child token cs) [ none ↦ none | some t ↦ at p t ])
unfolding IsStep find_child name_of Distinct AllDistinct
below-step token ts p file cs cs' d lays (inl u) =
    rw (u.found, u.changed) (lays u.child (Distinct-child token cs u.child d u.found) p)
below-step token ts p file cs cs' d lays (inr (fresh, e)) =
    let new = node token none empty in
    let first : find_child token cs' ≡ some (mount_recursive ts file new) =
      ap (find_child token) e
      ∙ rw (name_of-mount_recursive ts file new, same_name_self token) refl in
    rw (first, fresh)
      (lays new tt p
        ∙ ap (overlay p (clean ts) file) (at-new p token)
        ∙ overlay-new p (clean ts) file)

-- On a tree whose nodes have children of different names, `mountRecursive` puts the file at the
-- path, up to its first empty token, makes the nodes on the way that are not there, with no file,
-- and leaves what stands at every other path.
pub at-mount_recursive :
    (ts p : List Name) (file : VfsNode) (t : Tree)
    → Distinct t
    → at p (mount_recursive ts file t) ≡ overlay p (clean ts) file (at p t)
unfolding mount_recursive at overlay clean Distinct file_of children_of
at-mount_recursive [] [] file (node n f cs) d = refl
at-mount_recursive [] (a ∷ p) file (node n f cs) d = refl
at-mount_recursive ([] ∷ ts) [] file (node n f cs) d = refl
at-mount_recursive ([] ∷ ts) (a ∷ p) file (node n f cs) d = refl
at-mount_recursive ((c ∷ token) ∷ ts) [] file (node n f cs) d =
    let (cs', e, step) = mount_recursive-IsStep c token ts file n f cs d in ap (at []) e
at-mount_recursive ((c ∷ token) ∷ ts) (a ∷ p) file (node n f cs) d =
    let (cs', e, step) = mount_recursive-IsStep c token ts file n f cs d in
    ap (at (a ∷ p)) e ∙ elim (Bool-cases (same_name (c ∷ token) a)) [
      | inl same ↦
          rw (same, sym (same_name-eq (c ∷ token) a same))
            (below-step (c ∷ token) ts p file cs cs' d (λ t dt q. at-mount_recursive ts q file t dt)
              step)
      | inr other ↦ rw other (
          ap
            (λ (r : Option Tree). elim r as (λ _. Option (Option VfsNode)) [
              | none ↦ none
              | some t ↦ at p t
            ])
            (find_child-step (c ∷ token) a ts file cs cs' step other))
    ]

update_last-AllDistinct :
    (token : Name) (g : Tree → Tree) (cs cs' : Forest)
    → ((t : Tree) → name_of (g t) ≡ name_of t)
    → ((t : Tree) → Distinct t → Distinct (g t))
    → AllDistinct cs
    → update_last token g cs ≡ some cs'
    → AllDistinct cs'
unfolding update_last AllDistinct
update_last-AllDistinct token g empty cs' names keeps d h = cc
update_last-AllDistinct token g (insert t ts) cs' names keeps d h =
    elim (Option-cases (update_last token g ts)) [
      | inr (ts', later) ↦
          let u = update_last-IsUpdated token g ts ts' names d.2 later in
          let fresh : find_child (name_of t) ts' ≡ none =
            elim (Bool-cases (same_name token (name_of t))) [
              | inl e ↦
                  (let missing = rw (sym (same_name-eq token (name_of t) e), u.found) at d.0 in
                    absurd (cc))
              | inr ne ↦ u.others (name_of t) ne ∙ d.0
            ] in
          subst AllDistinct {x = insert t ts'} {y = cs'} (let same = rw later at h in cc)
            (fresh, d.1, update_last-AllDistinct token g ts ts' names keeps d.2 later)
      | inl later ↦ elim (Bool-cases (same_name (name_of t) token)) [
        | inl e ↦
            subst AllDistinct {x = insert (g t) ts} {y = cs'} (let same = rw (later, e) at h in cc)
              (ap (λ n. find_child n ts) (names t) ∙ d.0, keeps t d.1, d.2)
        | inr ne ↦ (let missing = rw (later, ne) at h in absurd (cc))
      ]
    ]

-- `mountRecursive` keeps the names of the children of every node different.
pub mount_recursive-Distinct :
    (ts : List Name) (file : VfsNode) (t : Tree) → Distinct t → Distinct (mount_recursive ts file t)
unfolding mount_recursive Distinct AllDistinct name_of
mount_recursive-Distinct [] file (node n f cs) d = d
mount_recursive-Distinct ([] ∷ ts) file (node n f cs) d = d
mount_recursive-Distinct ((c ∷ token) ∷ ts) file (node n f cs) d =
    let names = name_of-mount_recursive ts file in
    let keeps = mount_recursive-Distinct ts file in
    elim (Option-cases (update_last (c ∷ token) (mount_recursive ts file) cs)) [
      | inl e ↦
          let new = node (c ∷ token) none empty in
          rw (mount_recursive, e)
            (
              ap (λ n. find_child n cs) (names new)
                  ∙ update_last-none (c ∷ token) (mount_recursive ts file) cs e,
              keeps new tt,
              d,
            )
      | inr (cs', e) ↦
          rw (mount_recursive, e)
            (update_last-AllDistinct (c ∷ token) (mount_recursive ts file) cs cs' names keeps d e)
    ]
