-- ===== src/Vfs/Dump.antt =====
-- The lines of `dump`, and the paths of the tree.
use mathlib.Core.List.{Memᴰ}
use mathlib.Core.List.Memᴰ
use mathlib.Core.Path.{sym, subst}
use pros.Prelude.{
  ℕ, ◌+◌, false, Option, none, some, List, [], ◌∷◌, ◌≡◌, ◌↔◌, inl, inr, refl, ap, ◌∙◌, Bool-cases,
  u32, length,
}
use pros.Vfs.{
  Name, VfsNode, Tree, node, Forest, empty, insert, file_of, name_of, children_of, find_child,
  same_name, DumpLine, dump_line, dump_recursive, dump_children, dump,
}
use pros.Vfs.Tokens.{same_name-eq, same_name_self}
use pros.Vfs.Paths.{at, Distinct, AllDistinct}

-- The line of the node at the path `p` below one of the name `n`, whose own line has `offset` blanks.
abbrev pub line_at : (offset : ℕ) → Name → List Name → Option VfsNode → DumpLine
line_at offset n [] f = dump_line offset n f
line_at offset n (a ∷ p) f = line_at (u32 (offset + length n + 1)) a p f

-- The line stands at a path of the tree.
abbrev Stands : DumpLine → Tree → (offset : ℕ) → Type 0
Stands l t offset =
    (p : List Name) × (f : Option VfsNode) × (at p t ≡ some f)
    × (l ≡ line_at offset (name_of t) p f)

mutual
  unfolding at dump_recursive name_of file_of children_of Distinct AllDistinct find_child

  lists-at :
      (t : Tree) (offset : ℕ) (p : List Name) (f : Option VfsNode)
      → at p t ≡ some f
      → Memᴰ (line_at offset (name_of t) p f) (dump_recursive t offset)
  lists-at (node n g cs) offset [] f h = Memᴰ.head (ap (dump_line offset n) (cc))
  lists-at (node n g cs) offset (a ∷ p) f h =
      Memᴰ.tail (children-at cs (u32 (offset + length n + 1)) a p f h)

  children-at :
      (cs : Forest) (offset : ℕ) (a : Name) (p : List Name) (f : Option VfsNode)
      → ◌≡◌ {A = Option (Option VfsNode)}
          (elim (find_child a cs) [ none ↦ none | some child ↦ at p child ])
          (some f)
      → Memᴰ (line_at offset a p f) (dump_children cs offset)
  children-at empty offset a p f h = absurd (cc)
  children-at (insert t ts) offset a p f h = elim (Bool-cases (same_name (name_of t) a)) [
    | inl e ↦
        subst (λ n. Memᴰ (line_at offset n p f) (dump_children (insert t ts) offset))
          (same_name-eq (name_of t) a e)
          (Memᴰ.append_left (dump_children ts offset) (lists-at t offset p f (rw e at h)))
    | inr ne ↦
        Memᴰ.append_right (dump_recursive t offset) (children-at ts offset a p f (rw ne at h))
  ]

-- A name that stands behind the first child is not its name.
behind_fresh :
    (t : Tree) (ts : Forest) (a : Name) (p : List Name) (f : Option VfsNode)
    → find_child (name_of t) ts ≡ none
    → ◌≡◌ {A = Option (Option VfsNode)}
        (elim (find_child a ts) [ none ↦ none | some child ↦ at p child ])
        (some f)
    → same_name (name_of t) a ≡ false
behind_fresh t ts a p f fresh h = elim (Bool-cases (same_name (name_of t) a)) [
  | inl e ↦
      let missing : find_child a ts ≡ none =
        ap (λ n. find_child n ts) (sym (same_name-eq (name_of t) a e)) ∙ fresh in
      absurd (let no = rw missing at h in cc)
  | inr ne ↦ ne
]

mutual
  unfolding at dump_recursive name_of file_of children_of Distinct AllDistinct find_child

  Stands-lists :
      (t : Tree) (offset : ℕ) (l : DumpLine)
      → Distinct t
      → Memᴰ l (dump_recursive t offset)
      → Stands l t offset
  Stands-lists (node n g cs) offset l d (Memᴰ.head e) = ([], g, refl, e)
  Stands-lists (node n g cs) offset l d (Memᴰ.tail m) =
      let (a, p, f, h, e) = children-Stands cs (u32 (offset + length n + 1)) l d m in
      (a ∷ p, f, h, e)

  children-Stands :
      (cs : Forest) (offset : ℕ) (l : DumpLine)
      → AllDistinct cs
      → Memᴰ l (dump_children cs offset)
      → (a : Name) × (p : List Name) × (f : Option VfsNode) × ◌≡◌ {A = Option (Option VfsNode)}
          (elim (find_child a cs) [ none ↦ none | some child ↦ at p child ])
          (some f)
        × (l ≡ line_at offset a p f)
  children-Stands empty offset l d m = absurd (Memᴰ.not-nil m)
  children-Stands (insert t ts) offset l d m =
      elim (Memᴰ.append_cases (dump_recursive t offset) m) [
        | inl here ↦
            let (p, f, h, e) = Stands-lists t offset l d.1 here in
            (name_of t, p, f, rw (same_name_self (name_of t)) h, e)
        | inr later ↦
            let (a, p, f, h, e) = children-Stands ts offset l d.2 later in
            (a, p, f, rw (behind_fresh t ts a p f d.0 h) h, e)
      ]

-- On a tree whose nodes have children of different names, a line is among those of `dump` exactly if
-- it is the line of a path at which a node stands: its name, its file, and in front of it as many
-- blanks as the names on the way have characters, with a separator for each, modulo 2^32.
pub dump-line_at :
    (t : Tree) (l : DumpLine)
    → Distinct t
    → Memᴰ l (dump t) ↔ (
        (p : List Name) × (f : Option VfsNode) × (at p t ≡ some f)
        × (l ≡ line_at 0 (name_of t) p f))
unfolding dump
dump-line_at t l d = (
  λ m. Stands-lists t 0 l d m,
  λ s. subst (λ l. Memᴰ l (dump_recursive t 0)) (sym s.3) (lists-at t 0 s.0 s.1 s.2),
)

-- The characters of the names on the way to a path, with their separators.
abbrev pub way : Name → List Name → ℕ
way n [] = 0
way n (a ∷ p) = length n + 1 + way a p
