-- ===== src/Vfs/Indent.antt =====
-- The blanks that `dumpRecursive` puts into its buffer, in memory: kmalloc, memset and strcat.
use mathlib.Core.Path.{subst}
use pros.Prelude.{
  ℕ, zero, suc, ◌+◌, ◌≤◌, ◌<◌, arith, Option, none, some, List, [], ◌∷◌, ◌++◌, ◌≡◌, ◌⊎◌, inl, refl,
  ap, ◌∙◌, length,
}
use pros.Memory.{Mem, load8}
use pros.Heap.{Heap, malloc}
use pros.CString.{memset, strcat}
use pros.CString.Block.{memset_lem}
use pros.CString.Text.{IsString, IsString-ext}
use pros.CString.Copy.{strcat-IsCopied}

-- The size of the buffer.
abbrev pub buffer_size : ℕ
buffer_size = 32

-- The loop of `strcat(tmp, " ")`, with the string " " at `blank`.
unfoldable pub indent : (fuel : ℕ) → Mem → (tmp blank left : ℕ) → Option Mem
indent fuel m tmp blank zero = some m
indent fuel m tmp blank (suc left) = elim (strcat fuel m tmp blank) [
  | none ↦ none
  | some m' ↦ indent fuel m' tmp blank left
]

-- The buffer, the heap and memory after the loop.
unfoldable pub indent_buffer :
    (fuel : ℕ) → Heap → Mem → (blank offset : ℕ) → Option (ℕ × Heap × Mem)
indent_buffer fuel h m blank offset = elim (malloc h m buffer_size) [
  | none ↦ none
  | some (tmp, h', m') ↦ elim (indent fuel (memset m' tmp 0 buffer_size) tmp blank offset) [
    | none ↦ none
    | some m'' ↦ some (tmp, h', m'')
  ]
]

abbrev pub blanks : ℕ → List ℕ
blanks zero = []
blanks (suc n) = 32 ∷ blanks n

length-blanks : (n : ℕ) → length (blanks n) ≡ n
length-blanks zero = refl
length-blanks (suc n) = omega (arith, length-blanks n)

blanks-append : (n : ℕ) → blanks n ++ (32 ∷ []) ≡ blanks (suc n)
blanks-append zero = refl
blanks-append (suc n) = ap (λ cs. 32 ∷ cs) (blanks-append n)

-- Memory `m'` has `n` blanks at `tmp`, and otherwise the bytes of `m`.
record IsIndented (m m' : Mem) (tmp n : ℕ) : Type 0 where
  text : IsString m' tmp (blanks n)
  spares : (b : ℕ) → (b < tmp) ⊎ (tmp + n + 1 ≤ b) → load8 m' b ≡ load8 m b

indent-IsIndented :
    (fuel : ℕ) (m0 m : Mem) (tmp blank left n : ℕ)
    → n + left + 1 < fuel
    → (blank + 2 ≤ tmp) ⊎ (tmp + (n + left) + 1 ≤ blank)
    → IsString m0 blank (32 ∷ [])
    → IsIndented m0 m tmp n
    → (m' : Mem) × (indent fuel m tmp blank left ≡ some m') × IsIndented m0 m' tmp (n + left)
unfolding indent
indent-IsIndented fuel m0 m tmp blank zero n enough apart s v =
    (m, refl, subst (IsIndented m0 m tmp) {x = n} {y = n + 0} (omega arith) v)
indent-IsIndented fuel m0 m tmp blank (suc left) n enough apart s v =
    let len = length-blanks n in
    let grown : length (blanks n ++ (32 ∷ [])) ≡ suc n =
      ap length (blanks-append n) ∙ length-blanks (suc n) in
    let here : IsString m blank (32 ∷ []) =
      IsString-ext m0 m blank (32 ∷ []) (λ b lo hi. v.spares b (omega arith)) s in
    let (m1, runs, copied) =
      strcat-IsCopied fuel m tmp blank (blanks n) (32 ∷ []) (omega (arith, len)) (omega arith)
        (omega (arith, len)) v.text here in
    let (m', more, done) =
      indent-IsIndented fuel m0 m1 tmp blank left (suc n) (omega arith) (omega arith) s (record {
        text = subst (IsString m1 tmp) (blanks-append n) copied.text;
        spares = λ b out. copied.spares b (omega (arith, grown)) ∙ v.spares b (omega arith);
      }) in
    (
      m',
      rw (indent, runs) more,
      subst (IsIndented m0 m' tmp) {x = suc n + left} {y = n + suc left} (omega arith) done,
    )

-- Where kmalloc hands out the buffer and its first byte, which memset misses, is 0: with enough fuel
-- and the string " " apart from the buffer and from the blanks, the loop ends with the blanks and
-- their NUL at the buffer, and changes no byte outside of them and of the 33 bytes at the buffer,
-- the last of which, behind it, is the one that memset clears.
pub indent_buffer-blanks :
    (fuel : ℕ) (h h' : Heap) (m m1 : Mem) (tmp blank offset : ℕ)
    → malloc h m buffer_size ≡ some (tmp, h', m1)
    → load8 m1 tmp ≡ 0
    → offset + 1 < fuel
    → (blank + 2 ≤ tmp) ⊎ ((tmp + buffer_size + 1 ≤ blank) × (tmp + offset + 1 ≤ blank))
    → IsString m1 blank (32 ∷ [])
    → (m' : Mem) × (indent_buffer fuel h m blank offset ≡ some (tmp, h', m'))
      × IsString m' tmp (blanks offset)
      × ((b : ℕ)
          → (b < tmp) ⊎ ((tmp + buffer_size + 1 ≤ b) × (tmp + offset + 1 ≤ b))
          → load8 m' b ≡ load8 m1 b)
unfolding indent_buffer
indent_buffer-blanks fuel h h' m m1 tmp blank offset got nul enough apart s =
    let m2 = memset m1 tmp 0 buffer_size in
    let same : (b : ℕ) → (b ≤ tmp) ⊎ (tmp + buffer_size + 1 ≤ b) → load8 m2 b ≡ load8 m1 b =
      λ b out. ground (arith, memset_lem m1 tmp 0 buffer_size b) in
    let (m', runs, done) =
      indent-IsIndented fuel m2 m2 tmp blank offset 0 (omega arith) (omega arith)
        (IsString-ext m1 m2 blank (32 ∷ []) (λ b lo hi. same b (omega arith)) s)
        (record { text = same tmp (inl (omega arith)) ∙ nul; spares = λ b out. refl }) in
    (
      m',
      rw (indent_buffer, got, runs) refl,
      subst (λ n. IsString m' tmp (blanks n)) {x = 0 + offset} {y = offset} (omega arith) done.text,
      λ b out. done.spares b (omega arith) ∙ same b (omega arith),
    )
