-- ===== src/CString/Tests.antt =====
-- Runs of the string functions on a small memory.
use pros.Prelude.{ℕ, false, ◌≡◌, ◌↔◌, inr, refl, arith, List, [], ◌∷◌, ◌++◌, some, pos}
use pros.Memory.{Mem, load8, store8, store32}
use pros.CString.{memset, strcmp, strcat, strsep, itos}
use pros.CString.Text.{IsString}
use pros.CString.Compare.{difference, strcmp_lem}
use pros.CString.Copy.{IsCopied, strcat-IsCopied}
use pros.CString.Sep.{IsCut, strsep-IsCut}
use pros.CString.Number.{numeral}
use pros.CString.Duplicate.{strdup, IsDuplicated, strdup-IsDuplicated}
use pros.Heap.{Heap, construct, set_allocated, set_prev, set_next, set_size, set_magic}
use pros.Heap.Blocks.{block, IsHeap, find_block}
use pros.Heap.Construct.{construct-IsHeap}
use pros.CString.Itos.{itos-IsCopied}

-- "a/b" at 100, "/" at 200, and zeros.
abbrev text : Mem
text = store8 (store8 (store8 (store8 (λ a. 0) 100 97) 101 47) 102 98) 200 47

abbrev path : List ℕ
path = 97 ∷ 47 ∷ 98 ∷ []

abbrev delimiters : List ℕ
delimiters = 47 ∷ []

path-IsString : IsString text 100 path
unfolding load8 store8
path-IsString = (refl, (λ e. cc), (refl, (λ e. cc), (refl, (λ e. cc), refl)))

delimiters-IsString : IsString text 200 delimiters
unfolding load8 store8
delimiters-IsString = (refl, (λ e. cc), refl)

memset-text : load8 (memset text 100 7 2) 102 ≡ 7
unfolding load8 memset store8
memset-text = refl

strcmp_lem_example :
    (strcmp 4 text 100 200 ≡ some (difference path delimiters))
    × ((difference path delimiters ≡ pos 0) ↔ (path ≡ delimiters))
strcmp_lem_example =
    strcmp_lem 4 text 100 200 path delimiters (omega arith) path-IsString delimiters-IsString

strcat-IsCopied_example :
    (m' : Mem) × (strcat 4 text 200 100 ≡ some m') × IsCopied text m' 200 (delimiters ++ path)
strcat-IsCopied_example =
    strcat-IsCopied 4 text 200 100 delimiters path (omega arith) (omega arith) (inr (omega arith))
      delimiters-IsString path-IsString

strsep-IsCut_example :
    (rest : ℕ) × (m' : Mem) × (strsep 5 text 100 200 ≡ some (100, rest, m'))
    × IsCut text m' 100 delimiters path rest
strsep-IsCut_example =
    strsep-IsCut 5 text 100 200 path delimiters (λ e. cc) (omega arith) delimiters-IsString
      path-IsString

itos-IsCopied_example :
    (m' : Mem) × (itos text 255 400 16 ≡ some m') × IsCopied text m' 400 (numeral 16 255)
itos-IsCopied_example = itos-IsCopied text 255 400 16 (omega arith) (omega arith)

-- A heap of 200 bytes at address 4096, above the texts.
abbrev heap : Heap
heap = record { memory_size = 200; used_memory = 0; first = 4096 }

construct-text : (construct text 4096 200).0 ≡ heap
unfolding construct
construct-text = refl

heap-IsHeap : IsHeap heap (construct text 4096 200).1 (block 180 false ∷ [])
unfolding construct
heap-IsHeap = construct-IsHeap text 4096 200 (omega arith) (omega arith) (omega arith)

path-IsString_heap : IsString (construct text 4096 200).1 100 path
unfolding construct set_allocated set_prev set_next set_size set_magic store32 store8 load8
path-IsString_heap = (refl, (λ e. cc), (refl, (λ e. cc), (refl, (λ e. cc), refl)))

strdup-IsDuplicated_example :
    (ptr : ℕ) × (h' : Heap) × (m' : Mem) × (strdup 4 heap (construct text 4096 200).1 100
      ≡ some (ptr, h', m'))
    × IsDuplicated heap (construct text 4096 200).1 (block 180 false ∷ []) path 0 ptr h' m'
unfolding find_block
strdup-IsDuplicated_example =
    strdup-IsDuplicated 4 heap (construct text 4096 200).1 (block 180 false ∷ []) 100 0 path
      heap-IsHeap (omega arith) path-IsString_heap (omega arith) (omega arith) (omega arith) refl
