-- ===== src/CString.antt =====
-- Kernel/src/Lib/String.cpp over a memory of bytes: the block operations and the C strings.
pub mod Duplicate
pub mod Block
pub mod Text
pub mod Compare
pub mod Copy
pub mod Sep
pub mod Number
pub mod Digits
pub mod Itos
mod Tests
use pros.Prelude.{
  ℕ, zero, suc, ◌+◌, ◌-◌, ◌*◌, ◌/◌, ◌%◌, ◌<◌, Bool, true, false, Option, none, some, ◌==◌, ltb, leb,
  ◌||◌, not, if◌then◌else◌, u32, ℤ, sub_ℕ,
}
use pros.Memory.{Mem, load8, store8}

-- `for (; count != 0; count--) temp[count] = val;`
unfoldable pub memset : Mem → ℕ → ℕ → ℕ → Mem
memset m dest val zero = m
memset m dest val (suc count) = memset (store8 m (dest + suc count) val) dest val count

-- The copying loop at index `i`, with `left` rounds to go.
unfoldable pub memcpy_from : Mem → ℕ → ℕ → ℕ → ℕ → Mem
memcpy_from m dest src zero i = m
memcpy_from m dest src (suc left) i =
    memcpy_from (store8 m (dest + i) (load8 m (src + i))) dest src left (i + 1)

unfoldable pub memcpy : Mem → ℕ → ℕ → ℕ → Mem
unfolding memcpy_from
memcpy m dest src size = memcpy_from m dest src size 0

-- The loops over C strings run to a NUL byte, which need not come: they take fuel, and `none` means
-- that it ran out.
unfoldable pub strlen_from : ℕ → Mem → (str len : ℕ) → Option ℕ
strlen_from zero m str len = none
strlen_from (suc fuel) m str len =
    let rest = strlen_from fuel m str (len + 1) in
    if load8 m (str + len) == 0 then some len else rest

unfoldable pub strlen : ℕ → Mem → ℕ → Option ℕ
unfolding strlen_from
strlen fuel m str = strlen_from fuel m str 0

-- The difference of the bytes at which the loop stops.
unfoldable pub strcmp : ℕ → Mem → (a b : ℕ) → Option ℤ
strcmp zero m a b = none
strcmp (suc fuel) m a b =
    let rest = strcmp fuel m (a + 1) (b + 1) in
    if load8 m a == 0 || not (load8 m a == load8 m b)
    then some (sub_ℕ (load8 m a) (load8 m b))
    else rest

-- `while ((*strDest++ = *strSrc++) != 0)`: the byte is written before it is tested.
unfoldable pub strcpy : ℕ → Mem → (dest src : ℕ) → Option Mem
strcpy zero m dest src = none
strcpy (suc fuel) m dest src =
    let m' = store8 m dest (load8 m src) in
    let rest = strcpy fuel m' (dest + 1) (src + 1) in if load8 m' dest == 0 then some m' else rest

unfoldable pub strcat : ℕ → Mem → (dest src : ℕ) → Option Mem
strcat fuel m dest src = elim (strlen fuel m dest) [
  | none ↦ none
  | some len ↦ strcpy fuel m (dest + len) src
]

-- The inner loop of `strsep`: whether `c` is a byte of the delimiters, their NUL included.
unfoldable pub is_delim : ℕ → Mem → (spanp c : ℕ) → Option Bool
is_delim zero m spanp c = none
is_delim (suc fuel) m spanp c =
    let sc = load8 m spanp in
    let rest = is_delim fuel m (spanp + 1) c in
    if sc == c then some true else if sc == 0 then some false else rest

-- The outer loop, at `s`: what becomes of `*stringp` (0 is `nullptr`), and memory.
unfoldable pub strsep_from : ℕ → Mem → (s delim : ℕ) → Option (ℕ × Mem)
strsep_from zero m s delim = none
strsep_from (suc fuel) m s delim =
    let c = load8 m s in
    let rest = strsep_from fuel m (s + 1) delim in
    elim (is_delim (suc fuel) m delim c) [
      | none ↦ none
      | some true ↦ if c == 0 then some (0, m) else some (s + 1, store8 m s 0)
      | some false ↦ rest
    ]

-- The token, the new value of `*stringp`, and memory.
unfoldable pub strsep : ℕ → Mem → (string delim : ℕ) → Option (ℕ × ℕ × Mem)
strsep fuel m string delim =
    if string == 0 then some (0, 0, m) else elim (strsep_from fuel m string delim) [
      | none ↦ none
      | some (rest, m') ↦ some (string, rest, m')
    ]

-- The loop of `countDigit`.
unfoldable pub count_from : ℕ → (n base count : ℕ) → Option ℕ
count_from zero n base count = none
count_from (suc fuel) n base count =
    let rest = count_from fuel (n / base) base (count + 1) in if n == 0 then some count else rest

unfoldable pub count_digit : (n base : ℕ) → Option ℕ
unfolding count_from
count_digit n base = if n == 0 then some 1 else count_from (n + 1) n base 0

unfoldable pub swap : Mem → (x y : ℕ) → Mem
swap m x y = let t = load8 m x in store8 (store8 m x (load8 m y)) y t

-- The loop of `reverse`, with a round of fuel for each step of `i`.
unfoldable pub reverse_from : ℕ → Mem → (buffer i j : ℕ) → Mem
reverse_from zero m buffer i j = m
reverse_from (suc fuel) m buffer i j =
    let rest = reverse_from fuel (swap m (buffer + i) (buffer + j)) buffer (i + 1) (j - 1) in
    if ltb i j then rest else m

unfoldable pub reverse : Mem → (buffer i j : ℕ) → Mem
reverse m buffer i j = reverse_from j m buffer i j

-- The character for a digit.
unfoldable pub digit_char : ℕ → ℕ
digit_char r = if leb 10 r then 65 + (r - 10) else 48 + r

-- The loop of `itos`: the digits from the lowest on, and the index behind the last.
unfoldable pub put_digits : ℕ → Mem → (n buffer base i : ℕ) → Option (ℕ × Mem)
put_digits zero m n buffer base i = none
put_digits (suc fuel) m n buffer base i =
    let m' = store8 m (buffer + i) (digit_char (n % base)) in
    let rest = put_digits fuel m' (n / base) buffer base (i + 1) in
    if n == 0 then some (i, m) else rest

-- `abs` of an unsigned number is that number, and `value < 0` never holds, so that no sign is
-- written. `none` cannot happen: the fuel is more than the number of digits.
unfoldable pub itos : Mem → (value buffer base : ℕ) → Option Mem
itos m value buffer base =
    if ltb base 2 || ltb 32 base
    then some m
    else elim (put_digits (value + 1) m value buffer base 0) [
      | none ↦ none
      | some (i, m) ↦
          let i' = if i == 0 then i + 1 else i in
          let m = if i == 0 then store8 m (buffer + i) 48 else m in
          some (reverse (store8 m (buffer + i') 0) buffer 0 (i' - 1))
    ]
