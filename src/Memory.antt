-- ===== src/Memory.antt =====
-- Memory as bytes at addresses, and the accesses to it of one byte and of a little-endian u32.
-- A pointer is its address, not wrapped: an address past 2 ^ 32 is one that the code never forms.
pub mod Laws
use pros.Prelude.{ℕ, ◌+◌, ◌*◌, ◌/◌, ◌%◌, ◌^◌, u8, ◌==◌, if◌then◌else◌}

abbrev pub Mem : Type 0
Mem = ℕ → ℕ

-- Only the low eight bits of a cell count, so that every function is a memory.
unfoldable pub load8 : Mem → ℕ → ℕ
load8 m a = u8 (m a)

unfoldable pub store8 : Mem → ℕ → ℕ → Mem
store8 m a v b = if b == a then u8 v else m b

unfoldable pub load32 : Mem → ℕ → ℕ
load32 m a =
    load8 m a + load8 m (a + 1) * 2 ^ 8 + load8 m (a + 2) * 2 ^ 16 + load8 m (a + 3) * 2 ^ 24

unfoldable pub store32 : Mem → ℕ → ℕ → Mem
unfolding store8
store32 m a w =
    store8 (store8 (store8 (store8 m a w) (a + 1) (w / 2 ^ 8)) (a + 2) (w / 2 ^ 16)) (a + 3)
      (w / 2 ^ 24)

unfoldable pub load16 : Mem → ℕ → ℕ
load16 m a = load8 m a + load8 m (a + 1) * 2 ^ 8

unfoldable pub store16 : Mem → ℕ → ℕ → Mem
unfolding store8
store16 m a w = store8 (store8 m a w) (a + 1) (w / 2 ^ 8)
