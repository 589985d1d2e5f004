-- ===== src/Memory/Laws.antt =====
-- Reads after writes.
use pros.Prelude.{ℕ, ◌+◌, ◌%◌, ◌^◌, ◌≤◌, ◌<◌, ◌≡◌, ◌≢◌, ◌⊎◌, inl, inr, arith, u8, u32}
use pros.Memory.{Mem, load8, store8, load16, store16, load32, store32}

pub load8-lt : (m : Mem) (a : ℕ) → load8 m a < 2 ^ 8
unfolding load8
load8-lt m a = omega arith

pub load32-lt : (m : Mem) (a : ℕ) → load32 m a < 2 ^ 32
unfolding load32 load8
load32-lt m a = omega arith

pub load8-store8_self : (m : Mem) (a v : ℕ) → load8 (store8 m a v) a ≡ u8 v
unfolding load8 store8
load8-store8_self m a v = ground arith

pub load8-store8_ne : (m : Mem) (a v b : ℕ) → b ≢ a → load8 (store8 m a v) b ≡ load8 m b
unfolding load8 store8
load8-store8_ne m a v b h = ground arith

pub load8-store32_ne :
    (m : Mem) (a w b : ℕ) → (b < a) ⊎ (a + 4 ≤ b) → load8 (store32 m a w) b ≡ load8 m b
unfolding load8 store32
load8-store32_ne m a w b h = ground arith

pub load32-store32_self : (m : Mem) (a w : ℕ) → load32 (store32 m a w) a ≡ u32 w
unfolding load32 store32 load8
load32-store32_self m a w = ground arith

pub load32-store32_ne :
    (m : Mem) (a w b : ℕ) → (b + 4 ≤ a) ⊎ (a + 4 ≤ b) → load32 (store32 m a w) b ≡ load32 m b
unfolding load32
load32-store32_ne m a w b (inl h) = omega (
  arith,
  load8-store32_ne m a w b (inl (omega arith)),
  load8-store32_ne m a w (b + 1) (inl (omega arith)),
  load8-store32_ne m a w (b + 2) (inl (omega arith)),
  load8-store32_ne m a w (b + 3) (inl (omega arith)),
)
load32-store32_ne m a w b (inr h) = omega (
  arith,
  load8-store32_ne m a w b (inr h),
  load8-store32_ne m a w (b + 1) (inr (omega arith)),
  load8-store32_ne m a w (b + 2) (inr (omega arith)),
  load8-store32_ne m a w (b + 3) (inr (omega arith)),
)

pub load32-store8_ne :
    (m : Mem) (a v b : ℕ) → (a < b) ⊎ (b + 4 ≤ a) → load32 (store8 m a v) b ≡ load32 m b
unfolding load32
load32-store8_ne m a v b h = omega (
  arith,
  load8-store8_ne m a v b (omega arith),
  load8-store8_ne m a v (b + 1) (omega arith),
  load8-store8_ne m a v (b + 2) (omega arith),
  load8-store8_ne m a v (b + 3) (omega arith),
)

-- A word depends on its four bytes.
pub load32-ext :
    (m m' : Mem) (a : ℕ)
    → ((b : ℕ) → a ≤ b → b < a + 4 → load8 m b ≡ load8 m' b)
    → load32 m a ≡ load32 m' a
unfolding load32
load32-ext m m' a same = omega (
  arith,
  same a (omega arith) (omega arith),
  same (a + 1) (omega arith) (omega arith),
  same (a + 2) (omega arith) (omega arith),
  same (a + 3) (omega arith) (omega arith),
)

pub load16-store16_self : (m : Mem) (a w : ℕ) → load16 (store16 m a w) a ≡ w % 2 ^ 16
unfolding load16 store16 load8
load16-store16_self m a w = ground arith

pub load8-store16_ne :
    (m : Mem) (a w b : ℕ) → (b < a) ⊎ (a + 2 ≤ b) → load8 (store16 m a w) b ≡ load8 m b
unfolding load8 store16
load8-store16_ne m a w b h = ground arith

pub load16-store8_ne :
    (m : Mem) (a v b : ℕ) → (a < b) ⊎ (b + 2 ≤ a) → load16 (store8 m a v) b ≡ load16 m b
unfolding load16
load16-store8_ne m a v b h =
    omega
      (arith, load8-store8_ne m a v b (omega arith), load8-store8_ne m a v (b + 1) (omega arith))

pub load16-store16_ne :
    (m : Mem) (a w b : ℕ) → (b + 2 ≤ a) ⊎ (a + 2 ≤ b) → load16 (store16 m a w) b ≡ load16 m b
unfolding load16
load16-store16_ne m a w b (inl h) = omega (
  arith,
  load8-store16_ne m a w b (inl (omega arith)),
  load8-store16_ne m a w (b + 1) (inl (omega arith)),
)
load16-store16_ne m a w b (inr h) = omega (
  arith,
  load8-store16_ne m a w b (inr (omega arith)),
  load8-store16_ne m a w (b + 1) (inr (omega arith)),
)

-- A half-word depends on its two bytes.
pub load16-ext :
    (m m' : Mem) (a : ℕ)
    → ((b : ℕ) → a ≤ b → b < a + 2 → load8 m b ≡ load8 m' b)
    → load16 m a ≡ load16 m' a
unfolding load16
load16-ext m m' a same =
    omega (arith, same a (omega arith) (omega arith), same (a + 1) (omega arith) (omega arith))
