-- ===== src/Heap/Chunk.antt =====
-- A chunk header after a write to one of its fields, and after a write elsewhere.
use pros.Prelude.{ℕ, ◌+◌, ◌≤◌, ◌<◌, ◌≡◌, ◌⊎◌, inl, inr, arith, Bool, if◌then◌else◌, u32}
use pros.Memory.{Mem, load8, load32}
use pros.Memory.Laws.{
  load32-store32_self, load32-store32_ne, load8-store32_ne, load8-store8_self, load8-store8_ne,
  load32-store8_ne, load32-ext,
}
use pros.Heap.{chunk_size, read_chunk, set_next, set_prev, set_magic, set_allocated, set_size}

module _ (m : Mem) (c v : ℕ) where
  pub read_chunk-set_next : read_chunk (set_next m c v) c ≡ record (read_chunk m c) { next = u32 v }
  unfolding read_chunk set_next
  read_chunk-set_next = ground (
    arith,
    load32-store32_self m c v,
    load32-store32_ne m c v (c + 4),
    load32-store32_ne m c v (c + 8),
    load8-store32_ne m c v (c + 12),
    load32-store32_ne m c v (c + 16),
  )

  pub read_chunk-set_prev : read_chunk (set_prev m c v) c ≡ record (read_chunk m c) { prev = u32 v }
  unfolding read_chunk set_prev
  read_chunk-set_prev = ground (
    arith,
    load32-store32_ne m (c + 4) v c,
    load32-store32_self m (c + 4) v,
    load32-store32_ne m (c + 4) v (c + 8),
    load8-store32_ne m (c + 4) v (c + 12),
    load32-store32_ne m (c + 4) v (c + 16),
  )

  pub read_chunk-set_magic :
      read_chunk (set_magic m c v) c ≡ record (read_chunk m c) { magic = u32 v }
  unfolding read_chunk set_magic
  read_chunk-set_magic = ground (
    arith,
    load32-store32_ne m (c + 8) v c,
    load32-store32_ne m (c + 8) v (c + 4),
    load32-store32_self m (c + 8) v,
    load8-store32_ne m (c + 8) v (c + 12),
    load32-store32_ne m (c + 8) v (c + 16),
  )

  pub read_chunk-set_size : read_chunk (set_size m c v) c ≡ record (read_chunk m c) { size = u32 v }
  unfolding read_chunk set_size
  read_chunk-set_size = ground (
    arith,
    load32-store32_ne m (c + 16) v c,
    load32-store32_ne m (c + 16) v (c + 4),
    load32-store32_ne m (c + 16) v (c + 8),
    load8-store32_ne m (c + 16) v (c + 12),
    load32-store32_self m (c + 16) v,
  )

pub read_chunk-set_allocated :
    (m : Mem) (c : ℕ) (b : Bool)
    → read_chunk (set_allocated m c b) c ≡ record (read_chunk m c) { allocated = b }
unfolding read_chunk set_allocated
read_chunk-set_allocated m c b = ground (
  arith,
  load32-store8_ne m (c + 12) (if b then 1 else 0) c,
  load32-store8_ne m (c + 12) (if b then 1 else 0) (c + 4),
  load32-store8_ne m (c + 12) (if b then 1 else 0) (c + 8),
  load8-store8_self m (c + 12) (if b then 1 else 0),
  load32-store8_ne m (c + 12) (if b then 1 else 0) (c + 16),
)

-- A header depends on its twenty bytes.
pub read_chunk-ext :
    (m m' : Mem) (c : ℕ)
    → ((b : ℕ) → c ≤ b → b < c + chunk_size → load8 m b ≡ load8 m' b)
    → read_chunk m c ≡ read_chunk m' c
unfolding read_chunk
read_chunk-ext m m' c same =
    let word : (k : ℕ) → k ≤ 16 → load32 m (c + k) ≡ load32 m' (c + k) =
      λ k hk. load32-ext m m' (c + k) (λ b lo hi. same b (omega arith) (omega arith)) in
    ground (
      arith,
      load32-ext m m' c (λ b lo hi. same b lo (omega arith)),
      word 4 (omega arith),
      word 8 (omega arith),
      same (c + 12) (omega arith) (omega arith),
      word 16 (omega arith),
    )

-- A write to the fields of `c` changes no byte outside the header.
abbrev pub Outside : ℕ → ℕ → Type 0
Outside c b = (b < c) ⊎ (c + chunk_size ≤ b)

module _ (m : Mem) (c b : ℕ) where
  pub load8-set_next : (v : ℕ) → Outside c b → load8 (set_next m c v) b ≡ load8 m b
  unfolding set_next
  load8-set_next v (inl below) = load8-store32_ne m c v b (inl (omega arith))
  load8-set_next v (inr above) = load8-store32_ne m c v b (inr (omega arith))

  pub load8-set_prev : (v : ℕ) → Outside c b → load8 (set_prev m c v) b ≡ load8 m b
  unfolding set_prev
  load8-set_prev v (inl below) = load8-store32_ne m (c + 4) v b (inl (omega arith))
  load8-set_prev v (inr above) = load8-store32_ne m (c + 4) v b (inr (omega arith))

  pub load8-set_magic : (v : ℕ) → Outside c b → load8 (set_magic m c v) b ≡ load8 m b
  unfolding set_magic
  load8-set_magic v (inl below) = load8-store32_ne m (c + 8) v b (inl (omega arith))
  load8-set_magic v (inr above) = load8-store32_ne m (c + 8) v b (inr (omega arith))

  pub load8-set_size : (v : ℕ) → Outside c b → load8 (set_size m c v) b ≡ load8 m b
  unfolding set_size
  load8-set_size v (inl below) = load8-store32_ne m (c + 16) v b (inl (omega arith))
  load8-set_size v (inr above) = load8-store32_ne m (c + 16) v b (inr (omega arith))

  pub load8-set_allocated : (v : Bool) → Outside c b → load8 (set_allocated m c v) b ≡ load8 m b
  unfolding set_allocated
  load8-set_allocated v (inl below) =
      load8-store8_ne m (c + 12) (if v then 1 else 0) b (omega arith)
  load8-set_allocated v (inr above) =
      load8-store8_ne m (c + 12) (if v then 1 else 0) b (omega arith)

-- Two headers that do not overlap.
abbrev pub Apart : ℕ → ℕ → Type 0
Apart c d = (d + chunk_size ≤ c) ⊎ (c + chunk_size ≤ d)

within : (c d b : ℕ) → Apart c d → d ≤ b → b < d + chunk_size → Outside c b
within c d b (inl h) lo hi = inl (omega arith)
within c d b (inr h) lo hi = inr (omega arith)

module _ (m : Mem) (c d : ℕ) (apart : Apart c d) where
  pub read_chunk-set_next_apart : (v : ℕ) → read_chunk (set_next m c v) d ≡ read_chunk m d
  read_chunk-set_next_apart v =
      read_chunk-ext (set_next m c v) m d
        (λ b lo hi. load8-set_next m c b v (within c d b apart lo hi))

  pub read_chunk-set_prev_apart : (v : ℕ) → read_chunk (set_prev m c v) d ≡ read_chunk m d
  read_chunk-set_prev_apart v =
      read_chunk-ext (set_prev m c v) m d
        (λ b lo hi. load8-set_prev m c b v (within c d b apart lo hi))

  pub read_chunk-set_magic_apart : (v : ℕ) → read_chunk (set_magic m c v) d ≡ read_chunk m d
  read_chunk-set_magic_apart v =
      read_chunk-ext (set_magic m c v) m d
        (λ b lo hi. load8-set_magic m c b v (within c d b apart lo hi))

  pub read_chunk-set_size_apart : (v : ℕ) → read_chunk (set_size m c v) d ≡ read_chunk m d
  read_chunk-set_size_apart v =
      read_chunk-ext (set_size m c v) m d
        (λ b lo hi. load8-set_size m c b v (within c d b apart lo hi))

  pub read_chunk-set_allocated_apart :
      (v : Bool) → read_chunk (set_allocated m c v) d ≡ read_chunk m d
  read_chunk-set_allocated_apart v =
      read_chunk-ext (set_allocated m c v) m d
        (λ b lo hi. load8-set_allocated m c b v (within c d b apart lo hi))
