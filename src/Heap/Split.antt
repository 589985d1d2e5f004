-- ===== src/Heap/Split.antt =====
-- The memory after `split_chunk`: the two headers that it leaves, the one behind them, and the rest.
use pros.Prelude.{
  ℕ, ◌+◌, ◌-◌, ◌^◌, ◌≤◌, ◌<◌, ◌≡◌, ◌≢◌, ◌⊎◌, inl, inr, arith, Bool, true, false, ◌==◌,
  if◌then◌else◌, u32, sub32, ◌∙◌, ==_of_ne, ==_of_eq, Bool-cases,
}
use pros.Memory.{Mem, load8}
use pros.CString.{memset}
use pros.CString.Block.{memset_lem}
use pros.Heap.{
  chunk_size, heap_magic, null, read_chunk, set_next, set_prev, set_allocated, set_size, new_header,
  split_chunk,
}
use pros.Heap.Chunk.{
  read_chunk-set_next, read_chunk-set_prev, read_chunk-set_magic, read_chunk-set_allocated,
  read_chunk-set_size, read_chunk-ext, Outside, Apart, load8-set_next, load8-set_prev,
  load8-set_magic, load8-set_allocated, load8-set_size, read_chunk-set_next_apart,
  read_chunk-set_prev_apart, read_chunk-set_magic_apart, read_chunk-set_allocated_apart,
  read_chunk-set_size_apart,
}

read_chunk-memset :
    (m : Mem) (t c n : ℕ)
    → (c + chunk_size ≤ t) ⊎ (t + n < c)
    → read_chunk (memset m t 0 n) c ≡ read_chunk m c
read_chunk-memset m t c n (inl h) =
    read_chunk-ext _ m c (λ b lo hi. ground (arith, memset_lem m t 0 n b))
read_chunk-memset m t c n (inr h) =
    read_chunk-ext _ m c (λ b lo hi. ground (arith, memset_lem m t 0 n b))

module _ (m : Mem) (a t size : ℕ) (apart : a + chunk_size ≤ t) where
  -- Writes to the header `t` leave the header `d` alone.
  module _ (d : ℕ) (far : Apart t d) where
    new_header-apart :
        (memset_far : read_chunk (memset m t 0 chunk_size) d ≡ read_chunk m d)
        → read_chunk (new_header m a t size) d ≡ read_chunk m d
    unfolding new_header
    new_header-apart memset_far = simp (
      memset_far,
      λ (m : Mem) (v : ℕ). read_chunk-set_next_apart m t d far v,
      λ (m : Mem) (v : ℕ). read_chunk-set_prev_apart m t d far v,
      λ (m : Mem) (v : ℕ). read_chunk-set_size_apart m t d far v,
      λ (m : Mem) (v : ℕ). read_chunk-set_magic_apart m t d far v,
      λ (m : Mem) (v : Bool). read_chunk-set_allocated_apart m t d far v,
    )

  far_at : Apart t a
  far_at = inl apart

  new_header_self : read_chunk (new_header m a t size) t ≡ record {
    next = u32 (read_chunk m a).next;
    prev = u32 a;
    magic = heap_magic;
    allocated = false;
    size = u32 (sub32 (sub32 (read_chunk m a).size chunk_size) size);
  }
  unfolding new_header
  new_header_self = simp (
    read_chunk-memset m t a chunk_size (inl apart),
    λ (m : Mem) (v : ℕ). read_chunk-set_next_apart m t a far_at v,
    λ (m : Mem) (v : ℕ). read_chunk-set_prev_apart m t a far_at v,
    λ (m : Mem) (v : Bool). read_chunk-set_allocated_apart m t a far_at v,
    read_chunk-set_next,
    read_chunk-set_prev,
    read_chunk-set_magic,
    read_chunk-set_allocated,
    read_chunk-set_size,
  )

  load8-new_header :
      (b : ℕ) → (b < t) ⊎ (t + chunk_size < b) → load8 (new_header m a t size) b ≡ load8 m b
  unfolding new_header
  load8-new_header b out =
      let outside : Outside t b = ground arith in
      simp
        (
          λ (m : Mem) (v : ℕ). load8-set_next m t b v outside,
          λ (m : Mem) (v : ℕ). load8-set_prev m t b v outside,
          λ (m : Mem) (v : ℕ). load8-set_magic m t b v outside,
          λ (m : Mem) (v : ℕ). load8-set_size m t b v outside,
          λ (m : Mem) (v : Bool). load8-set_allocated m t b v outside,
        )
        (ground (arith, memset_lem m t 0 chunk_size b))

-- The last part: the chunk `a` is linked to the new header, taken, and cut to size.
finish : Mem → (a t size : ℕ) → Mem
finish m a t size = set_size (set_allocated (set_next m a t) a true) a size

module _ (m : Mem) (a t size : ℕ) where
  finish_self :
      read_chunk (finish m a t size) a
      ≡ record (read_chunk m a) { next = u32 t; allocated = true; size = u32 size }
  unfolding finish
  finish_self = simp (read_chunk-set_next, read_chunk-set_allocated, read_chunk-set_size)

  finish-Apart : (d : ℕ) → Apart a d → read_chunk (finish m a t size) d ≡ read_chunk m d
  unfolding finish
  finish-Apart d far = simp (
    λ (m : Mem) (v : ℕ). read_chunk-set_next_apart m a d far v,
    λ (m : Mem) (v : ℕ). read_chunk-set_size_apart m a d far v,
    λ (m : Mem) (v : Bool). read_chunk-set_allocated_apart m a d far v,
  )

  load8-finish : (b : ℕ) → Outside a b → load8 (finish m a t size) b ≡ load8 m b
  unfolding finish
  load8-finish b out = simp (
    λ (m : Mem) (v : ℕ). load8-set_next m a b v out,
    λ (m : Mem) (v : ℕ). load8-set_size m a b v out,
    λ (m : Mem) (v : Bool). load8-set_allocated m a b v out,
  )

module _ (m : Mem) (a size next prev whole : ℕ)
    (here : read_chunk m a
      ≡ record { next = next; prev = prev; magic = heap_magic; allocated = false; size = whole })
    (room : size + chunk_size < whole) (bound : a + chunk_size + whole < 2 ^ 32)
    (fits : next < 2 ^ 32) where
  abbrev t : ℕ
  t = a + chunk_size + size

  abbrev middle : Mem
  middle = new_header m a t size

  middle_self : read_chunk middle t ≡ record {
    next = next;
    prev = a;
    magic = heap_magic;
    allocated = false;
    size = whole - chunk_size - size;
  }
  middle_self = new_header_self m a t size (omega arith) ∙ ground (arith, here)

  -- `split_chunk` at a chunk with room for the new header and one byte more.
  split_chunk_parts :
      split_chunk m a size
      ≡ finish (if next == null then middle else set_prev middle next t) a t size
  unfolding split_chunk finish
  split_chunk_parts =
      let whole_t : u32 (a + chunk_size + size) ≡ t = omega arith in rw (whole_t, middle_self)

  -- A byte that is none of the three headers' and not the first byte behind the new one.
  pub load8-split_chunk :
      (b : ℕ)
      → Outside a b
      → (b < t) ⊎ (t + chunk_size < b)
      → (next ≡ null) ⊎ Outside next b
      → load8 (split_chunk m a size) b ≡ load8 m b
  load8-split_chunk b out_a out_t out_n =
      rw (split_chunk_parts, load8-finish _ a t size b out_a) (link_byte out_n)
    where
      kept : load8 middle b ≡ load8 m b
      kept = load8-new_header m a t size (omega arith) b out_t

      link_byte :
          (next ≡ null) ⊎ Outside next b
          → load8 (if next == null then middle else set_prev middle next t) b ≡ load8 m b
      link_byte (inl none) = rw (==_of_eq next null none) kept
      link_byte (inr out) = elim (Bool-cases (next == null)) [
        | inl e ↦ rw e kept
        | inr e ↦ rw (e, load8-set_prev middle next b t out) kept
      ]

  -- The three headers, if the one behind is where the bytes of the chunk end.
  module _ (behind : (next ≡ null) ⊎ (next ≡ a + chunk_size + whole)) where
    linked-read :
        (d : ℕ)
        → (next ≡ null) ⊎ Apart next d
        → read_chunk (if next == null then middle else set_prev middle next t) d
          ≡ read_chunk middle d
    linked-read d (inl none) = rw (==_of_eq next null none)
    linked-read d (inr out) = elim (Bool-cases (next == null)) [
      | inl e ↦ rw e
      | inr e ↦ rw (e, read_chunk-set_prev_apart middle next d out t)
    ]

    pub split_chunk_taken :
        read_chunk (split_chunk m a size) a
        ≡ record { next = t; prev = prev; magic = heap_magic; allocated = true; size = size }
    split_chunk_taken =
        rw
          (
            split_chunk_parts,
            finish_self,
            linked-read a (grind arith),
            new_header-apart m a t size (omega arith) a (inl (omega arith))
                (read_chunk-memset m t a chunk_size (inl (omega arith))),
            here,
          )
          (ground arith)

    pub split_chunk_rest : read_chunk (split_chunk m a size) t ≡ record {
      next = next;
      prev = a;
      magic = heap_magic;
      allocated = false;
      size = whole - chunk_size - size;
    }
    split_chunk_rest =
        rw
          (
            split_chunk_parts,
            finish-Apart _ a t size t (inr (omega arith)),
            linked-read t (grind arith),
          )
          middle_self

    pub split_chunk_behind :
        next ≢ null
        → read_chunk (split_chunk m a size) next ≡ record (read_chunk m next) { prev = t }
    split_chunk_behind ne =
        rw
          (
            split_chunk_parts,
            finish-Apart _ a t size next (grind arith),
            ==_of_ne next null ne,
            read_chunk-set_prev,
            new_header-apart m a t size (omega arith) next (grind arith)
                (read_chunk-memset m t next chunk_size (grind arith)),
          )
          (ground arith)
