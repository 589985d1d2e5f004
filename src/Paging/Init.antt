-- ===== src/Paging/Init.antt =====
-- The whole of `initVMM`.
use pros.Prelude.{
  ℕ, zero, suc, false, true_ne_false, ◌+◌, ◌-◌, ◌*◌, ◌/◌, ◌%◌, ◌^◌, ◌≤◌, ◌<◌, ◌≡◌, ◌≢◌, ◌⊎◌, ◌∙◌,
  ap, sym, arith, if◌then◌else◌, inl, leb, ltb, ◌&&◌, some, none,
}
use pros.MemoryManager.{MemoryManager, get_free_physical_page, test_bit}
use pros.Paging.{
  virt_2_phys, page_size, virtual_base, set_page_directory, init_vmm, map_heap, kernel_heap_start,
  kernel_heap_size,
}
use pros.Paging.Walk.{translate}
use pros.Paging.Kernel.{
  directory, with_table, IsBootable, translate-built, build_directory-built, directory_aligned,
}
use pros.Paging.Keeps.{translate-kept}
use pros.Paging.Ready.{IsHeapReady, heap_page, directory_used, free-before, IsExtensible-heap_state}
use pros.Paging.Frames.{AreMapped}
use pros.Paging.Grown.{map_heap-grown}
use pros.Paging.Loaded.{loaded, heap_state, kept3, map_size, IsGuarded-loaded}

module _ (mm : MemoryManager) (boots : IsBootable mm) (ready : IsHeapReady mm boots) where
  init_vmm-mapped : init_vmm mm ≡ (
    virt_2_phys (directory mm),
    map_heap
        (heap_state mm boots)
        (get_free_physical_page (loaded mm boots) 1).0
        256
        kernel_heap_start,
  )
  unfolding init_vmm set_page_directory
  init_vmm-mapped = rw (build_directory-built mm boots)

  heap-AreMapped :
      AreMapped
        (heap_state mm boots)
        (init_vmm mm).1
        (get_free_physical_page (loaded mm boots) 1).0
        256
        kernel_heap_start
  heap-AreMapped = rw init_vmm-mapped (
      map_heap-grown (heap_state mm boots) (get_free_physical_page (loaded mm boots) 1).0 255
        kernel_heap_start (IsExtensible-heap_state mm boots ready) (heap_page mm boots ready).rest
        (heap_page mm boots ready).used (omega arith) (omega arith))

  -- The frames of the heap are free when cr3 is loaded.
  frame-free :
      (k : ℕ)
      → k < 256
      → (test_bit (loaded mm boots) (heap-AreMapped.frames k) ≡ false)
        × (heap-AreMapped.frames k < mm.memory_size / 32 / 4096 * 32)
  frame-free zero h =
      let size = ap (λ (t : ℕ). t / 32 / 4096) (map_size mm boots) in
      let first = heap-AreMapped.first (omega arith) in
      (
        ap (test_bit (loaded mm boots)) first ∙ (heap_page mm boots ready).was_free,
        omega (arith, first, (heap_page mm boots ready).inside, size),
      )
  frame-free (suc k) h =
      let size = ap (λ (t : ℕ). t / 32 / 4096) (map_size mm boots) in
      let (free, inside) = heap-AreMapped.fresh (suc k) (omega arith) h in
      (
        (heap_page mm boots ready).keeps _ free,
        omega (arith, inside, size, ap (λ (t : ℕ). t / 32 / 4096) (kept3 mm boots).map_size),
      )

  -- Such a frame is neither frame 0 nor the page of the directory.
  frame-apart :
      (k : ℕ)
      → k < 256
      → (heap-AreMapped.frames k ≢ 0)
        × (heap-AreMapped.frames k ≢ virt_2_phys (directory mm) / page_size)
  frame-apart k h =
      let (free, inside) = frame-free k h in
      let page = (directory_aligned mm boots) in
      let same : virt_2_phys (directory mm) / page_size
          ≡ (get_free_physical_page (with_table mm) 1).0 / 2 ^ 12 =
        omega (arith, page.0, page.1) in
      (
        λ e.
            true_ne_false
              (sym ready.supply.zero_used ∙ ap (test_bit (loaded mm boots)) (sym e) ∙ free),
        λ e. true_ne_false (
            sym (directory_used mm boots ready)
            ∙ ap (test_bit (loaded mm boots)) (sym (e ∙ same))
            ∙ free),
      )

  -- The walk before the heap is mapped.
  translate-heap_state :
      (v : ℕ)
      → v < 2 ^ 32
      → translate (heap_state mm boots).mem (directory mm) v ≡ (
          if leb virtual_base v && ltb v (virtual_base + 2 ^ 22)
          then some (v - virtual_base)
          else none)
  translate-heap_state v h =
      translate-kept (loaded mm boots) (heap_state mm boots) (kept3 mm boots)
        (IsGuarded-loaded mm boots ready.directory_off) v h
      ∙ translate-built mm boots v h

-- What `initVMM` promises of the state `mm`, where `dir` is the directory: cr3 holds its physical address,
-- the walk finds the first 4 MB of memory at 3 GB, each page of the kernel heap in a frame of its own
-- that was free, and no other address.
pub record IsLoaded (mm : MemoryManager) (result : ℕ × MemoryManager) (dir : ℕ) : Type 0 where
  pub cr3 : result.0 ≡ virt_2_phys dir
  pub current : result.1.current_page_directory ≡ dir
  pub kernel :
      (v : ℕ)
      → virtual_base ≤ v
      → v < virtual_base + 2 ^ 22
      → translate result.1.mem dir v ≡ some (v - virtual_base)
  -- The number of the frame of each page of the heap.
  pub frames : ℕ → ℕ
  pub heap :
      (v : ℕ)
      → kernel_heap_start ≤ v
      → v < kernel_heap_start + kernel_heap_size
      → translate result.1.mem dir v
        ≡ some (frames ((v - kernel_heap_start) / page_size) * page_size + v % page_size)
  pub was_free : (k : ℕ) → k < kernel_heap_size / page_size → test_bit mm (frames k) ≡ false
  pub in_memory : (k : ℕ) → k < kernel_heap_size / page_size → frames k * page_size < mm.memory_size
  pub apart :
      (k : ℕ)
      → k < kernel_heap_size / page_size
      → (frames k ≢ 0) × (frames k ≢ virt_2_phys dir / page_size)
  pub different : (j k : ℕ) → j < k → k < kernel_heap_size / page_size → frames j ≢ frames k
  pub nothing :
      (v : ℕ)
      → v < 2 ^ 32
      → (v < virtual_base) ⊎ (kernel_heap_start + kernel_heap_size ≤ v)
      → translate result.1.mem dir v ≡ none

-- Where enough pages are free, the bitmap and the pages for the directory and the tables are in the first
-- 4 MB of memory, the bitmap is off the tables and the directory, and the bytes that `memset` misses are
-- zero and those that it overruns not in use, `initVMM` loads a directory under which the processor finds
-- the first 4 MB of memory at 3 GB, each page of the kernel heap in a frame of its own, which was free
-- before and is neither frame 0 nor the directory's, and no other address.
pub init_vmm-IsLoaded :
    (mm : MemoryManager) (boots : IsBootable mm)
    → IsHeapReady mm boots
    → IsLoaded mm (init_vmm mm) (directory mm)
init_vmm-IsLoaded mm boots ready =
    let dir = directory mm in
    let mapped = heap-AreMapped mm boots ready in
    let same : (heap_state mm boots).current_page_directory ≡ dir = (kept3 mm boots).directory in
    let walk : (v : ℕ)
        → v < 2 ^ 32
        → (v < kernel_heap_start) ⊎ (kernel_heap_start + kernel_heap_size ≤ v)
        → translate (init_vmm mm).1.mem dir v ≡ (
            if leb virtual_base v && ltb v (virtual_base + 2 ^ 22)
            then some (v - virtual_base)
            else none) =
      λ v h out.
        ap (λ d. translate (init_vmm mm).1.mem d v) (sym same)
        ∙ mapped.outside v h out
        ∙ ap (λ d. translate (heap_state mm boots).mem d v) same
        ∙ translate-heap_state mm boots ready v h in
    record {
      cr3 = rw (init_vmm-mapped mm boots ready);
      current = mapped.same_directory ∙ same;
      kernel = λ v lo hi. walk v (omega arith) (inl hi) ∙ ground arith;
      frames = mapped.frames;
      heap =
          λ v lo hi. ap (λ d. translate (init_vmm mm).1.mem d v) (sym same) ∙ mapped.inside v lo hi;
      was_free = λ k h.
          let (free, inside) = frame-free mm boots ready k h in
          free-before mm boots ready _ inside free;
      in_memory = λ k h. omega (arith, (frame-free mm boots ready k h).1);
      apart = frame-apart mm boots ready;
      different = mapped.different;
      nothing = λ v h out. walk v h (omega arith) ∙ ground arith;
    }
