-- ===== src/Heap/Laws.antt =====
-- kernel/heap.c: `kalloc` and `kfree` on the well-formed heap, and the requests that break it.
use leoman.Base.{ℕ, suc, ◌+◌, ◌^◌, ◌≤◌, ◌<◌}
use leoman.Base.{
  ◌≡◌, ◌≢◌, refl, ap, ◌∙◌, ◌⊎◌, inl, inr, true, false, none, some, List, [], ◌∷◌, ◌++◌, arith,
}
use leoman.Base.{length, ◌==◌, sub32, Option}
use leoman.Heap.{
  Memory, Heap, block_unused, heap_pool_addr, kernel_heap_size, is_fitting, store, take_block, walk,
  after_walk, kalloc, kfree, heap_lay, initial_block,
}
use leoman.Heap.Chain.{Chain, IsSafe, HasNone, IsTaken, walk_lem, walk-take}

-- The heap was set up, and its blocks from the pool's start on form a chain that ends by `top`.
pub record IsHeap (top : ℕ) (heap : Heap) (blocks : List ℕ) : Type 0 where
  pub ready : heap.initialized ≡ true
  pub chain : Chain heap.mem top heap_pool_addr blocks

-- What a request of `bytes` bytes gets: NULL where no free block holds it, and then the heap
-- is unchanged; else the data of one of its blocks that was free and large enough, which is now used
-- and has that size, while every header outside of that block is as before and the heap, well
-- formed, has the blocks it had and at most one more, right behind the memory given out.
abbrev pub Served : Heap → ℕ → ℕ → List ℕ → Option (Option ℕ × Heap) → Type 0
Served heap top bytes blocks result =
    ((result ≡ some (none, heap)) × HasNone heap.mem bytes heap_pool_addr blocks)
    ⊎ ((block : ℕ) × (heap' : Heap) × (result ≡ some (some (block + 12), heap'))
        × IsTaken heap.mem heap'.mem top bytes heap_pool_addr blocks block
        × ((blocks' : List ℕ) × ((blocks' ≡ blocks)
              ⊎ (blocks' ≡ blocks ++ (block + 12 + bytes) ∷ []))
            × IsHeap top heap' blocks'))

kalloc-walk :
    (fuel bytes : ℕ) (heap : Heap)
    → heap.initialized ≡ true
    → 0 < bytes
    → kalloc fuel bytes heap ≡ after_walk heap (walk fuel bytes heap_pool_addr heap.mem)
unfolding kalloc
kalloc-walk fuel bytes heap ready pos =
    let asked : (bytes == 0) ≡ false = ground arith in simp (ready, asked)

-- On a well-formed heap that has no free block within a header's size of the request, kalloc of a
-- positive size returns within the fuel: NULL, and an unchanged heap, where no free block holds
-- the request, or else the data of one of the heap's blocks that was free and is large enough,
-- now used and of that size; every header outside of the block is as before, and the heap is well
-- formed with the blocks it had and at most one more, right behind the memory given out.
pub kalloc-Served :
    (fuel top bytes : ℕ) (heap : Heap) (blocks : List ℕ)
    → suc (length blocks) < fuel
    → 0 < bytes
    → top < 2 ^ 32
    → IsHeap top heap blocks
    → IsSafe heap.mem bytes heap_pool_addr blocks
    → Served heap top bytes blocks (kalloc fuel bytes heap)
kalloc-Served fuel top bytes heap blocks l pos small h safe =
    let start = kalloc-walk fuel bytes heap h.ready pos in
    elim (walk_lem fuel heap.mem top bytes heap_pool_addr blocks l (omega arith) small h.chain
      safe) [
        | inl (e, none_fits) ↦ inl (start ∙ ap (after_walk heap) e, none_fits)
        | inr (block, mem', e, t) ↦ inr (
          block,
          record heap { mem = mem' },
          start
              ∙ (ap (after_walk heap) e
                  ∙ (let bound = t.within in
                      ap (λ (p : ℕ). some (some p, record heap { mem = mem' })) (omega arith))),
          t,
          (t.blocks, t.same_blocks, record { ready = h.ready; chain = t.chain }),
        )
      ]

Chain-retype :
    (mem : Memory) (top a block ty : ℕ) (bs : List ℕ)
    → Chain mem top a bs
    → Chain (store mem block (record (mem block) { type = ty })) top a bs
unfolding store
Chain-retype mem top a block ty [] c = ground arith
Chain-retype mem top a block ty (b ∷ bs) c =
    (ground arith, ground arith, Chain-retype mem top b block ty bs c.2)

kfree-block :
    (block : ℕ) (heap : Heap)
    → heap.initialized ≡ true
    → block + 12 < 2 ^ 32
    → kfree (block + 12) heap
      ≡ record heap { mem = store heap.mem block (record (heap.mem block) { type = block_unused }) }
unfolding kfree
kfree-block block heap ready small =
    let given : (block + 12 == 0) ≡ false = ground arith in
    let e : sub32 (block + 12) 12 ≡ block = omega arith in simp (ready, given, e)

-- After kalloc gave out the data of a block of a well-formed heap that has no free block within a
-- header's size of the request, kfree of that address marks the block unused, keeps its size,
-- changes no other header, and leaves the heap well formed.
pub kfree-kalloc :
    (fuel top bytes address : ℕ) (heap heap' : Heap) (blocks : List ℕ)
    → suc (length blocks) < fuel
    → 0 < bytes
    → top < 2 ^ 32
    → IsHeap top heap blocks
    → IsSafe heap.mem bytes heap_pool_addr blocks
    → kalloc fuel bytes heap ≡ some (some address, heap')
    → (block : ℕ) × (address ≡ block + 12)
      × (((kfree address heap').mem block).type ≡ block_unused)
      × (((kfree address heap').mem block).data_size ≡ bytes)
      × ((x : ℕ) → x ≢ block → (kfree address heap').mem x ≡ heap'.mem x)
      × ((blocks' : List ℕ) × IsHeap top (kfree address heap') blocks')
unfolding store
kfree-kalloc fuel top bytes address heap heap' blocks l pos small h safe e =
    elim (kalloc-Served fuel top bytes heap blocks l pos small h safe) [
      | inl (f, _) ↦ cc
      | inr (block, after, f, t, (blocks', _, h')) ↦
          let bound = t.within in
          let here : address ≡ block + 12 = ground arith in
          let same : heap' ≡ after = ground arith in
          let freed = kfree-block block after h'.ready (omega arith) in
          rw (here, same, freed)
            (
              block,
              refl,
              ground arith,
              (ground (arith, t.now_sized)),
              (λ x ne. ground arith),
              (
                blocks',
                record {
                  ready = h'.ready;
                  chain =
                      Chain-retype after.mem top heap_pool_addr block block_unused blocks' h'.chain;
                },
              ),
            )
    ]

-- If the pool's first block is free and has another block right behind it, a request that its
-- size alone does not hold, but its size and a header's together do, is given memory that runs
-- over the header of the next block.
pub kalloc_overlaps :
    (fuel bytes next : ℕ) (heap : Heap)
    → heap.initialized ≡ true
    → (heap.mem heap_pool_addr).type ≡ block_unused
    → (heap.mem heap_pool_addr).next ≡ next
    → next ≡ heap_pool_addr + 12 + (heap.mem heap_pool_addr).data_size
    → next < 2 ^ 32
    → (heap.mem heap_pool_addr).data_size < bytes
    → bytes ≤ (heap.mem heap_pool_addr).data_size + 12
    → (heap' : Heap) × (kalloc (suc fuel) bytes heap ≡ some (some (heap_pool_addr + 12), heap'))
      × ((heap'.mem heap_pool_addr).next ≡ next)
      × (next < heap_pool_addr + 12 + bytes)
unfolding kalloc take_block store is_fitting
kalloc_overlaps fuel bytes next heap ready free link adjacent small over under =
    let asked : (bytes == 0) ≡ false = ground arith in
    let fits : is_fitting (heap.mem heap_pool_addr) bytes ≡ true = ground arith in
    (
      record heap { mem = take_block heap.mem heap_pool_addr bytes },
      rw (ready, asked, walk-take fuel bytes heap_pool_addr heap.mem (omega arith) fits),
      ground arith,
      omega arith,
    )

-- On the heap that heap_init lays, a request of 16361 to 16364 bytes puts the header of the block
-- behind it across the end of the pool.
pub kalloc_past_pool :
    (fuel bytes : ℕ) (mem : Memory)
    → 16361 ≤ bytes
    → bytes ≤ 16364
    → (heap' : Heap) × (kalloc (suc fuel) bytes (heap_lay mem)
        ≡ some (some (heap_pool_addr + 12), heap'))
      × ((heap'.mem heap_pool_addr).next < heap_pool_addr + kernel_heap_size)
      × (heap_pool_addr + kernel_heap_size < (heap'.mem heap_pool_addr).next + 12)
unfolding take_block store is_fitting heap_lay
kalloc_past_pool fuel bytes mem low high =
    let start = store mem heap_pool_addr initial_block in
    let fits : is_fitting (start heap_pool_addr) bytes ≡ true = ground arith in
    (
      record { initialized = true; mem = take_block start heap_pool_addr bytes },
      kalloc-walk (suc fuel) bytes (heap_lay mem) refl (omega arith)
          ∙ ap (after_walk (heap_lay mem))
              (walk-take fuel bytes heap_pool_addr start (omega arith) fits),
      ground arith,
      ground arith,
    )
