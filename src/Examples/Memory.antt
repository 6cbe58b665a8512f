-- ===== src/Examples/Memory.antt =====
-- The memory managers: the page pool of a machine whose memory map has a low and a high region,
-- and the heap as it is laid at the start.
use leoman.Base.{ℕ, ◌+◌, ◌%◌, ◌^◌, ◌≤◌, ◌<◌, ◌≡◌, ◌≢◌, refl, ap, inl, inr, ◌⊎◌, arith, suc}
use leoman.Base.{true, none, some, List, [], ◌∷◌, ◌++◌, replicate, length-replicate, done}
use leoman.Bootinfo.{MemoryMapEntry}
use leoman.Address.{palignup, p2v, v2p}
use leoman.Pm.{Pm, pm_init, pm_alloc, pm_alloc_cont, pm_free, alloc_words, find_clear, page_address}
use leoman.Pm.Bitmap.{used, Marks, IsFull, page_at}
use leoman.Pm.Laws.{IsValid, pm_alloc_lem, pm_alloc_fresh, pm_free_misses}
use leoman.Pm.Cont.{pm_alloc_cont_lem}
use leoman.Pm.Init.{IsLongest, pm_init_lem, replicate-AreWords}
use leoman.Heap.{
  Memory, Heap, heap_lay, heap_pool_addr, kernel_heap_size, kalloc, kfree, block_unused,
  initial_block, store, walk, is_fitting, take_block,
}
use leoman.Heap.Chain.{IsSafe}
use leoman.Heap.Laws.{
  IsHeap, Served, kalloc-Served, kfree-kalloc, kalloc_overlaps, kalloc_past_pool,
}

abbrev low_memory : MemoryMapEntry
low_memory = record {
  base_low = 0;
  base_high = 0;
  len_low = 0x9fc00;
  len_high = 0;
  type = 1;
  acpi_ext = 0;
}

abbrev high_memory : MemoryMapEntry
high_memory = record {
  base_low = 0x100000;
  base_high = 0;
  len_low = 0x700000;
  len_high = 0;
  type = 1;
  acpi_ext = 0;
}

abbrev unset : Pm
unset = record { bitmap = []; page_pool = 0 }

abbrev memory_map : List MemoryMapEntry
memory_map = low_memory ∷ high_memory ∷ []

pm_init_example :
    let pm' = (pm_init memory_map unset).1 in
    IsValid pm'
    × ((q : ℕ) → used pm'.bitmap q ≡ 0)
    × ((pm_init memory_map unset).0 ≡ v2p pm'.page_pool)
    × ((before : List MemoryMapEntry) × (e : MemoryMapEntry) × (after : List MemoryMapEntry)
        × (memory_map ≡ before ++ e ∷ after)
        × IsLongest before e after
        × (pm'.page_pool ≡ palignup (p2v e.base_low)))
pm_init_example = pm_init_lem low_memory (high_memory ∷ []) unset

abbrev pool : Pm
pool = (pm_init memory_map unset).1

pool-IsValid : IsValid pool
pool-IsValid = (pm_init_lem low_memory (high_memory ∷ []) unset).0

pm_alloc_example :
    ((pm_alloc pool ≡ (none, pool)) × IsFull pool.bitmap)
    ⊎ ((page : ℕ) × ((pm_alloc pool).0 ≡ some (page_at pool.page_pool page))
        × Marks pool.bitmap (pm_alloc pool).1.bitmap page 1
        × ((q : ℕ) → q < page → used pool.bitmap q ≡ 1)
        × ((pm_alloc pool).1.page_pool ≡ pool.page_pool))
pm_alloc_example = pm_alloc_lem pool pool-IsValid

pm_alloc_cont_example :
    ((pm_alloc_cont 4 pool ≡ done (none, pool))
      × ((page : ℕ)
          → 4 ≤ 32
          → page < 2 ^ 20
          → page % 32 + 4 ≤ 32
          → ¬ ((q : ℕ) → page ≤ q → q < page + 4 → used pool.bitmap q ≡ 0)))
    ⊎ ((page : ℕ) × (pm' : Pm) × (pm_alloc_cont 4 pool
          ≡ done (some (page_at pool.page_pool page), pm'))
        × Marks pool.bitmap pm'.bitmap page 4
        × (page % 32 + 4 ≤ 32)
        × (pm'.page_pool ≡ pool.page_pool))
pm_alloc_cont_example = pm_alloc_cont_lem 4 pool pool-IsValid (omega arith)

abbrev no_headers : Memory
no_headers a = record { magic = 0; type = 0; next = 0; data_size = 0 }

laid-IsHeap : IsHeap (heap_pool_addr + 12 + 16376) (heap_lay no_headers) []
unfolding heap_lay store initial_block
laid-IsHeap = record { ready = refl; chain = (refl, omega arith) }

laid-IsSafe : IsSafe (heap_lay no_headers).mem 100 heap_pool_addr []
unfolding heap_lay store initial_block
laid-IsSafe = inr (inl (omega arith))

kalloc-Served_example :
    Served
      (heap_lay no_headers)
      (heap_pool_addr + 12 + 16376)
      100
      []
      (kalloc 2 100 (heap_lay no_headers))
kalloc-Served_example =
    kalloc-Served 2 (heap_pool_addr + 12 + 16376) 100 (heap_lay no_headers) [] (omega arith)
      (omega arith) (omega arith) laid-IsHeap laid-IsSafe

kalloc_past_pool_example :
    (heap' : Heap) × (kalloc 2 16364 (heap_lay no_headers)
      ≡ some (some (heap_pool_addr + 12), heap'))
    × ((heap'.mem heap_pool_addr).next < heap_pool_addr + kernel_heap_size)
    × (heap_pool_addr + kernel_heap_size < (heap'.mem heap_pool_addr).next + 12)
kalloc_past_pool_example = kalloc_past_pool 1 16364 no_headers (omega arith) (omega arith)

-- A pool whose first page is in use.
abbrev crowded : Pm
crowded = record { bitmap = 1 ∷ replicate 32767 0; page_pool = 0xe0100000 }

crowded-IsValid : IsValid crowded
crowded-IsValid = record {
  size = ap suc (length-replicate {A = ℕ} 32767 0);
  are_words = (omega arith, replicate-AreWords 32767);
  pool-lt = omega arith;
  pool_aligned = omega arith;
}

pm_alloc_fresh_example : 0x101000 ≢ page_at crowded.page_pool 0
unfolding pm_alloc alloc_words find_clear page_address v2p used
pm_alloc_fresh_example = pm_alloc_fresh crowded 0 0x101000 crowded-IsValid (omega arith) refl refl

pm_free_misses_example :
    (page : ℕ) × (0x101000 ≡ page_at crowded.page_pool page)
    × (used (pm_free 0x101000 (pm_alloc crowded).1).bitmap page ≡ 1)
    × (used (pm_free 0x101000 (pm_alloc crowded).1).bitmap ((page + 2 ^ 17) % 2 ^ 20) ≡ 0)
unfolding pm_alloc alloc_words find_clear page_address v2p
pm_free_misses_example = pm_free_misses crowded 0x101000 crowded-IsValid refl

-- The laid heap after a request of 100 bytes.
abbrev served : Heap
served = record {
  initialized = true;
  mem = take_block (heap_lay no_headers).mem heap_pool_addr 100;
}

kfree-kalloc_example :
    (block : ℕ) × (0xe400000c ≡ block + 12)
    × (((kfree 0xe400000c served).mem block).type ≡ block_unused)
    × (((kfree 0xe400000c served).mem block).data_size ≡ 100)
    × ((x : ℕ) → x ≢ block → (kfree 0xe400000c served).mem x ≡ served.mem x)
    × ((blocks' : List ℕ) × IsHeap (heap_pool_addr + 12 + 16376) (kfree 0xe400000c served) blocks')
unfolding kalloc heap_lay store initial_block walk is_fitting
kfree-kalloc_example =
    kfree-kalloc 2 (heap_pool_addr + 12 + 16376) 100 0xe400000c (heap_lay no_headers) served []
      (omega arith) (omega arith) (omega arith) laid-IsHeap laid-IsSafe refl

-- A free block of 64 bytes with another behind it.
abbrev two_blocks : Heap
two_blocks = record {
  initialized = true;
  mem =
      store
        (store no_headers 0xe4000000 (record (no_headers 0) { next = 0xe400004c; data_size = 64 }))
        0xe400004c (record (no_headers 0) { data_size = 1000 });
}

kalloc_overlaps_example :
    (heap' : Heap) × (kalloc 2 70 two_blocks ≡ some (some (heap_pool_addr + 12), heap'))
    × ((heap'.mem heap_pool_addr).next ≡ 0xe400004c)
    × (0xe400004c < heap_pool_addr + 12 + 70)
unfolding store
kalloc_overlaps_example =
    kalloc_overlaps 1 70 0xe400004c two_blocks refl refl refl refl (omega arith) (omega arith)
      (omega arith)
