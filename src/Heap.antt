-- ===== src/Heap.antt =====
-- kernel/heap.c: the kernel heap, a chain of blocks that starts at `heap_pool_addr`.
-- The memory is seen block header by block header: `mem a` is the `struct block` at address `a`.
pub mod Chain
pub mod Laws
use leoman.Base.{ℕ, zero, suc, ◌+◌, ◌-◌, ◌*◌}
use leoman.Base.{Bool, true, false, ◌&&◌, Option, none, some}
use leoman.Base.{leb, ◌==◌, if◌then◌else◌, u32, sub32}

abbrev pub block_unused : ℕ
block_unused = 0x00

abbrev pub block_used : ℕ
block_used = 0xff

abbrev pub heap_pool_addr : ℕ
heap_pool_addr = 0xe4000000

-- `CONFIG_KERNEL_HEAP_SIZE`
abbrev pub kernel_heap_size : ℕ
kernel_heap_size = 16 * 1024

-- `sizeof(struct block)` on i386, and `sizeof(block->data_size)`.
abbrev pub sizeof_block : ℕ
sizeof_block = 12

abbrev pub sizeof_data_size : ℕ
sizeof_data_size = 4

-- `struct block`; NULL is 0.
pub record Block : Type 0 where
  pub magic : ℕ
  pub type : ℕ
  pub next : ℕ
  pub data_size : ℕ

abbrev pub Memory : Type 0
Memory = ℕ → Block

-- `heap_initialized`, and the memory that holds the headers.
pub record Heap : Type 0 where
  pub initialized : Bool
  pub mem : Memory

unfoldable pub store : Memory → ℕ → Block → Memory
store mem a b x = if x == a then b else mem x

-- The test of `kalloc` on a block.
unfoldable pub is_fitting : Block → ℕ → Bool
is_fitting b bytes = (b.type == block_unused) && leb bytes (u32 (b.data_size + sizeof_block))

-- The split of the last block: its header is copied behind the requested bytes.
unfoldable pub split_last : Memory → ℕ → ℕ → Memory
split_last mem block bytes =
    let new_block = u32 (block + sizeof_block + bytes) in
    let new_size = sub32 (mem block).data_size (u32 (bytes + sizeof_block)) in
    let copied = store mem new_block (record (mem block) { data_size = new_size }) in
    store copied block (record (copied block) { next = new_block })

-- The body of the loop of `kalloc` for the block that it takes.
unfoldable pub take_block : Memory → ℕ → ℕ → Memory
unfolding split_last
take_block mem block bytes =
    let mem' = if (mem block).next == 0 then split_last mem block bytes else mem in
    store mem' block (record (mem' block) { data_size = bytes; type = block_used })

-- How the walk over the chain ends; `running` is a walk that is out of fuel.
pub data Walk : Type 0 where
  running null : Walk
  found : ℕ → Memory → Walk

unfoldable pub walk : ℕ → ℕ → ℕ → Memory → Walk
walk zero bytes block mem = running
walk (suc fuel) bytes block mem = elim (block == 0) [
  | true ↦ null
  | false ↦ elim (is_fitting (mem block) bytes) [
    | true ↦ found block (take_block mem block bytes)
    | false ↦ walk fuel bytes (mem block).next mem
  ]
]

-- What `kalloc` returns (`none` for NULL) and the heap after it; `none` around the pair is a walk
-- that did not end within the fuel.
abbrev pub after_walk : Heap → Walk → Option (Option ℕ × Heap)
after_walk heap running = none
after_walk heap null = some (none, heap)
after_walk heap (found block mem) =
    some (some (u32 (block + sizeof_block)), record heap { mem = mem })

unfoldable pub kalloc : ℕ → ℕ → Heap → Option (Option ℕ × Heap)
kalloc fuel bytes heap =
    if heap.initialized
    then (if bytes == 0
        then some (none, heap)
        else after_walk heap (walk fuel bytes heap_pool_addr heap.mem))
    else some (none, heap)

unfoldable pub kfree : ℕ → Heap → Heap
kfree addr heap =
    if heap.initialized
    then (if addr == 0
        then heap
        else (let block = sub32 addr sizeof_block in
            record heap {
              mem = store heap.mem block (record (heap.mem block) { type = block_unused });
            }))
    else heap

-- The first block, which `heap_init` lays over the whole pool once the pool is mapped.
unfoldable pub initial_block : Block
initial_block = record {
  magic = 0xbabe;
  type = block_unused;
  next = 0;
  data_size = kernel_heap_size - (sizeof_block - sizeof_data_size);
}

unfoldable pub heap_lay : Memory → Heap
unfolding initial_block
heap_lay mem = record { initialized = true; mem = store mem heap_pool_addr initial_block }
