-- ===== src/Pm.antt =====
-- kernel/pm.c: the physical memory manager, a bitmap with one bit for each page of the pool.
pub mod Bitmap
pub mod Alloc
pub mod Laws
pub mod Runs
pub mod Cont
pub mod Init
use leoman.Base.{ℕ, zero, suc, ◌+◌, ◌-◌, ◌*◌, ◌/◌, ◌%◌, ◌^◌, bit_and, bit_or}
use leoman.Base.{Bool, true, false, not, ◌&&◌, Option, none, some, List, [], ◌∷◌}
use leoman.Base.{ltb, leb, ◌==◌, if◌then◌else◌, u32, sub32, not32, shl, shr, all_ones}
use leoman.Base.{get_or, set, replicate, Run, done, fault}
use leoman.Bootinfo.{MemoryMapEntry}
use leoman.Address.{page_size, palignup, paligndown, p2v, v2p}

-- `PM_BITMAP_NMEMB`, and the bits of one entry of `pm_bitmap`: `sizeof(*pm_bitmap) * 8`.
abbrev pub pm_bitmap_nmemb : ℕ
pm_bitmap_nmemb = 32 * 1024

abbrev pub limit : ℕ
limit = 4 * 8

-- `pm_bitmap` and `pm_page_pool`.
pub record Pm : Type 0 where
  pub bitmap : List ℕ
  pub page_pool : ℕ

-- The bits of the entries from index `idx` on; the loop over the bits has no guard in the source.
unfoldable pub find_clear : ℕ → ℕ → ℕ → Option ℕ
find_clear zero bit word = none
find_clear (suc fuel) bit word = elim (bit_and word (shl 1 bit) == 0) [
  | true ↦ some bit
  | false ↦ find_clear fuel (suc bit) word
]

-- The page of bit `bit` in entry `idx`, as a physical address.
unfoldable pub page_address : ℕ → ℕ → ℕ → ℕ
page_address pool idx bit = v2p (u32 (pool + u32 (u32 (idx * limit + bit) * page_size)))

-- A page that was found, and the entries after its bit was set.
abbrev pub Found : Type 0
Found = Option (ℕ × List ℕ)

abbrev pub keep_word : ℕ → Found → Found
keep_word word none = none
keep_word word (some (page, words)) = some (page, word ∷ words)

-- `find_clear` cannot run out of the 32 bits of an entry that is not all ones.
unfoldable pub alloc_words : ℕ → ℕ → List ℕ → Found
unfolding find_clear page_address
alloc_words pool idx [] = none
alloc_words pool idx (word ∷ words) =
    let rest = keep_word word (alloc_words pool (suc idx) words) in
    if word == all_ones then rest else elim (find_clear limit 0 word) [
      | none ↦ none
      | some bit ↦ some (page_address pool idx bit, bit_or word (shl 1 bit) ∷ words)
    ]

abbrev pub store_found : Pm → Found → Option ℕ × Pm
store_found pm none = (none, pm)
store_found pm (some (page, words)) = (some page, record pm { bitmap = words })

-- The address is `none` where the source returns NULL.
unfoldable pub pm_alloc : Pm → Option ℕ × Pm
unfolding alloc_words
pm_alloc pm = store_found pm (alloc_words pm.page_pool 0 pm.bitmap)

-- The loop over `_i`, with the rounds left: the mask and the shift at which it stops.
unfoldable pub find_run : ℕ → ℕ → ℕ → ℕ → Option (ℕ × ℕ)
find_run zero mask shift word = none
find_run (suc rounds) mask shift word = elim (bit_and word mask == 0) [
  | true ↦ some (mask, shift)
  | false ↦ find_run rounds (u32 (shl mask 1)) (suc shift) word
]

unfoldable pub cont_words : ℕ → ℕ → ℕ → List ℕ → Found
unfolding page_address
cont_words pool page_num idx [] = none
cont_words pool page_num idx (word ∷ words) =
    let rest = keep_word word (cont_words pool page_num (suc idx) words) in
    if word == all_ones
    then rest
    else elim (find_run (suc (limit - page_num)) (shr all_ones (limit - page_num)) 0 word) [
      | none ↦ rest
      | some (mask, shift) ↦ some (page_address pool idx shift, bit_or word mask ∷ words)
    ]

unfoldable pub all_full : List ℕ → Bool
all_full [] = true
all_full (word ∷ words) = (word == all_ones) && all_full words

-- With `page_num` 0 an entry that is not all ones has the mask shifted by the width of its type,
-- which C leaves undefined.
unfoldable pub pm_alloc_cont : ℕ → Pm → Run (Option ℕ × Pm)
unfolding cont_words all_full
pm_alloc_cont page_num pm =
    if ltb limit page_num
    then done (none, pm)
    else if (page_num == 0) && not (all_full pm.bitmap)
    then fault
    else done (store_found pm (cont_words pm.page_pool page_num 0 pm.bitmap))

-- The page of the pool that `pm_free` takes an address for.
unfoldable pub free_page : Pm → ℕ → ℕ
free_page pm addr = sub32 (paligndown addr) pm.page_pool / page_size

unfoldable pub pm_free : ℕ → Pm → Pm
unfolding free_page
pm_free addr pm =
    let idx = free_page pm addr / limit in
    let bit = free_page pm addr % limit in
    record pm { bitmap = set pm.bitmap idx (bit_and (get_or pm.bitmap idx 0) (not32 (shl 1 bit))) }

-- The loop over the memory map: `max_size` and `pm_page_pool`.
unfoldable pub biggest : ℕ → ℕ → List MemoryMapEntry → ℕ
biggest max_size pool [] = pool
biggest max_size pool (e ∷ es) =
    let bigger = leb max_size e.len_low in
    biggest (if bigger then e.len_low else max_size)
      (if bigger then palignup (p2v e.base_low) else pool) es

-- The memory map has the 16 entries of `kern_bootinfo`; the address is the one returned.
unfoldable pub pm_init : List MemoryMapEntry → Pm → ℕ × Pm
unfolding biggest
pm_init memory_map pm =
    let pool = biggest 0 pm.page_pool memory_map in
    (v2p pool, record { bitmap = replicate pm_bitmap_nmemb 0; page_pool = pool })
