-- ===== src/MemoryMap.antt =====
-- kernel/kernel.c: `adjust_the_memory_map`, which reserves the kernel's memory in the boot loader's
-- memory map before anything else runs.
-- The map is the memory from the first entry on, seen as entries: the 16 of the boot information
-- and what stands behind them, since the code goes on to the entry 63 and beyond.
pub mod Split
pub mod Layout
pub mod Reserve
pub mod Merge
use leoman.Base.{
  ℕ, zero, suc, ◌+◌, ◌-◌, ◌*◌, ◌/◌, ◌%◌, ◌^◌, true, false, ◌&&◌, ◌||◌, ◌==◌, ltb, leb, not,
  if◌then◌else◌, Run, done, halted, ◌>>=◌, u32, sub32, bit_or, Bool,
}
use leoman.Bootinfo.{MemoryMapEntry}

abbrev pub MemoryMap : Type 0
MemoryMap = ℕ → MemoryMapEntry

abbrev pub put_entry : ℕ → MemoryMapEntry → MemoryMap → MemoryMap
put_entry i e map = λ j. if j == i then e else map j

-- The difference of two `uint32_t *`, as a word: it counts in units of 4 bytes.
unfoldable pub pointer_diff : ℕ → ℕ → ℕ
pointer_diff p q =
    let d = u32 (p + 2 ^ 32 - q) in if ltb d (2 ^ 31) then d / 4 else d / 4 + 3 * 2 ^ 30

-- A `uint32_t *` and `n` words.
unfoldable pub pointer_add : ℕ → ℕ → ℕ
pointer_add p n = u32 (p + 4 * n)

-- The kernel's own entry, from the addresses that the linker provides.
unfoldable pub kernentry : ℕ → ℕ → MemoryMapEntry
kernentry kernel_phys kernel_size = record {
  base_low = kernel_phys;
  base_high = 0;
  len_low = u32 (kernel_size + 0x1000 + 0x400000);
  len_high = 0;
  type = 2;
  acpi_ext = 0;
}

-- `for (k = 62; k > i; k--) map[k + 1] = map[k];` from `k` on.
unfoldable pub shift : ℕ → ℕ → MemoryMap → MemoryMap
shift zero i map = map
shift (suc k) i map =
    if ltb i (suc k) then shift k i (put_entry (suc (suc k)) (map (suc k)) map) else map

-- Whether the kernel fits in the available entry.
unfoldable pub fits : MemoryMapEntry → MemoryMapEntry → Bool
unfolding pointer_diff
fits kern e =
    (e.type == 1)
    && (leb e.base_low kern.base_low
        && leb (u32 (kern.len_low + pointer_diff kern.base_low e.base_low)) e.len_low)

unfoldable pub pre_entry : MemoryMapEntry → MemoryMapEntry → MemoryMapEntry
unfolding pointer_diff
pre_entry kern e = record e { len_low = pointer_diff kern.base_low e.base_low; len_high = 0 }

unfoldable pub pre_align : MemoryMapEntry → MemoryMapEntry → MemoryMapEntry
unfolding pre_entry pointer_add
pre_align kern e =
    let pre = pre_entry kern e in
    record e {
      base_low = pointer_add pre.base_low pre.len_low;
      base_high = 0;
      len_low = sub32 e.len_low pre.len_low;
      len_high = 0;
    }

unfoldable pub post_entry : MemoryMapEntry → MemoryMapEntry → MemoryMapEntry
unfolding pointer_diff pointer_add
post_entry kern e = record {
  base_low = pointer_add kern.base_low kern.len_low;
  base_high = 0;
  len_low =
      pointer_diff (pointer_add e.base_low e.len_low) (pointer_add kern.base_low kern.len_low);
  len_high = 0;
  type = 1;
  acpi_ext = 0;
}

-- `kernentry.base_low - e.base_low > 0`, a signed comparison.
unfoldable pub has_pre : MemoryMapEntry → MemoryMapEntry → Bool
unfolding pointer_diff
has_pre kern e = let d = pointer_diff kern.base_low e.base_low in ltb 0 d && ltb d (2 ^ 31)

unfoldable pub has_post : MemoryMapEntry → MemoryMapEntry → Bool
unfolding pointer_diff
has_post kern e =
    ltb 0 (sub32 (sub32 e.len_low kern.len_low) (pointer_diff kern.base_low e.base_low))

-- The body of the first loop, on a kernel that fits: the entry before it, itself, and the one
-- behind it. The index moves on with the entry before.
unfoldable pub put_pre : MemoryMapEntry → MemoryMapEntry → ℕ → MemoryMap → ℕ × MemoryMap
unfolding has_pre pre_entry pre_align
put_pre kern e i map =
    if has_pre kern e
    then (
      i + 1,
      put_entry (i + 1) (pre_align kern e) (put_entry i (pre_entry kern e) (shift 62 i map)),
    )
    else (i, map)

unfoldable pub put_post : MemoryMapEntry → MemoryMapEntry → ℕ → MemoryMap → MemoryMap
unfolding has_post post_entry
put_post kern e i map =
    if has_post kern e then put_entry (i + 1) (post_entry kern e) (shift 62 i map) else map

unfoldable pub split_entry : MemoryMapEntry → ℕ → MemoryMap → ℕ × MemoryMap
unfolding put_pre put_post
split_entry kern i map =
    let e = map i in
    let (i', map') = put_pre kern e i map in (i', put_post kern e i' (put_entry i' kern map'))

unfoldable pub reserve_at : MemoryMapEntry → ℕ → MemoryMap → ℕ × MemoryMap
unfolding split_entry fits
reserve_at kern i map = if fits kern (map i) then split_entry kern i map else (i, map)

-- The first loop; `fuel` bounds its rounds.
unfoldable pub reserve_loop : ℕ → MemoryMapEntry → ℕ → MemoryMap → MemoryMap
unfolding reserve_at
reserve_loop zero kern i map = map
reserve_loop (suc fuel) kern i map =
    if ltb i 61
    then (let (i', map') = reserve_at kern i map in reserve_loop fuel kern (i' + 1) map')
    else map

-- `while ((e + j)->type == e->type)`: the sum of the lengths, and the first `j` of another type.
unfoldable pub merge_run : ℕ → ℕ → ℕ → ℕ → MemoryMap → Run (ℕ × ℕ)
merge_run zero i j len map = halted
merge_run (suc fuel) i j len map =
    if (map (i + j)).type == (map i).type
    then merge_run fuel i (j + 1) (u32 (len + (map (i + j)).len_low)) map
    else done (j, len)

-- `for (k = i + 1; k < 64 - i - 1; k++) map[k] = map[k + j];` for `n` rounds from `k` on.
unfoldable pub pull : ℕ → ℕ → ℕ → MemoryMap → MemoryMap
pull zero k j map = map
pull (suc n) k j map = pull n (k + 1) j (put_entry k (map (k + j)) map)

unfoldable pub merge_at : ℕ → ℕ → MemoryMap → Run MemoryMap
unfolding merge_run pull
merge_at fuel i map =
    let e = map i in
    if bit_or e.len_low e.len_high == 0
    then done map
    else (if (map (i + 1)).type == e.type
        then (merge_run fuel i 1 e.len_low map >>= λ (j, len). done (
            pull (64 - i - 1 - (i + 1)) (i + 1) (j - 1)
              (put_entry i (record e { len_low = len }) map)))
        else done map)

-- The second loop, on `n` entries from `i` on.
unfoldable pub merge_loop : ℕ → ℕ → ℕ → MemoryMap → Run MemoryMap
unfolding merge_at
merge_loop fuel zero i map = done map
merge_loop fuel (suc n) i map = merge_at fuel i map >>= λ map'. merge_loop fuel n (i + 1) map'

-- The third loop.
unfoldable pub total_loop : ℕ → ℕ → MemoryMap → ℕ → ℕ
total_loop zero i map mem_avail = mem_avail
total_loop (suc n) i map mem_avail =
    let e = map i in
    total_loop n (i + 1) map
      (if (e.type == 1) || (e.type == 3) then u32 (mem_avail + e.len_low) else mem_avail)

unfoldable pub adjust_the_memory_map : ℕ → MemoryMapEntry → MemoryMap → ℕ → Run (MemoryMap × ℕ)
unfolding reserve_loop merge_loop total_loop
adjust_the_memory_map fuel kern map mem_avail = do
  merged ← merge_loop fuel 64 0 (reserve_loop 61 kern 0 map)
  done (merged, total_loop 64 0 merged mem_avail)
