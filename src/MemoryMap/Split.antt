-- ===== src/MemoryMap/Split.antt =====
-- kernel/kernel.c: what one round of the first loop of `adjust_the_memory_map` makes of an entry
-- that holds the kernel.
use mathlib.Core.Path.{fun_ext}
use leoman.Base.{
  ℕ, zero, suc, ◌+◌, ◌-◌, ◌*◌, ◌/◌, ◌%◌, ◌^◌, ◌≤◌, ◌<◌, ◌≡◌, ◌∙◌, arith, true, false, ◌&&◌, ◌==◌,
  ltb, leb, if◌then◌else◌, Bool-cases, inl, inr,
}
use leoman.Bootinfo.{MemoryMapEntry}
use leoman.MemoryMap.{
  MemoryMap, put_entry, pointer_diff, pointer_add, shift, fits, post_entry, has_pre, has_post,
}

-- An array with the elements behind `i` moved up by one, the last of them lost.
abbrev pub shifted : {A : Type 0} → ℕ → (ℕ → A) → ℕ → A
shifted i map j = if ltb (i + 1) j && leb j 63 then map (j - 1) else map j

shift_step :
    {A : Type 0} (k i j : ℕ) (map : ℕ → A)
    → i < suc k
    → (if ltb (i + 1) j && leb j (k + 1)
        then (if (j - 1) == suc (suc k) then map (suc k) else map (j - 1))
        else (if j == suc (suc k) then map (suc k) else map j))
      ≡ (if ltb (i + 1) j && leb j (suc k + 1) then map (j - 1) else map j)
shift_step k i j map l = ground arith

shift_rest :
    {A : Type 0} (k i j : ℕ) (map : ℕ → A)
    → ltb i (suc k) ≡ false
    → map j ≡ (if ltb (i + 1) j && leb j (suc k + 1) then map (j - 1) else map j)
shift_rest k i j map l = ground arith

pub shift_lem :
    (k i j : ℕ) (map : MemoryMap)
    → shift k i map j ≡ (if ltb (i + 1) j && leb j (k + 1) then map (j - 1) else map j)
unfolding shift
shift_lem zero i j map = shift_zero i j map
  where
    shift_zero :
        {A : Type 0} (i j : ℕ) (map : ℕ → A)
        → map j ≡ (if ltb (i + 1) j && leb j (0 + 1) then map (j - 1) else map j)
    shift_zero i j map = ground arith
shift_lem (suc k) i j map = elim (Bool-cases (ltb i (suc k))) [
  | inl more ↦ rw more (
      shift_lem k i j (put_entry (suc (suc k)) (map (suc k)) map)
      ∙ shift_step k i j map (ground arith))
  | inr stop ↦ rw stop (shift_rest k i j map stop)
]

pub shift-62 : (i : ℕ) (map : MemoryMap) → shift 62 i map ≡ shifted i map
shift-62 i map = fun_ext λ j. shift_lem 62 i j map

pub pointer_diff_lem :
    (p q : ℕ) → q ≤ p → p < q + 2 ^ 31 → p < 2 ^ 32 → pointer_diff p q ≡ (p - q) / 4
unfolding pointer_diff
pointer_diff_lem p q le near lp = ground arith

-- The kernel's place in an available entry of less than 512 MiB, in words where the code counts
-- words, and with room for the sums of the code.
pub record IsInside (kern e : MemoryMapEntry) : Type 0 where
  pub available : e.type ≡ 1
  pub starts : e.base_low ≤ kern.base_low
  pub near : kern.base_low < e.base_low + 2 ^ 31
  pub base-lt : kern.base_low + 4 * kern.len_low < 2 ^ 32
  pub words : (kern.base_low - e.base_low) % 4 ≡ 0
  pub len-lt : e.len_low < 2 ^ 29
  pub room : kern.len_low + (kern.base_low - e.base_low) / 4 ≤ e.len_low

module _ (kern e : MemoryMapEntry) (h : IsInside kern e) where
  pub diff : pointer_diff kern.base_low e.base_low ≡ (kern.base_low - e.base_low) / 4
  diff = pointer_diff_lem kern.base_low e.base_low h.starts h.near (omega (arith, h.base-lt))

  pub IsInside-fits : fits kern e ≡ true
  unfolding fits
  IsInside-fits = ground (arith, diff, h.available, h.starts, h.room, h.len-lt)

  pub has_pre_lem : has_pre kern e ≡ ltb e.base_low kern.base_low
  unfolding has_pre
  has_pre_lem = ground (arith, diff, h.starts, h.words, h.near)

  pub has_post_lem :
      has_post kern e ≡ ltb (kern.len_low + (kern.base_low - e.base_low) / 4) e.len_low
  unfolding has_post
  has_post_lem = ground (arith, diff, h.room, h.len-lt)

  pub post_base : (post_entry kern e).base_low ≡ kern.base_low + 4 * kern.len_low
  unfolding post_entry pointer_add
  post_base = omega (arith, h.base-lt)

  pub post_len :
      (post_entry kern e).len_low ≡ e.len_low - kern.len_low - (kern.base_low - e.base_low) / 4
  unfolding post_entry pointer_add pointer_diff
  post_len = ground (arith, h.base-lt, h.starts, h.words, h.len-lt, h.room, h.near)
