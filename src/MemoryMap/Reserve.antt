-- ===== src/MemoryMap/Reserve.antt =====
-- kernel/kernel.c: the first loop of `adjust_the_memory_map`.
use mathlib.Core.Path.{ap₂}
use leoman.Base.{
  ℕ, zero, suc, ◌+◌, ◌-◌, ◌*◌, ◌/◌, ◌≤◌, ◌<◌, ◌≡◌, ◌≢◌, refl, ap, ◌∙◌, arith, true, false, Bool,
  ltb, Bool-cases, inl, inr, ℕ_discrete,
}
use leoman.Bootinfo.{MemoryMapEntry}
use leoman.MemoryMap.{
  MemoryMap, fits, pre_entry, post_entry, has_pre, has_post, split_entry, reserve_at, reserve_loop,
}
use leoman.MemoryMap.Split.{
  IsInside, IsInside-fits, has_pre_lem, has_post_lem, post_base, post_len, diff,
}
use leoman.MemoryMap.Layout.{IsSplit, moved, split_entry_lem}

-- Where the kernel fits in no entry, nothing is written.
loop_skips :
    (fuel : ℕ) (kern : MemoryMapEntry) (i : ℕ) (map : MemoryMap)
    → ((j : ℕ) → i ≤ j → j < 61 → fits kern (map j) ≡ false)
    → reserve_loop fuel kern i map ≡ map
unfolding reserve_loop reserve_at
loop_skips zero kern i map none_fits = refl
loop_skips (suc fuel) kern i map none_fits = elim (Bool-cases (ltb i 61)) [
  | inr stop ↦ rw stop refl
  | inl more ↦
      let here = none_fits i (omega arith) (ground arith) in
      rw (more, here) (loop_skips fuel kern (i + 1) map (λ j l lj. none_fits j (omega arith) lj))
]

-- The rounds before the entry `h`.
loop_reaches :
    (total fuel h : ℕ) (kern : MemoryMapEntry) (i : ℕ) (map : MemoryMap)
    → total + i ≡ fuel + h
    → i ≤ h
    → h < 61
    → ((j : ℕ) → j < h → fits kern (map j) ≡ false)
    → reserve_loop total kern i map ≡ reserve_loop fuel kern h map
unfolding reserve_loop reserve_at
loop_reaches zero fuel h kern i map e le l none_fits =
    let f : zero ≡ fuel = omega arith in
    let k : i ≡ h = omega arith in ap₂ (λ (f k : ℕ). reserve_loop f kern k map) f k
loop_reaches (suc total) fuel h kern i map e le l none_fits = elim (ℕ_discrete i h) [
  | yes there ↦
      let f : suc total ≡ fuel = omega arith in ap₂ (λ (f k : ℕ). reserve_loop f kern k map) f there
  | no ne ↦
      let more : ltb i 61 ≡ true = ground arith in
      let here = none_fits i (omega arith) in
      rw (more, here)
        (loop_reaches total fuel h kern (i + 1) map (omega arith) (omega arith) l none_fits)
]

loop_splits :
    (fuel h : ℕ) (kern : MemoryMapEntry) (map map' : MemoryMap) (k : ℕ)
    → h < 61
    → fits kern (map h) ≡ true
    → split_entry kern h map ≡ (k, map')
    → reserve_loop (suc fuel) kern h map ≡ reserve_loop fuel kern (k + 1) map'
unfolding reserve_loop reserve_at
loop_splits fuel h kern map map' k l fit ran =
    let more : ltb h 61 ≡ true = ground arith in
    rw (more, fit) (ap (λ (p : ℕ × MemoryMap). reserve_loop fuel kern (p.0 + 1) p.1) ran)

pre_entry_lem :
    (kern e : MemoryMapEntry)
    → IsInside kern e
    → pre_entry kern e ≡ record e { len_low = (kern.base_low - e.base_low) / 4; len_high = 0 }
unfolding pre_entry
pre_entry_lem kern e h = ap (λ (n : ℕ). record e { len_low = n; len_high = 0 }) (diff kern e h)

-- The entry behind the kernel starts after it, so that the kernel does not fit in it.
post-fits :
    (kern e : MemoryMapEntry)
    → IsInside kern e
    → 0 < kern.len_low
    → fits kern (post_entry kern e) ≡ false
unfolding fits
post-fits kern e h some = ground (arith, post_base kern e h)

-- The entries behind the kernel's are that of what is behind it in the same memory, and the
-- others.
behind :
    (b c : Bool) (kern post : MemoryMapEntry) (pre : MemoryMapEntry) (h : ℕ) (map map' : MemoryMap)
    → IsSplit b c h pre kern post map map'
    → (c ≡ true → fits kern post ≡ false)
    → ((j : ℕ) → j < 61 → j ≢ h → fits kern (map j) ≡ false)
    → (j : ℕ) → moved b h + 1 ≤ j
    → j < 61
    → fits kern (map' j) ≡ false
behind true true kern post pre h map map' s end others j lo hi = elim (ℕ_discrete j (h + 1 + 1)) [
  | yes e ↦ ap (λ (n : ℕ). fits kern (map' n)) e ∙ (ap (fits kern) (s.last refl) ∙ end refl)
  | no ne ↦
      ap (λ (n : ℕ). fits kern (map' n)) (omega arith)
      ∙ (ap (fits kern) (s.rest (j - 2) (omega arith) (omega arith))
          ∙ others (j - 2) (omega arith) (λ e. omega arith))
]
behind true false kern post pre h map map' s end others j lo hi =
    ap (λ (n : ℕ). fits kern (map' n)) (omega arith)
    ∙ (ap (fits kern) (s.rest (j - 1) (omega arith) (omega arith))
        ∙ others (j - 1) (omega arith) (λ e. omega arith))
behind false true kern post pre h map map' s end others j lo hi = elim (ℕ_discrete j (h + 1)) [
  | yes e ↦ ap (λ (n : ℕ). fits kern (map' n)) e ∙ (ap (fits kern) (s.last refl) ∙ end refl)
  | no ne ↦
      ap (λ (n : ℕ). fits kern (map' n)) (omega arith)
      ∙ (ap (fits kern) (s.rest (j - 1) (omega arith) (omega arith))
          ∙ others (j - 1) (omega arith) (λ e. omega arith))
]
behind false false kern post pre h map map' s end others j lo hi =
    ap (λ (n : ℕ). fits kern (map' n)) (omega arith)
    ∙ (ap (fits kern) (s.rest j (omega arith) (omega arith))
        ∙ others j (omega arith) (λ e. omega arith))

-- When one entry below index 61 is available memory that holds the kernel, is shorter than 512
-- MiB and has room for the sums of the code, the kernel lies a multiple of 4 bytes into it, and
-- the kernel fits in no other entry below 61, the first loop puts the kernel's entry in its
-- place, before it, where it starts later, an entry of a quarter of the bytes up to it, and
-- behind it, where words are left, an available entry that starts 4 times the kernel's length
-- further on and has the length that is left when a quarter of those bytes and the kernel's are
-- taken off; the entries before stay, those behind move up in order, and the memory from index 64
-- on is as before.
pub reserve_loop_lem :
    (kern : MemoryMapEntry) (map : MemoryMap) (h : ℕ)
    → h < 61
    → 0 < kern.len_low
    → IsInside kern (map h)
    → ((j : ℕ) → j < 61 → j ≢ h → fits kern (map j) ≡ false)
    → let e = map h in
      let before = (kern.base_low - e.base_low) / 4 in
      (post : MemoryMapEntry) × (post.type ≡ 1)
      × (post.base_low ≡ kern.base_low + 4 * kern.len_low)
      × (post.len_low ≡ e.len_low - kern.len_low - before)
      × IsSplit
          (ltb e.base_low kern.base_low)
          (ltb (kern.len_low + before) e.len_low)
          h
          (record e { len_low = before; len_high = 0 })
          kern
          post
          map
          (reserve_loop 61 kern 0 map)
reserve_loop_lem kern map h l some inside others =
    let e = map h in
    let b = has_pre kern e in
    let c = has_post kern e in
    let post = post_entry kern e in
    let (map', ran, s) = split_entry_lem kern h map l in
    let run : reserve_loop 61 kern 0 map ≡ map' =
      loop_reaches 61 (suc (60 - h)) h kern 0 map (omega arith) (omega arith) l
        (λ j lj. others j (omega arith) (λ e. omega arith))
      ∙ (loop_splits (60 - h) h kern map map' (moved b h) l (IsInside-fits kern e inside) ran
          ∙ loop_skips (60 - h) kern (moved b h + 1) map' (
              behind b c kern post (pre_entry kern e) h map map' s
                (λ _. post-fits kern e inside some) others)) in
    (
      post,
      (unfold post_entry in refl),
      post_base kern e inside,
      post_len kern e inside,
      rw
          (
            ← has_pre_lem kern e inside,
            ← has_post_lem kern e inside,
            ← pre_entry_lem kern e inside,
            run,
          )
          s,
    )
