-- ===== src/Pm/Init.antt =====
-- kernel/pm.c: the pool that `pm_init` chooses, and the bitmap that it starts from.
use leoman.Base.{ℕ, zero, suc, ◌/◌, ◌%◌, ◌≤◌, ◌<◌}
use leoman.Base.{◌≡◌, refl, ap, ◌⊎◌, inl, inr, List, [], ◌∷◌, ◌++◌, arith}
use leoman.Base.{length-replicate, get_or-replicate, replicate, leb, Bool-cases}
use leoman.Base.Bits.{bit-zero}
use leoman.Address.{palignup, palignup_lem, p2v, v2p}
use leoman.Bootinfo.{MemoryMapEntry}
use leoman.Pm.{Pm, pm_bitmap_nmemb, biggest, pm_init}
use leoman.Pm.Bitmap.{used, AreWords}
use leoman.Pm.Laws.{IsValid}

abbrev pub All {ℓ} : (MemoryMapEntry → Type ℓ) → List MemoryMapEntry → Type ℓ
All P [] = Unit
All P (e ∷ es) = P e × All P es

-- The entry `e` of the map is at least as long as all before it, and longer than all after it.
abbrev pub IsLongest : List MemoryMapEntry → MemoryMapEntry → List MemoryMapEntry → Type 0
IsLongest before e after =
    All (λ b. b.len_low ≤ e.len_low) before × All (λ a. a.len_low < e.len_low) after

biggest_lem :
    (max_size pool : ℕ) (es : List MemoryMapEntry)
    → (All (λ e. e.len_low < max_size) es × (biggest max_size pool es ≡ pool))
      ⊎ ((before : List MemoryMapEntry) × (e : MemoryMapEntry) × (after : List MemoryMapEntry) × (es
            ≡ before ++ e ∷ after)
          × IsLongest before e after
          × (max_size ≤ e.len_low)
          × (biggest max_size pool es ≡ palignup (p2v e.base_low)))
unfolding biggest
biggest_lem max_size pool [] = inl (tt, refl)
biggest_lem max_size pool (e ∷ es) = elim (Bool-cases (leb max_size e.len_low)) [
  | inl bigger ↦ rw bigger (elim (biggest_lem e.len_low (palignup (p2v e.base_low)) es) [
    | inl (shorter, same) ↦ inr ([], e, es, refl, (tt, shorter), ground arith, same)
    | inr (before, f, after, split, longest, longer, same) ↦ inr (
      e ∷ before,
      f,
      after,
      ap (◌∷◌ e) split,
      ((longer, longest.0), longest.1),
      ground arith,
      same,
    )
  ])
  | inr smaller ↦ rw smaller (elim (biggest_lem max_size pool es) [
    | inl (shorter, same) ↦ inl ((ground arith, shorter), same)
    | inr (before, f, after, split, longest, longer, same) ↦ inr (
      e ∷ before,
      f,
      after,
      ap (◌∷◌ e) split,
      ((ground arith, longest.0), longest.1),
      longer,
      same,
    )
  ])
]

pub replicate-AreWords : (n : ℕ) → AreWords (replicate n 0)
replicate-AreWords zero = tt
replicate-AreWords (suc n) = (omega arith, replicate-AreWords n)

-- From a memory map with an entry, pm_init starts the pool at the page boundary at or after the
-- base, as a kernel address, of the last longest entry, whatever its type, returns the pool's
-- physical address, and leaves a valid state in which every page is free.
pub pm_init_lem :
    (e₀ : MemoryMapEntry) (es : List MemoryMapEntry) (pm : Pm)
    → let pm' = (pm_init (e₀ ∷ es) pm).1 in
      IsValid pm'
      × ((q : ℕ) → used pm'.bitmap q ≡ 0)
      × ((pm_init (e₀ ∷ es) pm).0 ≡ v2p pm'.page_pool)
      × ((before : List MemoryMapEntry) × (e : MemoryMapEntry) × (after : List MemoryMapEntry) × (e₀
              ∷ es
            ≡ before ++ e ∷ after)
          × IsLongest before e after
          × (pm'.page_pool ≡ palignup (p2v e.base_low)))
unfolding pm_init used
pm_init_lem e₀ es pm = elim (biggest_lem 0 pm.page_pool (e₀ ∷ es)) [
  | inl (shorter, _) ↦ absurd (omega (arith, shorter.0))
  | inr (before, e, after, split, longest, _, same) ↦ (
    record {
      size = length-replicate {A = ℕ} pm_bitmap_nmemb 0;
      are_words = replicate-AreWords pm_bitmap_nmemb;
      pool-lt = rw same (omega (arith, palignup_lem (p2v e.base_low)));
      pool_aligned = rw same (omega (arith, palignup_lem (p2v e.base_low)));
    },
    λ q. rw (get_or-replicate {A = ℕ} pm_bitmap_nmemb (q / 32) 0) (bit-zero (q % 32)),
    refl,
    (before, e, after, split, longest, same),
  )
]
