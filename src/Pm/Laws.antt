-- ===== src/Pm/Laws.antt =====
-- kernel/pm.c: what `pm_alloc` and `pm_free` do to the set of used pages.
use leoman.Base.{ℕ, ◌+◌, ◌*◌, ◌/◌, ◌%◌, ◌^◌, ◌<◌, bit_and}
use leoman.Base.{◌≡◌, ◌≢◌, refl, sym, ap, ◌⊎◌, inl, inr, ◌∙◌, none, some, arith}
use leoman.Base.{
  List, length, u32, not32, shl, get_or, set, get_or-set_self, get_or-set_ne, ℕ_discrete, ◌==◌,
  if◌then◌else◌,
}
use leoman.Base.Bits.{bit, bit-lt, bit-bit_and, bit-complement, bit-pow_self, bit-pow_ne}
use leoman.Base.Bits.Masks.{pow-lt}
use leoman.Address.{v2p, p2v, p2v-v2p, v2p-lt, p2v-lt, paligndown_lem}
use leoman.Pm.{Pm, pm_bitmap_nmemb, pm_alloc, pm_free, free_page}
use leoman.Pm.Bitmap.{used, AreWords, Marks, page_at, IsFull}
use leoman.Pm.Alloc.{alloc_words-Finds}

pub record IsValid (pm : Pm) : Type 0 where
  pub size : length pm.bitmap ≡ pm_bitmap_nmemb
  pub are_words : AreWords pm.bitmap
  pub pool-lt : pm.page_pool < 2 ^ 32
  pub pool_aligned : pm.page_pool % 4096 ≡ 0

-- On a valid state pm_alloc fails exactly when every page is used, and then changes nothing;
-- otherwise it returns the physical address of the lowest free page of the pool and marks that
-- page alone.
pub pm_alloc_lem :
    (pm : Pm)
    → IsValid pm
    → ((pm_alloc pm ≡ (none, pm)) × IsFull pm.bitmap)
      ⊎ ((page : ℕ) × ((pm_alloc pm).0 ≡ some (page_at pm.page_pool page))
          × Marks pm.bitmap (pm_alloc pm).1.bitmap page 1
          × ((q : ℕ) → q < page → used pm.bitmap q ≡ 1)
          × ((pm_alloc pm).1.page_pool ≡ pm.page_pool))
unfolding pm_alloc
pm_alloc_lem pm v = elim (alloc_words-Finds pm.page_pool 0 pm.bitmap v.are_words) [
  | inl (e, full) ↦ inl (rw (e, pm_alloc), full)
  | inr (page, words', e, marks, below) ↦ inr (
    page,
    rw (e, pm_alloc) (ap (λ (p : ℕ). some (page_at pm.page_pool p)) (omega arith)),
    rw (e, pm_alloc) marks,
    below,
    rw (e, pm_alloc) refl,
  )
]

pub pm_alloc-IsValid : (pm : Pm) → IsValid pm → IsValid (pm_alloc pm).1
pm_alloc-IsValid pm v = elim (pm_alloc_lem pm v) [
  | inl (e, _) ↦ rw e v
  | inr (page, _, marks, _, same) ↦ record {
    size = marks.same_length ∙ v.size;
    are_words = marks.are_words;
    pool-lt = rw same v.pool-lt;
    pool_aligned = rw same v.pool_aligned;
  }
]

-- Two pages of the pool never share a physical address.
pub page_at-injective :
    (pool p q : ℕ) → p < 2 ^ 20 → q < 2 ^ 20 → page_at pool p ≡ page_at pool q → p ≡ q
unfolding page_at v2p
page_at-injective pool p q hp hq e = omega arith

some_eq : {a b : ℕ} → some a ≡ some b → a ≡ b
some_eq e = cc

-- On a valid state an address that pm_alloc returns is not that of any page of the pool which was
-- in use.
pub pm_alloc_fresh :
    (pm : Pm) (page address : ℕ)
    → IsValid pm
    → page < 2 ^ 20
    → used pm.bitmap page ≡ 1
    → (pm_alloc pm).0 ≡ some address
    → address ≢ page_at pm.page_pool page
pm_alloc_fresh pm page address v l in_use e same = elim (pm_alloc_lem pm v) [
  | inl (f, _) ↦ cc
  | inr (found, f, marks, _, _) ↦
      let size = v.size in
      let range = marks.in_range in
      let hit : found ≡ page =
        page_at-injective pm.page_pool found page (omega arith) l (some_eq (sym f ∙ e) ∙ same) in
      omega (arith, marks.free page (omega arith) (omega arith))
]

bit-clear :
    (word k j : ℕ)
    → k < 32
    → j < 32
    → bit (bit_and word (not32 (shl 1 k))) j ≡ (if j == k then 0 else bit word j)
bit-clear word k j hk hj =
    let one : shl 1 k ≡ 2 ^ k = omega arith in
    rw one (
      ground (
        arith,
        bit-bit_and word (not32 (2 ^ k)) j,
        bit-complement 32 (2 ^ k) j (rw one at (pow-lt k 32 hk)) hj,
        bit-lt word j,
        bit-pow_self k,
        bit-pow_ne k j,
      ))

-- Clearing one digit of an entry.
used-set :
    (words : List ℕ) (idx k q : ℕ)
    → idx < length words
    → k < 32
    → used (set words idx (bit_and (get_or words idx 0) (not32 (shl 1 k)))) q
      ≡ (if q == idx * 32 + k then 0 else used words q)
unfolding used
used-set words idx k q l b = elim (ℕ_discrete idx (q / 32)) [
  | no ne ↦ rw (get_or-set_ne words idx (q / 32) _ 0 ne) (ground arith)
  | yes e ↦
      let word = get_or words idx 0 in
      let here = get_or-set_self words idx (bit_and word (not32 (shl 1 k))) 0 l in
      rw (← e, here, bit-clear word k (q % 32) b (omega arith)) (ground arith)
]

free_page-lt : (pm : Pm) (addr : ℕ) → free_page pm addr < 2 ^ 20
unfolding free_page
free_page-lt pm addr = omega arith

-- On a valid state pm_free marks one page free, the one its index computation names, and no
-- other.
pub used-pm_free :
    (pm : Pm) (addr q : ℕ)
    → IsValid pm
    → used (pm_free addr pm).bitmap q ≡ (if q == free_page pm addr then 0 else used pm.bitmap q)
unfolding pm_free
used-pm_free pm addr q v =
    let page = free_page pm addr in
    let e : page / 32 * 32 + page % 32 ≡ page = omega arith in
    let size = v.size in
    rw
      (
        used-set pm.bitmap (page / 32) (page % 32) q (omega (arith, free_page-lt pm addr))
            (omega arith),
        e,
      )
      refl

-- The page that `pm_free` takes a returned address for: 2 ^ 17 pages further on, since the address
-- is physical and the start of the pool is virtual.
pub free_page-page_at :
    (pm : Pm) (page : ℕ)
    → IsValid pm
    → page < 2 ^ 20
    → free_page pm (page_at pm.page_pool page) ≡ (page + 2 ^ 17) % 2 ^ 20
unfolding free_page page_at v2p
free_page-page_at pm page v l = omega (
  arith,
  paligndown_lem (v2p (u32 (pm.page_pool + page * 4096))) (v2p-lt _),
  v.pool-lt,
  v.pool_aligned,
)

-- On a valid state, the page that pm_free frees for the kernel's virtual address of a page of the
-- pool is that page.
pub free_page-p2v :
    (pm : Pm) (page : ℕ)
    → IsValid pm
    → page < 2 ^ 20
    → free_page pm (p2v (page_at pm.page_pool page)) ≡ page
unfolding free_page page_at
free_page-p2v pm page v l = omega (
  arith,
  paligndown_lem (p2v (v2p (u32 (pm.page_pool + page * 4096)))) (p2v-lt _),
  p2v-v2p (u32 (pm.page_pool + page * 4096)) (omega arith),
  v.pool-lt,
  v.pool_aligned,
)

-- Freeing the address that pm_alloc returned on a valid state leaves that page used, and marks
-- the page 2 ^ 17 further on, around the end of the bitmap, free instead.
pub pm_free_misses :
    (pm : Pm) (address : ℕ)
    → IsValid pm
    → (pm_alloc pm).0 ≡ some address
    → (page : ℕ) × (address ≡ page_at pm.page_pool page)
      × (used (pm_free address (pm_alloc pm).1).bitmap page ≡ 1)
      × (used (pm_free address (pm_alloc pm).1).bitmap ((page + 2 ^ 17) % 2 ^ 20) ≡ 0)
pm_free_misses pm address v e = elim (pm_alloc_lem pm v) [
  | inl (f, _) ↦ cc
  | inr (page, f, marks, _, same) ↦
      let size = v.size in
      let range = marks.in_range in
      let here : address ≡ page_at pm.page_pool page = some_eq (sym e ∙ f) in
      let after = (pm_alloc pm).1 in
      let v' = pm_alloc-IsValid pm v in
      let index : free_page after address ≡ (page + 2 ^ 17) % 2 ^ 20 =
        ap (free_page after) (here ∙ ap (λ (p : ℕ). page_at p page) (sym same))
        ∙ free_page-page_at after page v' (omega arith) in
      (
        page,
        here,
        used-pm_free after address page v'
            ∙ (let ne : page ≢ free_page after address = omega arith in
                ground (arith, marks.taken page (omega arith) (omega arith))),
        used-pm_free after address ((page + 2 ^ 17) % 2 ^ 20) v' ∙ ground arith,
      )
]
