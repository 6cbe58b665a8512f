-- ===== src/MemoryMap/Merge.antt =====
-- kernel/kernel.c: the second loop of `adjust_the_memory_map`, which merges neighbours in the map.
use mathlib.Core.Path.{ap₂}
use leoman.Base.{
  ℕ, zero, suc, ◌+◌, ◌-◌, ◌≤◌, ◌<◌, ◌≡◌, ◌≢◌, sym, ap, ◌∙◌, arith, true, false, ◌&&◌, ◌==◌, ltb,
  leb, if◌then◌else◌, u32, Bool-cases, inl, inr, done, ◌>>=◌, bit_or,
}
use leoman.Bootinfo.{MemoryMapEntry}
use leoman.MemoryMap.{MemoryMap, put_entry, merge_run, pull, merge_at}

pull_step :
    {A : Type 0} (n k d x : ℕ) (map : ℕ → A)
    → 0 < d
    → (if leb (k + 1) x && ltb x (k + 1 + n)
        then (if x + d == k then map (k + d) else map (x + d))
        else (if x == k then map (k + d) else map x))
      ≡ (if leb k x && ltb x (k + suc n) then map (x + d) else map x)
pull_step n k d x map some = ground arith

pull_zero :
    {A : Type 0} (k d x : ℕ) (map : ℕ → A)
    → map x ≡ (if leb k x && ltb x (k + 0) then map (x + d) else map x)
pull_zero k d x map = ground arith

pub pull_lem :
    (n k d x : ℕ) (map : MemoryMap)
    → 0 < d
    → pull n k d map x ≡ (if leb k x && ltb x (k + n) then map (x + d) else map x)
unfolding pull
pull_lem zero k d x map some = pull_zero k d x map
pull_lem (suc n) k d x map some =
    pull_lem n (k + 1) d x (put_entry k (map (k + d)) map) some ∙ pull_step n k d x map some

-- The lengths of `n` entries from `i` on, added to `len` as the code adds them.
unfoldable pub added : ℕ → ℕ → ℕ → MemoryMap → ℕ
added zero i len map = len
added (suc n) i len map = added n (i + 1) (u32 (len + (map i).len_low)) map

merge_run_lem :
    (n fuel i j len : ℕ) (map : MemoryMap)
    → n < fuel
    → ((k : ℕ) → k < n → (map (i + (j + k))).type ≡ (map i).type)
    → (map (i + (j + n))).type ≢ (map i).type
    → merge_run fuel i j len map ≡ done (j + n, added n (i + j) len map)
unfolding merge_run added
merge_run_lem n zero i j len map l same stop = absurd (omega arith)
merge_run_lem zero (suc fuel) i j len map l same stop =
    let z : j + 0 ≡ j = omega arith in
    let other : ((map (i + j)).type == (map i).type) ≡ false =
      ground (arith, stop, ap (λ (k : ℕ). (map (i + k)).type) z) in
    rw other (ap (λ (k : ℕ). done (k, len)) (sym z))
merge_run_lem (suc n) (suc fuel) i j len map l same stop =
    let z : j + 0 ≡ j = omega arith in
    let equal : ((map (i + j)).type == (map i).type) ≡ true =
      ground (arith, same 0 (omega arith), ap (λ (k : ℕ). (map (i + k)).type) z) in
    rw equal (
      merge_run_lem n fuel i (j + 1) (u32 (len + (map (i + j)).len_low)) map (omega arith)
        (λ k lk. ap (λ (m : ℕ). (map (i + m)).type) (omega arith) ∙ same (suc k) (omega arith))
        (λ e. stop (ap (λ (m : ℕ). (map (i + m)).type) (omega arith) ∙ e))
      ∙ ap₂ (λ (a b : ℕ). done (a, added n b (u32 (len + (map (i + j)).len_low)) map)) (omega arith)
          (omega arith))

-- An element of the array after the entry `i` is `e` and those behind it are pulled by `d`.
abbrev pulled : {A : Type 0} → ℕ → ℕ → ℕ → A → (ℕ → A) → A
pulled i d x e map =
    if leb (i + 1) x && ltb x (i + 1 + (64 - i - 1 - (i + 1)))
    then (if x + d == i then e else map (x + d))
    else (if x == i then e else map x)

pulled_here : {A : Type 0} (i d : ℕ) (e : A) (map : ℕ → A) → pulled i d i e map ≡ e
pulled_here i d e map = ground arith

pulled_inside :
    {A : Type 0} (i d x : ℕ) (e : A) (map : ℕ → A)
    → i < x
    → x < 63 - i
    → pulled i d x e map ≡ map (x + d)
pulled_inside i d x e map lo hi = ground arith

pulled_outside :
    {A : Type 0} (i d x : ℕ) (e : A) (map : ℕ → A)
    → x ≢ i
    → (i < x → 63 - i ≤ x)
    → pulled i d x e map ≡ map x
pulled_outside i d x e map ne out = elim (Bool-cases (leb (i + 1) x)) [
  | inl behind ↦ ground (arith, out (ground arith))
  | inr before ↦ ground arith
]

-- An entry of the memory map below index 64 whose length is not 0 and that is followed by some
-- entries of its type, and then by one of another, gets their lengths added to its own, wherever
-- the entries lie in memory; with fuel for them, those behind it below index 63 less its own are
-- then the ones further on by the number merged, and all others stay.
pub merge_at_lem :
    (n fuel i : ℕ) (map : MemoryMap)
    → i < 64
    → suc n < fuel
    → bit_or (map i).len_low (map i).len_high ≢ 0
    → ((k : ℕ) → k < suc n → (map (i + (1 + k))).type ≡ (map i).type)
    → (map (i + (1 + suc n))).type ≢ (map i).type
    → (map' : MemoryMap) × (merge_at fuel i map ≡ done map')
      × (map' i ≡ record (map i) { len_low = added (suc n) (i + 1) (map i).len_low map })
      × ((k : ℕ) → i < k → k < 63 - i → map' k ≡ map (k + suc n))
      × ((k : ℕ) → k < i → map' k ≡ map k)
      × ((k : ℕ) → i < k → 63 - i ≤ k → map' k ≡ map k)
unfolding merge_at
merge_at_lem n fuel i map l enough some same stop =
    let e = map i in
    let len = added (suc n) (i + 1) e.len_low map in
    let e' : MemoryMapEntry = record e { len_low = len } in
    let rounds = 64 - i - 1 - (i + 1) in
    let map' = pull rounds (i + 1) (suc n) (put_entry i e' map) in
    let some' : (bit_or e.len_low e.len_high == 0) ≡ false = ground arith in
    let equal : ((map (i + 1)).type == e.type) ≡ true = ground (arith, same 0 (omega arith)) in
    let d : 1 + suc n - 1 ≡ suc n = omega arith in
    let at = λ (x : ℕ). pull_lem rounds (i + 1) (suc n) x (put_entry i e' map) (omega arith) in
    (
      map',
      rw (some', equal)
          (ap
              (λ r. r >>= λ (p : ℕ × ℕ).
                done (pull rounds (i + 1) (p.0 - 1) (put_entry i (record e { len_low = p.1 }) map)))
              (merge_run_lem (suc n) fuel i 1 e.len_low map enough same stop)
            ∙ ap (λ (k : ℕ). done (pull rounds (i + 1) k (put_entry i e' map))) d),
      at i ∙ pulled_here i (suc n) e' map,
      λ k lo hi. at k ∙ pulled_inside i (suc n) k e' map lo hi,
      λ k lo.
          at k ∙ pulled_outside i (suc n) k e' map (λ e. omega arith) (λ hi. absurd (omega arith)),
      λ k lo hi. at k ∙ pulled_outside i (suc n) k e' map (λ e. omega arith) (λ _. hi),
    )
