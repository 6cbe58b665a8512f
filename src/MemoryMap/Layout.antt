-- ===== src/MemoryMap/Layout.antt =====
-- kernel/kernel.c: the order of the entries after the kernel's is put into one of them.
use leoman.Base.{
  ℕ, ◌+◌, ◌≤◌, ◌<◌, ◌≡◌, refl, ap, arith, true, false, Bool, ◌==◌, if◌then◌else◌, Bool-cases, inl,
  inr,
}
use leoman.Bootinfo.{MemoryMapEntry}
use leoman.MemoryMap.{
  MemoryMap, put_entry, pre_entry, pre_align, post_entry, has_pre, has_post, put_pre, put_post,
  split_entry,
}
use leoman.MemoryMap.Split.{shifted, shift-62}

abbrev pub one_if : Bool → ℕ
one_if b = if b then 1 else 0

-- The array after the splitting, with or without an element before and one behind.
-- The index of the kernel's entry.
abbrev pub moved : Bool → ℕ → ℕ
moved b i = if b then i + 1 else i

layout : {A : Type 0} → Bool → Bool → ℕ → A → A → A → A → (ℕ → A) → ℕ → A
layout b c i pre align kern post map j =
    let m₁ = λ (n : ℕ).
      if b
      then (if n == i + 1 then align else (if n == i then pre else shifted i map n))
      else map n in
    let m₂ = λ (n : ℕ). if n == moved b i then kern else m₁ n in
    if c then (if j == moved b i + 1 then post else shifted (moved b i) m₂ j) else m₂ j

-- Elements `pre`, `kern` and `post` stand for the element `i`, the first where `b` and the last
-- where `c` holds; those behind are moved up, and what moves past the entry 63 is lost.
pub record IsSplit {A : Type 0} (b c : Bool) (i : ℕ) (pre kern post : A) (map map' : ℕ → A)
    : Type 0 where
  pub before : (j : ℕ) → j < i → map' j ≡ map j
  pub first : b ≡ true → map' i ≡ pre
  pub middle : map' (moved b i) ≡ kern
  pub last : c ≡ true → map' (moved b i + 1) ≡ post
  pub rest :
      (j : ℕ) → i < j → j + (one_if b + one_if c) ≤ 63 → map' (j + (one_if b + one_if c)) ≡ map j
  pub beyond : (j : ℕ) → 63 < j → map' j ≡ map j

layout-IsSplit :
    {A : Type 0} (b c : Bool) (i : ℕ) (pre align kern post : A) (map : ℕ → A)
    → i < 61
    → IsSplit b c i pre kern post map (layout b c i pre align kern post map)
unfolding layout
layout-IsSplit true true i pre align kern post map l = record {
  before = λ j lj. ground arith;
  first = λ e. ground arith;
  middle = ground arith;
  last = λ e. ground arith;
  rest = λ j lj room. ground arith;
  beyond = λ j lj. ground arith;
}
layout-IsSplit true false i pre align kern post map l = record {
  before = λ j lj. ground arith;
  first = λ e. ground arith;
  middle = ground arith;
  last = λ e. cc;
  rest = λ j lj room. ground arith;
  beyond = λ j lj. ground arith;
}
layout-IsSplit false true i pre align kern post map l = record {
  before = λ j lj. ground arith;
  first = λ e. cc;
  middle = ground arith;
  last = λ e. ground arith;
  rest = λ j lj room. ground arith;
  beyond = λ j lj. ground arith;
}
layout-IsSplit false false i pre align kern post map l = record {
  before = λ j lj. ground arith;
  first = λ e. cc;
  middle = ground arith;
  last = λ e. cc;
  rest = λ j lj room. ground arith;
  beyond = λ j lj. ground arith;
}

split-layout :
    (kern : MemoryMapEntry) (i : ℕ) (map : MemoryMap)
    → let e = map i in
      split_entry kern i map ≡ (
        moved (has_pre kern e) i,
        layout
            (has_pre kern e)
            (has_post kern e)
            i
            (pre_entry kern e)
            (pre_align kern e)
            kern
            (post_entry kern e)
            map,
      )
unfolding split_entry put_pre put_post layout
split-layout kern i map = elim (Bool-cases (has_pre kern (map i))) [
  | inl b ↦ elim (Bool-cases (has_post kern (map i))) [
    | inl c ↦
        rw (b, c, shift-62 i map)
          (ap (λ m. (i + 1, put_entry (i + 1 + 1) (post_entry kern (map i)) m))
            (shift-62 (i + 1) _))
    | inr c ↦ rw (b, c, shift-62 i map) refl
  ]
  | inr b ↦ elim (Bool-cases (has_post kern (map i))) [
    | inl c ↦
        rw (b, c) (ap (λ m. (i, put_entry (i + 1) (post_entry kern (map i)) m)) (shift-62 i _))
    | inr c ↦ rw (b, c) refl
  ]
]

-- The round on an entry that the kernel fits in.
pub split_entry_lem :
    (kern : MemoryMapEntry) (i : ℕ) (map : MemoryMap)
    → i < 61
    → let b = has_pre kern (map i) in
      (map' : MemoryMap) × (split_entry kern i map ≡ (moved b i, map'))
      × IsSplit b
          (has_post kern (map i))
          i
          (pre_entry kern (map i))
          kern
          (post_entry kern (map i))
          map
          map'
split_entry_lem kern i map l =
    let b = has_pre kern (map i) in
    let c = has_post kern (map i) in
    (
      layout b c i (pre_entry kern (map i)) (pre_align kern (map i)) kern (post_entry kern (map i))
          map,
      split-layout kern i map,
      layout-IsSplit b c i (pre_entry kern (map i)) (pre_align kern (map i)) kern
          (post_entry kern (map i)) map l,
    )
