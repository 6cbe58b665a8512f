-- ===== src/Pm/Alloc.antt =====
-- kernel/pm.c: what `pm_alloc` gives out.
use leoman.Base.{ℕ, zero, suc, ◌+◌, ◌-◌, ◌*◌, ◌^◌, ◌≤◌, ◌<◌, bit_and, bit_or}
use leoman.Base.{
  ◌≡◌, ◌≢◌, refl, ap, ◌⊎◌, inl, inr, ◌∙◌, sym, dec_lt, false, none, some, List, [], ◌∷◌, arith,
}
use leoman.Base.{◌==◌, ==_iff, Bool-cases, Option, shl, all_ones}
use leoman.Base.Bits.{bit, bit-lt, bit_or-lt, bit_ext, bit-all_ones}
use leoman.Base.Bits.Masks.{pow-lt}
use leoman.Pm.{find_clear, alloc_words, Found, keep_word, page_address}
use leoman.Pm.Bitmap.{used, AreWords, Marks, Marks-here, Marks-there, clear_iff}
use leoman.Pm.Bitmap.{page_at, page_address-eq-page_at, IsFull, IsFull-cons}
use leoman.Pm.Bitmap.{bit-mark_self, bit-mark_ne, used-cons_low, used-cons_high}

abbrev pub SetBelow : ℕ → ℕ → ℕ → Type 0
SetBelow word low high = (j : ℕ) → low ≤ j → j < high → bit word j ≡ 1

-- The outcome of the bit search: every digit is set, or the lowest clear digit from `low` on.
abbrev Searched : ℕ → ℕ → ℕ → Option ℕ → Type 0
Searched fuel low word result =
    ((result ≡ none) × SetBelow word low (low + fuel))
    ⊎ ((k : ℕ) × (result ≡ some k)
        × (low ≤ k)
        × (k < low + fuel)
        × (bit word k ≡ 0)
        × SetBelow word low k)

bit_set : (word k : ℕ) → (bit_and word (shl 1 k) == 0) ≡ false → bit word k ≡ 1
bit_set word k h = ground (arith, clear_iff word k, bit-lt word k)

Searched-suc :
    (fuel low word : ℕ) (result : Option ℕ)
    → bit word low ≡ 1
    → Searched fuel (suc low) word result
    → Searched (suc fuel) low word result
Searched-suc fuel low word result first (inl (e, set)) = inl (
  e,
  λ j p q. elim (dec_lt low j) [
    | yes l ↦ set j l (omega arith)
    | no g ↦ let e : j ≡ low = omega arith in rw e first
  ],
)
Searched-suc fuel low word result first (inr (k, e, a, b, clear, set)) = inr (
  k,
  e,
  omega arith,
  omega arith,
  clear,
  λ j p q. elim (dec_lt low j) [
    | yes l ↦ set j l q
    | no g ↦ let e : j ≡ low = omega arith in rw e first
  ],
)

find_clear-Searched : (fuel low word : ℕ) → Searched fuel low word (find_clear fuel low word)
unfolding find_clear
find_clear-Searched zero low word = inl (refl, λ j p q. absurd (omega arith))
find_clear-Searched (suc fuel) low word = elim (Bool-cases (bit_and word (shl 1 low) == 0)) [
  | inl clear ↦
      rw (clear, find_clear)
        (inr (
          low,
          refl,
          omega arith,
          omega arith,
          (clear_iff word low).0 clear,
          λ j p q. absurd (omega arith),
        ))
  | inr taken ↦
      rw (taken, find_clear)
        (Searched-suc fuel low word _ (bit_set word low taken)
          (find_clear-Searched fuel (suc low) word))
]

-- An entry with every digit set is all ones.
pub all_set : (word : ℕ) → word < 2 ^ 32 → SetBelow word 0 32 → word ≡ all_ones
all_set word small h =
    bit_ext 32 word all_ones small (omega arith)
      λ k l. h k (omega arith) l ∙ sym (bit-all_ones 32 k l)

-- What a search through the entries finds from entry `idx` on.
abbrev pub Finds : ℕ → ℕ → List ℕ → Found → Type 0
Finds pool idx words found =
    ((found ≡ none) × IsFull words)
    ⊎ ((page : ℕ) × (words' : List ℕ) × (found ≡ some (page_at pool (idx * 32 + page), words'))
        × Marks words words' page 1
        × ((q : ℕ) → q < page → used words q ≡ 1))

Finds-keep :
    (pool idx word : ℕ) (words : List ℕ) (found : Found)
    → word < 2 ^ 32
    → SetBelow word 0 32
    → Finds pool (suc idx) words found
    → Finds pool idx (word ∷ words) (keep_word word found)
Finds-keep pool idx word words found small set (inl (e, full)) =
    inl (ap (keep_word word) e, IsFull-cons word words (λ k l. set k (omega arith) l) full)
Finds-keep pool idx word words found small set (inr (page, words', e, marks, below)) = inr (
  page + 32,
  word ∷ words',
  ap (keep_word word) e ∙ ap (λ (p : ℕ). some (page_at pool p, word ∷ words')) (omega arith),
  Marks-there word page 1 words words' small marks,
  λ q l. elim (dec_lt q 32) [
    | yes low ↦ used-cons_low word q words low ∙ set q (omega arith) low
    | no high ↦ used-cons_high word q words (omega arith) ∙ below (q - 32) (omega arith)
  ],
)

Finds-mark :
    (pool idx word k : ℕ) (words : List ℕ)
    → word < 2 ^ 32
    → AreWords words
    → k < 32
    → bit word k ≡ 0
    → SetBelow word 0 k
    → Finds pool idx (word ∷ words) (some (page_address pool idx k, bit_or word (shl 1 k) ∷ words))
Finds-mark pool idx word k words small rest l clear below = inr (
  k,
  bit_or word (shl 1 k) ∷ words,
  ap (λ (p : ℕ). some (p, bit_or word (shl 1 k) ∷ words)) (page_address-eq-page_at pool idx k),
  Marks-here word (bit_or word (shl 1 k)) words k 1 (omega arith)
      (bit_or-lt 32 word (shl 1 k) small (pow-lt k 32 l)) rest
      (λ j p q. let e : j ≡ k = omega arith in rw e clear)
      (λ j p q. let e : j ≡ k = omega arith in rw e (bit-mark_self word k))
      (λ j p c. bit-mark_ne word k j (omega arith)),
  λ q p. used-cons_low word q words (omega arith) ∙ below q (omega arith) p,
)

pub alloc_words-Finds :
    (pool idx : ℕ) (words : List ℕ)
    → AreWords words
    → Finds pool idx words (alloc_words pool idx words)
unfolding alloc_words
alloc_words-Finds pool idx [] h = inl (refl, λ q l. absurd (omega arith))
alloc_words-Finds pool idx (word ∷ words) h = elim (Bool-cases (word == all_ones)) [
  | inl full ↦ rw full (
      Finds-keep pool idx word words _ h.0
        (λ j p q. let e = (==_iff word all_ones).0 full in rw e (bit-all_ones 32 j q))
        (alloc_words-Finds pool (suc idx) words h.1))
  | inr room ↦
      let ne : word ≢ all_ones = ground arith in
      elim (find_clear-Searched 32 0 word) [
        | inl (e, set) ↦ absurd (omega (arith, ne, all_set word h.0 set))
        | inr (k, e, _, l, clear, below) ↦
            rw (room, e) (Finds-mark pool idx word k words h.0 h.1 (omega arith) clear below)
      ]
]
