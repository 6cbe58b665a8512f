-- ===== src/Pm/Bitmap.antt =====
-- The bitmap of kernel/pm.c as a set of pages: which are used, and what marking a run of them
-- changes.
use leoman.Base.{ℕ, suc, ◌+◌, ◌-◌, ◌*◌, ◌/◌, ◌%◌, ◌^◌, ◌≤◌, ◌<◌, bit_and, bit_or}
use leoman.Base.{◌≡◌, refl, ap, ◌⊎◌, ◌↔◌, true, List, [], ◌∷◌, arith}
use leoman.Base.{◌∙◌, sym, dec_lt, ◌==◌, length, get_or, shl, u32, ◌≢◌}
use leoman.Base.Bits.{bit, bit-lt, bit-bit_or, bit-pow_self, bit-pow_ne}
use leoman.Base.Bits.Masks.{bit_and-pow}
use leoman.Address.{v2p}
use leoman.Pm.{page_address}
use native.Mathlib.Nat.{one-le-pow}

unfoldable pub used : List ℕ → ℕ → ℕ
used words page = bit (get_or words (page / 32) 0) (page % 32)

abbrev pub AreWords : List ℕ → Type 0
AreWords [] = Unit {0}
AreWords (word ∷ words) = (word < 2 ^ 32) × AreWords words

-- `words'` is `words` with the `n` free pages from `page` on marked used, and no other change.
pub record Marks (words words' : List ℕ) (page n : ℕ) : Type 0 where
  pub same_length : length words' ≡ length words
  pub are_words : AreWords words'
  pub in_range : page + n ≤ 32 * length words
  pub free : (q : ℕ) → page ≤ q → q < page + n → used words q ≡ 0
  pub taken : (q : ℕ) → page ≤ q → q < page + n → used words' q ≡ 1
  pub others : (q : ℕ) → (q < page) ⊎ (page + n ≤ q) → used words' q ≡ used words q

pub used-cons_low : (word q : ℕ) (words : List ℕ) → q < 32 → used (word ∷ words) q ≡ bit word q
unfolding used
used-cons_low word q words h =
    let e : q / 32 ≡ 0 = omega arith in let r : q % 32 ≡ q = omega arith in rw (e, r)

pub used-cons_high :
    (word q : ℕ) (words : List ℕ) → 32 ≤ q → used (word ∷ words) q ≡ used words (q - 32)
unfolding used
used-cons_high word q words h =
    let e : q / 32 ≡ suc ((q - 32) / 32) = omega arith in
    let r : q % 32 ≡ (q - 32) % 32 = omega arith in rw (e, r)

digit_cases : (d : ℕ) → d < 2 → (d ≡ 0) ⊎ (d ≡ 1)
digit_cases d h = omega arith

pub clear_iff : (word k : ℕ) → ((bit_and word (shl 1 k) == 0) ≡ true) ↔ (bit word k ≡ 0)
clear_iff word k =
    let one : shl 1 k ≡ 2 ^ k = omega arith in
    rw (one, bit_and-pow word k)
      (ground (arith, one-le-pow k 2, bit-lt word k, digit_cases (bit word k) (bit-lt word k)))

module _ (word word' : ℕ) (words : List ℕ) (page n : ℕ) where
  pub Marks-here :
      page + n ≤ 32
      → word' < 2 ^ 32
      → AreWords words
      → ((k : ℕ) → page ≤ k → k < page + n → bit word k ≡ 0)
      → ((k : ℕ) → page ≤ k → k < page + n → bit word' k ≡ 1)
      → ((k : ℕ) → k < 32 → (k < page) ⊎ (page + n ≤ k) → bit word' k ≡ bit word k)
      → Marks (word ∷ words) (word' ∷ words) page n
  Marks-here fits small rest free taken others = record {
    same_length = refl;
    are_words = (small, rest);
    in_range = omega arith;
    free = λ q p l. omega (arith, used-cons_low word q words (omega arith), free q p l);
    taken = λ q p l. omega (arith, used-cons_low word' q words (omega arith), taken q p l);
    others = λ q c. elim (dec_lt q 32) [
      | yes l ↦ used-cons_low word' q words l ∙ others q l c ∙ sym (used-cons_low word q words l)
      | no g ↦
          used-cons_high word' q words (omega arith)
          ∙ sym (used-cons_high word q words (omega arith))
    ];
  }

module _ (word page n : ℕ) (words words' : List ℕ) where
  pub Marks-there :
      word < 2 ^ 32 → Marks words words' page n → Marks (word ∷ words) (word ∷ words') (page + 32) n
  Marks-there small m = record {
    same_length = ap suc m.same_length;
    are_words = (small, m.are_words);
    in_range = let r = m.in_range in omega arith;
    free = λ q p l. omega (
      arith,
      used-cons_high word q words (omega arith),
      m.free (q - 32) (omega arith) (omega arith),
    );
    taken = λ q p l. omega (
      arith,
      used-cons_high word q words' (omega arith),
      m.taken (q - 32) (omega arith) (omega arith),
    );
    others = λ q c. elim (dec_lt q 32) [
      | yes l ↦ used-cons_low word q words' l ∙ sym (used-cons_low word q words l)
      | no g ↦
          used-cons_high word q words' (omega arith)
          ∙ m.others (q - 32) (omega arith)
          ∙ sym (used-cons_high word q words (omega arith))
    ];
  }

-- The physical address of a page of the pool.
unfoldable pub page_at : ℕ → ℕ → ℕ
page_at pool page = v2p (u32 (pool + page * 4096))

pub page_address-eq-page_at :
    (pool idx k : ℕ) → page_address pool idx k ≡ page_at pool (idx * 32 + k)
unfolding page_address page_at
page_address-eq-page_at pool idx k = ap v2p (omega arith)

abbrev pub IsFull : List ℕ → Type 0
IsFull words = (q : ℕ) → q < 32 * length words → used words q ≡ 1

pub IsFull-cons :
    (word : ℕ) (words : List ℕ)
    → ((k : ℕ) → k < 32 → bit word k ≡ 1)
    → IsFull words
    → IsFull (word ∷ words)
IsFull-cons word words h full q l = elim (dec_lt q 32) [
  | yes low ↦ used-cons_low word q words low ∙ h q low
  | no high ↦ used-cons_high word q words (omega arith) ∙ full (q - 32) (omega arith)
]

-- Setting one digit of a word.
pub bit-mark_self : (word k : ℕ) → bit (bit_or word (shl 1 k)) k ≡ 1
bit-mark_self word k =
    let one : shl 1 k ≡ 2 ^ k = omega arith in
    rw one (omega (arith, bit-bit_or word (2 ^ k) k, bit-pow_self k, bit-lt word k))

pub bit-mark_ne : (word k j : ℕ) → k ≢ j → bit (bit_or word (shl 1 k)) j ≡ bit word j
bit-mark_ne word k j ne =
    let one : shl 1 k ≡ 2 ^ k = omega arith in
    rw one (omega (arith, bit-bit_or word (2 ^ k) j, bit-pow_ne k j ne))
