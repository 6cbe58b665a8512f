-- ===== src/Pm/Cont.antt =====
-- kernel/pm.c: what `pm_alloc_cont` gives out, a run of pages within one entry of the bitmap.
use leoman.Base.{ℕ, suc, ◌+◌, ◌-◌, ◌*◌, ◌/◌, ◌%◌, ◌^◌, ◌≤◌, ◌<◌, bit_or}
use leoman.Base.{◌≡◌, refl, sym, ap, ◌∙◌, ◌⊎◌, inl, inr, none, some, false}
use leoman.Base.{List, [], ◌∷◌, arith, length, ◌==◌, ==_iff, Bool-cases, shr, all_ones}
use leoman.Base.{dec_lt, done, ltb}
use leoman.Base.Bits.{bit, bit-lt, bit_or-lt, bit-bit_or, bit-all_ones}
use leoman.Base.Bits.Masks.{bit-run, bit-run_off, run-lt}
use leoman.Base.Bits.Fields.{ones-shr}
use leoman.Pm.{Pm, cont_words, pm_alloc_cont, Found, keep_word, page_address}
use leoman.Pm.Bitmap.{used, AreWords, Marks, Marks-here, Marks-there, page_at}
use leoman.Pm.Bitmap.{page_address-eq-page_at, used-cons_low, used-cons_high}
use leoman.Pm.Laws.{IsValid}
use leoman.Pm.Runs.{run_mask, IsClear, find_run-Runs}

-- What the search through the entries finds from entry `idx` on: `n` free pages in a row within
-- one entry, now marked, or none of the entries has them.
abbrev FindsRun : ℕ → ℕ → ℕ → List ℕ → Found → Type 0
FindsRun n pool idx words found =
    ((found ≡ none)
      × ((page : ℕ)
          → page < 32 * length words
          → page % 32 + n ≤ 32
          → ¬ ((q : ℕ) → page ≤ q → q < page + n → used words q ≡ 0)))
    ⊎ ((page : ℕ) × (words' : List ℕ) × (found ≡ some (page_at pool (idx * 32 + page), words'))
        × Marks words words' page n
        × (page % 32 + n ≤ 32))

FindsRun-keep :
    (n pool idx word : ℕ) (words : List ℕ) (found : Found)
    → word < 2 ^ 32
    → ((t : ℕ) → t + n ≤ 32 → ¬ IsClear word t n)
    → FindsRun n pool (suc idx) words found
    → FindsRun n pool idx (word ∷ words) (keep_word word found)
FindsRun-keep n pool idx word words found small busy (inl (e, rest)) = inl (
  ap (keep_word word) e,
  λ page l fits clear. elim (dec_lt page 32) [
    | yes low ↦
        busy page (omega arith)
          λ k p q. sym (used-cons_low word k words (omega arith)) ∙ clear k p q
    | no high ↦ rest (page - 32) (omega arith) (omega arith) λ q a b.
        ap (used words) (omega arith)
        ∙ (sym (used-cons_high word (q + 32) words (omega arith))
            ∙ clear (q + 32) (omega arith) (omega arith))
  ],
)
FindsRun-keep n pool idx word words found small busy (inr (page, words', e, marks, fits)) = inr (
  page + 32,
  word ∷ words',
  ap (keep_word word) e ∙ ap (λ (p : ℕ). some (page_at pool p, word ∷ words')) (omega arith),
  Marks-there word page n words words' small marks,
  omega arith,
)

FindsRun-mark :
    (n pool idx word t : ℕ) (words : List ℕ)
    → word < 2 ^ 32
    → AreWords words
    → t + n ≤ 32
    → 1 ≤ n
    → IsClear word t n
    → FindsRun n pool idx
        (word ∷ words)
        (some (page_address pool idx t, bit_or word (run_mask n t) ∷ words))
FindsRun-mark n pool idx word t words small rest fits pos clear =
    let word' = bit_or word (run_mask n t) in
    inr (
      t,
      word' ∷ words,
      ap (λ (p : ℕ). some (p, word' ∷ words)) (page_address-eq-page_at pool idx t),
      Marks-here word word' words t n fits (bit_or-lt 32 word _ small (run-lt n t (omega arith)))
          rest clear
          (λ k p q.
            omega (arith, bit-bit_or word (run_mask n t) k, bit-run n t k p q, bit-lt word k))
          (λ k l c. omega (arith, bit-bit_or word (run_mask n t) k, bit-run_off n t k c)),
      omega arith,
    )

first_mask : (n : ℕ) → 1 ≤ n → n ≤ 32 → shr all_ones (32 - n) ≡ run_mask n 0
first_mask n p l =
    let e : n + (32 - n) ≡ 32 = omega arith in
    let f : 2 ^ (n + (32 - n)) ≡ 2 ^ 32 = ap (λ (t : ℕ). 2 ^ t) e in
    omega (arith, ap (λ (t : ℕ). (t - 1) / 2 ^ (32 - n)) f, ones-shr n (32 - n))

cont_words-FindsRun :
    (n pool idx : ℕ) (words : List ℕ)
    → 1 ≤ n
    → n ≤ 32
    → AreWords words
    → FindsRun n pool idx words (cont_words pool n idx words)
unfolding cont_words
cont_words-FindsRun n pool idx [] pos l h = inl (refl, λ page p. absurd (omega arith))
cont_words-FindsRun n pool idx (word ∷ words) pos l h =
    let rest = cont_words-FindsRun n pool (suc idx) words pos l h.1 in
    elim (Bool-cases (word == all_ones)) [
      | inl full ↦ rw full (
          FindsRun-keep n pool idx word words _ h.0
            (λ t f clear.
              let e = (==_iff word all_ones).0 full in
              omega (
                arith,
                clear t (omega arith) (omega arith),
                ap (λ (w : ℕ). bit w t) e,
                bit-all_ones 32 t (omega arith),
              ))
            rest)
      | inr room ↦ elim (find_run-Runs (suc (32 - n)) n word 0 h.0 (omega arith) pos) [
        | inl (e, busy) ↦
            rw (room, first_mask n pos l, e)
              (FindsRun-keep n pool idx word words _ h.0 (λ t f. busy t (omega arith) f) rest)
        | inr (t, e, fits, clear) ↦
            rw (room, first_mask n pos l, e)
              (FindsRun-mark n pool idx word t words h.0 h.1 fits pos clear)
      ]
    ]

-- pm_alloc_cont for at least one page fails only when it is asked for more than 32 pages or no
-- run of that many free pages lies within one entry, and then changes nothing; otherwise it
-- returns the physical address of such a run and marks exactly its pages.
pub pm_alloc_cont_lem :
    (n : ℕ) (pm : Pm)
    → IsValid pm
    → 1 ≤ n
    → ((pm_alloc_cont n pm ≡ done (none, pm))
        × ((page : ℕ)
            → n ≤ 32
            → page < 2 ^ 20
            → page % 32 + n ≤ 32
            → ¬ ((q : ℕ) → page ≤ q → q < page + n → used pm.bitmap q ≡ 0)))
      ⊎ ((page : ℕ) × (pm' : Pm) × (pm_alloc_cont n pm
            ≡ done (some (page_at pm.page_pool page), pm'))
          × Marks pm.bitmap pm'.bitmap page n
          × (page % 32 + n ≤ 32)
          × (pm'.page_pool ≡ pm.page_pool))
unfolding pm_alloc_cont
pm_alloc_cont_lem n pm v pos = elim (dec_lt 32 n) [
  | yes over ↦ inl (ground arith, λ page l. absurd (omega arith))
  | no within ↦
      let words = pm.bitmap in
      let big : ltb 32 n ≡ false = ground arith in
      let some_pages : (n == 0) ≡ false = ground arith in
      let size = v.size in
      elim (cont_words-FindsRun n pm.page_pool 0 words pos (omega arith) v.are_words) [
        | inl (e, busy) ↦ inl (rw (big, some_pages, e), λ page l q. busy page (omega arith))
        | inr (page, words', e, marks, fits) ↦ inr (
          page,
          record pm { bitmap = words' },
          rw (big, some_pages, e)
              (ap (λ (p : ℕ). done (some (page_at pm.page_pool p), record pm { bitmap = words' }))
                (omega arith)),
          marks,
          fits,
          refl,
        )
      ]
]
