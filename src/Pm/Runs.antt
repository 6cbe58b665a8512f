-- ===== src/Pm/Runs.antt =====
-- kernel/pm.c: the search of `pm_alloc_cont` for a run of clear bits within one entry.
use Prim.Native.Nat.{min}
use native.Mathlib.Nat.{pow-suc}
use leoman.Base.{ℕ, zero, suc, ◌+◌, ◌-◌, ◌*◌, ◌^◌, ◌≤◌, ◌<◌, bit_and}
use leoman.Base.{◌≡◌, refl, sym, ap, ◌∙◌, ◌⊎◌, inl, inr, Option, none, some, false}
use leoman.Base.{arith, ◌==◌, ==_iff, Bool-cases, shl, u32}
use leoman.Base.{dec_lt}
use leoman.Base.Bits.{bit, bit-lt, bit-zero, bit_ext, bit-bit_and}
use leoman.Base.Bits.Masks.{bit_and-lt, bit-run, bit-run_off, run-lt}
use leoman.Pm.{find_run}

-- The mask of `n` ones from digit `s` on.
abbrev pub run_mask : ℕ → ℕ → ℕ
run_mask n s = shl (2 ^ n - 1) s

abbrev pub IsClear : ℕ → ℕ → ℕ → Type 0
IsClear word s n = (k : ℕ) → s ≤ k → k < s + n → bit word k ≡ 0

mask-IsClear : (word n s : ℕ) → bit_and word (run_mask n s) ≡ 0 → IsClear word s n
mask-IsClear word n s e k p q = omega (
  arith,
  bit-bit_and word (run_mask n s) k,
  ap (λ (t : ℕ). bit t k) e,
  bit-zero k,
  bit-run n s k p q,
  bit-lt word k,
)

clear_mask : (word n s : ℕ) → word < 2 ^ 32 → IsClear word s n → bit_and word (run_mask n s) ≡ 0
clear_mask word n s small clear =
    bit_ext 32 (bit_and word (run_mask n s)) 0 (bit_and-lt 32 word _ small) (omega arith)
      λ k l. bit-bit_and word (run_mask n s) k ∙ (digit k ∙ sym (bit-zero k))
  where
    digit : (k : ℕ) → min (bit word k) (bit (run_mask n s) k) ≡ 0
    digit k = elim (dec_lt k s) [
      | yes below ↦ omega (arith, bit-run_off n s k (inl below))
      | no above ↦ elim (dec_lt k (s + n)) [
        | yes inside ↦ omega (arith, clear k (omega arith) inside)
        | no over ↦ omega (arith, bit-run_off n s k (inr (omega arith)))
      ]
    ]

-- The outcome of the search within one entry, from shift `s` on.
abbrev Runs : ℕ → ℕ → ℕ → Option (ℕ × ℕ) → Type 0
Runs n word s result =
    ((result ≡ none) × ((t : ℕ) → s ≤ t → t + n ≤ 32 → ¬ IsClear word t n))
    ⊎ ((t : ℕ) × (result ≡ some (run_mask n t, t)) × (t + n ≤ 32) × IsClear word t n)

no_run :
    (word n s : ℕ) → word < 2 ^ 32 → (bit_and word (run_mask n s) == 0) ≡ false → ¬ IsClear word s n
no_run word n s small taken clear = ground (arith, clear_mask word n s small clear)

Runs-suc :
    (n word s : ℕ) (result : Option (ℕ × ℕ))
    → ¬ IsClear word s n
    → Runs n word (suc s) result
    → Runs n word s result
Runs-suc n word s result not_here (inl (e, none_after)) = inl (
  e,
  λ t p q. elim (dec_lt s t) [
    | yes l ↦ none_after t l q
    | no g ↦ let same : t ≡ s = omega arith in rw same not_here
  ],
)
Runs-suc n word s result not_here (inr (t, e, fits, clear)) = inr (t, e, fits, clear)

-- The mask moves up by one digit, within the width as long as a round is left.
shift_mask : (n s : ℕ) → n + suc s ≤ 32 → u32 (shl (run_mask n s) 1) ≡ run_mask n (suc s)
shift_mask n s h =
    let e : run_mask n (suc s) ≡ shl (run_mask n s) 1 =
      omega (arith, ap (λ (t : ℕ). (2 ^ n - 1) * t) (pow-suc 2 s)) in
    omega (arith, run-lt n (suc s) h, e)

Runs-shifted :
    (rounds n word s : ℕ)
    → n + suc s ≤ 32
    → Runs n word (suc s) (find_run rounds (run_mask n (suc s)) (suc s) word)
    → Runs n word (suc s) (find_run rounds (u32 (shl (run_mask n s) 1)) (suc s) word)
Runs-shifted rounds n word s fits h = rw (shift_mask n s fits) h

pub find_run-Runs :
    (rounds n word s : ℕ)
    → word < 2 ^ 32
    → rounds + n + s ≡ 33
    → 1 ≤ n
    → Runs n word s (find_run rounds (run_mask n s) s word)
unfolding find_run
find_run-Runs (suc zero) n word s small e pos =
    elim (Bool-cases (bit_and word (run_mask n s) == 0)) [
      | inl clear ↦
          inr (s, rw (clear, find_run), omega arith, mask-IsClear word n s ((==_iff _ 0).0 clear))
      | inr taken ↦
          rw (taken, find_run)
            (Runs-suc n word s none (no_run word n s small taken)
              (inl (refl, λ t p q. absurd (omega arith))))
    ]
find_run-Runs zero n word s small e pos = inl (refl, λ t p q. absurd (omega arith))
find_run-Runs (suc (suc rounds)) n word s small e pos =
    elim (Bool-cases (bit_and word (run_mask n s) == 0)) [
      | inl clear ↦
          inr (s, rw (clear, find_run), omega arith, mask-IsClear word n s ((==_iff _ 0).0 clear))
      | inr taken ↦
          rw (taken, find_run)
            (Runs-suc n word s _ (no_run word n s small taken) (
              Runs-shifted (suc rounds) n word s (omega arith)
                (find_run-Runs (suc rounds) n word (suc s) small (omega arith) pos)))
    ]
