-- ===== src/Print/Digits.antt =====
-- kernel/print.c: the printed digits read back as the number.
use leoman.Base.{ℕ, zero, suc, ◌+◌, ◌-◌, ◌*◌, ◌/◌, ◌%◌, ◌^◌, ◌<◌, bit_and, List, [], ◌∷◌, ◌++◌}
use leoman.Base.{◌≡◌, refl, sym, ap, ◌∙◌, arith, Bool, true, false, ◌&&◌, Bool-cases, inl, inr}
use leoman.Base.{leb, ltb, ◌==◌, if◌then◌else◌, shr, get_or, done, length}
use leoman.Base.{Option, none, some}
use leoman.Base.Bits.Masks.{bit_and-shl, bit_and-low_mask}
use native.Mathlib.Nat.{pow-suc, div-div-eq-div-mul, one-le-pow, mul-div_cancel}
use leoman.Print.{digits, putch, put_digit, split_digits, put_digits, putd, put_hex, puthd}

-- The value of a digit's character, 0 to 9 or a to f; no other character has one.
abbrev pub digit_value : ℕ → Option ℕ
digit_value c =
    if leb b'0' c && leb c b'9'
    then some (c - b'0')
    else if leb b'a' c && leb c b'f'
    then some (c - b'a' + 10)
    else none

-- The digit with the value `d`, if it is one of the base, after those that named `acc`.
abbrev pub read_digit : ℕ → ℕ → Option ℕ → Option ℕ
read_digit base acc none = none
read_digit base acc (some d) = if ltb d base then some (acc * base + d) else none

-- The number that a string of digits of the base names, after the digits read before it named
-- `acc`; none if a character is not such a digit.
abbrev pub read_number : ℕ → Option ℕ → List ℕ → Option ℕ
read_number base none cs = none
read_number base (some acc) [] = some acc
read_number base (some acc) (c ∷ cs) = read_number base (read_digit base acc (digit_value c)) cs

all_below : ℕ → (ℕ → Bool) → Bool
all_below zero p = true
all_below (suc n) p = p n && all_below n p

below : (n : ℕ) (p : ℕ → Bool) (d : ℕ) → all_below n p ≡ true → d < n → p d ≡ true
unfolding all_below
below zero p d e l = absurd (omega arith)
below (suc n) p d e l = elim (Bool-cases (p n)) [
  | inl hit ↦ elim (Bool-cases (d == n)) [
    | inl same ↦ let s : d ≡ n = ground arith in ap p s ∙ hit
    | inr other ↦ below n p d (ground (arith, e, hit)) (ground arith)
  ]
  | inr miss ↦ absurd (ground (arith, e, miss))
]

abbrev holds : Option ℕ → ℕ → Bool
holds none d = false
holds (some v) d = v == d

holds-some : (o : Option ℕ) (d : ℕ) → holds o d ≡ true → o ≡ some d
holds-some none d e = cc
holds-some (some v) d e = let same : v ≡ d = ground (arith, e) in ap some same

digit_value-digits : (d : ℕ) → d < 16 → digit_value (get_or digits d 0) ≡ some d
unfolding all_below
digit_value-digits d l =
    holds-some _ d (below 16 (λ i. holds (digit_value (get_or digits i 0)) i) d refl l)

-- A digit of the base is read.
read_digit-digits :
    (base acc d : ℕ)
    → d < 16
    → d < base
    → read_digit base acc (digit_value (get_or digits d 0)) ≡ some (acc * base + d)
read_digit-digits base acc d l small =
    let inside : ltb d base ≡ true = ground arith in
    ap (read_digit base acc) (digit_value-digits d l) ∙ rw inside refl

read_number-nil : (base : ℕ) (o : Option ℕ) → read_number base o [] ≡ o
read_number-nil base none = refl
read_number-nil base (some acc) = refl

read_number-append :
    (base n : ℕ) (o : Option ℕ) (cs : List ℕ) (c : ℕ)
    → read_number base o cs ≡ some n
    → read_number base o (cs ++ c ∷ []) ≡ read_digit base n (digit_value c)
read_number-append base n none cs c e = cc
read_number-append base n (some acc) [] c e =
    ap (λ (o : Option ℕ). read_number base o (c ∷ [])) e
    ∙ read_number-nil base (read_digit base n (digit_value c))
read_number-append base n (some acc) (x ∷ cs) c e =
    read_number-append base n (read_digit base acc (digit_value x)) cs c e

-- The characters that the last loop of `putd` adds.
abbrev chars : List ℕ → List ℕ
chars [] = []
chars (d ∷ ds) = chars ds ++ get_or digits (d % 16) 0 ∷ []

pub append_assoc : (xs ys zs : List ℕ) → (xs ++ ys) ++ zs ≡ xs ++ (ys ++ zs)
append_assoc [] ys zs = refl
append_assoc (x ∷ xs) ys zs = ap (λ (l : List ℕ). x ∷ l) (append_assoc xs ys zs)

put_digits-chars : (buf ds : List ℕ) → put_digits buf ds ≡ buf ++ chars ds
unfolding put_digits put_digit putch
put_digits-chars [] [] = refl
put_digits-chars (b ∷ buf) [] = ap (λ (l : List ℕ). b ∷ l) (put_digits-chars buf [])
put_digits-chars buf (d ∷ ds) =
    ap (λ (l : List ℕ). l ++ get_or digits (d % 16) 0 ∷ []) (put_digits-chars buf ds)
    ∙ append_assoc buf (chars ds) (get_or digits (d % 16) 0 ∷ [])

pub append_nil : (xs : List ℕ) → xs ≡ xs ++ []
append_nil [] = refl
append_nil (x ∷ xs) = ap (λ (l : List ℕ). x ∷ l) (append_nil xs)

-- Enough slots hold the digits of a number, and their characters name it.
split_digits_lem :
    (slots v : ℕ)
    → v < 10 ^ slots
    → (ds : List ℕ) × (split_digits slots v ≡ done ds)
      × (read_number 10 (some 0) (chars ds) ≡ some v)
unfolding split_digits
split_digits_lem zero v l = let e : v ≡ 0 = omega arith in ([], rw e refl, ap some (omega arith))
split_digits_lem (suc slots) v l = elim (Bool-cases (v == 0)) [
  | inl none_left ↦ ([], rw (none_left, split_digits), ap some (ground arith))
  | inr more ↦
      let (ds, e, reads) = split_digits_lem slots (v / 10) (omega (arith, pow-suc 10 slots)) in
      (
        v % 10 ∷ ds,
        rw (more, e, split_digits),
        read_number-append 10 (v / 10) (some 0) (chars ds) (get_or digits (v % 10 % 16) 0) reads
            ∙ (read_digit-digits 10 (v / 10) (v % 10 % 16) (omega arith) (omega arith)
                ∙ ap some (omega arith)),
      )
]

-- putd appends to the buffer characters from 0 to 9 that name a positive int in decimal, and, for
-- a negative int other than the least, a minus sign and characters that name its absolute value.
pub putd_lem :
    (buf : List ℕ) (v : ℕ)
    → 0 < v
    → v < 2 ^ 31
    → (s t : List ℕ) × (putd buf v ≡ done (buf ++ s))
      × (read_number 10 (some 0) s ≡ some v)
      × (putd buf (2 ^ 32 - v) ≡ done (buf ++ b'-' ∷ t))
      × (read_number 10 (some 0) t ≡ some v)
unfolding putd putch
putd_lem buf v pos l =
    let (ds, e, reads) = split_digits_lem 10 v (omega arith) in
    let a : (v == 0) ≡ false = ground arith in
    let b : (v == 2 ^ 31) ≡ false = ground arith in
    let c : ltb v (2 ^ 31) ≡ true = ground arith in
    let a' : (2 ^ 32 - v == 0) ≡ false = ground arith in
    let b' : (2 ^ 32 - v == 2 ^ 31) ≡ false = ground arith in
    let c' : ltb (2 ^ 32 - v) (2 ^ 31) ≡ false = ground arith in
    let back : 2 ^ 32 - (2 ^ 32 - v) ≡ v = omega arith in
    (
      chars ds,
      chars ds,
      rw (a, b, c, e) (ap done (put_digits-chars buf ds)),
      reads,
      rw (a', b', c', back, e)
          (ap done
            (put_digits-chars (buf ++ b'-' ∷ []) ds ∙ append_assoc buf (b'-' ∷ []) (chars ds))),
      reads,
    )

-- The mask of the loop of `puthd` with `i` digits left.
abbrev hex_mask : ℕ → ℕ
hex_mask zero = 0
hex_mask (suc i) = 15 * 2 ^ (i * 4)

pow-hex : (i : ℕ) → 2 ^ (suc i * 4) ≡ 2 ^ (i * 4) * 16
pow-hex i =
    let e : suc i * 4 ≡ suc (suc (suc (suc (i * 4)))) = omega arith in
    omega (
      arith,
      ap (λ (t : ℕ). 2 ^ t) e,
      pow-suc 2 (i * 4),
      pow-suc 2 (suc (i * 4)),
      pow-suc 2 (suc (suc (i * 4))),
      pow-suc 2 (suc (suc (suc (i * 4)))),
    )

hex_mask-suc : (i : ℕ) → shr (hex_mask (suc i)) 4 ≡ hex_mask i
hex_mask-suc zero = refl
hex_mask-suc (suc i) = omega (arith, pow-hex i)

digit_at : (v i : ℕ) → shr (bit_and v (15 * 2 ^ (i * 4))) (i * 4) ≡ v / 2 ^ (i * 4) % 16
digit_at v i =
    ap (λ (t : ℕ). t / 2 ^ (i * 4)) (bit_and-shl v 15 (i * 4))
    ∙ (mul-div_cancel _ (one-le-pow (i * 4) 2 (omega arith)) ∙ bit_and-low_mask 4 (v / 2 ^ (i * 4)))

above-suc : (v i : ℕ) → v / 2 ^ (suc i * 4) ≡ v / 2 ^ (i * 4) / 16
above-suc v i = ap (λ (t : ℕ). v / t) (pow-hex i) ∙ sym (div-div-eq-div-mul v (2 ^ (i * 4)) 16)

-- From the digits above the last `i`, the loop goes on to the whole number.
put_hex_lem :
    (i : ℕ) (buf : List ℕ) (v : ℕ)
    → (s : List ℕ) × (put_hex i (hex_mask i) buf v ≡ buf ++ s)
      × (length s ≡ i)
      × (read_number 16 (some (v / 2 ^ (i * 4))) s ≡ some v)
unfolding put_hex put_digit putch
put_hex_lem zero buf v = ([], append_nil buf, refl, ap some (omega arith))
put_hex_lem (suc i) buf v =
    let d = shr (bit_and v (15 * 2 ^ (i * 4))) (i * 4) in
    let c = get_or digits (d % 16) 0 in
    let (s, e, size, reads) = put_hex_lem i (buf ++ c ∷ []) v in
    let more : (15 * 2 ^ (i * 4) == 0) ≡ false =
      ground (arith, one-le-pow (i * 4) 2 (omega arith)) in
    let value = read_digit-digits 16 (v / 2 ^ (suc i * 4)) (d % 16) (omega arith) (omega arith) in
    (
      c ∷ s,
      rw (more, hex_mask-suc i, e) (append_assoc buf (c ∷ []) s),
      ap suc size,
      ap (λ (o : Option ℕ). read_number 16 o s)
            (value ∙ ap some (omega (arith, digit_at v i, above-suc v i)))
          ∙ reads,
    )

-- puthd appends eight hexadecimal digits, which read back as the 32-bit number.
pub puthd_lem :
    (buf : List ℕ) (v : ℕ)
    → v < 2 ^ 32
    → (s : List ℕ) × (puthd buf v ≡ buf ++ s)
      × (length s ≡ 8)
      × (read_number 16 (some 0) s ≡ some v)
unfolding puthd
puthd_lem buf v l =
    let (s, e, size, reads) = put_hex_lem 8 buf v in
    (s, e, size, ap (λ (t : ℕ). read_number 16 (some t) s) (omega arith) ∙ reads)
