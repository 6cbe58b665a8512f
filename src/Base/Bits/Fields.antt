-- ===== src/Base/Bits/Fields.antt =====
-- Fields: `bit_or` of parts that stand at different digits of a word.
use Prim.Native.Nat.{ℕ, zero, suc, ◌+◌, ◌-◌, ◌*◌, ◌/◌, ◌%◌, ◌^◌, ◌≤◌, ◌<◌}
use Prim.Native.Nat.{bit_or, bit_or-bitwise}
use mathlib.Core.Path.{◌≡◌, refl, ap, ap₂, ◌∙◌}
use native.Mathlib.Nat.{pow-suc, one-le-pow}
use leoman.Base.Word.{shl}
use native.Mathlib.Omega.{arith}
use leoman.Base.Bits.{bit-all_ones, bit-bit_or, bit-lt, bit_ext, bit_or-halves, bit_or-lt}
use leoman.Base.Bits.Masks.{half-shl, half-shr}

-- A word of ones that is shifted right.
pub ones-shr : (n d : ℕ) → (2 ^ (n + d) - 1) / 2 ^ d ≡ 2 ^ n - 1
ones-shr n zero = let e : n + 0 ≡ n = omega arith in rw e (omega arith)
ones-shr n (suc d) =
    let e : n + suc d ≡ suc (n + d) = omega arith in
    let half : (2 ^ suc (n + d) - 1) / 2 ≡ 2 ^ (n + d) - 1 = omega (arith, pow-suc 2 (n + d)) in
    rw e (half-shr (2 ^ suc (n + d) - 1) d ∙ (ap (λ (t : ℕ). t / 2 ^ d) half ∙ ones-shr n d))

-- Disjoint fields: a low part of `k` digits and a part that is shifted above it.
pub bit_or-shl : (a b k : ℕ) → a < 2 ^ k → bit_or a (shl b k) ≡ a + b * 2 ^ k
bit_or-shl a b zero h =
    let e : a ≡ 0 = omega arith in rw e (omega (arith, bit_or-bitwise 0 (shl b 0)))
bit_or-shl a b (suc k) h = omega (
  arith,
  bit_or-halves a (shl b (suc k)),
  half-shl b k,
  ap (λ (t : ℕ). bit_or (a / 2) t) (half-shl b k).0,
  bit_or-shl (a / 2) b k (omega (arith, pow-suc 2 k)),
  pow-suc 2 k,
)

split-half :
    (a x k : ℕ) → ((a * 2 ^ suc k + x) / 2 ≡ a * 2 ^ k + x / 2) × ((a * 2 ^ suc k + x) % 2 ≡ x % 2)
split-half a x k =
    let e : a * 2 ^ suc k ≡ 2 * (a * 2 ^ k) = omega (arith, ap (λ (t : ℕ). a * t) (pow-suc 2 k)) in
    omega (arith, e)

-- `|` works on the part below a digit and on the part from it on apart.
pub bit_or-parts :
    (k a b x y : ℕ)
    → x < 2 ^ k
    → y < 2 ^ k
    → bit_or (a * 2 ^ k + x) (b * 2 ^ k + y) ≡ bit_or a b * 2 ^ k + bit_or x y
bit_or-parts zero a b x y p q =
    let ex : x ≡ 0 = omega arith in
    let ey : y ≡ 0 = omega arith in
    let ea : a * 1 + 0 ≡ a = omega arith in
    let eb : b * 1 + 0 ≡ b = omega arith in rw (ex, ey, ea, eb) (omega (arith, bit_or-bitwise 0 0))
bit_or-parts (suc k) a b x y p q = omega (
  arith,
  bit_or-halves (a * 2 ^ suc k + x) (b * 2 ^ suc k + y),
  split-half a x k,
  split-half b y k,
  ap₂ bit_or (split-half a x k).0 (split-half b y k).0,
  bit_or-parts k a b (x / 2) (y / 2) (omega (arith, pow-suc 2 k)) (omega (arith, pow-suc 2 k)),
  bit_or-halves x y,
  half-shl (bit_or a b) k,
)

pub zero-bit_or : (a : ℕ) → bit_or 0 a ≡ a
zero-bit_or a = bit_or-bitwise 0 a

pub bit_or-ones : (n a : ℕ) → a < 2 ^ n → bit_or a (2 ^ n - 1) ≡ 2 ^ n - 1
bit_or-ones n a h =
    let ones : 2 ^ n - 1 < 2 ^ n = omega (arith, one-le-pow n 2) in
    bit_ext n (bit_or a (2 ^ n - 1)) (2 ^ n - 1) (bit_or-lt n a _ h ones) ones
      λ k l. omega (arith, bit-bit_or a (2 ^ n - 1) k, bit-all_ones n k l, bit-lt a k)

bit_or-zero_fuel : (f a : ℕ) → a ≤ f → bit_or a 0 ≡ a
bit_or-zero_fuel f zero h = refl
bit_or-zero_fuel zero (suc a) h = absurd (omega arith)
bit_or-zero_fuel (suc f) (suc a) h =
    omega (arith, bit_or-halves (suc a) 0, bit_or-zero_fuel f (suc a / 2) (omega arith))

pub bit_or-zero : (a : ℕ) → bit_or a 0 ≡ a
bit_or-zero a = bit_or-zero_fuel a a (omega arith)

-- Disjoint fields, the high one written first.
pub shl-bit_or : (b a k : ℕ) → a < 2 ^ k → bit_or (shl b k) a ≡ b * 2 ^ k + a
shl-bit_or b a k h = omega (
  arith,
  bit_or-parts k b 0 0 a (one-le-pow k 2 (omega arith)) h,
  zero-bit_or a,
  bit_or-zero b,
  ap₂ (λ (x y : ℕ). bit_or x y) (plus_zero (b * 2 ^ k)) (zero_times_plus (2 ^ k) a),
  ap (λ (t : ℕ). t * 2 ^ k) (bit_or-zero b),
)
  where
    plus_zero : (t : ℕ) → t + 0 ≡ t
    plus_zero t = omega arith

    zero_times_plus : (t a : ℕ) → 0 * t + a ≡ a
    zero_times_plus t a = omega arith
