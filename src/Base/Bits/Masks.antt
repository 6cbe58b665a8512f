-- ===== src/Base/Bits/Masks.antt =====
-- Masks: `bit_and` with powers of two, with low digits and with runs of ones, and shifts.
use Prim.Native.Nat.{ℕ, zero, suc, ◌+◌, ◌-◌, ◌*◌, ◌/◌, ◌%◌, ◌^◌, ◌≤◌, ◌<◌}
use Prim.Native.Nat.{bit_and, bit_and-bitwise}
use mathlib.Core.Path.{◌≡◌, refl, ap, ◌∙◌}
use mathlib.Core.Logic.{◌⊎◌, inl, inr}
use native.Mathlib.Nat.{
  pow-suc, one-le-pow, div-div-eq-div-mul, mul_comm, div-add-mod, le_trans, pow-le-pow_right,
}
use leoman.Base.Word.{shl}
use native.Mathlib.Omega.{arith}
use leoman.Base.Bits.{bit, bit-all_ones, bit-zero, bit_and-halves}

bit_and-zero_fuel : (f a : ℕ) → a ≤ f → bit_and a 0 ≡ 0
bit_and-zero_fuel f zero h = refl
bit_and-zero_fuel zero (suc a) h = absurd (omega arith)
bit_and-zero_fuel (suc f) (suc a) h =
    omega (arith, bit_and-halves (suc a) 0, bit_and-zero_fuel f (suc a / 2) (omega arith))

pub bit_and-zero : (a : ℕ) → bit_and a 0 ≡ 0
bit_and-zero a = bit_and-zero_fuel a a (omega arith)

pub half-shl : (c k : ℕ) → (c * 2 ^ suc k / 2 ≡ c * 2 ^ k) × (c * 2 ^ suc k % 2 ≡ 0)
half-shl c k =
    let e : c * 2 ^ suc k ≡ 2 * (c * 2 ^ k) = omega (arith, ap (λ (t : ℕ). c * t) (pow-suc 2 k)) in
    omega (arith, e)

pub half-shr : (a k : ℕ) → a / 2 ^ suc k ≡ a / 2 / 2 ^ k
half-shr a k = rw (div-div-eq-div-mul a 2 (2 ^ k), mul_comm 2 (2 ^ k), ← pow-suc 2 k) refl

-- A mask that is shifted left sees only the digits above the shift.
pub bit_and-shl : (a c k : ℕ) → bit_and a (c * 2 ^ k) ≡ bit_and (a / 2 ^ k) c * 2 ^ k
bit_and-shl a c zero = ground arith
bit_and-shl a c (suc k) = omega (
  arith,
  bit_and-halves a (c * 2 ^ suc k),
  half-shl c k,
  ap (λ (t : ℕ). bit_and (a / 2) t) (half-shl c k).0,
  bit_and-shl (a / 2) c k,
  ap (λ (t : ℕ). bit_and t c * 2 ^ suc k) (half-shr a k),
  half-shl (bit_and (a / 2 / 2 ^ k) c) k,
)

-- A mask of `k` low digits is the remainder.
pub bit_and-low_mask : (k a : ℕ) → bit_and a (2 ^ k - 1) ≡ a % 2 ^ k
bit_and-low_mask zero a = omega (arith, bit_and-zero a)
bit_and-low_mask (suc k) a =
    let p = pow-suc 2 k in
    let low : (2 ^ suc k - 1) / 2 ≡ 2 ^ k - 1 = omega arith in
    let q = a / 2 / 2 ^ k in
    omega (
      arith,
      one-le-pow k 2,
      bit_and-halves a (2 ^ suc k - 1),
      ap (λ (t : ℕ). bit_and (a / 2) t) low,
      bit_and-low_mask k (a / 2),
      div-add-mod a (2 ^ suc k),
      div-add-mod (a / 2) (2 ^ k),
      ap (λ (t : ℕ). 2 ^ suc k * t) (half-shr a k),
      ap (λ (t : ℕ). t * q) p,
    )

pub bit-shr : (a k : ℕ) → a / 2 ^ k % 2 ≡ bit a k
bit-shr a zero = omega arith
bit-shr a (suc k) = rw half-shr (bit-shr (a / 2) k)

pub bit_and-pow : (a k : ℕ) → bit_and a (2 ^ k) ≡ bit a k * 2 ^ k
bit_and-pow a k =
    let one : 1 * 2 ^ k ≡ 2 ^ k = omega arith in
    omega (
      arith,
      bit_and-shl a 1 k,
      ap (λ (t : ℕ). bit_and a t) one,
      ap (λ (t : ℕ). t * 2 ^ k) (bit_and-low_mask 1 (a / 2 ^ k) ∙ bit-shr a k),
    )

pub pow-lt : (k n : ℕ) → k < n → shl 1 k < 2 ^ n
pow-lt k zero h = absurd (omega arith)
pow-lt zero (suc n) h = omega (arith, one-le-pow n 2, pow-suc 2 n)
pow-lt (suc k) (suc n) h = omega (arith, pow-lt k n (omega arith), pow-suc 2 n, pow-suc 2 k)

pub bit_and-lt : (n a b : ℕ) → a < 2 ^ n → bit_and a b < 2 ^ n
bit_and-lt zero a b p = let x : a ≡ 0 = omega arith in rw x (omega (arith, bit_and-bitwise 0 b))
bit_and-lt (suc n) a b p = omega (
  arith,
  bit_and-halves a b,
  pow-suc 2 n,
  bit_and-lt n (a / 2) (b / 2) (omega (arith, pow-suc 2 n)),
)

pub bit_above : (n a k : ℕ) → a < 2 ^ n → n ≤ k → bit a k ≡ 0
bit_above zero a k p q = let x : a ≡ 0 = omega arith in rw x (bit-zero k)
bit_above (suc n) a zero p q = absurd (omega arith)
bit_above (suc n) a (suc k) p q = bit_above n (a / 2) k (omega (arith, pow-suc 2 n)) (omega arith)

pub bit-shl_low : (x s k : ℕ) → k < s → bit (shl x s) k ≡ 0
bit-shl_low x zero k h = absurd (omega arith)
bit-shl_low x (suc s) zero h = (half-shl x s).1
bit-shl_low x (suc s) (suc k) h = rw (half-shl x s).0 (bit-shl_low x s k (omega arith))

pub bit-shl_high : (x s k : ℕ) → bit (shl x s) (s + k) ≡ bit x k
bit-shl_high x zero k =
    let e : shl x 0 ≡ x = omega arith in let f : 0 + k ≡ k = omega arith in rw (e, f)
bit-shl_high x (suc s) k =
    let f : suc s + k ≡ suc (s + k) = omega arith in
    rw f (ap (λ (t : ℕ). bit t (s + k)) (half-shl x s).0 ∙ bit-shl_high x s k)

-- A run of `n` ones from digit `s` on.
pub bit-run : (n s k : ℕ) → s ≤ k → k < s + n → bit (shl (2 ^ n - 1) s) k ≡ 1
bit-run n s k p q =
    let e : k ≡ s + (k - s) = omega arith in
    rw e (bit-shl_high (2 ^ n - 1) s (k - s) ∙ bit-all_ones n (k - s) (omega arith))

pub bit-run_off : (n s k : ℕ) → (k < s) ⊎ (s + n ≤ k) → bit (shl (2 ^ n - 1) s) k ≡ 0
bit-run_off n s k (inl p) = bit-shl_low (2 ^ n - 1) s k p
bit-run_off n s k (inr p) =
    let e : k ≡ s + (k - s) = omega arith in
    rw e (
      bit-shl_high (2 ^ n - 1) s (k - s)
      ∙ bit_above n (2 ^ n - 1) (k - s) (omega (arith, one-le-pow n 2)) (omega arith))

run-lt-pow : (n s : ℕ) → shl (2 ^ n - 1) s < 2 ^ (n + s)
run-lt-pow n zero = let e : n + 0 ≡ n = omega arith in rw e (omega (arith, one-le-pow n 2))
run-lt-pow n (suc s) =
    let e : n + suc s ≡ suc (n + s) = omega arith in
    rw e (omega (arith, pow-suc 2 (n + s), half-shl (2 ^ n - 1) s, run-lt-pow n s))

pub run-lt : (n s : ℕ) → n + s ≤ 32 → shl (2 ^ n - 1) s < 2 ^ 32
run-lt n s h = le_trans (run-lt-pow n s) (pow-le-pow_right (omega arith) h)
