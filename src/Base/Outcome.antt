-- ===== src/Base/Outcome.antt =====
-- The outcome of C code that may do something undefined: dereference NULL, index out of an
-- array, shift by the width, or stop the machine by `halt` with interrupts off.
use mathlib.Core.Path.{◌≡◌, refl, ap}
use mathlib.Core.Option.{Option, none, some}
use mathlib.Core.Logic.{◌⊎◌, inl, inr}

pub data Run {ℓ} (A : Type ℓ) : Type ℓ where
  done : A → Run A
  fault : Run A
  halted : Run A

infixl 5 ◌>>=◌
abbrev pub ◌>>=◌ {ℓ κ} : {A : Type ℓ} {B : Type κ} → Run A → (A → Run B) → Run B
done a >>= f = f a
fault >>= f = fault
halted >>= f = halted

-- Inversion of a sequence that returned.
pub >>=-eq-done {ℓ κ} :
    {A : Type ℓ} {B : Type κ} (m : Run A) (f : A → Run B) {b : B}
    → (m >>= f) ≡ done b
    → (a : A) × (m ≡ done a) × (f a ≡ done b)
>>=-eq-done (done a) f h = (a, refl, h)
>>=-eq-done fault f h = cc
>>=-eq-done halted f h = cc

pub done-inj {ℓ} : {A : Type ℓ} {a b : A} → done a ≡ done b → a ≡ b
done-inj e = cc

-- Inversion of a use of a pointer that is not NULL.
pub Option-eq-done {ℓ κ} :
    {A : Type ℓ} {B : Type κ} (o : Option A) (f : A → Run B) {b : B}
    → elim o [ none ↦ fault | some a ↦ f a ] ≡ done b
    → (a : A) × (o ≡ some a) × (f a ≡ done b)
Option-eq-done none f h = cc
Option-eq-done (some a) f h = (a, refl, h)

-- Inversion of a test for NULL.
pub Option-split {ℓ κ} :
    {A : Type ℓ} {B : Type κ} (o : Option A) (d : Run B) (f : A → Run B) {b : B}
    → elim o [ none ↦ d | some a ↦ f a ] ≡ done b
    → ((o ≡ none) × (d ≡ done b)) ⊎ ((a : A) × (o ≡ some a) × (f a ≡ done b))
Option-split none d f h = inl (refl, h)
Option-split (some a) d f h = inr (a, refl, h)

pub Option-at_none {ℓ κ} :
    {A : Type ℓ} {B : Type κ} (o : Option A) (d : B) (f : A → B)
    → o ≡ none
    → elim o [ none ↦ d | some a ↦ f a ] ≡ d
Option-at_none none d f h = refl
Option-at_none (some a) d f h = cc

pub Option-at_some {ℓ κ} :
    {A : Type ℓ} {B : Type κ} (o : Option A) (d : B) (f : A → B) (a : A)
    → o ≡ some a
    → elim o [ none ↦ d | some x ↦ f x ] ≡ f a
Option-at_some none d f a h = cc
Option-at_some (some x) d f a h = ap f (cc)

pub >>=-at_done {ℓ κ} :
    {A : Type ℓ} {B : Type κ} (m : Run A) (f : A → Run B) {a : A} → m ≡ done a → (m >>= f) ≡ f a
>>=-at_done m f e = ap (λ r. r >>= f) e
