-- ===== src/Stailq.antt =====
-- The tail queues of <queue.h> as the kernel uses them: the operations with what the header's
-- documentation says of them, and lists as an implementation.
use leoman.Base.{◌≡◌, refl, Bool, true, false, Option, none, some, List, [], ◌∷◌, ◌++◌}

abbrev pub is_nil {ℓ} : {A : Type ℓ} → List A → Bool
is_nil [] = true
is_nil (x ∷ xs) = false

abbrev pub head? {ℓ} : {A : Type ℓ} → List A → Option A
head? [] = none
head? (x ∷ xs) = some x

abbrev pub tail {ℓ} : {A : Type ℓ} → List A → List A
tail [] = []
tail (x ∷ xs) = xs

abbrev pub modify_head {ℓ} : {A : Type ℓ} → (A → A) → List A → List A
modify_head f [] = []
modify_head f (x ∷ xs) = f x ∷ xs

-- STAILQ_INIT, STAILQ_EMPTY, STAILQ_FIRST (`none` is NULL), STAILQ_INSERT_TAIL, STAILQ_REMOVE_HEAD,
-- and a write through the pointer that STAILQ_FIRST gives. `elements` is what a queue holds.
pub record Stailq (A : Type 0) (Q : Type 0) : Type 0 where
  pub init : Q
  pub is_empty : Q → Bool
  pub first : Q → Option A
  pub insert_tail : A → Q → Q
  pub remove_head : Q → Q
  pub update_first : (A → A) → Q → Q
  pub elements : Q → List A
  pub elements-init : elements init ≡ []
  pub is_empty_lem : (q : Q) → is_empty q ≡ is_nil (elements q)
  pub first_lem : (q : Q) → first q ≡ head? (elements q)
  pub elements-insert_tail : (a : A) (q : Q) → elements (insert_tail a q) ≡ elements q ++ a ∷ []
  pub elements-remove_head : (q : Q) → elements (remove_head q) ≡ tail (elements q)
  pub elements-update_first :
      (f : A → A) (q : Q) → elements (update_first f q) ≡ modify_head f (elements q)

abbrev pub list_stailq : {A : Type 0} → Stailq A (List A)
list_stailq = record {
  init = [];
  is_empty = is_nil;
  first = head?;
  insert_tail = λ a q. q ++ a ∷ [];
  remove_head = tail;
  update_first = modify_head;
  elements = λ q. q;
  elements-init = refl;
  is_empty_lem = λ q. refl;
  first_lem = λ q. refl;
  elements-insert_tail = λ a q. refl;
  elements-remove_head = λ q. refl;
  elements-update_first = λ f q. refl;
}
