-- ===== src/Smp/Search.antt =====
-- kernel/smp.c: what the search for the multiprocessor tables finds.
use leoman.Base.{
  ℕ, zero, suc, ◌+◌, ◌^◌, ◌≤◌, ◌<◌, ◌≡◌, refl, ap, ◌∙◌, arith, Bool, true, false, ◌&&◌, ◌==◌,
  Option, none, some, Run, done, ◌>>=◌, u32, Bool-cases, inl, inr,
}
use leoman.Smp.{signature_at, search_for_mp_table}

-- `_MP_` at `p` in a memory of bytes.
abbrev pub has_signature : (ℕ → ℕ) → ℕ → Bool
has_signature memory p =
    (memory p == b'_')
    && ((memory (p + 1) == b'M') && ((memory (p + 2) == b'P') && (memory (p + 3) == b'_')))

-- The bytes below `end` can be read.
abbrev pub Reads : (ℕ → Run ℕ) → (ℕ → ℕ) → ℕ → Type 0
Reads peek memory end = (a : ℕ) → a < end → peek a ≡ done (memory a)

abbrev test : Bool → Run Bool → Run Bool
test b next = elim b [ false ↦ done false | true ↦ next ]

peek_test :
    (r : Run ℕ) (x c : ℕ) (next : Run Bool)
    → r ≡ done x
    → (r >>= λ a. elim (a == c) [ false ↦ done false | true ↦ next ]) ≡ test (x == c) next
peek_test r x c next e = rw e refl

by_tests : (a b c d : Bool) → test a (test b (test c (done d))) ≡ done (a && (b && (c && d)))
by_tests false b c d = refl
by_tests true false c d = refl
by_tests true true false d = refl
by_tests true true true d = refl

signature_at_lem :
    (peek : ℕ → Run ℕ) (memory : ℕ → ℕ) (end p : ℕ)
    → Reads peek memory end
    → p + 3 < end
    → end ≤ 2 ^ 32
    → signature_at peek p ≡ done (has_signature memory p)
unfolding signature_at
signature_at_lem peek memory end p reads inside small =
    let one : u32 (p + 1) ≡ p + 1 = omega arith in
    let two : u32 (p + 2) ≡ p + 2 = omega arith in
    let three : u32 (p + 3) ≡ p + 3 = omega arith in
    let first = reads p (omega arith) in
    let second = ap peek one ∙ reads (p + 1) (omega arith) in
    let third = ap peek two ∙ reads (p + 2) (omega arith) in
    let fourth = ap peek three ∙ reads (p + 3) (omega arith) in
    peek_test (peek p) (memory p) b'_' _ first
    ∙ (ap (test (memory p == b'_')) (
          peek_test (peek (u32 (p + 1))) (memory (p + 1)) b'M' _ second
          ∙ ap (test (memory (p + 1) == b'M')) (
              peek_test (peek (u32 (p + 2))) (memory (p + 2)) b'P' _ third
              ∙ ap (test (memory (p + 2) == b'P')) (ap (λ r. r >>= λ d. done (d == b'_')) fourth)))
        ∙ by_tests (memory p == b'_') (memory (p + 1) == b'M') (memory (p + 2) == b'P')
            (memory (p + 3) == b'_'))

-- The first signature among `len` places from `p` on, or that there is none.
abbrev pub IsFirst : (ℕ → ℕ) → ℕ → ℕ → Option ℕ → Type 0
IsFirst memory p len none = (i : ℕ) → i < len → has_signature memory (p + i) ≡ false
IsFirst memory p len (some found) =
    (k : ℕ) × (k < len)
    × (found ≡ p + k)
    × (has_signature memory found ≡ true)
    × ((i : ℕ) → i < k → has_signature memory (p + i) ≡ false)

-- The search through memory that can be read to 3 bytes behind its end, below 2 ^ 32, answers the
-- first address of the range at which the signature stands, and NULL exactly when it stands at
-- none.
pub search_for_mp_table_lem :
    (peek : ℕ → Run ℕ) (memory : ℕ → ℕ) (end p len : ℕ)
    → Reads peek memory end
    → p + len + 3 ≤ end
    → end ≤ 2 ^ 32
    → (r : Option ℕ) × (search_for_mp_table peek p len ≡ done r) × IsFirst memory p len r
unfolding search_for_mp_table
search_for_mp_table_lem peek memory end p zero reads room small =
    (none, refl, λ i l. absurd (omega arith))
search_for_mp_table_lem peek memory end p (suc len) reads room small =
    let here = signature_at_lem peek memory end p reads (omega arith) small in
    let z : p + 0 ≡ p = omega arith in
    elim (Bool-cases (has_signature memory p)) [
      | inl yes_ ↦ (
        some p,
        rw (here ∙ ap done yes_) refl,
        (0, omega arith, omega arith, yes_, λ i l. absurd (omega arith)),
      )
      | inr no_ ↦
          let next : u32 (p + 1) ≡ p + 1 = omega arith in
          let (r, ran, first) =
            search_for_mp_table_lem peek memory end (p + 1) len reads (omega arith) small in
          (
            r,
            rw (here ∙ ap done no_) (ap (λ (n : ℕ). search_for_mp_table peek n len) next ∙ ran),
            later memory p len r no_ first,
          )
    ]
  where
    earlier :
        (memory : ℕ → ℕ) (p k : ℕ)
        → has_signature memory p ≡ false
        → ((i : ℕ) → i < k → has_signature memory (p + 1 + i) ≡ false)
        → (i : ℕ) → i < suc k
        → has_signature memory (p + i) ≡ false
    earlier memory p k no_ before zero l = ap (has_signature memory) (omega arith) ∙ no_
    earlier memory p k no_ before (suc i) l =
        ap (has_signature memory) (omega arith) ∙ before i (omega arith)

    later :
        (memory : ℕ → ℕ) (p len : ℕ) (r : Option ℕ)
        → has_signature memory p ≡ false
        → IsFirst memory (p + 1) len r
        → IsFirst memory p (suc len) r
    later memory p len none no_ first = earlier memory p len no_ first
    later memory p len (some found) no_ (k, l, e, hit, before) =
        (suc k, omega arith, omega arith, hit, earlier memory p k no_ before)
