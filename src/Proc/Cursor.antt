-- ===== src/Proc/Cursor.antt =====
-- kernel/proc.c: what `find_next_proc` finds, and where it leaves its cursor.
use leoman.Base.{ℕ, zero, suc, ◌+◌, ◌-◌, ◌%◌, ◌<◌}
use leoman.Base.{◌≡◌, ap, ◌∙◌, ◌⊎◌, inl, inr, Bool, true, false, not, ◌&&◌, Option, none, some}
use leoman.Base.{List, arith, Bool-cases}
use leoman.Proc.{Proc, ProcState, Kernel, has_state, is_at, find_next_loop, find_next_proc}

-- The slot that is `d` places after `i` around the table.
abbrev pub around : ℕ → ℕ → ℕ
around i d = (i + d) % 64

module _ {Queue : Type 0} (procs : List (Proc Queue)) (idle : Option ℕ) (state : ProcState) where
  -- A slot that the search may return.
  unfoldable pub matches : ℕ → Bool
  matches i = not (is_at idle i) && has_state procs state i

  -- What the loop finds within `left` rounds from slot `i`: the first slot around the table that
  -- matches, or none of those slots does.
  abbrev pub Searched : ℕ → ℕ → Option ℕ × ℕ → Type 0
  Searched left i result =
      ((result ≡ (none, around i left)) × ((d : ℕ) → d < left → matches (around i d) ≡ false))
      ⊎ ((d : ℕ) × (d < left)
          × (result ≡ (some (around i d), around i d + 1))
          × (matches (around i d) ≡ true)
          × ((e : ℕ) → e < d → matches (around i e) ≡ false))

  around-suc : (i d : ℕ) → around ((i + 1) % 64) d ≡ around i (suc d)
  around-suc i d = omega arith

  misses-suc :
      (i n : ℕ)
      → i < 64
      → matches i ≡ false
      → ((d : ℕ) → d < n → matches (around ((i + 1) % 64) d) ≡ false)
      → (d : ℕ) → d < suc n
      → matches (around i d) ≡ false
  misses-suc i n l miss rest zero q = ap matches (omega arith) ∙ miss
  misses-suc i n l miss rest (suc d) q = ap matches (omega arith) ∙ rest d (omega arith)

  Searched-suc :
      (left i : ℕ) (result : Option ℕ × ℕ)
      → i < 64
      → matches i ≡ false
      → Searched left ((i + 1) % 64) result
      → Searched (suc left) i result
  Searched-suc left i result l miss (inl (e, misses)) =
      inl (e ∙ ap (λ (t : ℕ). (none, t)) (around-suc i left), misses-suc i left l miss misses)
  Searched-suc left i result l miss (inr (d, q, e, hit, misses)) = inr (
    suc d,
    omega arith,
    e ∙ ap (λ (t : ℕ). (some t, t + 1)) (around-suc i d),
    ap matches (omega arith) ∙ hit,
    misses-suc i d l miss misses,
  )

  loop-hit :
      (left i : ℕ)
      → matches i ≡ true
      → find_next_loop procs idle state (suc left) i ≡ (some i, i + 1)
  unfolding find_next_loop matches
  loop-hit left i hit = rw (hit, find_next_loop)

  loop-miss :
      (left i : ℕ)
      → matches i ≡ false
      → find_next_loop procs idle state (suc left) i
        ≡ find_next_loop procs idle state left ((i + 1) % 64)
  unfolding find_next_loop matches
  loop-miss left i miss = rw (miss, find_next_loop)

  find_next_loop-Searched :
      (left i : ℕ) → i < 64 → Searched left i (find_next_loop procs idle state left i)
  find_next_loop-Searched zero i l = inl (
    unfold find_next_loop in ap (λ (t : ℕ). (none, t)) (omega arith),
    λ d q. absurd (omega arith),
  )
  find_next_loop-Searched (suc left) i l = elim (Bool-cases (matches i)) [
    | inl hit ↦ inr (
      0,
      omega arith,
      loop-hit left i hit ∙ ap (λ (t : ℕ). (some t, t + 1)) (omega arith),
      ap matches (omega arith) ∙ hit,
      λ e q. absurd (omega arith),
    )
    | inr miss ↦
        rw (loop-miss left i miss)
          (Searched-suc left i _ l miss (find_next_loop-Searched left ((i + 1) % 64) (omega arith)))
  ]

module _ {Queue : Type 0} where
  -- find_next_proc returns the first slot around the table from the cursor on that is not idle's
  -- and is in the state asked for, and moves the cursor behind it; it returns NULL when no slot
  -- is such. Nothing but the cursor changes.
  pub find_next_proc_lem :
      (state : ProcState) (k : Kernel Queue)
      → ((find_next_proc state k ≡ (none, record k { cursor = k.cursor % 64 }))
          × ((i : ℕ) → i < 64 → matches k.procs k.idle state i ≡ false))
        ⊎ ((d : ℕ) × (d < 64)
            × (find_next_proc state k
                ≡ (some (around k.cursor d), record k { cursor = around k.cursor d + 1 }))
            × (matches k.procs k.idle state (around k.cursor d) ≡ true)
            × ((e : ℕ) → e < d → matches k.procs k.idle state (around k.cursor e) ≡ false))
  unfolding find_next_proc
  find_next_proc_lem state k =
      elim (find_next_loop-Searched k.procs k.idle state 64 (k.cursor % 64) (omega arith)) [
        | inl (e, misses) ↦ inl (
          ap (λ (r : Option ℕ × ℕ). (r.0, record k { cursor = r.1 })) e
              ∙ ap (λ (t : ℕ). (none, record k { cursor = t })) (omega arith),
          λ i l.
              ap (matches k.procs k.idle state) (omega arith)
              ∙ misses ((i + 64 - k.cursor % 64) % 64) (omega arith),
        )
        | inr (d, l, e, hit, misses) ↦ inr (
          d,
          l,
          ap (λ (r : Option ℕ × ℕ). (r.0, record k { cursor = r.1 })) e
              ∙ ap (λ (t : ℕ). (some t, record k { cursor = t + 1 })) (omega arith),
          ap (matches k.procs k.idle state) (omega arith) ∙ hit,
          λ f q. ap (matches k.procs k.idle state) (omega arith) ∙ misses f q,
        )
      ]
