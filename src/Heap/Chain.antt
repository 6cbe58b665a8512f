-- ===== src/Heap/Chain.antt =====
-- The well-formed heap: a chain of blocks that do not overlap, and what an allocation does to it.
use leoman.Base.{ℕ, zero, suc, ◌+◌, ◌^◌, ◌≤◌, ◌<◌}
use leoman.Base.{◌≡◌, ◌≢◌, refl, ap, ◌∙◌, ◌⊎◌, inl, inr, true, false, List, [], ◌∷◌, ◌++◌, arith}
use leoman.Base.{length, Bool-cases, ◌==◌}
use leoman.Heap.{
  Block, Memory, block_unused, block_used, is_fitting, store, take_block, walk, Walk, null, found,
}

-- From block `a` on, the chain visits the blocks `bs` in the order of their addresses; the data of
-- each ends at or before the next header, and that of the last at `top`.
abbrev pub Chain : Memory → ℕ → ℕ → List ℕ → Type 0
Chain mem top a [] = ((mem a).next ≡ 0) × (a + 12 + (mem a).data_size ≤ top)
Chain mem top a (b ∷ bs) =
    ((mem a).next ≡ b) × (a + 12 + (mem a).data_size ≤ b) × Chain mem top b bs

-- No free block is near the size of the request: `kalloc` takes a block for large enough when its
-- size and the size of a header together are.
abbrev pub IsSafe : Memory → ℕ → ℕ → List ℕ → Type 0
IsSafe mem bytes a [] =
    ((mem a).type ≢ block_unused)
    ⊎ (bytes + 12 ≤ (mem a).data_size)
    ⊎ ((mem a).data_size + 12 < bytes)
IsSafe mem bytes a (b ∷ bs) =
    (((mem a).type ≢ block_unused) ⊎ (bytes ≤ (mem a).data_size) ⊎ ((mem a).data_size + 12 < bytes))
    × IsSafe mem bytes b bs

-- No free block holds the request.
abbrev pub HasNone : Memory → ℕ → ℕ → List ℕ → Type 0
HasNone mem bytes a [] = (mem a).type ≡ block_unused → (mem a).data_size + 12 < bytes
HasNone mem bytes a (b ∷ bs) =
    ((mem a).type ≡ block_unused → (mem a).data_size + 12 < bytes) × HasNone mem bytes b bs

-- One of the blocks `bs`.
abbrev pub IsIn : ℕ → List ℕ → Type 0
IsIn block [] = ⊥
IsIn block (b ∷ bs) = (block ≡ b) ⊎ IsIn block bs

-- The heap `mem'` after block `block` of `mem`, one of the chain from `a` through `bs`, was given
-- out for `bytes` bytes: the chain has the same blocks, and where the last one was given out, the
-- block behind it.
pub record IsTaken (mem mem' : Memory) (top bytes a : ℕ) (bs : List ℕ) (block : ℕ) : Type 0 where
  pub member : IsIn block (a ∷ bs)
  pub from : a ≤ block
  pub was_unused : (mem block).type ≡ block_unused
  pub large_enough : bytes ≤ (mem block).data_size
  pub within : block + 12 + (mem block).data_size ≤ top
  pub now_used : (mem' block).type ≡ block_used
  pub now_sized : (mem' block).data_size ≡ bytes
  pub below : (x : ℕ) → x < block → mem' x ≡ mem x
  pub above : (x : ℕ) → block + 12 + (mem block).data_size ≤ x → mem' x ≡ mem x
  pub blocks : List ℕ
  pub chain : Chain mem' top a blocks
  pub same_blocks : (blocks ≡ bs) ⊎ (blocks ≡ bs ++ (block + 12 + bytes) ∷ [])

abbrev pub Outcome : Memory → ℕ → ℕ → ℕ → List ℕ → Walk → Type 0
Outcome mem top bytes a bs result =
    ((result ≡ null) × HasNone mem bytes a bs)
    ⊎ ((block : ℕ) × (mem' : Memory) × (result ≡ found block mem')
        × IsTaken mem mem' top bytes a bs block)

fitting_size :
    (b : Block) (bytes : ℕ)
    → b.data_size + 12 < 2 ^ 32
    → is_fitting b bytes ≡ true
    → (b.type ≡ block_unused) × (bytes ≤ b.data_size + 12)
unfolding is_fitting
fitting_size b bytes h e = ground arith

not_fitting :
    (b : Block) (bytes : ℕ)
    → b.data_size + 12 < 2 ^ 32
    → is_fitting b bytes ≡ false
    → b.type ≡ block_unused
    → b.data_size + 12 < bytes
unfolding is_fitting
not_fitting b bytes h e u = ground arith

-- Every block of a chain lies below its top.
Chain-size :
    (mem : Memory) (top a : ℕ) (bs : List ℕ) → Chain mem top a bs → a + 12 + (mem a).data_size ≤ top
Chain-size mem top a [] c = c.1
Chain-size mem top a (b ∷ bs) c = omega (arith, Chain-size mem top b bs c.2)

take_last :
    (mem : Memory) (top bytes a : ℕ)
    → top < 2 ^ 32
    → Chain mem top a []
    → (mem a).type ≡ block_unused
    → bytes + 12 ≤ (mem a).data_size
    → IsTaken mem (take_block mem a bytes) top bytes a [] a
unfolding take_block store
take_last mem top bytes a small c u fits = record {
  member = inl refl;
  from = omega arith;
  was_unused = u;
  large_enough = omega arith;
  within = c.1;
  now_used = ground arith;
  now_sized = ground arith;
  below = λ x l. ground arith;
  above = λ x l. ground arith;
  blocks = (a + 12 + bytes) ∷ [];
  chain = ground arith;
  same_blocks = inr refl;
}

Chain-agree :
    (mem mem' : Memory) (top a : ℕ) (bs : List ℕ)
    → ((x : ℕ) → a ≤ x → mem' x ≡ mem x)
    → Chain mem top a bs
    → Chain mem' top a bs
Chain-agree mem mem' top a [] same c = rw (same a (omega arith)) c
Chain-agree mem mem' top a (b ∷ bs) same c =
    let here = same a (omega arith) in
    (
      ap (λ (k : Block). k.next) here ∙ c.0,
      rw here (c.1),
      Chain-agree mem mem' top b bs (λ x l. same x (omega arith)) c.2,
    )

take_middle :
    (mem : Memory) (top bytes a b : ℕ) (bs : List ℕ)
    → Chain mem top a (b ∷ bs)
    → (mem a).type ≡ block_unused
    → bytes ≤ (mem a).data_size
    → IsTaken mem (take_block mem a bytes) top bytes a (b ∷ bs) a
unfolding take_block store
take_middle mem top bytes a b bs c u fits = record {
  member = inl refl;
  from = omega arith;
  was_unused = u;
  large_enough = fits;
  within = Chain-size mem top a (b ∷ bs) c;
  now_used = ground arith;
  now_sized = ground arith;
  below = λ x l. ground arith;
  above = λ x l. ground arith;
  blocks = b ∷ bs;
  chain = (
    ground arith,
    ground arith,
    Chain-agree mem (take_block mem a bytes) top b bs (λ x l. ground arith) c.2,
  );
  same_blocks = inl refl;
}

IsTaken-cons :
    (mem mem' : Memory) (top bytes a b block : ℕ) (bs : List ℕ)
    → Chain mem top a (b ∷ bs)
    → IsTaken mem mem' top bytes b bs block
    → IsTaken mem mem' top bytes a (b ∷ bs) block
IsTaken-cons mem mem' top bytes a b block bs c t =
    let later = t.from in
    let same = t.below a (omega arith) in
    record {
      member = inr t.member;
      from = omega arith;
      was_unused = t.was_unused;
      large_enough = t.large_enough;
      within = t.within;
      now_used = t.now_used;
      now_sized = t.now_sized;
      below = t.below;
      above = t.above;
      blocks = b ∷ t.blocks;
      chain = (ap (λ (k : Block). k.next) same ∙ c.0, rw same (c.1), t.chain);
      same_blocks = elim t.same_blocks [
        | inl e ↦ inl (ap (λ (l : List ℕ). b ∷ l) e)
        | inr e ↦ inr (ap (λ (l : List ℕ). b ∷ l) e)
      ];
    }

walk-null : (fuel bytes : ℕ) (mem : Memory) → walk (suc fuel) bytes 0 mem ≡ null
unfolding walk
walk-null fuel bytes mem = refl

pub walk-take :
    (fuel bytes a : ℕ) (mem : Memory)
    → 0 < a
    → is_fitting (mem a) bytes ≡ true
    → walk (suc fuel) bytes a mem ≡ found a (take_block mem a bytes)
unfolding walk
walk-take fuel bytes a mem pos fits =
    let start : (a == 0) ≡ false = ground arith in rw (start, fits, walk)

walk-skip :
    (fuel bytes a : ℕ) (mem : Memory)
    → 0 < a
    → is_fitting (mem a) bytes ≡ false
    → walk (suc fuel) bytes a mem ≡ walk fuel bytes (mem a).next mem
unfolding walk
walk-skip fuel bytes a mem pos misfit =
    let start : (a == 0) ≡ false = ground arith in rw (start, misfit, walk)

Outcome-cons :
    (mem : Memory) (top bytes a b : ℕ) (bs : List ℕ) (result : Walk)
    → Chain mem top a (b ∷ bs)
    → ((mem a).type ≡ block_unused → (mem a).data_size + 12 < bytes)
    → Outcome mem top bytes b bs result
    → Outcome mem top bytes a (b ∷ bs) result
Outcome-cons mem top bytes a b bs result c misfit (inl (e, none_fits)) =
    inl (e, (misfit, none_fits))
Outcome-cons mem top bytes a b bs result c misfit (inr (block, mem', e, t)) =
    inr (block, mem', e, IsTaken-cons mem mem' top bytes a b block bs c t)

-- The walk of `kalloc` over a well-formed chain, with fuel for each block and the final NULL: it
-- takes a block that holds the request and keeps the chain well formed, or no free block does.
pub walk_lem :
    (fuel : ℕ) (mem : Memory) (top bytes a : ℕ) (bs : List ℕ)
    → suc (length bs) < fuel
    → 0 < a
    → top < 2 ^ 32
    → Chain mem top a bs
    → IsSafe mem bytes a bs
    → Outcome mem top bytes a bs (walk fuel bytes a mem)
walk_lem zero mem top bytes a bs l pos small c safe = absurd (omega arith)
walk_lem (suc zero) mem top bytes a bs l pos small c safe = absurd (omega arith)
walk_lem (suc (suc fuel)) mem top bytes a [] l pos small c safe =
    let bound = Chain-size mem top a [] c in
    elim (Bool-cases (is_fitting (mem a) bytes)) [
      | inl fits ↦
          let f = fitting_size (mem a) bytes (omega arith) fits in
          rw (walk-take (suc fuel) bytes a mem pos fits) (
            inr (
              a,
              take_block mem a bytes,
              refl,
              take_last mem top bytes a small c f.0 (ground arith),
            ))
      | inr misfit ↦
          rw (walk-skip (suc fuel) bytes a mem pos misfit, c.0, walk-null fuel bytes mem)
            (inl (refl, not_fitting (mem a) bytes (omega arith) misfit))
    ]
walk_lem (suc (suc fuel)) mem top bytes a (b ∷ bs) l pos small c safe =
    let bound = Chain-size mem top a (b ∷ bs) c in
    elim (Bool-cases (is_fitting (mem a) bytes)) [
      | inl fits ↦
          let f = fitting_size (mem a) bytes (omega arith) fits in
          rw (walk-take (suc fuel) bytes a mem pos fits) (
            inr (
              a,
              take_block mem a bytes,
              refl,
              take_middle mem top bytes a b bs c f.0 (ground arith),
            ))
      | inr misfit ↦
          rw (walk-skip (suc fuel) bytes a mem pos misfit, c.0)
            (Outcome-cons mem top bytes a b bs _ c (not_fitting (mem a) bytes (omega arith) misfit)
              (walk_lem (suc fuel) mem top bytes b bs (omega arith) (omega arith) small c.2 safe.1))
    ]
