-- ===== src/Base/Loops.antt =====
-- Counted loops of C as recursion on the rounds that are left.
use Prim.Native.Nat.{ℕ, zero, suc}

-- `for (i = from; i < from + rounds; i++) state = body i state`
unfoldable pub for_from {ℓ} : {S : Type ℓ} → ℕ → ℕ → (ℕ → S → S) → S → S
for_from from zero body s = s
for_from from (suc rounds) body s = for_from (suc from) rounds body (body from s)
