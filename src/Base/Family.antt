-- ===== src/Base/Family.antt =====
-- A weight summed over the threads below a bound, and how one change moves the sum.
use Prim.Native.Nat.{ℕ, zero, suc, ◌+◌, ◌≤◌, ◌<◌}
use mathlib.Core.Path.{◌≡◌, refl}
use native.Mathlib.Omega.{arith}
use native.Mathlib.Decide.{dec_lt}
use k_os.Base.Tests.{update}

module _ {A : Type 0} (weight : A → ℕ) where
  pub total : (bound : ℕ) → (ℕ → A) → ℕ
  total zero family = 0
  total (suc last) family = weight (family last) + total last family

  beyond_bound :
      (bound : ℕ) (family : ℕ → A) (at : ℕ) (a : A)
      → bound ≤ at
      → total bound (update family at a) ≡ total bound family
  unfolding total
  beyond_bound zero family at a far = refl
  beyond_bound (suc last) family at a far = ground (arith, beyond_bound last family at a)

  -- What the changed place weighed before and weighs now is the difference of the sums.
  pub total-update :
      (bound : ℕ) (family : ℕ → A) (at : ℕ) (a : A)
      → at < bound
      → weight (family at) + total bound (update family at a) ≡ weight a + total bound family
  unfolding total
  total-update zero family at a below = absurd (omega arith)
  total-update (suc last) family at a below = elim (dec_lt at last) [
    | yes inner ↦ ground (arith, total-update last family at a inner)
    | no outer ↦ ground (arith, beyond_bound last family at a)
  ]

  pub total_same :
      (bound : ℕ) (f g : ℕ → A)
      → ((k : ℕ) → weight (f k) ≡ weight (g k))
      → total bound f ≡ total bound g
  unfolding total
  total_same zero f g same = refl
  total_same (suc last) f g same = omega (arith, same last, total_same last f g same)

  -- One member is part of the sum.
  pub one-total :
      (bound : ℕ) (family : ℕ → A) (at : ℕ) → at < bound → weight (family at) ≤ total bound family
  unfolding total
  one-total zero family at below = absurd (omega arith)
  one-total (suc last) family at below = elim (dec_lt at last) [
    | yes inner ↦ omega (arith, one-total last family at inner)
    | no outer ↦ ground arith
  ]

  -- So are two members.
  pub two-total :
      (bound : ℕ) (family : ℕ → A) (a b : ℕ)
      → a < b
      → b < bound
      → weight (family a) + weight (family b) ≤ total bound family
  unfolding total
  two-total zero family a b less below = absurd (omega arith)
  two-total (suc last) family a b less below = elim (dec_lt b last) [
    | yes inner ↦ omega (arith, two-total last family a b less inner)
    | no outer ↦ ground (arith, one-total last family a)
  ]

  pub total_zero :
      (bound : ℕ) (family : ℕ → A) → ((k : ℕ) → weight (family k) ≡ 0) → total bound family ≡ 0
  unfolding total
  total_zero zero family none = refl
  total_zero (suc last) family none = omega (arith, none last, total_zero last family none)
