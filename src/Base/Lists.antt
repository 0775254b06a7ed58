-- ===== src/Base/Lists.antt =====
-- Lists measured and indexed by native numbers, under the library's names.
use Prim.Native.Nat.{ℕ, zero, suc, ◌+◌}
use mathlib.Core.Path.{◌≡◌}
use mathlib.Core.List.{List, [], ◌∷◌, ◌++◌}
use mathlib.Core.Option.{Option, none, some}
use native.Mathlib.Omega.{arith}

module _ {ℓ} {A : Type ℓ} where
  abbrev pub length : List A → ℕ
  length [] = 0
  length (x ∷ xs) = suc (length xs)

  abbrev pub get_elem? : List A → ℕ → Option A
  get_elem? [] i = none
  get_elem? (x ∷ xs) zero = some x
  get_elem? (x ∷ xs) (suc i) = get_elem? xs i

  abbrev pub replicate : ℕ → A → List A
  replicate zero a = []
  replicate (suc n) a = a ∷ replicate n a

  pub length-append : (xs ys : List A) → length (xs ++ ys) ≡ length xs + length ys
  length-append [] ys = omega arith
  length-append (x ∷ xs) ys = omega (arith, length-append xs ys)

-- What holds of each element of a list.
pub data Each {ℓ} {A : Type ℓ} (P : A → Type 0) : List A → Type ℓ where
  each_nil : Each P []
  each_cons : {x : A} {xs : List A} → P x → Each P xs → Each P (x ∷ xs)

module _ {ℓ} {A : Type ℓ} {P : A → Type 0} where
  pub Each-append : (xs ys : List A) → Each P xs → Each P ys → Each P (xs ++ ys)
  Each-append [] ys each_nil all = all
  Each-append (x ∷ xs) ys (each_cons h t) all = each_cons h (Each-append xs ys t all)

module _ {ℓ} {A : Type ℓ} {P Q R : A → Type 0} where
  pub Each-zip : (xs : List A) → ((x : A) → P x → Q x → R x) → Each P xs → Each Q xs → Each R xs
  Each-zip [] f each_nil each_nil = each_nil
  Each-zip (x ∷ xs) f (each_cons p ps) (each_cons q qs) = each_cons (f x p q) (Each-zip xs f ps qs)
