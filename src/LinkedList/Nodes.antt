-- ===== src/LinkedList/Nodes.antt =====
-- The addresses that a list uses: membership, and distinctness under insertion and deletion.
use mathlib.Core.List.{append_assoc}
use k_os.Base.{
  ℕ, ◌≡◌, ◌≢◌, refl, true, false, ◌||◌, List, [], ◌∷◌, ◌++◌, ◌==◌, arith, ap, sym, subst,
}
use k_os.LinkedList.{null, head_of, tail_of}
use k_os.LinkedList.Links.{has, Distinct, nodes, has-append}

pub ne_null_of_has : (a : ℕ) (xs : List ℕ) → has a xs ≡ true → has null xs ≡ false → a ≢ null
ne_null_of_has a xs i n e = ground arith

pub has-insert : (a e : ℕ) (xs ys : List ℕ) → has a (xs ++ e ∷ ys) ≡ ((a == e) || has a (xs ++ ys))
has-insert a e [] ys = refl
has-insert a e (x ∷ xs) ys = ground (arith, has-insert a e xs ys)

pub Distinct-insert :
    (e : ℕ) (xs ys : List ℕ)
    → Distinct (xs ++ ys)
    → has e (xs ++ ys) ≡ false
    → Distinct (xs ++ e ∷ ys)
Distinct-insert e [] ys d f = (f, d)
Distinct-insert e (x ∷ xs) ys d f =
    (ground (arith, has-insert x e xs ys), Distinct-insert e xs ys d.1 (ground arith))

pub Distinct-delete : (e : ℕ) (xs ys : List ℕ) → Distinct (xs ++ e ∷ ys) → Distinct (xs ++ ys)
Distinct-delete e [] ys d = d.1
Distinct-delete e (x ∷ xs) ys d =
    (ground (arith, has-insert x e xs ys), Distinct-delete e xs ys d.1)

-- Nothing in the second part of a sequence of distinct addresses stands in the first.
pub Distinct-apart :
    (a : ℕ) (xs ys : List ℕ) → Distinct (xs ++ ys) → has a xs ≡ true → has a ys ≡ false
Distinct-apart a [] ys d i = absurd (ground arith)
Distinct-apart a (x ∷ xs) ys d i = ground (arith, Distinct-apart a xs ys d.1, has-append x xs ys)

pub Distinct-prefix : (xs ys : List ℕ) → Distinct (xs ++ ys) → Distinct xs
Distinct-prefix [] ys d = tt
Distinct-prefix (x ∷ xs) ys d = (ground (arith, has-append x xs ys), Distinct-prefix xs ys d.1)

-- The second part of distinct addresses is distinct.
pub Distinct-suffix : (xs ys : List ℕ) → Distinct (xs ++ ys) → Distinct ys
Distinct-suffix [] ys d = d
Distinct-suffix (x ∷ xs) ys d = Distinct-suffix xs ys d.1

-- A sequence of elements as one of nodes, split before `y`.
pub nodes_split :
    (l y : ℕ) (xs ys : List ℕ)
    → nodes l (xs ++ y ∷ ys) ≡ (head_of l ∷ xs) ++ y ∷ (ys ++ tail_of l ∷ [])
nodes_split l y xs ys = ap (λ t. l ∷ t) (append_assoc xs (y ∷ ys) (tail_of l ∷ []))

pub nodes_prefix :
    (l y : ℕ) (xs zs : List ℕ) → Distinct ((l ∷ xs) ++ y ∷ zs) → Distinct (l ∷ (xs ++ y ∷ []))
nodes_prefix l y xs zs d =
    Distinct-prefix (l ∷ (xs ++ y ∷ [])) zs
      (subst Distinct (sym (ap (λ t. l ∷ t) (append_assoc xs (y ∷ []) zs))) d)
