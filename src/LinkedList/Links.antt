-- ===== src/LinkedList/Links.antt =====
-- What a list in memory stands for: the chain of both pointers through distinct addresses.
use k_os.Base.{ℕ, ◌≡◌, refl, Bool, true, false, ◌||◌, List, [], ◌∷◌, ◌++◌, ◌==◌, arith}
use k_os.LinkedList.{Heap, head_of, tail_of, null}

-- Whether an address is among some.
abbrev pub has : (addr : ℕ) → List ℕ → Bool
has addr [] = false
has addr (first ∷ others) = (addr == first) || has addr others

abbrev pub Distinct : List ℕ → Type 0
Distinct [] = Unit
Distinct (first ∷ others) = (has first others ≡ false) × Distinct others

-- From `p` the `next` pointers lead through `xs` to `q`, and the `prev` pointers lead back.
abbrev pub Linked : Heap → ℕ → List ℕ → ℕ → Type 0
Linked h p [] q = ((h p).next ≡ q) × ((h q).prev ≡ p)
Linked h p (x ∷ xs) q = ((h p).next ≡ x) × ((h x).prev ≡ p) × Linked h x xs q

-- The addresses that a list uses, its sentinels included.
abbrev pub nodes : ℕ → List ℕ → List ℕ
nodes plist xs = head_of plist ∷ (xs ++ tail_of plist ∷ [])

-- The list at `plist` holds the elements `xs`, in this order.
pub record IsList (h : Heap) (plist : ℕ) (xs : List ℕ) : Type 0 where
  pub linked : Linked h (head_of plist) xs (tail_of plist)
  pub distinct : Distinct (nodes plist xs)
  pub not_null : has null (nodes plist xs) ≡ false

pub has-append : (a : ℕ) (xs ys : List ℕ) → has a (xs ++ ys) ≡ (has a xs || has a ys)
has-append a [] ys = refl
has-append a (x ∷ xs) ys = ground (arith, has-append a xs ys)

pub Linked-append :
    (h : Heap) (p y q : ℕ) (xs ys : List ℕ)
    → Linked h p (xs ++ y ∷ ys) q
    → Linked h p xs y × Linked h y ys q
Linked-append h p y q [] ys l = ((l.0, l.1), l.2)
Linked-append h p y q (x ∷ xs) ys l =
    let rest = Linked-append h x y q xs ys l.2 in ((l.0, l.1, rest.0), rest.1)

pub Linked-join :
    (h : Heap) (p y q : ℕ) (xs ys : List ℕ)
    → Linked h p xs y
    → Linked h y ys q
    → Linked h p (xs ++ y ∷ ys) q
Linked-join h p y q [] ys a b = (a.0, a.1, b)
Linked-join h p y q (x ∷ xs) ys a b = (a.0, a.1, Linked-join h x y q xs ys a.2 b)

-- The pointer back from the end of a chain names its last address.
pub prev-has :
    (h : Heap) (p q : ℕ) (xs : List ℕ) → Linked h p xs q → has ((h q).prev) (p ∷ xs) ≡ true
prev-has h p q [] l = ground arith
prev-has h p q (x ∷ xs) l = ground (arith, prev-has h x q xs l.2)

pub next-has :
    (h : Heap) (p q : ℕ) (xs : List ℕ) → Linked h p xs q → has ((h p).next) (xs ++ q ∷ []) ≡ true
next-has h p q [] l = ground arith
next-has h p q (x ∷ xs) l = ground arith

-- A chain survives changes that spare the `next` pointers of its addresses but the last, and the
-- `prev` pointers of its addresses but the first.
pub Linked-frame :
    (h g : Heap) (p q : ℕ) (xs : List ℕ)
    → Linked h p xs q
    → ((a : ℕ) → has a (p ∷ xs) ≡ true → (g a).next ≡ (h a).next)
    → ((a : ℕ) → has a (xs ++ q ∷ []) ≡ true → (g a).prev ≡ (h a).prev)
    → Linked g p xs q
Linked-frame h g p q [] l n r = (ground (arith, n p), ground (arith, r q))
Linked-frame h g p q (x ∷ xs) l n r = (
  ground (arith, n p),
  ground (arith, r x),
  Linked-frame h g x q xs l.2 (λ a i. n a (ground arith)) (λ a i. r a (ground arith)),
)
