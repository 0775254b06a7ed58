-- ===== src/LinkedList/Edit.antt =====
-- The links after `list_insert` and `list_remove`, and what these do to a chain.
use k_os.Base.{
  ℕ, ◌≡◌, ◌≢◌, false, List, [], ◌∷◌, ◌++◌, ◌==◌, arith, if◌then◌else◌, some, fun_ext, ap, update,
  ==_ne,
}
use k_os.LinkedList.{
  Heap, null, get_prev, get_next, set_prev, set_next, list_insert, list_remove, ◌>>=◌, ◌>>◌,
}
use k_os.LinkedList.Links.{has, Distinct, Linked, has-append, prev-has, next-has, Linked-frame}

-- The memory after `list_insert y e`.
unfoldable pub inserted : Heap → (y e : ℕ) → Heap
inserted h y e a = record {
  prev = if y == a then e else if e == a then (h y).prev else (h a).prev;
  next = if e == a then y else if (h y).prev == a then e else (h a).next;
}

-- The memory after `list_remove e`.
unfoldable pub removed : Heap → ℕ → Heap
removed h e a = record {
  prev = if (h e).next == a then (h e).prev else (h a).prev;
  next = if (h e).prev == a then (h e).next else (h a).next;
}

-- An access through a pointer that is not NULL.
module _ {p : ℕ} (ne : p ≢ null) where
  pub get_prev-ok : (h : Heap) → get_prev p h ≡ some ((h p).prev, h)
  unfolding get_prev
  get_prev-ok h = rw (==_ne p null ne)

  pub get_next-ok : (h : Heap) → get_next p h ≡ some ((h p).next, h)
  unfolding get_next
  get_next-ok h = rw (==_ne p null ne)

  pub set_prev-ok :
      (v : ℕ) (h : Heap)
      → set_prev p v h ≡ some (tt, update h p (record { prev = v; next = (h p).next }))
  unfolding set_prev
  set_prev-ok v h = rw (==_ne p null ne)

  pub set_next-ok :
      (v : ℕ) (h : Heap)
      → set_next p v h ≡ some (tt, update h p (record { prev = (h p).prev; next = v }))
  unfolding set_next
  set_next-ok v h = rw (==_ne p null ne)

pub insert-ok :
    (h : Heap) (y e : ℕ)
    → y ≢ null
    → e ≢ null
    → (h y).prev ≢ null
    → e ≢ y
    → list_insert y e h ≡ some (tt, inserted h y e)
unfolding list_insert inserted
insert-ok h y e ny ne np apart =
    rw
      (
        get_prev-ok ny,
        set_next-ok np,
        get_prev-ok ny,
        set_prev-ok ne,
        set_next-ok ne,
        set_prev-ok ny,
        ◌>>=◌,
        ◌>>◌,
      )
      (ap (λ g. some (tt, g)) (fun_ext λ a. ground arith))

pub remove-ok :
    (h : Heap) (e : ℕ)
    → e ≢ null
    → (h e).prev ≢ null
    → (h e).next ≢ null
    → list_remove e h ≡ some (tt, removed h e)
unfolding list_remove removed
remove-ok h e ne np nn =
    let h₁ = update h (h e).prev (record { prev = (h (h e).prev).prev; next = (h e).next }) in
    let nn' : (h₁ e).next ≢ null = ground arith in
    rw
      (
        get_prev-ok ne,
        get_next-ok ne,
        set_next-ok np,
        get_next-ok ne,
        get_prev-ok ne,
        set_prev-ok nn',
        ◌>>=◌,
        ◌>>◌,
      )
      (ap (λ g. some (tt, g)) (fun_ext λ a. ground arith))

pub insert-Linked :
    (h : Heap) (p y e : ℕ) (xs : List ℕ)
    → Linked h p xs y
    → Distinct (p ∷ (xs ++ y ∷ []))
    → has e (p ∷ (xs ++ y ∷ [])) ≡ false
    → Linked (inserted h y e) p (xs ++ e ∷ []) y
unfolding inserted
insert-Linked h p y e [] l d f = ground arith
insert-Linked h p y e (x ∷ xs) l d f =
    let last = prev-has h x y xs l.2 in
    (
      ground (arith, has-append p xs (y ∷ [])),
      ground (arith, has-append x xs (y ∷ [])),
      insert-Linked h x y e xs l.2 d.1 (ground arith),
    )

pub remove-Linked :
    (h : Heap) (p e q : ℕ) (xs ys : List ℕ)
    → Linked h p xs e
    → Linked h e ys q
    → Distinct (p ∷ (xs ++ e ∷ (ys ++ q ∷ [])))
    → Linked (removed h e) p (xs ++ ys) q
unfolding removed
remove-Linked h p e q [] [] l k d = ground arith
remove-Linked h p e q [] (y ∷ ys) l k d = (
  ground arith,
  ground arith,
  Linked-frame h _ y q ys k.2 (λ a i. ground (arith, has-append a ys (q ∷ [])))
      (λ a i. ground arith),
)
remove-Linked h p e q (x ∷ xs) ys l k d =
    let last = prev-has h x e xs l.2 in
    let first = next-has h e q ys k in
    (
      ground (arith, has-append p xs (e ∷ (ys ++ q ∷ []))),
      ground (arith, has-append x xs (e ∷ (ys ++ q ∷ []))),
      remove-Linked h x e q xs ys l.2 k d.1,
    )
