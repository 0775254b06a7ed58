-- ===== src/LinkedList/Apart.antt =====
-- Several lists in one memory: what `list_append` on one leaves of the others.
use k_os.Base.{
  ℕ, ◌≡◌, ◌≢◌, true, false, List, [], ◌∷◌, ◌++◌, some, arith, ap, subst, sym, ◌∙◌, if◌then◌else◌,
  ◌==◌,
}
use k_os.LinkedList.{Heap, ListElem, null, tail_of, list_append, list_remove}
use k_os.LinkedList.Edit.{inserted, removed, remove-ok}
use k_os.LinkedList.Links.{
  has, nodes, IsList, Linked-frame, has-append, prev-has, next-has, Linked-append,
}
use k_os.LinkedList.Nodes.{nodes_split}
use k_os.LinkedList.Change.{append-inserted, remove-removed}

-- A list is a matter of its own nodes.
pub IsList-frame :
    (h g : Heap) (l : ℕ) (xs : List ℕ)
    → ((a : ℕ) → has a (nodes l xs) ≡ true → g a ≡ h a)
    → IsList h l xs
    → IsList g l xs
IsList-frame h g l xs same is = record {
  linked =
      Linked-frame h g l (tail_of l) xs is.linked
        (λ a i. ap (λ x. x.next) (same a (ground (arith, has-append a xs (tail_of l ∷ []), i))))
        (λ a i. ap (λ x. x.prev) (same a (ground (arith, i))));
  distinct = is.distinct;
  not_null = is.not_null;
}

-- `list_append` writes to the new element and to the nodes of its list.
pub append-apart :
    (h : Heap) (l e : ℕ) (xs : List ℕ)
    → IsList h l xs
    → has e (nodes l xs) ≡ false
    → e ≢ null
    → (after : Heap) × (list_append l e h ≡ some (tt, after))
      × IsList after l (xs ++ e ∷ [])
      × ((a : ℕ) → has a (e ∷ nodes l xs) ≡ false → after a ≡ h a)
unfolding inserted
append-apart h l e xs is f ne =
    let r = append-inserted h l e xs is f ne in
    let back = prev-has h l (tail_of l) xs is.linked in
    (
      inserted h (tail_of l) e,
      r.0,
      r.1,
      λ a away. ground (arith, away, back, has-append a xs (tail_of l ∷ [])),
    )

-- `list_remove` writes to nodes of the list only.
pub remove-apart :
    (h : Heap) (l e : ℕ) (xs ys : List ℕ)
    → IsList h l (xs ++ e ∷ ys)
    → (after : Heap) × (list_remove e h ≡ some (tt, after))
      × IsList after l (xs ++ ys)
      × ((a : ℕ) → has a (nodes l (xs ++ e ∷ ys)) ≡ false → after a ≡ h a)
unfolding removed
remove-apart h l e xs ys is =
    let r = remove-removed h l e xs ys is in
    let parts = Linked-append h l e (tail_of l) xs ys is.linked in
    let back = prev-has h l e xs parts.0 in
    let on = next-has h e (tail_of l) ys parts.1 in
    (
      removed h e,
      r.0,
      r.1,
      λ a away.
          let out = subst (λ t. has a t ≡ false) (nodes_split l e xs ys) away in
          ground (arith, out, back, on, has-append a (l ∷ xs) (e ∷ (ys ++ tail_of l ∷ []))),
    )

abbrev removed_by : ListElem → Heap → Heap
removed_by x h a = record {
  prev = if x.next == a then x.prev else (h a).prev;
  next = if x.prev == a then x.next else (h a).next;
}

-- `list_remove` goes by the links of its element, which need not be in a list: an element with the
-- links of another is as good as that one.
pub remove_same :
    (h : Heap) (e f : ℕ)
    → h f ≡ h e
    → e ≢ null
    → f ≢ null
    → (h e).prev ≢ null
    → (h e).next ≢ null
    → list_remove f h ≡ list_remove e h
unfolding removed
remove_same h e f same ne nf np nn =
    remove-ok h f nf (subst (λ x. x.prev ≢ null) (sym same) np)
      (subst (λ x. x.next ≢ null) (sym same) nn)
    ∙ ap (λ g. some (tt, g)) (ap (λ x a. removed_by x h a) same)
    ∙ sym (remove-ok h e ne np nn)
