-- ===== src/LinkedList/Change.antt =====
-- Insertion and removal at any place of a list, with the links they leave.
use mathlib.Core.List.{append_assoc}
use k_os.Base.{ℕ, ◌≡◌, ◌≢◌, false, List, [], ◌∷◌, ◌++◌, arith, some, ap, sym, subst}
use k_os.LinkedList.{Heap, null, tail_of, list_insert, list_remove, list_append}
use k_os.LinkedList.Links.{
  has, Distinct, Linked, nodes, IsList, has-append, Linked-append, Linked-join, Linked-frame,
  prev-has, next-has,
}
use k_os.LinkedList.Nodes.{
  ne_null_of_has, has-insert, Distinct-insert, Distinct-delete, Distinct-apart, Distinct-suffix,
  nodes_split, nodes_prefix,
}
use k_os.LinkedList.Edit.{inserted, removed, insert-ok, remove-ok, insert-Linked, remove-Linked}

-- Both links of the memory after an insertion, for the addresses that it spares.
inserted_frame :
    (h : Heap) (p y e q : ℕ) (xs ys : List ℕ)
    → Linked h p xs y
    → Linked h y ys q
    → Distinct ((p ∷ xs) ++ y ∷ (ys ++ q ∷ []))
    → has e ((p ∷ xs) ++ y ∷ (ys ++ q ∷ [])) ≡ false
    → Linked (inserted h y e) y ys q
unfolding inserted
inserted_frame h p y e q xs ys l k d f =
    let last = prev-has h p y xs l in
    let apart = Distinct-apart (h y).prev (p ∷ xs) (y ∷ (ys ++ q ∷ [])) d last in
    let first = Distinct-suffix (p ∷ xs) (y ∷ (ys ++ q ∷ [])) d in
    Linked-frame h _ y q ys k
      (λ a i. ground (arith, has-append a ys (q ∷ []), has-append e (p ∷ xs) (y ∷ (ys ++ q ∷ []))))
      (λ a i. ground (arith, has-append e (p ∷ xs) (y ∷ (ys ++ q ∷ []))))

-- Inserting a fresh element before `y` puts it before `y` in the sequence.
pub insert_before :
    (h : Heap) (l y e : ℕ) (xs ys : List ℕ)
    → IsList h l (xs ++ y ∷ ys)
    → has e (nodes l (xs ++ y ∷ ys)) ≡ false
    → e ≢ null
    → (list_insert y e h ≡ some (tt, inserted h y e)) × IsList (inserted h y e) l (xs ++ e ∷ y ∷ ys)
insert_before h l y e xs ys is f ne =
    let parts = Linked-append h l y (tail_of l) xs ys is.linked in
    let zs = ys ++ tail_of l ∷ [] in
    let d : Distinct ((l ∷ xs) ++ y ∷ zs) = subst Distinct (nodes_split l y xs ys) is.distinct in
    let f' : has e ((l ∷ xs) ++ y ∷ zs) ≡ false =
      subst (λ t. has e t ≡ false) (nodes_split l y xs ys) f in
    let n : has null ((l ∷ xs) ++ y ∷ zs) ≡ false =
      subst (λ t. has null t ≡ false) (nodes_split l y xs ys) is.not_null in
    let ny : y ≢ null = ground (arith, has-append null (l ∷ xs) (y ∷ zs)) in
    let np : (h y).prev ≢ null =
      ne_null_of_has _ (l ∷ xs) (prev-has h l y xs parts.0)
        (ground (arith, has-append null (l ∷ xs) (y ∷ zs))) in
    let whole : nodes l (xs ++ e ∷ y ∷ ys) ≡ (l ∷ xs) ++ e ∷ y ∷ zs = nodes_split l e xs (y ∷ ys) in
    (
      insert-ok h y e ny ne np (ground (arith, has-append e (l ∷ xs) (y ∷ zs))),
      record {
        linked =
            subst (λ t. Linked (inserted h y e) l t (tail_of l)) (append_assoc xs (e ∷ []) (y ∷ ys))
              (Linked-join (inserted h y e) l y (tail_of l) (xs ++ e ∷ []) ys
                (insert-Linked h l y e xs parts.0 (nodes_prefix l y xs zs d)
                  (ground (arith, has-append e (l ∷ xs) (y ∷ zs), has-append e xs (y ∷ []))))
                (inserted_frame h l y e (tail_of l) xs ys parts.0 parts.1 d f'));
        distinct = subst Distinct (sym whole) (Distinct-insert e (l ∷ xs) (y ∷ zs) d f');
        not_null =
            subst (λ t. has null t ≡ false) (sym whole)
              (ground (arith, has-insert null e (l ∷ xs) (y ∷ zs)));
      },
    )

pub insert_at_tail :
    (h : Heap) (l e : ℕ) (xs : List ℕ)
    → IsList h l xs
    → has e (nodes l xs) ≡ false
    → e ≢ null
    → (list_insert (tail_of l) e h ≡ some (tt, inserted h (tail_of l) e))
      × IsList (inserted h (tail_of l) e) l (xs ++ e ∷ [])
insert_at_tail h l e xs is f ne =
    let t = tail_of l in
    let n = is.not_null in
    let nt : t ≢ null = omega arith in
    let np : (h t).prev ≢ null =
      ne_null_of_has _ (l ∷ xs) (prev-has h l t xs is.linked)
        (ground (arith, has-append null xs (t ∷ []))) in
    let whole : nodes l (xs ++ e ∷ []) ≡ (l ∷ xs) ++ e ∷ t ∷ [] = nodes_split l e xs [] in
    (
      insert-ok h t e nt ne np (ground (arith, has-append e xs (t ∷ []))),
      record {
        linked = insert-Linked h l t e xs is.linked is.distinct f;
        distinct = subst Distinct (sym whole) (Distinct-insert e (l ∷ xs) (t ∷ []) is.distinct f);
        not_null =
            subst (λ t. has null t ≡ false) (sym whole)
              (ground (arith, has-insert null e (l ∷ xs) (t ∷ [])));
      },
    )

pub head_ne_null : (h : Heap) (l : ℕ) (xs : List ℕ) → IsList h l xs → l ≢ null
head_ne_null h l xs is = let n = is.not_null in ground arith

pub append-inserted :
    (h : Heap) (l e : ℕ) (xs : List ℕ)
    → IsList h l xs
    → has e (nodes l xs) ≡ false
    → e ≢ null
    → (list_append l e h ≡ some (tt, inserted h (tail_of l) e))
      × IsList (inserted h (tail_of l) e) l (xs ++ e ∷ [])
unfolding list_append
append-inserted h l e xs is f ne = insert_at_tail h l e xs is f ne

pub remove-removed :
    (h : Heap) (l e : ℕ) (xs ys : List ℕ)
    → IsList h l (xs ++ e ∷ ys)
    → (list_remove e h ≡ some (tt, removed h e)) × IsList (removed h e) l (xs ++ ys)
remove-removed h l e xs ys is =
    let t = tail_of l in
    let parts = Linked-append h l e t xs ys is.linked in
    let zs = ys ++ t ∷ [] in
    let d : Distinct ((l ∷ xs) ++ e ∷ zs) = subst Distinct (nodes_split l e xs ys) is.distinct in
    let n : has null ((l ∷ xs) ++ e ∷ zs) ≡ false =
      subst (λ t. has null t ≡ false) (nodes_split l e xs ys) is.not_null in
    let whole : nodes l (xs ++ ys) ≡ (l ∷ xs) ++ zs =
      ap (λ t. l ∷ t) (append_assoc xs ys (t ∷ [])) in
    let ne : e ≢ null = ground (arith, has-append null (l ∷ xs) (e ∷ zs)) in
    let np : (h e).prev ≢ null =
      ne_null_of_has _ (l ∷ xs) (prev-has h l e xs parts.0)
        (ground (arith, has-append null (l ∷ xs) (e ∷ zs))) in
    let nn : (h e).next ≢ null =
      ne_null_of_has _ zs (next-has h e t ys parts.1)
        (ground (arith, has-append null (l ∷ xs) (e ∷ zs))) in
    (
      remove-ok h e ne np nn,
      record {
        linked = remove-Linked h l e t xs ys parts.0 parts.1 d;
        distinct = subst Distinct (sym whole) (Distinct-delete e (l ∷ xs) zs d);
        not_null =
            subst (λ t. has null t ≡ false) (sym whole)
              (ground (arith, has-insert null e (l ∷ xs) zs));
      },
    )
