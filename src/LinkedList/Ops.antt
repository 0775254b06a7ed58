-- ===== src/LinkedList/Ops.antt =====
-- The list operations of code/lib/src/list.c refine operations on the sequence of elements.
use k_os.Base.{
  ℕ, ◌≡◌, ◌≢◌, refl, true, false, List, [], ◌∷◌, ◌++◌, ◌==◌, arith, Option, some, ap, update,
  fun_ext,
}
use k_os.LinkedList.{
  Heap, null, tail_of, list_init, list_remove, list_append, list_push, list_empty, list_pop, ◌>>=◌,
  ◌>>◌,
}
use k_os.LinkedList.Links.{has, nodes, IsList, has-append}
use k_os.LinkedList.Edit.{removed, get_next-ok, set_prev-ok, set_next-ok}
use k_os.LinkedList.Change.{insert_before, insert_at_tail, remove-removed, head_ne_null}

-- What a command makes of the list at `l`: it ends without a fault and returns `a`, and the list
-- then holds `xs`.
pub record Yields {A : Type 0} (r : Option (A × Heap)) (l : ℕ) (a : A) (xs : List ℕ) : Type 0 where
  pub after : Heap
  pub result : r ≡ some (a, after)
  pub holds : IsList after l xs

unfoldable pub initialised : Heap → ℕ → Heap
initialised h l =
    update (update h l (record { prev = null; next = tail_of l })) (tail_of l)
      (record { prev = l; next = null })

-- `list_init` writes the two sentinels and no more.
pub init-ok : (h : Heap) (l : ℕ) → l ≢ null → list_init l h ≡ some (tt, initialised h l)
unfolding list_init initialised
init-ok h l ne =
    let nt : tail_of l ≢ null = omega arith in
    rw (set_prev-ok ne, set_next-ok ne, set_prev-ok nt, set_next-ok nt, ◌>>=◌, ◌>>◌)
      (ap (λ g. some (tt, g)) (fun_ext λ a. ground arith))

-- `list_init` turns the memory at any address but NULL into an empty list.
pub init-nil : (h : Heap) (l : ℕ) → l ≢ null → Yields (list_init l h) l tt []
unfolding initialised
init-nil h l ne = record {
  after = initialised h l;
  result = init-ok h l ne;
  holds = record { linked = ground arith; distinct = ground arith; not_null = ground arith };
}

-- `list_append` puts a fresh element behind the last one.
pub append-snoc :
    (h : Heap) (l e : ℕ) (xs : List ℕ)
    → IsList h l xs
    → has e (nodes l xs) ≡ false
    → e ≢ null
    → Yields (list_append l e h) l tt (xs ++ e ∷ [])
unfolding list_append
append-snoc h l e xs is f ne =
    let r = insert_at_tail h l e xs is f ne in record { after = _; result = r.0; holds = r.1 }

-- `list_push` puts a fresh element before the first one.
pub push-cons :
    (h : Heap) (l e : ℕ) (xs : List ℕ)
    → IsList h l xs
    → has e (nodes l xs) ≡ false
    → e ≢ null
    → Yields (list_push l e h) l tt (e ∷ xs)
unfolding list_push
push-cons h l e [] is f ne =
    let r = insert_at_tail h l e [] is f ne in
    record {
      after = _;
      result = rw (get_next-ok (head_ne_null h l [] is), is.linked.0, ◌>>=◌) r.0;
      holds = r.1;
    }
push-cons h l e (x ∷ xs) is f ne =
    let r = insert_before h l x e [] xs is f ne in
    record {
      after = _;
      result = rw (get_next-ok (head_ne_null h l (x ∷ xs) is), is.linked.0, ◌>>=◌) r.0;
      holds = r.1;
    }

-- `list_remove` takes an element out of the list, wherever it stands.
pub remove-delete :
    (h : Heap) (l e : ℕ) (xs ys : List ℕ)
    → IsList h l (xs ++ e ∷ ys)
    → Yields (list_remove e h) l tt (xs ++ ys)
remove-delete h l e xs ys is =
    let r = remove-removed h l e xs ys is in
    record { after = removed h e; result = r.0; holds = r.1 }

-- `list_empty` says whether the list has no element, and changes nothing.
pub empty_iff :
    (h : Heap) (l : ℕ) (xs : List ℕ)
    → IsList h l xs
    → list_empty l h ≡ some (elim xs [ [] ↦ true | x ∷ r ↦ false ], h)
unfolding list_empty
empty_iff h l [] is = rw (get_next-ok (head_ne_null h l [] is), is.linked.0, ◌>>=◌) (ground arith)
empty_iff h l (x ∷ xs) is =
    let d = is.distinct in
    let ne : (x == tail_of l) ≡ false = ground (arith, has-append x xs (tail_of l ∷ [])) in
    rw (get_next-ok (head_ne_null h l (x ∷ xs) is), is.linked.0, ◌>>=◌) (rw ne)

-- `list_pop` returns NULL from an empty list, and from any other takes out the first element.
pub pop-nil : (h : Heap) (l : ℕ) → IsList h l [] → list_pop l h ≡ some (null, h)
unfolding list_pop
pop-nil h l is = rw (empty_iff h l [] is, ◌>>=◌) refl

pub pop-cons :
    (h : Heap) (l x : ℕ) (xs : List ℕ) → IsList h l (x ∷ xs) → Yields (list_pop l h) l x xs
unfolding list_pop
pop-cons h l x xs is =
    let r = remove-delete h l x [] xs is in
    record {
      after = r.after;
      result = rw (
        empty_iff h l (x ∷ xs) is,
        get_next-ok (head_ne_null h l (x ∷ xs) is),
        is.linked.0,
        r.result,
        ◌>>=◌,
        ◌>>◌,
      );
      holds = r.holds;
    }
