-- ===== src/LinkedList/Walk.antt =====
-- The walks of code/lib/src/list.c: length, search and traversal end, and what they return.
use k_os.Base.{
  ℕ, zero, suc, ◌+◌, ◌≡◌, ◌≢◌, ◌<◌, refl, Bool, true, false, List, [], ◌∷◌, ◌++◌, ◌==◌, arith,
  if◌then◌else◌, ◌^◌, ==_refl, some, ap, length, Bool-cases, inl, inr, ◌∙◌,
}
use k_os.Base.Word.{u32}
use k_os.LinkedList.{
  Heap, null, tail_of, len_loop, list_len, find_loop, list_find, traversal_loop, list_traversal,
  ◌>>=◌, pure,
}
use k_os.LinkedList.Links.{has, Distinct, Linked, IsList, has-append}
use k_os.LinkedList.Edit.{get_next-ok}
use k_os.LinkedList.Change.{head_ne_null}
use k_os.LinkedList.Ops.{empty_iff}

-- The address after `p` in a chain to `q`: where a walk stands.
module _ (h : Heap) (q : ℕ) where
  -- A chain that a walk can follow to `q`.
  record Walkable (p : ℕ) (xs : List ℕ) : Type 0 where
    linked : Linked h p xs q
    apart : Distinct (xs ++ q ∷ [])
    not_null : has null (xs ++ q ∷ []) ≡ false

  Walkable-tail : (p x : ℕ) (xs : List ℕ) → Walkable p (x ∷ xs) → Walkable x xs
  Walkable-tail p x xs w = record {
    linked = w.linked.2;
    apart = w.apart.1;
    not_null = let n = w.not_null in ground arith;
  }

  here_ne : (p x : ℕ) (xs : List ℕ) → Walkable p (x ∷ xs) → (x == q) ≡ false
  here_ne p x xs w = let d = w.apart in ground (arith, has-append x xs (q ∷ []))

  here_ne_null : (p x : ℕ) (xs : List ℕ) → Walkable p (x ∷ xs) → x ≢ null
  here_ne_null p x xs w e = let n = w.not_null in ground arith

  len_loop_lem :
      (fuel p n : ℕ) (xs : List ℕ)
      → Walkable p xs
      → length xs < fuel
      → n < 2 ^ 32
      → len_loop fuel q (h p).next n h ≡ some (u32 (n + length xs), h)
  unfolding len_loop
  len_loop_lem zero p n xs w enough small = absurd (omega arith)
  len_loop_lem (suc fuel) p n [] w enough small =
      rw (w.linked.0, ==_refl q) (ap (λ k. some (k, h)) (omega arith))
  len_loop_lem (suc fuel) p n (x ∷ xs) w enough small =
      rw (w.linked.0, here_ne p x xs w)
        (rw (get_next-ok (here_ne_null p x xs w), ◌>>=◌)
          (len_loop_lem fuel x (u32 (n + 1)) xs (Walkable-tail p x xs w) (omega arith) (omega arith)
            ∙ ap (λ k. some (k, h)) (omega arith)))

  find_loop_lem :
      (fuel e p : ℕ) (xs : List ℕ)
      → Walkable p xs
      → length xs < fuel
      → find_loop fuel q e (h p).next h ≡ some (has e xs, h)
  unfolding find_loop
  find_loop_lem zero e p xs w enough = absurd (omega arith)
  find_loop_lem (suc fuel) e p [] w enough = rw (w.linked.0, ==_refl q)
  find_loop_lem (suc fuel) e p (x ∷ xs) w enough =
      let rest = find_loop_lem fuel e x xs (Walkable-tail p x xs w) (omega arith) in
      elim (Bool-cases (x == e)) [
        | inl hit ↦
            let hit' : (e == x) ≡ true = ground arith in
            rw (w.linked.0, here_ne p x xs w, hit, hit')
        | inr miss ↦
            let miss' : (e == x) ≡ false = ground arith in
            rw (w.linked.0, here_ne p x xs w, miss, miss')
              (rw (get_next-ok (here_ne_null p x xs w), ◌>>=◌) rest)
      ]

-- The first element that passes the test, or NULL.
unfoldable pub first_match : (ℕ → ℕ → Bool) → ℕ → List ℕ → ℕ
first_match func arg [] = null
first_match func arg (x ∷ xs) = if func x arg then x else first_match func arg xs

traversal_loop_lem :
    (h : Heap) (q fuel : ℕ) (func : ℕ → ℕ → Bool) (arg p : ℕ) (xs : List ℕ)
    → Walkable h q p xs
    → length xs < fuel
    → traversal_loop fuel func arg q (h p).next h ≡ some (first_match func arg xs, h)
unfolding traversal_loop first_match
traversal_loop_lem h q zero func arg p xs w enough = absurd (omega arith)
traversal_loop_lem h q (suc fuel) func arg p [] w enough = rw (w.linked.0, ==_refl q)
traversal_loop_lem h q (suc fuel) func arg p (x ∷ xs) w enough =
    let rest =
      traversal_loop_lem h q fuel func arg x xs (Walkable-tail h q p x xs w) (omega arith) in
    elim (Bool-cases (func x arg)) [
      | inl hit ↦ rw (w.linked.0, here_ne h q p x xs w, hit)
      | inr miss ↦
          rw (w.linked.0, here_ne h q p x xs w, miss)
            (rw (get_next-ok (here_ne_null h q p x xs w), ◌>>=◌) rest)
    ]

IsList-Walkable : (h : Heap) (l : ℕ) (xs : List ℕ) → IsList h l xs → Walkable h (tail_of l) l xs
IsList-Walkable h l xs is = record {
  linked = is.linked;
  apart = is.distinct.1;
  not_null = let n = is.not_null in ground arith;
}

traversal_rest :
    (h : Heap) (l fuel : ℕ) (func : ℕ → ℕ → Bool) (arg : ℕ) (xs : List ℕ)
    → IsList h l xs
    → length xs < fuel
    → (if elim xs [ [] ↦ true | x ∷ r ↦ false ]
          then pure null
          else traversal_loop fuel func arg (tail_of l) (h l).next)
        h
      ≡ some (first_match func arg xs, h)
unfolding first_match
traversal_rest h l fuel func arg [] is enough = refl
traversal_rest h l fuel func arg (x ∷ xs) is enough =
    traversal_loop_lem h (tail_of l) fuel func arg l (x ∷ xs) (IsList-Walkable h l (x ∷ xs) is)
      enough

module _ (h : Heap) (l fuel : ℕ) (xs : List ℕ) (is : IsList h l xs)
    (enough : length xs < fuel) where
  -- `list_len` ends, changes nothing and returns the number of elements, modulo 2 ^ 32.
  pub list_len-length : list_len fuel l h ≡ some (u32 (length xs), h)
  unfolding list_len
  list_len-length =
      rw (get_next-ok (head_ne_null h l xs is), ◌>>=◌)
        (len_loop_lem h (tail_of l) fuel l 0 xs (IsList-Walkable h l xs is) enough (omega arith)
          ∙ ap (λ k. some (k, h)) (omega arith))

  -- `list_find` ends, changes nothing and says whether the address is an element of the list.
  pub list_find-has : (e : ℕ) → list_find fuel l e h ≡ some (has e xs, h)
  unfolding list_find
  list_find-has e =
      rw (get_next-ok (head_ne_null h l xs is), ◌>>=◌)
        (find_loop_lem h (tail_of l) fuel e l xs (IsList-Walkable h l xs is) enough)

  -- `list_traversal` ends, changes nothing and returns the first element that passes the test, or
  -- NULL if there is none.
  pub list_traversal-first_match :
      (func : ℕ → ℕ → Bool) (arg : ℕ)
      → list_traversal fuel l func arg h ≡ some (first_match func arg xs, h)
  unfolding list_traversal
  list_traversal-first_match func arg =
      rw (get_next-ok (head_ne_null h l xs is), empty_iff h l xs is, ◌>>=◌)
        (traversal_rest h l fuel func arg xs is enough)
