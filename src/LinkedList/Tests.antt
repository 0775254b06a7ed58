-- ===== src/LinkedList/Tests.antt =====
-- A run of code/lib/src/list.c, and its theorems at a list of three elements.
use k_os.Base.{ℕ, ◌≡◌, refl, Option, none, some, [], ◌∷◌, arith, update}
use k_os.LinkedList.{
  ListElem, Heap, Cmd, ◌>>◌, get_prev, get_next, set_prev, set_next, list_init, list_insert,
  list_append, list_push, list_remove, list_len, len_loop,
}
use k_os.LinkedList.Links.{IsList}
use k_os.LinkedList.Ops.{Yields, init-nil, remove-delete}

-- Two elements appended, one pushed, the middle one removed.
build : Cmd ℕ
unfolding list_init list_append list_push list_remove list_insert list_len len_loop get_prev
    get_next set_prev set_next
build = do
  list_init 100
  list_append 100 10
  list_append 100 20
  list_push 100 30
  list_remove 10
  list_len 9 100

blank : Heap
blank a = record { prev = 0; next = 0 }

answer_of : Option (ℕ × Heap) → Option ℕ
answer_of none = none
answer_of (some (a, h)) = some a

build_leaves_two : answer_of (build blank) ≡ some 2
unfolding build blank answer_of
build_leaves_two = refl

elem : ℕ → ℕ → ListElem
elem p n = record { prev = p; next = n }

-- The list at 100 with the elements 30, 10 and 20.
three : Heap
unfolding blank elem
three =
    update
      (update (update (update (update blank 100 (elem 0 30)) 30 (elem 100 10)) 10 (elem 30 20)) 20
        (elem 10 108))
      108 (elem 20 0)

three-IsList : IsList three 100 (30 ∷ 10 ∷ 20 ∷ [])
unfolding three
three-IsList = record { linked = ground arith; distinct = ground arith; not_null = ground arith }

init-nil_example : Yields (list_init 100 blank) 100 tt []
init-nil_example = init-nil blank 100 (omega arith)

remove-delete_example : Yields (list_remove 10 three) 100 tt (30 ∷ 20 ∷ [])
remove-delete_example = remove-delete three 100 10 (30 ∷ []) (20 ∷ []) three-IsList
