-- ===== src/LinkedList.antt =====
-- code/lib/src/list.c and code/lib/inc/list.h: the intrusive doubly linked list with two sentinels.
-- The memory maps the address of each `struct list_elem` to its two pointers; distinct addresses
-- are distinct elements. An operation yields `none` where it follows a NULL pointer, and a walk
-- also where its fuel runs out before it meets the tail sentinel.
pub mod Links
pub mod Nodes
pub mod Edit
pub mod Change
pub mod Ops
pub mod Apart
pub mod Walk
mod Tests
use k_os.Base.{
  ℕ, zero, suc, ◌+◌, ◌≡◌, Bool, true, false, Option, none, some, ◌==◌, if◌then◌else◌, update,
}
use k_os.Base.Word.{u32}

-- `struct list_elem`
pub record ListElem : Type 0 where
  pub prev : ℕ
  pub next : ℕ

abbrev pub Heap : Type 0
Heap = ℕ → ListElem

abbrev pub null : ℕ
null = 0

abbrev pub Cmd : Type 0 → Type 0
Cmd A = Heap → Option (A × Heap)

abbrev pub pure : {A : Type 0} → A → Cmd A
pure a h = some (a, h)

-- What follows a command: nothing after a fault.
abbrev pub continue : {A B : Type 0} → (A → Cmd B) → Option (A × Heap) → Option (B × Heap)
continue next none = none
continue next (some (value, after)) = next value after

infixl 5 ◌>>=◌ ◌>>◌
abbrev pub ◌>>=◌ : {A B : Type 0} → Cmd A → (A → Cmd B) → Cmd B
first >>= next = λ before. continue next (first before)

abbrev pub ◌>>◌ : {B : Type 0} → Cmd (Unit {0}) → Cmd B → Cmd B
first >> second = λ before. continue (λ done. second) (first before)

-- `p->prev`, `p->next` and the assignments to them.
unfoldable pub get_prev : ℕ → Cmd ℕ
get_prev p h = if p == null then none else some ((h p).prev, h)

unfoldable pub get_next : ℕ → Cmd ℕ
get_next p h = if p == null then none else some ((h p).next, h)

unfoldable pub set_prev : ℕ → ℕ → Cmd (Unit {0})
set_prev p v h =
    if p == null then none else some (tt, update h p (record { prev = v; next = (h p).next }))

unfoldable pub set_next : ℕ → ℕ → Cmd (Unit {0})
set_next p v h =
    if p == null then none else some (tt, update h p (record { prev = (h p).prev; next = v }))

-- `struct list` stands at an address: `&plist->head`, and `&plist->tail` behind it.
abbrev pub head_of : ℕ → ℕ
head_of plist = plist

abbrev pub tail_of : ℕ → ℕ
tail_of plist = plist + 8

unfoldable pub list_init : ℕ → Cmd (Unit {0})
list_init plist = do
  set_prev (head_of plist) null
  set_next (head_of plist) (tail_of plist)
  set_prev (tail_of plist) (head_of plist)
  set_next (tail_of plist) null

-- Inserts `elem` before `prev_elem`.
unfoldable pub list_insert : (prev_elem elem : ℕ) → Cmd (Unit {0})
list_insert prev_elem elem = do
  before ← get_prev prev_elem
  set_next before elem
  before' ← get_prev prev_elem
  set_prev elem before'
  set_next elem prev_elem
  set_prev prev_elem elem

unfoldable pub list_remove : ℕ → Cmd (Unit {0})
list_remove elem = do
  before ← get_prev elem
  after ← get_next elem
  set_next before after
  after' ← get_next elem
  before' ← get_prev elem
  set_prev after' before'

unfoldable pub list_append : (plist elem : ℕ) → Cmd (Unit {0})
list_append plist elem = list_insert (tail_of plist) elem

unfoldable pub list_push : (plist elem : ℕ) → Cmd (Unit {0})
list_push plist elem = do first ← get_next (head_of plist); list_insert first elem

unfoldable pub list_empty : ℕ → Cmd Bool
list_empty plist = do first ← get_next (head_of plist); pure (first == tail_of plist)

-- The first element, or NULL from an empty list.
unfoldable pub list_pop : ℕ → Cmd ℕ
list_pop plist = do
  none_left ← list_empty plist
  if none_left then pure null else do elem ← get_next (head_of plist); list_remove elem; pure elem

unfoldable pub len_loop : ℕ → (tail elem length : ℕ) → Cmd ℕ
len_loop zero tail elem length = λ h. none
len_loop (suc fuel) tail elem length =
    if elem == tail
    then pure length
    else do next ← get_next elem; len_loop fuel tail next (u32 (length + 1))

unfoldable pub list_len : ℕ → ℕ → Cmd ℕ
list_len fuel plist = do first ← get_next (head_of plist); len_loop fuel (tail_of plist) first 0

unfoldable pub find_loop : ℕ → (tail elem cur_elem : ℕ) → Cmd Bool
find_loop zero tail elem cur_elem = λ h. none
find_loop (suc fuel) tail elem cur_elem =
    if cur_elem == tail
    then pure false
    else if cur_elem == elem
    then pure true
    else do next ← get_next cur_elem; find_loop fuel tail elem next

unfoldable pub list_find : ℕ → (plist elem : ℕ) → Cmd Bool
list_find fuel plist elem = do
  first ← get_next (head_of plist)
  find_loop fuel (tail_of plist) elem first

-- The callback is a test of an element and the argument; it changes no link.
unfoldable pub traversal_loop : ℕ → (ℕ → ℕ → Bool) → (arg tail elem : ℕ) → Cmd ℕ
traversal_loop zero func arg tail elem = λ h. none
traversal_loop (suc fuel) func arg tail elem =
    if elem == tail
    then pure null
    else if func elem arg
    then pure elem
    else do next ← get_next elem; traversal_loop fuel func arg tail next

unfoldable pub list_traversal : ℕ → (plist : ℕ) → (ℕ → ℕ → Bool) → (arg : ℕ) → Cmd ℕ
list_traversal fuel plist func arg = do
  first ← get_next (head_of plist)
  none_left ← list_empty plist
  if none_left then pure null else traversal_loop fuel func arg (tail_of plist) first
