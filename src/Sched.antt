-- ===== src/Sched.antt =====
-- code/kernel/src/sched.c and code/kernel/src/thread.c: the states of threads and the ready list.
-- A thread is the address of its `struct task_struct`; the links of the lists stand in the memory
-- of LinkedList. Every operation here runs with interrupts off, so it is one step; `switch_to` makes
-- the next thread the current one, and what stands behind it in the source only restores the
-- interrupt flag when the thread runs again. `none` is a fault in the list operations.
pub mod Ready
pub mod Switch
pub mod RoundRobin
pub mod Sleep
pub mod Start
pub mod Exit
pub mod Create
pub mod Init
mod Tests
use k_os.Base.{ℕ, ◌+◌, ◌*◌, ◌/◌, Bool, true, false, ◌==◌, Option, none, some, if◌then◌else◌, update}
use k_os.Base.Word.{u32, sub32}
use k_os.LinkedList.{
  Heap, Cmd, list_init, list_append, list_push, list_pop, list_empty, list_remove,
}

-- `enum task_status`
pub data TaskStatus : Type 0 where
  task_running task_ready task_blocked task_waiting task_hanging task_died : TaskStatus

-- What the scheduler uses of `struct task_struct`, but for the links.
pub record Task : Type 0 where
  pub status : TaskStatus
  pub time_slice : ℕ

-- The addresses of the two lists, the idle thread, the running thread, the links and the threads.
pub record Threads : Type 0 where
  pub task_ready_list : ℕ
  pub task_all_list : ℕ
  pub g_idle_task : ℕ
  pub current : ℕ
  pub links : Heap
  pub tasks : ℕ → Task

-- `&task->task_tag`, behind `kstack`, `status` and `time_slice`, and `&task->task_all_tag`.
abbrev pub task_tag : ℕ → ℕ
task_tag task = task + 12

abbrev pub task_all_tag : ℕ → ℕ
task_all_tag task = task + 20

-- `elem2entry(struct task_struct, task_tag, elem)`
abbrev pub task_of : ℕ → ℕ
task_of elem = sub32 elem 12

-- `100 * 1000 / SYS_TICK_US`: 100 ms in ticks of 10 us.
abbrev pub sched_rr_time_slice : ℕ
sched_rr_time_slice = 100 * 1000 / 10

infixl 5 ◌>>=◌
abbrev pub ◌>>=◌ : {A B : Type 0} → Option A → (A → Option B) → Option B
first >>= next = elim first [ none ↦ none | some a ↦ next a ]

-- A list operation on the links.
abbrev pub links_after : Cmd (Unit {0}) → Threads → Option Threads
links_after c s = elim (c s.links) [ none ↦ none | some (done, h) ↦ some (record s { links = h }) ]

abbrev pub set_status : Threads → ℕ → TaskStatus → Threads
set_status s task st = record s {
  tasks = update s.tasks task (record (s.tasks task) { status = st });
}

abbrev pub set_ready : Threads → ℕ → Threads
set_ready s task = record s {
  tasks = update s.tasks task (record { status = task_ready; time_slice = sched_rr_time_slice });
}

abbrev pub is_running : TaskStatus → Bool
is_running task_running = true
is_running task_ready = false
is_running task_blocked = false
is_running task_waiting = false
is_running task_hanging = false
is_running task_died = false

-- `TASK_BLOCKED == stat || TASK_WAITING == stat || TASK_HANGING == stat`
abbrev pub is_asleep : TaskStatus → Bool
is_asleep task_running = false
is_asleep task_ready = false
is_asleep task_blocked = true
is_asleep task_waiting = true
is_asleep task_hanging = true
is_asleep task_died = false

unfoldable pub kthread_unblock : Threads → ℕ → Option Threads
kthread_unblock s task =
    let woken =
      links_after (list_push s.task_ready_list (task_tag task)) (set_status s task task_ready) in
    if is_asleep (s.tasks task).status then woken else some s

-- A thread that still runs goes to the end of the ready list with a new time slice.
unfoldable pub requeue : Threads → Option Threads
requeue s =
    let last =
      links_after (list_append s.task_ready_list (task_tag s.current)) (set_ready s s.current) in
    if is_running (s.tasks s.current).status then last else some s

-- The idle thread is woken if there is no other.
unfoldable pub wake_idle : Threads → Option Threads
wake_idle s = elim (list_empty s.task_ready_list s.links) [
  | none ↦ none
  | some (empty, h) ↦
      if empty
      then kthread_unblock (record s { links = h }) s.g_idle_task
      else some (record s { links = h })
]

-- The next thread runs: its status, and `switch_to`.
abbrev pub run_next : Threads → ℕ → Threads
run_next s task = record (set_status s task task_running) { current = task }

-- The first thread of the ready list.
unfoldable pub pick_up : Threads → Option Threads
pick_up s = elim (list_pop s.task_ready_list s.links) [
  | none ↦ none
  | some (tag, h) ↦ some (run_next (record s { links = h }) (task_of tag))
]

unfoldable pub schedule : Threads → Option Threads
schedule s = do s' ← requeue s; s'' ← wake_idle s'; pick_up s''

unfoldable pub kthread_run : Threads → ℕ → Option Threads
kthread_run s task = do
  s' ← links_after (list_append s.task_ready_list (task_tag task)) (set_ready s task)
  links_after (list_append s'.task_all_list (task_all_tag task)) s'

-- Another status than the three does nothing.
unfoldable pub kthread_block : Threads → TaskStatus → Option Threads
kthread_block s stat = if is_asleep stat then schedule (set_status s s.current stat) else some s

unfoldable pub kthread_yield : Threads → Option Threads
kthread_yield s = do
  s' ←
      links_after (list_append s.task_ready_list (task_tag s.current))
        (set_status s s.current task_ready)
  schedule s'

-- The page of the `struct task_struct` is given back in between (`page_free`, for every thread but
-- `g_main_task`), which this state does not show; the links and the status are read from it after that.
unfoldable pub kthread_exit : Threads → Option Threads
kthread_exit s = do
  s' ← links_after (list_remove (task_tag s.current)) (set_status s s.current task_died)
  s'' ← links_after (list_remove (task_all_tag s.current)) s'
  schedule s''
