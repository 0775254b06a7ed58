-- ===== src/Sched/Init.antt =====
-- code/kernel/src/thread.c: `kthread_init` and `main_thread_init`, the start of the first two threads.
-- `esp` is the stack pointer of the boot code, from which it takes its own `task_struct`.
pub mod Started
pub mod TwoThreads
mod Tests
use k_os.Base.{ℕ, ◌+◌, ◌*◌, Option, none, some, update}
use k_os.CString.{memset, strcpy}
use k_os.LinkedList.{list_init}
use k_os.Sched.{Threads, links_after, kthread_run, ◌>>=◌}
use k_os.Sched.Create.{
  Machine, kthread_create, kthread_current, cleared, zero_struct, task_name, stack_magic_at,
  stack_magic, task_struct_size,
}

abbrev pub with_threads : Machine → Threads → Machine
with_threads m s = record m { threads = s }

-- `name` is the address of "main".
unfoldable pub main_thread_init : (fuel : ℕ) → Machine → (esp name : ℕ) → Option Machine
main_thread_init fuel m esp name = do
  let task = kthread_current esp
  bytes ← strcpy fuel (memset m.bytes task 0 task_struct_size) (task_name task) name
  threads ← kthread_run (record (cleared m.threads task) { current = task }) task
  some (record {
    kernel = m.kernel;
    threads = threads;
    words = update (update (zero_struct m.words task) task esp) (stack_magic_at task) stack_magic;
    bytes = bytes;
  })

-- `idle_name` and `main_name` are the addresses of "idle" and "main".
unfoldable pub kthread_init :
    (fuel : ℕ) → Machine → (kernel_thread idle_thread idle_name main_name esp : ℕ) → Option Machine
kthread_init fuel m kernel_thread idle_thread idle_name main_name esp = do
  s₁ ← links_after (list_init m.threads.task_ready_list) m.threads
  s₂ ← links_after (list_init s₁.task_all_list) s₁
  (idle, m₁) ← kthread_create fuel (with_threads m s₂) kernel_thread idle_thread 0 idle_name
  s₃ ← kthread_run (record m₁.threads { g_idle_task = idle }) idle
  main_thread_init fuel (with_threads m₁ s₃) esp main_name
