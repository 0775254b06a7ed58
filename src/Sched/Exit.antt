-- ===== src/Sched/Exit.antt =====
-- `kthread_exit` of code/kernel/src/thread.c takes the running thread out of the ready list, where
-- it is not: its links are those that `list_pop` left when it was picked.
use k_os.Base.{ℕ, ◌≡◌, true, false, List, ◌∷◌, ◌++◌}
use k_os.LinkedList.Links.{has, nodes, IsList}
use k_os.Sched.{Threads, Task, task_running, task_died, task_tag, task_all_tag, set_status}
use k_os.Sched.Ready.{tags, IsTask, Ready}
use k_os.Sched.Switch.{Idles}

module _ (s : Threads) (u x : ℕ) (xs befores afters : List ℕ) (ready : Ready s (u ∷ x ∷ xs))
    (runs : (s.tasks s.current).status ≡ task_running)
    (stale : s.links (task_tag s.current) ≡ record { prev = s.task_ready_list; next = task_tag x })
    (every : IsList s.links s.task_all_list (befores ++ task_all_tag s.current ∷ afters))
    (apart : (a : ℕ)
      → has a (nodes s.task_ready_list (tags (u ∷ x ∷ xs))) ≡ true
      → has a (nodes s.task_all_list (befores ++ task_all_tag s.current ∷ afters)) ≡ false)
    (idle_task : IsTask s s.g_idle_task) (idle : Idles s (x ∷ xs)) where
  abbrev died : ℕ → Task
  died = (set_status s s.current task_died).tasks
