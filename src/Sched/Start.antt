-- ===== src/Sched/Start.antt =====
-- `kthread_run` of code/kernel/src/thread.c: a new thread joins both lists.
use k_os.Base.{
  ℕ, ◌≡◌, refl, true, false, some, List, [], ◌∷◌, ◌++◌, arith, ==_refl, ==_ne, Bool-cases, inl, inr,
  sym, subst,
}
use k_os.LinkedList.{Heap, tail_of, list_append}
use k_os.LinkedList.Links.{has, nodes, IsList, has-append}
use k_os.LinkedList.Apart.{IsList-frame, append-apart}
use k_os.Sched.{
  Threads, task_ready, task_tag, task_all_tag, set_ready, sched_rr_time_slice, links_after,
  kthread_run, ◌>>=◌,
}
use k_os.Sched.Ready.{tags, tags-snoc, IsTask, Ready, Queued-frame}
use k_os.Sched.Switch.{changed, append-Ready}

-- The nodes of the ready list, with `task` queued, and of the list of all threads are different.
abbrev pub Disjoint : Threads → (ts all : List ℕ) → (task : ℕ) → Type 0
Disjoint s ts all task =
    (a : ℕ)
    → has a (task_tag task ∷ nodes s.task_ready_list (tags ts)) ≡ true
    → has a (task_all_tag task ∷ nodes s.task_all_list all) ≡ false

module _ (s : Threads) (task : ℕ) (ts all : List ℕ) (ready : Ready s ts) (is_task : IsTask s task)
    (new : has task ts ≡ false) (every : IsList s.links s.task_all_list all)
    (new_all : has (task_all_tag task) (nodes s.task_all_list all) ≡ false)
    (apart : Disjoint s ts all task) where
  queued_at_all :
      (a : ℕ)
      → has a (nodes s.task_all_list all) ≡ true
      → has a (task_tag task ∷ nodes s.task_ready_list (tags ts)) ≡ false
  queued_at_all a h =
      elim (Bool-cases (has a (task_tag task ∷ nodes s.task_ready_list (tags ts)))) [
        | inr e ↦ e
        | inl e ↦ absurd (ground (arith, apart a e, h))
      ]

  queued-nodes :
      (a : ℕ)
      → has a (nodes s.task_ready_list (tags (ts ++ task ∷ []))) ≡ true
      → has a (task_tag task ∷ nodes s.task_ready_list (tags ts)) ≡ true
  queued-nodes a h =
      let end = tail_of s.task_ready_list ∷ [] in
      let h' = subst (λ xs. has a (nodes s.task_ready_list xs) ≡ true) (tags-snoc ts task) h in
      ground (
        arith,
        h',
        has-append a (tags ts ++ task_tag task ∷ []) end,
        has-append a (tags ts) (task_tag task ∷ []),
        has-append a (tags ts) end,
      )

  run-step :
      (g after : Heap)
      → links_after (list_append s.task_ready_list (task_tag task)) (set_ready s task)
        ≡ some (changed s g (set_ready s task).tasks)
      → list_append s.task_all_list (task_all_tag task) g ≡ some (tt, after)
      → kthread_run s task ≡ some (changed s after (set_ready s task).tasks)
  unfolding kthread_run
  run-step g after first second = rw (kthread_run, first, ◌>>=◌, links_after, second) refl

  -- The run, and what it does not change.
  pub run-Made :
      (after : Threads) × (kthread_run s task ≡ some after)
      × Ready after (ts ++ task ∷ [])
      × IsList after.links after.task_all_list (all ++ task_all_tag task ∷ [])
      × (after.tasks task ≡ record { status = task_ready; time_slice = sched_rr_time_slice })
      × (after ≡ changed s after.links (set_ready s task).tasks)
  unfolding kthread_run
  run-Made =
      let k = (set_ready s task).tasks in
      let first =
        append-Ready s k task ts ready is_task (rw (==_refl task) refl) new
          (λ v ne. rw (==_ne task v (λ e. ne (sym e))) refl) in
      let second =
        append-apart first.0 s.task_all_list (task_all_tag task) all
          (IsList-frame s.links first.0 s.task_all_list all (λ a h. first.3 a (queued_at_all a h))
            every)
          new_all (omega arith) in
      let after = changed s second.0 k in
      (
        after,
        run-step first.0 second.0 first.1 second.1,
        record {
          list =
              IsList-frame first.0 second.0 s.task_ready_list (tags (ts ++ task ∷ []))
                (λ a h. second.3 a (apart a (queued-nodes a h))) first.2.list;
          queued =
              Queued-frame (changed s first.0 k) after (ts ++ task ∷ []) refl (λ t h. refl)
                first.2.queued;
        },
        second.2,
        rw (==_refl task) refl,
        refl,
      )

  -- `kthread_run` on a thread in neither list, with the nodes of both lists apart: it is ready with
  -- a full time slice, last in the ready list and last in the list of all threads.
  pub run-Ready :
      (after : Threads) × (kthread_run s task ≡ some after)
      × Ready after (ts ++ task ∷ [])
      × IsList after.links after.task_all_list (all ++ task_all_tag task ∷ [])
      × (after.tasks task ≡ record { status = task_ready; time_slice = sched_rr_time_slice })
  run-Ready = let r = run-Made in (r.0, r.1, r.2, r.3, r.4)
