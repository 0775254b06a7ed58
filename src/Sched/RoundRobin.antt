-- ===== src/Sched/RoundRobin.antt =====
-- `schedule` and `kthread_yield` in a running thread rotate the queue.
use k_os.Base.{
  ℕ, ◌≡◌, ◌≢◌, refl, true, ◌||◌, ◌==◌, List, [], ◌∷◌, ◌++◌, arith, subst, Bool-cases, inl, inr,
}
use k_os.LinkedList.Links.{has, has-append}
use k_os.Sched.{
  Threads, Task, task_ready, is_asleep, is_running, set_status, set_ready, requeue, pick_up,
  schedule, kthread_yield, ◌>>=◌,
}
use k_os.Sched.Ready.{Ready, Running, not-Queued}
use k_os.Sched.Switch.{
  Switches, Idles, changed, append-Ready, pick_up-Switches, wake_idle-cons, Switches-from,
  schedule-cons,
}

-- The running thread behind the queue: the idle thread is asleep or among them.
Idles-snoc :
    (s : Threads) (k : ℕ → Task) (ts : List ℕ)
    → Running s ts
    → ((v : ℕ) → v ≢ s.current → k v ≡ s.tasks v)
    → (is_asleep (k s.g_idle_task).status || has s.g_idle_task (ts ++ s.current ∷ [])) ≡ true
Idles-snoc s k ts run same = elim (Bool-cases (s.g_idle_task == s.current)) [
  | inl here ↦ ground (arith, has-append s.g_idle_task ts (s.current ∷ []))
  | inr away ↦
      let e : k s.g_idle_task ≡ s.tasks s.g_idle_task = same s.g_idle_task (λ z. ground arith) in
      let i = run.idle in rw e (ground (arith, has-append s.g_idle_task ts (s.current ∷ [])))
]

-- Round robin: `schedule` in a running thread puts it behind the queue with a new time slice, and
-- the first of the queue then runs; the scheduler's invariant holds again.
pub schedule-Switches :
    (s : Threads) (t : ℕ) (ts rest : List ℕ)
    → Running s ts
    → ts ++ s.current ∷ [] ≡ t ∷ rest
    → Switches (set_ready s s.current).tasks (schedule s) t rest
unfolding schedule requeue
schedule-Switches s t ts rest run e =
    let cur = s.current in
    let k = (set_ready s cur).tasks in
    let f = not-Queued s cur ts run.ready.queued (λ z. ground (arith, run.runs)) in
    let p = append-Ready s k cur ts run.ready run.is_task (ground arith) f (λ v n. ground arith) in
    let s₁ = changed s p.0 k in
    let r : Ready s₁ (t ∷ rest) = subst (Ready s₁) e p.2 in
    let going : is_running (s.tasks cur).status ≡ true = rw run.runs refl in
    Switches-from k k (schedule s) (pick_up s₁) t rest
      (rw (going, p.1, wake_idle-cons s₁ t rest r, ◌>>=◌) refl) (λ u n. refl)
      (pick_up-Switches s₁ t rest r
        (record { fits = run.idle_task.fits; apart = run.idle_task.apart })
        (subst (Idles s₁) e (Idles-snoc s k ts run (λ v n. ground arith))))

-- `kthread_yield` puts the running thread behind the queue, its time slice as it is, and the first
-- of the queue then runs; the scheduler's invariant holds again.
pub yield-Switches :
    (s : Threads) (t : ℕ) (ts rest : List ℕ)
    → Running s ts
    → ts ++ s.current ∷ [] ≡ t ∷ rest
    → Switches (set_status s s.current task_ready).tasks (kthread_yield s) t rest
unfolding kthread_yield
yield-Switches s t ts rest run e =
    let cur = s.current in
    let k = (set_status s cur task_ready).tasks in
    let f = not-Queued s cur ts run.ready.queued (λ z. ground (arith, run.runs)) in
    let p = append-Ready s k cur ts run.ready run.is_task (ground arith) f (λ v n. ground arith) in
    let s₁ = changed s p.0 k in
    let r : Ready s₁ (t ∷ rest) = subst (Ready s₁) e p.2 in
    Switches-from k k (kthread_yield s) (schedule s₁) t rest (rw (p.1, ◌>>=◌) refl) (λ u n. refl)
      (schedule-cons s₁ t rest r (record { fits = run.idle_task.fits; apart = run.idle_task.apart })
        (subst (Idles s₁) e (Idles-snoc s k ts run (λ v n. ground arith))) (ground arith))
