-- ===== src/Sched/Sleep.antt =====
-- `kthread_block` and `kthread_unblock`: threads go to sleep and wake up.
use k_os.Base.{ℕ, ◌≡◌, ◌≢◌, refl, true, false, some, List, [], ◌∷◌, arith, sym, subst}
use k_os.LinkedList.{Heap}
use k_os.LinkedList.Links.{has}
use k_os.Sched.{
  Threads, TaskStatus, task_ready, task_running, task_blocked, task_waiting, task_hanging,
  task_died, is_asleep, is_running, set_status, schedule, kthread_unblock, kthread_block,
}
use k_os.Sched.Ready.{IsTask, Ready, Running, not-Queued, Queued-frame}
use k_os.Sched.Switch.{Switches, changed, push-Ready, Switches-from, schedule-cons, schedule-nil}

awake_frame :
    (s : Threads) (stat : TaskStatus) (u : ℕ) (ts : List ℕ)
    → has s.current ts ≡ false
    → has u ts ≡ true
    → ((set_status s s.current stat).tasks u).status ≡ (s.tasks u).status
awake_frame s stat u ts f i =
    let ne : u ≢ s.current =
      λ z. let i' = subst (λ v. has v ts ≡ true) z i in ground (arith, i', f) in
    ground arith

asleep_stops : (stat : TaskStatus) → is_asleep stat ≡ true → is_running stat ≡ false
asleep_stops task_running h = absurd (ground arith)
asleep_stops task_ready h = refl
asleep_stops task_blocked h = refl
asleep_stops task_waiting h = refl
asleep_stops task_hanging h = refl
asleep_stops task_died h = refl

-- Who runs when the running thread goes to sleep, and who is queued then.
abbrev pub next_thread : Threads → List ℕ → ℕ
next_thread s [] = s.g_idle_task
next_thread s (t ∷ ts) = t

abbrev pub others_queued : List ℕ → List ℕ
others_queued [] = []
others_queued (t ∷ ts) = ts

-- `kthread_block` with a sleeping status takes the running thread off the processor: the first of
-- the queue runs, or the idle thread from an empty queue; the scheduler's invariant holds again.
pub block-Switches :
    (s : Threads) (stat : TaskStatus) (ts : List ℕ)
    → Running s ts
    → is_asleep stat ≡ true
    → Switches
        (set_status s s.current stat).tasks
        (kthread_block s stat)
        (next_thread s ts)
        (others_queued ts)
unfolding kthread_block
block-Switches s stat [] run asleep =
    let s₁ = set_status s s.current stat in
    let r : Ready s₁ [] = record { list = run.ready.list; queued = tt } in
    let i = run.idle in
    Switches-from s₁.tasks s₁.tasks (kthread_block s stat) (schedule s₁) s.g_idle_task []
      (rw asleep refl) (λ u n. refl)
      (schedule-nil s₁ r (record { fits = run.idle_task.fits; apart = run.idle_task.apart })
        (ground arith) (ground (arith, asleep_stops stat asleep)))
block-Switches s stat (t ∷ ts) run asleep =
    let s₁ = set_status s s.current stat in
    let f = not-Queued s s.current (t ∷ ts) run.ready.queued (λ z. ground (arith, run.runs)) in
    let r : Ready s₁ (t ∷ ts) = record {
      list = run.ready.list;
      queued =
          Queued-frame s s₁ (t ∷ ts) refl (λ u i. awake_frame s stat u (t ∷ ts) f i)
            run.ready.queued;
    } in
    let i = run.idle in
    Switches-from s₁.tasks s₁.tasks (kthread_block s stat) (schedule s₁) t ts (rw asleep refl)
      (λ u n. refl)
      (schedule-cons s₁ t ts r (record { fits = run.idle_task.fits; apart = run.idle_task.apart })
        (ground arith) (ground (arith, asleep_stops stat asleep)))

-- `kthread_unblock` of a sleeping thread ends with that thread at the front of the queue; nothing
-- else changes, and the scheduler's invariant holds again.
pub unblock-cons :
    (s : Threads) (t : ℕ) (ts : List ℕ)
    → Running s ts
    → IsTask s t
    → is_asleep (s.tasks t).status ≡ true
    → (h : Heap) × (kthread_unblock s t ≡ some (changed s h (set_status s t task_ready).tasks))
      × Running (changed s h (set_status s t task_ready).tasks) (t ∷ ts)
unfolding kthread_unblock
unblock-cons s t ts run it asleep =
    let k = (set_status s t task_ready).tasks in
    let f = not-Queued s t ts run.ready.queued (λ z. ground arith) in
    let p = push-Ready s k t ts run.ready it (ground arith) f (λ v n. ground arith) in
    let ne : s.current ≢ t = λ z.
      let e : is_asleep (s.tasks s.current).status ≡ true =
        subst (λ u. is_asleep (s.tasks u).status ≡ true) (sym z) asleep in
      let e' = rw run.runs at e in ground arith in
    let i = run.idle in
    (
      p.0,
      rw (asleep, p.1) refl,
      record {
        ready = p.2;
        runs = ground (arith, run.runs);
        is_task = record { fits = run.is_task.fits; apart = run.is_task.apart };
        idle_task = record { fits = run.idle_task.fits; apart = run.idle_task.apart };
        idle = ground arith;
      },
    )
