-- ===== src/Sched/Switch.antt =====
-- The parts of a switch: the queue grows at an end, its first thread runs.
use k_os.Base.{
  ℕ, ◌≡◌, ◌≢◌, refl, true, false, ◌||◌, Option, some, List, [], ◌∷◌, ◌++◌, arith, ap, sym, subst,
  ◌∙◌,
}
use k_os.LinkedList.{Heap, tail_of, list_append, list_push}
use k_os.LinkedList.Apart.{append-apart}
use k_os.LinkedList.Links.{has, nodes, IsList, has-append}
use k_os.LinkedList.Ops.{push-cons, pop-cons, empty_iff}
use k_os.Sched.{
  Threads, Task, task_ready, task_tag, is_asleep, is_running, set_status, requeue, wake_idle,
  pick_up, run_next, schedule, kthread_unblock, links_after, ◌>>=◌,
}
use k_os.Sched.Ready.{
  tags, IsTask, Ready, Running, has-tags, tags-snoc, fresh-nodes, task_of-task_tag, Queued-frame,
  Queued-snoc,
}

-- A switch that ends with `t` running, `ts` queued, and all threads but `t` as in `k`.
pub record Switches (k : ℕ → Task) (r : Option Threads) (t : ℕ) (ts : List ℕ) : Type 0 where
  pub after : Threads
  pub result : r ≡ some after
  pub now : after.current ≡ t
  pub running : Running after ts
  pub others : (u : ℕ) → u ≢ t → after.tasks u ≡ k u

pub head-not-has : (s : Threads) (t : ℕ) (ts : List ℕ) → Ready s (t ∷ ts) → has t ts ≡ false
unfolding tags
head-not-has s t ts r =
    let d = r.list.distinct.1.0 in
    ground
      (arith, has-tags t ts, has-append (task_tag t) (tags ts) (tail_of s.task_ready_list ∷ []))

-- The first thread of the queue runs.
pub pick_up-Switches :
    (s : Threads) (t : ℕ) (ts : List ℕ)
    → Ready s (t ∷ ts)
    → IsTask s s.g_idle_task
    → (is_asleep (s.tasks s.g_idle_task).status || has s.g_idle_task (t ∷ ts)) ≡ true
    → Switches s.tasks (pick_up s) t ts
unfolding pick_up tags
pick_up-Switches s t ts r it idle =
    let pop = pop-cons s.links s.task_ready_list (task_tag t) (tags ts) r.list in
    let after = run_next (record s { links = pop.after }) t in
    let fresh = head-not-has s t ts r in
    record {
      after = after;
      result = rw (pop.result, task_of-task_tag t r.queued.0.0.fits, pick_up) refl;
      now = refl;
      running = record {
        ready = record {
          list = pop.holds;
          queued = Queued-frame s after ts refl (λ u i. ground arith) r.queued.1;
        };
        runs = ground arith;
        is_task = record { fits = r.queued.0.0.fits; apart = r.queued.0.0.apart };
        idle_task = record { fits = it.fits; apart = it.apart };
        idle = ground arith;
      };
      others = λ u n. ground arith;
    }

-- With a queue that is not empty, the idle thread is left alone.
pub wake_idle-cons : (s : Threads) (t : ℕ) (ts : List ℕ) → Ready s (t ∷ ts) → wake_idle s ≡ some s
unfolding wake_idle tags
wake_idle-cons s t ts r =
    rw (empty_iff s.links s.task_ready_list (tags (t ∷ ts)) r.list, wake_idle) refl

-- The state with the threads and the links replaced.
abbrev pub changed : Threads → Heap → (ℕ → Task) → Threads
changed s h k = record s { links = h; tasks = k }

-- Queueing a thread at the end writes to its links and to those of the ready list.
pub append-Ready :
    (s : Threads) (k : ℕ → Task) (u : ℕ) (ts : List ℕ)
    → Ready s ts
    → IsTask s u
    → (k u).status ≡ task_ready
    → has u ts ≡ false
    → ((v : ℕ) → v ≢ u → k v ≡ s.tasks v)
    → (h : Heap) × (links_after (list_append s.task_ready_list (task_tag u)) (changed s s.links k)
        ≡ some (changed s h k))
      × Ready (changed s h k) (ts ++ u ∷ [])
      × ((a : ℕ) → has a (task_tag u ∷ nodes s.task_ready_list (tags ts)) ≡ false → h a ≡ s.links a)
append-Ready s k u ts r it st f same =
    let app =
      append-apart s.links s.task_ready_list (task_tag u) (tags ts) r.list (fresh-nodes s u ts it f)
        (omega arith) in
    let after = changed s app.0 k in
    (
      app.0,
      rw (app.1, links_after) refl,
      record {
        list = subst (IsList app.0 s.task_ready_list) (sym (tags-snoc ts u)) app.2;
        queued =
            Queued-snoc after ts u
              (Queued-frame s after ts refl (λ v i. ap (λ x. x.status) (same v (λ e. ground arith)))
                r.queued)
              (record { fits = it.fits; apart = it.apart }) st;
      },
      app.3,
    )

-- Waking a thread puts it in front.
pub push-Ready :
    (s : Threads) (k : ℕ → Task) (u : ℕ) (ts : List ℕ)
    → Ready s ts
    → IsTask s u
    → (k u).status ≡ task_ready
    → has u ts ≡ false
    → ((v : ℕ) → v ≢ u → k v ≡ s.tasks v)
    → (h : Heap) × (links_after (list_push s.task_ready_list (task_tag u)) (changed s s.links k)
        ≡ some (changed s h k))
      × Ready (changed s h k) (u ∷ ts)
unfolding tags
push-Ready s k u ts r it st f same =
    let app =
      push-cons s.links s.task_ready_list (task_tag u) (tags ts) r.list (fresh-nodes s u ts it f)
        (omega arith) in
    let after = changed s app.after k in
    (
      app.after,
      rw (app.result, links_after) refl,
      record {
        list = app.holds;
        queued = (
          (record { fits = it.fits; apart = it.apart }, st),
          Queued-frame s after ts refl (λ v i. ap (λ x. x.status) (same v (λ e. ground arith)))
              r.queued,
        );
      },
    )

-- The same switch, said of another call and another state of the thread that runs.
pub Switches-from :
    (k k₁ : ℕ → Task) (r r₁ : Option Threads) (t : ℕ) (ts : List ℕ)
    → r ≡ r₁
    → ((u : ℕ) → u ≢ t → k₁ u ≡ k u)
    → Switches k₁ r₁ t ts
    → Switches k r t ts
Switches-from k k₁ r r₁ t ts e same w = record {
  after = w.after;
  result = e ∙ w.result;
  now = w.now;
  running = w.running;
  others = λ u n. w.others u n ∙ same u n;
}

-- The idle thread is asleep, or it is in the queue.
abbrev pub Idles : Threads → List ℕ → Type 0
Idles s ts = (is_asleep (s.tasks s.g_idle_task).status || has s.g_idle_task ts) ≡ true

-- A thread that has stopped running gives way to the first of the queue.
pub schedule-cons :
    (s : Threads) (t : ℕ) (ts : List ℕ)
    → Ready s (t ∷ ts)
    → IsTask s s.g_idle_task
    → Idles s (t ∷ ts)
    → is_running (s.tasks s.current).status ≡ false
    → Switches s.tasks (schedule s) t ts
unfolding schedule requeue
schedule-cons s t ts r it idle stopped =
    Switches-from s.tasks s.tasks (schedule s) (pick_up s) t ts
      (rw (stopped, wake_idle-cons s t ts r, ◌>>=◌) refl) (λ u n. refl)
      (pick_up-Switches s t ts r it idle)

-- With an empty queue the sleeping idle thread runs.
pub schedule-nil :
    (s : Threads)
    → Ready s []
    → IsTask s s.g_idle_task
    → is_asleep (s.tasks s.g_idle_task).status ≡ true
    → is_running (s.tasks s.current).status ≡ false
    → Switches s.tasks (schedule s) s.g_idle_task []
unfolding schedule requeue wake_idle kthread_unblock tags
schedule-nil s r it asleep stopped =
    let i = s.g_idle_task in
    let k = (set_status s i task_ready).tasks in
    let p = push-Ready s k i [] r it (ground arith) refl (λ v n. ground arith) in
    let s₁ = changed s p.0 k in
    Switches-from s.tasks k (schedule s) (pick_up s₁) i []
      (rw (stopped, empty_iff s.links s.task_ready_list [] r.list, asleep, p.1, ◌>>=◌) refl)
      (λ u n. ground arith)
      (pick_up-Switches s₁ i [] p.2 (record { fits = it.fits; apart = it.apart }) (ground arith))
