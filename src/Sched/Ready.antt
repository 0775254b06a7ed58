-- ===== src/Sched/Ready.antt =====
-- What the scheduler's state stands for: a queue of ready threads behind the running one.
use k_os.Base.{
  ℕ, ◌^◌, ◌<◌, ◌≡◌, ◌≢◌, refl, true, false, ◌||◌, ◌==◌, List, [], ◌∷◌, ◌++◌, arith, ap, ◌∙◌,
}
use k_os.LinkedList.{tail_of}
use k_os.LinkedList.Links.{has, nodes, IsList, has-append}
use k_os.Sched.{Threads, task_ready, task_running, task_tag, task_of, is_asleep}

-- The places of the threads' links in the ready list.
unfoldable pub tags : List ℕ → List ℕ
tags [] = []
tags (t ∷ ts) = task_tag t ∷ tags ts

-- The link of a thread lies in the address space and is no sentinel of the ready list.
pub record IsTask (s : Threads) (t : ℕ) : Type 0 where
  pub fits : task_tag t < 2 ^ 32
  pub apart : has (task_tag t) (s.task_ready_list ∷ tail_of s.task_ready_list ∷ []) ≡ false

-- Every queued thread is ready.
abbrev pub Queued : Threads → List ℕ → Type 0
Queued s [] = Unit
Queued s (t ∷ ts) = (IsTask s t × ((s.tasks t).status ≡ task_ready)) × Queued s ts

-- The ready list holds exactly the threads `ts`, in this order.
pub record Ready (s : Threads) (ts : List ℕ) : Type 0 where
  pub list : IsList s.links s.task_ready_list (tags ts)
  pub queued : Queued s ts

-- A thread runs, `ts` are ready behind it, and the idle thread is asleep, ready or running.
pub record Running (s : Threads) (ts : List ℕ) : Type 0 where
  pub ready : Ready s ts
  pub runs : (s.tasks s.current).status ≡ task_running
  pub is_task : IsTask s s.current
  pub idle_task : IsTask s s.g_idle_task
  pub idle :
      (is_asleep (s.tasks s.g_idle_task).status
        || has s.g_idle_task ts
        || (s.g_idle_task == s.current))
      ≡ true

pub has-tags : (t : ℕ) (ts : List ℕ) → has (task_tag t) (tags ts) ≡ has t ts
unfolding tags
has-tags t [] = refl
has-tags t (u ∷ ts) = ground (arith, has-tags t ts)

pub tags-snoc : (ts : List ℕ) (t : ℕ) → tags (ts ++ t ∷ []) ≡ tags ts ++ task_tag t ∷ []
unfolding tags
tags-snoc [] t = refl
tags-snoc (u ∷ ts) t = ap (λ xs. task_tag u ∷ xs) (tags-snoc ts t)

-- A thread that is not queued may be put in the list.
pub fresh-nodes :
    (s : Threads) (t : ℕ) (ts : List ℕ)
    → IsTask s t
    → has t ts ≡ false
    → has (task_tag t) (nodes s.task_ready_list (tags ts)) ≡ false
fresh-nodes s t ts h f =
    let a = h.apart in
    ground
      (arith, has-tags t ts, has-append (task_tag t) (tags ts) (tail_of s.task_ready_list ∷ []))

pub task_of-task_tag : (t : ℕ) → task_tag t < 2 ^ 32 → task_of (task_tag t) ≡ t
task_of-task_tag t h = ground arith

-- A thread of another status is not queued.
pub not-Queued :
    (s : Threads) (t : ℕ) (ts : List ℕ)
    → Queued s ts
    → (s.tasks t).status ≢ task_ready
    → has t ts ≡ false
not-Queued s t [] q n = refl
not-Queued s t (u ∷ ts) q n = ground (arith, not-Queued s t ts q.1 n)

-- What keeps the lists' addresses and the ready status keeps the queue.
pub Queued-frame :
    (s s' : Threads) (ts : List ℕ)
    → s'.task_ready_list ≡ s.task_ready_list
    → ((t : ℕ) → has t ts ≡ true → (s'.tasks t).status ≡ (s.tasks t).status)
    → Queued s ts
    → Queued s' ts
Queued-frame s s' [] e same q = q
Queued-frame s s' (t ∷ ts) e same q = (
  (record { fits = q.0.0.fits; apart = rw e q.0.0.apart }, same t (ground arith) ∙ q.0.1),
  Queued-frame s s' ts e (λ u i. same u (ground arith)) q.1,
)

pub Queued-snoc :
    (s : Threads) (ts : List ℕ) (t : ℕ)
    → Queued s ts
    → IsTask s t
    → (s.tasks t).status ≡ task_ready
    → Queued s (ts ++ t ∷ [])
Queued-snoc s [] t q h e = ((h, e), q)
Queued-snoc s (u ∷ ts) t q h e = (q.0, Queued-snoc s ts t q.1 h e)
