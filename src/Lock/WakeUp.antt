-- ===== src/Lock/WakeUp.antt =====
-- `mutex_lock` and `sema_down` leave the spinlock before they block. A thread that gives the
-- resource back in between takes the waiter off the list, and wakes nobody.
use k_os.Base.{
  ℕ, ◌<◌, ◌≡◌, ◌≢◌, refl, true, false, List, [], ◌∷◌, ◌==◌, update, arith, ==_ne, Bool-cases, inl,
  inr, ◌∙◌, ap, sym,
}
use k_os.Lock.{
  Resource, down, up, Pc, idle, spinning, yielding, inside, taking, parking, taken, parked, going,
  asleep, owning, waking, leaving, System, is_asleep, wake, Step, Steps, here, later, ◌⨾◌, init,
  call_down, call_up, win, lose, stay, retry, find_free, find_busy, take, park, unlock_taken,
  unlock_parked, block, give, wake_none, wake_one, unlock_last,
}
use k_os.LinkedList.Links.{has, has-append}
use k_os.Lock.Invariant.{wake-cases, wake_awake}

-- Blocked, and in no list.
pub record Lost {R : Type 0} (s : System R) (w : ℕ) : Type 0 where
  pub blocked : s.pc w ≡ asleep
  pub not_waiting : has w s.wait_list ≡ false

-- A thread that runs is another than one that sleeps.
runs-other :
    {R : Type 0} {s : System R} {w i : ℕ} {q : Pc}
    → Lost s w
    → s.pc i ≡ q
    → is_asleep q ≡ false
    → i ≢ w
runs-other {s} l at awake same =
    ground (arith, ap is_asleep (sym at ∙ ap s.pc same ∙ l.blocked), awake)

-- Thread `i`, which is not asleep, goes to `p`, and the waiters to `xs`.
others-Lost :
    {R : Type 0} {s : System R} {w i v : ℕ} {q : Pc} (p : Pc) {r : R} {xs : List ℕ}
    → Lost s w
    → s.pc i ≡ q
    → is_asleep q ≡ false
    → has w xs ≡ false
    → Lost (record { value = v; resource = r; wait_list = xs; pc = update s.pc i p }) w
others-Lost {s} {w} {i} p l at awake away = record {
  blocked = elim (Bool-cases (i == w)) [
    | inl e ↦ absurd (runs-other l at awake (ground (arith, e)))
    | inr e ↦ ground (arith, e, l.blocked)
  ];
  not_waiting = away;
}

-- `kthread_unblock` on another thread.
wake-Lost :
    {R : Type 0} {s : System R} {w : ℕ} (v : ℕ)
    → Lost s w
    → v ≢ w
    → Lost (record s { pc = wake s.pc v }) w
wake-Lost {s} {w} v l other = record {
  blocked = elim (wake-cases s.pc v w) [ inl e ↦ e ∙ l.blocked | inr (e, a, b) ↦ absurd (other e) ];
  not_waiting = l.not_waiting;
}

has_parts : (w v : ℕ) (vs : List ℕ) → has w (v ∷ vs) ≡ false → (v ≢ w) × (has w vs ≡ false)
has_parts w v vs h = (ground (arith, h), ground (arith, h))

Step-Lost :
    {R : Type 0} {res : Resource R} {n w : ℕ} {s t : System R}
    → Step res n s t
    → Lost s w
    → Lost t w
Step-Lost (call_down i lt e) l = others-Lost (spinning down) l e refl l.not_waiting
Step-Lost (call_up i lt e) l = others-Lost (spinning up) l e refl l.not_waiting
Step-Lost (win i c lt e z) l = others-Lost (inside c) l e refl l.not_waiting
Step-Lost (lose i c lt e z) l = others-Lost (yielding c) l e refl l.not_waiting
Step-Lost (stay i c lt e z) l = l
Step-Lost (retry i c lt e z) l = others-Lost (spinning c) l e refl l.not_waiting
Step-Lost (find_free i lt e f) l = others-Lost taking l e refl l.not_waiting
Step-Lost (find_busy i lt e f) l = others-Lost parking l e refl l.not_waiting
Step-Lost (take i lt e) l = others-Lost taken l e refl l.not_waiting
Step-Lost {w = w} {s = s} (park i lt e) l = others-Lost parked l e refl (
    ground (
      arith,
      has-append w s.wait_list (i ∷ []),
      l.not_waiting,
      ==_ne w i (λ z. runs-other l e refl (sym z)),
    ))
Step-Lost (unlock_taken i lt e) l = others-Lost owning l e refl l.not_waiting
Step-Lost (unlock_parked i lt e) l = others-Lost going l e refl l.not_waiting
Step-Lost (block i lt e) l = others-Lost asleep l e refl l.not_waiting
Step-Lost (give i lt e) l = others-Lost waking l e refl l.not_waiting
Step-Lost (wake_none i lt e f) l = others-Lost leaving l e refl l.not_waiting
Step-Lost {w = w} {s = s} (wake_one i v vs lt e f) l =
    others-Lost leaving (wake-Lost v l away.0) (wake_awake s.pc v i waking e refl) refl away.1
  where
    away : (v ≢ w) × (has w vs ≡ false)
    away = has_parts w v vs (ap (has w) (sym f) ∙ l.not_waiting)
Step-Lost (unlock_last i lt e) l = others-Lost idle l e refl l.not_waiting

-- A thread that is blocked in `mutex_lock` or `sema_down`, and that the wait list of the lock does
-- not hold, stays blocked whatever steps the `n` threads take on that lock.
pub sleeps_forever :
    {R : Type 0} (res : Resource R) (n w : ℕ) (s t : System R)
    → Steps res n s t
    → s.pc w ≡ asleep
    → has w s.wait_list ≡ false
    → t.pc w ≡ asleep
sleeps_forever {R = R} res n w s t h blocked away = (keeps h).blocked
  where
    keeps : {u : System R} → Steps res n s u → Lost u w
    keeps here = record { blocked = blocked; not_waiting = away }
    keeps (later more step) = Step-Lost step (keeps more)

-- Two threads or more use a lock that is free at first, and not after one has taken it. Then
-- there is a sequence of steps after which the spinlock is free, the resource has been given back,
-- the wait list is empty, thread 0 is out of the lock, and thread 1 is blocked in `mutex_lock` or
-- `sema_down`.
pub wake_up_lost :
    {R : Type 0} (res : Resource R) (r : R) (n : ℕ)
    → 1 < n
    → res.is_free r ≡ true
    → res.is_free (res.take 0 r) ≡ false
    → (s : System R) × Steps res n (init r) s
      × (s.value ≡ 0)
      × (s.resource ≡ res.give (res.take 0 r))
      × (s.wait_list ≡ [])
      × (s.pc 0 ≡ idle)
      × (s.pc 1 ≡ asleep)
wake_up_lost res r n two free busy = (
  _,
  here
      ⨾ call_down 0 low refl
      ⨾ win 0 down low refl refl
      ⨾ find_free 0 low refl free
      ⨾ take 0 low refl
      ⨾ unlock_taken 0 low refl
      ⨾ call_down 1 two refl
      ⨾ win 1 down two refl refl
      ⨾ find_busy 1 two refl busy
      ⨾ park 1 two refl
      ⨾ unlock_parked 1 two refl
      ⨾ call_up 0 low refl
      ⨾ win 0 up low refl refl
      ⨾ give 0 low refl
      ⨾ wake_one 0 1 [] low refl refl
      ⨾ unlock_last 0 low refl
      ⨾ block 1 two refl,
  refl,
  refl,
  refl,
  refl,
  refl,
)
  where
    low : 0 < n
    low = omega (arith, two)
