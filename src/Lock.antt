-- ===== src/Lock.antt =====
-- code/kernel/src/lock.c: spinlock, mutex and semaphore, as threads that take one step at a time in
-- any order. `mutex_lock` and `sema_down` are the same code over another resource, as are
-- `mutex_unlock` and `sema_up`; so the steps are stated once, over what the spinlock guards.
pub mod Invariant
pub mod Reached
pub mod Exclusion
pub mod WakeUp
mod Tests
use k_os.Base.{
  ℕ, zero, suc, ◌+◌, ◌-◌, ◌<◌, ◌≡◌, ◌≢◌, Bool, true, false, ltb, Option, none, some, List, [], ◌∷◌,
  ◌++◌, if◌then◌else◌, update,
}
use k_os.Base.Word.{u32}

-- What a lock guards: the test for a free one, and its two changes.
pub record Resource (R : Type 0) : Type 0 where
  pub is_free : R → Bool
  pub take : (task : ℕ) → R → R
  pub give : R → R

abbrev pub no_owner : Option ℕ → Bool
no_owner none = true
no_owner (some task) = false

-- The field `owner` of `struct mutex`.
abbrev pub mutex : Resource (Option ℕ)
mutex = record { is_free = no_owner; take = λ task owner. some task; give = λ owner. none }

-- The field `count` of `struct semaphore`.
abbrev pub semaphore : Resource ℕ
semaphore = record {
  is_free = λ count. ltb 0 count;
  take = λ task count. count - 1;
  give = λ count. u32 (count + 1);
}

-- `mutex_lock` or `sema_down`; `mutex_unlock` or `sema_up`.
pub data Call : Type 0 where
  down up : Call

-- Where a thread stands.
pub data Pc : Type 0 where
  idle : Pc
  spinning : Call → Pc  -- before the exchange in `spin_lock`
  yielding : Call → Pc  -- the inner loop of `spin_lock`
  inside : Call → Pc  -- `spin_lock` has returned
  taking : Pc  -- the resource is free
  parking : Pc  -- it is not
  taken : Pc  -- before `spin_unlock`, with the resource
  parked : Pc  -- before `spin_unlock`, in the wait list
  going : Pc  -- before `kthread_block`
  asleep : Pc  -- blocked
  owning : Pc  -- the call has returned
  waking : Pc  -- the resource is given back
  leaving : Pc  -- before the last `spin_unlock`

-- The lock and its threads.
pub record System (R : Type 0) : Type 0 where
  pub value : ℕ  -- of the spinlock
  pub resource : R
  pub wait_list : List ℕ
  pub pc : ℕ → Pc

abbrev pub moved : {R : Type 0} → System R → ℕ → Pc → System R
moved s i p = record s { pc = update s.pc i p }

abbrev pub is_asleep : Pc → Bool
is_asleep idle = false
is_asleep (spinning call) = false
is_asleep (yielding call) = false
is_asleep (inside call) = false
is_asleep taking = false
is_asleep parking = false
is_asleep taken = false
is_asleep parked = false
is_asleep going = false
is_asleep asleep = true
is_asleep owning = false
is_asleep waking = false
is_asleep leaving = false

-- `kthread_unblock`: a thread that is blocked goes back to the head of its loop; another does not
-- notice.
abbrev pub wake : (ℕ → Pc) → ℕ → ℕ → Pc
wake pc w = if is_asleep (pc w) then update pc w (spinning down) else pc

-- One step of thread `i` of `n`. A thread calls `up` only when it has come back from
-- `down`, as every caller of the mutex does; a `sema_up` of an interrupt handler is no step.
pub data Step {R : Type 0} (res : Resource R) (n : ℕ) (s : System R) : System R → Type 0 where
  call_down : (i : ℕ) → i < n → s.pc i ≡ idle → Step res n s (moved s i (spinning down))
  call_up : (i : ℕ) → i < n → s.pc i ≡ owning → Step res n s (moved s i (spinning up))
  win :
      (i : ℕ) (c : Call)
      → i < n
      → s.pc i ≡ spinning c
      → s.value ≡ 0
      → Step res n s (record s { value = 1; pc = update s.pc i (inside c) })
  lose :
      (i : ℕ) (c : Call)
      → i < n
      → s.pc i ≡ spinning c
      → s.value ≢ 0
      → Step res n s (record s { value = 1; pc = update s.pc i (yielding c) })
  stay : (i : ℕ) (c : Call) → i < n → s.pc i ≡ yielding c → s.value ≢ 0 → Step res n s s
  retry :
      (i : ℕ) (c : Call)
      → i < n
      → s.pc i ≡ yielding c
      → s.value ≡ 0
      → Step res n s (moved s i (spinning c))
  find_free :
      (i : ℕ)
      → i < n
      → s.pc i ≡ inside down
      → res.is_free s.resource ≡ true
      → Step res n s (moved s i taking)
  find_busy :
      (i : ℕ)
      → i < n
      → s.pc i ≡ inside down
      → res.is_free s.resource ≡ false
      → Step res n s (moved s i parking)
  take :
      (i : ℕ)
      → i < n
      → s.pc i ≡ taking
      → Step res n s (record s { resource = res.take i s.resource; pc = update s.pc i taken })
  park :
      (i : ℕ)
      → i < n
      → s.pc i ≡ parking
      → Step res n s (record s { wait_list = s.wait_list ++ i ∷ []; pc = update s.pc i parked })
  unlock_taken :
      (i : ℕ)
      → i < n
      → s.pc i ≡ taken
      → Step res n s (record s { value = 0; pc = update s.pc i owning })
  unlock_parked :
      (i : ℕ)
      → i < n
      → s.pc i ≡ parked
      → Step res n s (record s { value = 0; pc = update s.pc i going })
  block : (i : ℕ) → i < n → s.pc i ≡ going → Step res n s (moved s i asleep)
  give :
      (i : ℕ)
      → i < n
      → s.pc i ≡ inside up
      → Step res n s (record s { resource = res.give s.resource; pc = update s.pc i waking })
  wake_none :
      (i : ℕ) → i < n → s.pc i ≡ waking → s.wait_list ≡ [] → Step res n s (moved s i leaving)
  wake_one :
      (i w : ℕ) (ws : List ℕ)
      → i < n
      → s.pc i ≡ waking
      → s.wait_list ≡ w ∷ ws
      → Step res n s (record s { wait_list = ws; pc = update (wake s.pc w) i leaving })
  unlock_last :
      (i : ℕ)
      → i < n
      → s.pc i ≡ leaving
      → Step res n s (record s { value = 0; pc = update s.pc i idle })

-- The spinlock is free, the resource is as given, nobody waits, no thread is in a call.
abbrev pub init : {R : Type 0} → R → System R
init r = record { value = 0; resource = r; wait_list = []; pc = λ i. idle }

pub data Steps {R : Type 0} (res : Resource R) (n : ℕ) (s : System R) : System R → Type 0 where
  here : Steps res n s s
  later : {t u : System R} → Steps res n s t → Step res n t u → Steps res n s u

abbrev pub mutex_init : System (Option ℕ)
mutex_init = init none

abbrev pub sema_init : (count : ℕ) → System ℕ
sema_init count = init count

-- `n` threads in `mutex_lock` and `mutex_unlock`.
abbrev pub MutexSteps : (n : ℕ) → System (Option ℕ) → Type 0
MutexSteps n s = Steps mutex n mutex_init s

-- One step more.
infixl 40 ◌⨾◌
pub ◌⨾◌ :
    {R : Type 0} {res : Resource R} {n : ℕ} {s t u : System R}
    → Steps res n s t
    → Step res n t u
    → Steps res n s u
h ⨾ step = later h step
