-- ===== src/Lock/Tests.antt =====
-- Runs of the locks, and their theorems at reached states.
use k_os.Base.{ℕ, ◌<◌, ◌≡◌, refl, Option, none, [], arith}
use k_os.Lock.{
  mutex, down, up, System, idle, asleep, MutexSteps, here, ◌⨾◌, call_down, call_up, win, find_free,
  find_busy, take, park, unlock_taken, unlock_parked, call_up, unlock_last, give, wake_one, block,
}
use k_os.Lock.Exclusion.{mutex_excludes}
use k_os.Lock.WakeUp.{wake_up_lost}

below_2 : 0 < 2
below_2 = omega arith

-- Thread 0 has the mutex.
abbrev owned : (s : System (Option ℕ)) × MutexSteps 2 s
owned = (
  _,
  here
      ⨾ call_down 0 below_2 refl
      ⨾ win 0 down below_2 refl refl
      ⨾ find_free 0 below_2 refl refl
      ⨾ take 0 below_2 refl
      ⨾ unlock_taken 0 below_2 refl,
)

mutex_excludes_example : ◌≡◌ {A = ℕ} 0 0
mutex_excludes_example = mutex_excludes 2 0 0 owned.0 owned.1 below_2 below_2 refl refl

-- Thread 1 is past the spinlock, while thread 0 has the mutex.
abbrev past : (s : System (Option ℕ)) × MutexSteps 2 s
past = (_, owned.1 ⨾ call_down 1 (omega arith) refl ⨾ win 1 down (omega arith) refl refl)

-- The mutex is free again, and thread 1 sleeps.
abbrev lost : (s : System (Option ℕ)) × MutexSteps 2 s
lost = (
  _,
  past.1
      ⨾ find_busy 1 (omega arith) refl refl
      ⨾ park 1 (omega arith) refl
      ⨾ unlock_parked 1 (omega arith) refl
      ⨾ call_up 0 below_2 refl
      ⨾ win 0 up below_2 refl refl
      ⨾ give 0 below_2 refl
      ⨾ wake_one 0 1 [] below_2 refl refl
      ⨾ unlock_last 0 below_2 refl
      ⨾ block 1 (omega arith) refl,
)

wake_up_lost_example :
    (s : System (Option ℕ)) × MutexSteps 2 s
    × (s.value ≡ 0)
    × (s.resource ≡ none)
    × (s.wait_list ≡ [])
    × (s.pc 0 ≡ idle)
    × (s.pc 1 ≡ asleep)
wake_up_lost_example = wake_up_lost mutex none 2 (omega arith) refl refl
