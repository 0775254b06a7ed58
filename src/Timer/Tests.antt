-- ===== src/Timer/Tests.antt =====
-- The theorems on the timer at concrete times.
use k_os.Base.{ℕ, ◌+◌, ◌*◌, ◌<◌, ◌≡◌, some, refl, arith, ◌∷◌, []}
use k_os.Base.Word.{u32}
use k_os.Timer.{msecs_to_jiffies, jiffies_to_msecs, msleep, timer_set, counter_data}
use k_os.Timer.Sleep.{Slept, msleep-Slept, msleep_early}
use k_os.Timer.Conversion.{msecs-jiffies}

-- The tick period of 10 us takes 12 oscillations.
timer_set_run : timer_set 10 ≡ 12 ∷ 0 ∷ []
unfolding timer_set counter_data
timer_set_run = refl

-- A thread that runs again every 30 ticks, from just before the counter wraps around.
abbrev time : ℕ → ℕ
time n = 4294967290 + n * 30

msleep-Slept_example : Slept (msleep 9 (λ i. u32 (time i)) 1) time (time 0) 100 5
msleep-Slept_example =
    msleep-Slept 9 time 1 5 (omega arith) (λ i. omega arith) (omega arith) (omega arith)
      (omega arith)

msecs-jiffies_example : jiffies_to_msecs (msecs_to_jiffies 1000) ≡ 1000
msecs-jiffies_example = msecs-jiffies 1000 (omega arith)

-- Asked for 4294968 ms, more than an hour, the thread sleeps for 7 ms at most.
msleep_early_example :
    (k : ℕ) × (msleep 30 (λ i. u32 (time i)) 4294968 ≡ some k) × (time k < time 0 + 4294968 * 100)
msleep_early_example =
    msleep_early 30 time 4294968 24 (omega arith) (λ i j le. omega arith) (omega arith)
      (omega arith) (omega arith) (omega arith)
