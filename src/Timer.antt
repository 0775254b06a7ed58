-- ===== src/Timer.antt =====
-- code/kernel/src/timer.c: the tick counter, its conversions, and sleeping by yielding until enough
-- ticks have passed. A tick is 10 us long.
mod Tests
pub mod Sleep
pub mod Conversion
use k_os.Base.{
  ℕ, zero, suc, ◌+◌, ◌-◌, ◌*◌, ◌/◌, ◌%◌, Bool, ◌==◌, ltb, Option, none, some, if◌then◌else◌, update,
  List, [], ◌∷◌,
}
use k_os.Base.Word.{u8, u32, sub32}
use k_os.Interrupt.{Tables, register_handler}
use k_os.Sched.{Threads, schedule}

abbrev pub sys_tick_us : ℕ
sys_tick_us = 10

-- What `timer_set` writes to counter 0, low byte first, for a period of `us` from 0 on that is
-- below 1799: from there on the intermediate value does not fit an `int`.
unfoldable pub counter_data : (us : ℕ) → ℕ
counter_data us = if ltb us 54924 then (us * 1193180 + 1000000 - 1) / 1000000 else 0xffff

unfoldable pub timer_set : (us : ℕ) → List ℕ
timer_set us = u8 (counter_data us) ∷ u8 (counter_data us / 256) ∷ []

-- The tick counter, and the running thread's time slice. The assertion that the running thread's
-- stack has not overrun is left out.
unfoldable pub timer_handler : (jiffies : ℕ) → Threads → Option (ℕ × Threads)
timer_handler jiffies s =
    let left = (s.tasks s.current).time_slice in
    let switched = elim (schedule s) as (λ o. Option (ℕ × Threads)) [
      | none ↦ none
      | some s' ↦ some (u32 (jiffies + 1), s')
    ] in
    let counted = record s {
      tasks = update s.tasks s.current (record (s.tasks s.current) { time_slice = left - 1 });
    } in
    if left == 0 then switched else some (u32 (jiffies + 1), counted)

unfoldable pub msecs_to_jiffies : ℕ → ℕ
msecs_to_jiffies ms = u32 (ms * 1000) / sys_tick_us

unfoldable pub usecs_to_jiffies : ℕ → ℕ
usecs_to_jiffies us = us / sys_tick_us

unfoldable pub jiffies_to_msecs : ℕ → ℕ
jiffies_to_msecs js = u32 (js * sys_tick_us) / 1000

unfoldable pub jiffies_to_usecs : ℕ → ℕ
jiffies_to_usecs js = u32 (js * sys_tick_us)

-- `while (jiffies - start_ticks < sleep_ticks) kthread_yield();` where `jiffies n` is what the
-- counter reads when the thread runs again for the time number `n`. Yields how often it yielded.
unfoldable pub sleep_loop : ℕ → (jiffies : ℕ → ℕ) → (start_ticks sleep_ticks n : ℕ) → Option ℕ
sleep_loop zero jiffies start_ticks sleep_ticks n = none
sleep_loop (suc fuel) jiffies start_ticks sleep_ticks n =
    let later = sleep_loop fuel jiffies start_ticks sleep_ticks (n + 1) in
    if ltb (sub32 (jiffies n) start_ticks) sleep_ticks then later else some n

unfoldable pub msleep : ℕ → (jiffies : ℕ → ℕ) → (ms : ℕ) → Option ℕ
msleep fuel jiffies ms = sleep_loop fuel jiffies (jiffies 0) (msecs_to_jiffies ms) 0

unfoldable pub usleep : ℕ → (jiffies : ℕ → ℕ) → (us : ℕ) → Option ℕ
usleep fuel jiffies us = sleep_loop fuel jiffies (jiffies 0) (usecs_to_jiffies us) 0

-- What `timer_init` leaves: the counter, the handlers, and what it writes to counter 0.
pub record TimerStart : Type 0 where
  pub jiffies : ℕ
  pub tables : Tables
  pub written : List ℕ

unfoldable pub timer_init : (handler : ℕ) → Tables → TimerStart
timer_init handler t = record {
  jiffies = 0;
  tables = register_handler t 0x20 handler;
  written = timer_set sys_tick_us;
}
