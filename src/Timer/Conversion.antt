-- ===== src/Timer/Conversion.antt =====
-- Milliseconds and ticks: the conversions and their overflow.
use k_os.Base.{ℕ, ◌*◌, ◌≤◌, ◌<◌, ◌≡◌, arith}
use k_os.Timer.{msecs_to_jiffies, jiffies_to_msecs}

-- Below 4294968 ms, about 72 minutes, the conversion to ticks and back returns the milliseconds.
pub msecs-jiffies : (ms : ℕ) → ms < 4294968 → jiffies_to_msecs (msecs_to_jiffies ms) ≡ ms
unfolding msecs_to_jiffies jiffies_to_msecs
msecs-jiffies ms h = omega arith

-- From there on the product wraps around, and fewer ticks come out than the milliseconds last.
pub msecs_short : (ms : ℕ) → 4294968 ≤ ms → msecs_to_jiffies ms < ms * 100
unfolding msecs_to_jiffies
msecs_short ms h = omega arith
