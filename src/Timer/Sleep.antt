-- ===== src/Timer/Sleep.antt =====
-- The sleeping loops: how long they sleep.
use k_os.Base.{
  ℕ, zero, suc, ◌+◌, ◌*◌, ◌/◌, ◌%◌, ◌^◌, ◌≤◌, ◌<◌, ◌≡◌, refl, false, ltb, Option, some, arith,
  Bool-cases, inl, inr, subst, sym,
}
use k_os.Base.Word.{u32, sub32}
use k_os.Timer.{sleep_loop, msleep, msecs_to_jiffies}

-- The loop ended at `k`, not after `last`, when at least `ticks` ticks had passed since `start`.
pub record Slept (r : Option ℕ) (time : ℕ → ℕ) (start ticks last : ℕ) : Type 0 where
  pub k : ℕ
  pub result : r ≡ some k
  pub long_enough : start + ticks ≤ time k
  pub in_time : k ≤ last

sleep_loop-Slept :
    (fuel : ℕ) (time : ℕ → ℕ) (start ticks n left : ℕ)
    → ((i : ℕ) → start ≤ time i)
    → start + ticks ≤ time (n + left)
    → time (n + left) < start + 2 ^ 32
    → left < fuel
    → Slept (sleep_loop fuel (λ i. u32 (time i)) (u32 start) ticks n) time start ticks (n + left)
unfolding sleep_loop
sleep_loop-Slept zero time start ticks n left mono enough small fuel_ok = absurd (omega arith)
sleep_loop-Slept (suc fuel) time start ticks n zero mono enough small fuel_ok =
    let e : n + 0 ≡ n = omega arith in
    let enough' : start + ticks ≤ time n = subst (λ i. start + ticks ≤ time i) e enough in
    let small' : time n < start + 2 ^ 32 = subst (λ i. time i < start + 2 ^ 32) e small in
    let over : ltb (sub32 (u32 (time n)) (u32 start)) ticks ≡ false = ground arith in
    record { k = n; result = rw over refl; long_enough = enough'; in_time = omega arith }
sleep_loop-Slept (suc fuel) time start ticks n (suc left) mono enough small fuel_ok =
    let e : n + suc left ≡ n + 1 + left = omega arith in
    let rest =
      sleep_loop-Slept fuel time start ticks (n + 1) left mono
        (subst (λ i. start + ticks ≤ time i) e enough)
        (subst (λ i. time i < start + 2 ^ 32) e small) (omega arith) in
    elim (Bool-cases (ltb (sub32 (u32 (time n)) (u32 start)) ticks)) [
      | inl early ↦ record {
        k = rest.k;
        result = rw early rest.result;
        long_enough = rest.long_enough;
        in_time = (let b = rest.in_time in omega arith);
      }
      | inr late ↦
          let m = mono n in
          record {
            k = n;
            result = rw late refl;
            long_enough = ground (arith, late);
            in_time = omega arith;
          }
    ]

-- The same of `msleep`, whatever number of ticks it computes.
msleep-ticks :
    (fuel : ℕ) (time : ℕ → ℕ) (ms ticks n : ℕ)
    → msecs_to_jiffies ms ≡ ticks
    → ((i : ℕ) → time 0 ≤ time i)
    → time 0 + ticks ≤ time n
    → time n < time 0 + 2 ^ 32
    → n < fuel
    → Slept (msleep fuel (λ i. u32 (time i)) ms) time (time 0) ticks n
unfolding msleep
msleep-ticks fuel time ms ticks n asked mono enough small fuel_ok =
    let e : 0 + n ≡ n = omega arith in
    rw asked (
      subst (Slept (sleep_loop fuel (λ i. u32 (time i)) (u32 (time 0)) ticks 0) time (time 0) ticks)
        e
        (sleep_loop-Slept fuel time (time 0) ticks 0 n mono
          (subst (λ i. time 0 + ticks ≤ time i) (sym e) enough)
          (subst (λ i. time i < time 0 + 2 ^ 32) (sym e) small) fuel_ok))

-- Let `time n` be the number of ticks of 10 us, without wrap-around, when the sleeping thread runs for
-- the time number `n`; `ms` milliseconds are `ms * 100` ticks. For fewer than 4294968 ms, where the
-- thread runs at a time number `n` when so many ticks have passed and fewer than 2 ^ 32, `msleep`
-- ends, by the time number `n`, and not before the milliseconds have passed.
pub msleep-Slept :
    (fuel : ℕ) (time : ℕ → ℕ) (ms n : ℕ)
    → ms < 4294968
    → ((i : ℕ) → time 0 ≤ time i)
    → time 0 + ms * 100 ≤ time n
    → time n < time 0 + 2 ^ 32
    → n < fuel
    → Slept (msleep fuel (λ i. u32 (time i)) ms) time (time 0) (ms * 100) n
unfolding msecs_to_jiffies
msleep-Slept fuel time ms n short mono enough small fuel_ok =
    msleep-ticks fuel time ms (ms * 100) n (omega (arith, short)) mono enough small fuel_ok

-- From 4294968 ms on `msleep` ends too early: where the thread runs at a time number `n` when the
-- milliseconds have not passed, but `ms * 1000` us less 2 ^ 32 us as often as they contain it, it has
-- ended by then.
pub msleep_early :
    (fuel : ℕ) (time : ℕ → ℕ) (ms n : ℕ)
    → 4294968 ≤ ms
    → ((i j : ℕ) → i ≤ j → time i ≤ time j)
    → time 0 + ms * 1000 % 2 ^ 32 / 10 ≤ time n
    → time n < time 0 + ms * 100
    → time n < time 0 + 2 ^ 32
    → n < fuel
    → (k : ℕ) × (msleep fuel (λ i. u32 (time i)) ms ≡ some k) × (time k < time 0 + ms * 100)
unfolding msecs_to_jiffies
msleep_early fuel time ms n long mono enough early small fuel_ok =
    let r =
      msleep-ticks fuel time ms (ms * 1000 % 2 ^ 32 / 10) n refl (λ i. mono 0 i (omega arith))
        enough small fuel_ok in
    let before = mono r.k n r.in_time in (r.k, r.result, omega (arith, before, early))
