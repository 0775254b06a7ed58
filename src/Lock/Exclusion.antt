-- ===== src/Lock/Exclusion.antt =====
-- What the invariant says of the mutex, whose resource is its owner, and of the spinlock.
use k_os.Base.{ℕ, suc, ◌+◌, ◌<◌, ◌≡◌, refl, Option, none, some, arith, dec_lt, ap, true}
use k_os.Base.Family.{total, two-total}
use k_os.Lock.{owning, Resource, System, Steps, init, MutexSteps, mutex}
use k_os.Lock.Invariant.{permits, past_spin, Counts}
use k_os.Lock.Reached.{init-Inv, Steps-Inv}

-- A mutex has one permit, which its owner holds.
abbrev pub unowned : Option ℕ → ℕ
unowned none = 1
unowned (some task) = 0

pub mutex-Counts : Counts mutex unowned 1
mutex-Counts = record { take_one = takes; give_one = gives }
  where
    takes :
        (i : ℕ) (r : Option ℕ) → mutex.is_free r ≡ true → suc (unowned (mutex.take i r)) ≡ unowned r
    takes i none h = refl
    takes i (some task) h = ground (arith, h)

    gives : (r : Option ℕ) → unowned r < 1 → unowned (mutex.give r) ≡ suc (unowned r)
    gives none h = absurd (omega (arith, h))
    gives (some task) h = refl

-- Whatever steps `n` threads have taken on a mutex since `mutex_init`, in any order: two threads
-- whose `mutex_lock` has returned, and who have not called `mutex_unlock` since, are the same.
pub mutex_excludes :
    (n i j : ℕ) (s : System (Option ℕ))
    → MutexSteps n s
    → i < n
    → j < n
    → s.pc i ≡ owning
    → s.pc j ≡ owning
    → i ≡ j
mutex_excludes n i j s h below_i below_j at_i at_j = elim (dec_lt i j) [
  | yes less ↦ absurd (omega (arith, two-total permits n s.pc i j less below_j, sum, one_i, one_j))
  | no less ↦ elim (dec_lt j i) [
    | yes more ↦
        absurd (omega (arith, two-total permits n s.pc j i more below_i, sum, one_i, one_j))
    | no more ↦ omega (arith, less, more)
  ]
]
  where
    one_i : permits (s.pc i) ≡ 1
    one_i = ap permits at_i

    one_j : permits (s.pc j) ≡ 1
    one_j = ap permits at_j

    sum : unowned s.resource + total permits n s.pc ≡ 1
    sum = (Steps-Inv mutex unowned n 1 mutex-Counts h (init-Inv mutex unowned n 1 none refl)).kept

-- Whatever steps `n` threads have taken on a lock since it was initialized, in any order: two
-- threads that have come back from `spin_lock`, and not yet reached `spin_unlock`, are the same.
pub spin_excludes :
    {R : Type 0} (res : Resource R) (free : R → ℕ) (n i j : ℕ) (r : R) (s : System R)
    → Counts res free (free r)
    → Steps res n (init r) s
    → past_spin (s.pc i) ≡ true
    → past_spin (s.pc j) ≡ true
    → i ≡ j
spin_excludes res free n i j r s law h a b =
    (Steps-Inv res free n (free r) law h (init-Inv res free n (free r) r refl)).alone i j a b
