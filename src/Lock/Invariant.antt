-- ===== src/Lock/Invariant.antt =====
-- What every step of a lock keeps: one thread at most is past the spinlock, and the permits add up.
use k_os.Base.{
  ℕ, suc, ◌+◌, ◌<◌, ◌≡◌, ◌≢◌, refl, Bool, true, false, List, ◌==◌, update, arith, ◌⊎◌, Bool-cases,
  inl, inr, ◌∙◌, ap, sym, subst,
}
use k_os.Base.Family.{total, total-update}
use k_os.Lock.{
  Resource, down, up, Pc, idle, spinning, yielding, inside, taking, parking, taken, parked, going,
  asleep, owning, waking, leaving, System, is_asleep, wake,
}

-- Between the exchange of `spin_lock` and the write of `spin_unlock`.
abbrev pub past_spin : Pc → Bool
past_spin idle = false
past_spin (spinning c) = false
past_spin (yielding c) = false
past_spin (inside c) = true
past_spin taking = true
past_spin parking = true
past_spin taken = true
past_spin parked = true
past_spin going = false
past_spin asleep = false
past_spin owning = false
past_spin waking = true
past_spin leaving = true

-- What a thread has taken and not given back.
abbrev pub permits : Pc → ℕ
permits idle = 0
permits (spinning down) = 0
permits (spinning up) = 1
permits (yielding down) = 0
permits (yielding up) = 1
permits (inside down) = 0
permits (inside up) = 1
permits taking = 0
permits parking = 0
permits taken = 1
permits parked = 0
permits going = 0
permits asleep = 0
permits owning = 1
permits waking = 0
permits leaving = 0

abbrev pub is_taking : Pc → Bool
is_taking taking = true
is_taking _ = false

-- How a resource counts what is free, up to `cap`.
pub record Counts {R : Type 0} (res : Resource R) (free : R → ℕ) (cap : ℕ) : Type 0 where
  pub take_one : (i : ℕ) (r : R) → res.is_free r ≡ true → suc (free (res.take i r)) ≡ free r
  pub give_one : (r : R) → free r < cap → free (res.give r) ≡ suc (free r)

pub record Inv {R : Type 0} (res : Resource R) (free : R → ℕ) (n cap : ℕ) (s : System R)
    : Type 0 where
  pub held : (i : ℕ) → past_spin (s.pc i) ≡ true → s.value ≢ 0
  pub alone : (i j : ℕ) → past_spin (s.pc i) ≡ true → past_spin (s.pc j) ≡ true → i ≡ j
  pub ready : (i : ℕ) → s.pc i ≡ taking → res.is_free s.resource ≡ true
  pub kept : free s.resource + total permits n s.pc ≡ cap

module _ {R : Type 0} {res : Resource R} {free : R → ℕ} {n cap : ℕ} {s : System R}
    (inv : Inv res free n cap s) {i : ℕ} (lt : i < n) where
  -- Thread `i` goes to `p`; the spinlock and the resource go to `v` and `r`.
  abbrev went : Pc → (v : ℕ) → R → List ℕ → System R
  went p v r w = record { value = v; resource = r; wait_list = w; pc = update s.pc i p }

  pub went-Inv :
      (p : Pc) (v : ℕ) (r : R) (w : List ℕ)
      → (past_spin p ≡ true → v ≢ 0)
      → (past_spin p ≡ true → (j : ℕ) → j ≢ i → past_spin (s.pc j) ≡ true → i ≡ j)
      → ((j : ℕ) → j ≢ i → past_spin (s.pc j) ≡ true → v ≢ 0)
      → (p ≡ taking → res.is_free r ≡ true)
      → ((j : ℕ) → j ≢ i → s.pc j ≡ taking → res.is_free r ≡ true)
      → free r + permits p ≡ free s.resource + permits (s.pc i)
      → Inv res free n cap (went p v r w)
  went-Inv p v r w held own others ready still sum = record {
    held = λ j h. elim (Bool-cases (j == i)) [
      | inl e ↦ held (ground (arith, h, e))
      | inr e ↦ others j (λ z. ground (arith, e)) (ground (arith, h, e))
    ];
    alone = λ j k a b. elim (Bool-cases (j == i)) [
      | inl e ↦ elim (Bool-cases (k == i)) [
        | inl f ↦ ground (arith, e, f)
        | inr f ↦
            ground (
              arith,
              own (ground (arith, a, e)) k (λ z. ground (arith, f)) (ground (arith, b, f)),
              e,
            )
      ]
      | inr e ↦ elim (Bool-cases (k == i)) [
        | inl f ↦
            ground (
              arith,
              own (ground (arith, b, f)) j (λ z. ground (arith, e)) (ground (arith, a, e)),
              f,
            )
        | inr f ↦ inv.alone j k (ground (arith, a, e)) (ground (arith, b, f))
      ]
    ];
    ready = λ j h. elim (Bool-cases (j == i)) [
      | inl e ↦ ready (ground (arith, h, e))
      | inr e ↦ still j (λ z. ground (arith, e)) (ground (arith, h, e))
    ];
    kept = omega (arith, total-update permits n s.pc i p lt, inv.kept);
  }

  module _ {q : Pc} (at : s.pc i ≡ q) where
    -- A thread that stays past the spinlock.
    pub inner-Inv :
        (p : Pc) (r : R) (w : List ℕ)
        → past_spin q ≡ true
        → (p ≡ taking → res.is_free r ≡ true)
        → free r + permits p ≡ free s.resource + permits q
        → Inv res free n cap (went p s.value r w)
    inner-Inv p r w inside_q ready sum =
        went-Inv p s.value r w (λ h. inv.held i now) (λ h j ne a. inv.alone i j now a)
          (λ j ne a. inv.held j a) ready
          (λ j ne a. absurd (ne (inv.alone j i (ap past_spin a) now)))
          (sum ∙ ap (λ x. free s.resource + permits x) (sym at))
      where
        now : past_spin (s.pc i) ≡ true
        now = ap past_spin at ∙ inside_q

    -- A thread whose new place is outside.
    pub outer-Inv :
        (p : Pc) (v : ℕ) (w : List ℕ)
        → past_spin p ≡ false
        → ((j : ℕ) → j ≢ i → past_spin (s.pc j) ≡ true → v ≢ 0)
        → permits p ≡ permits q
        → Inv res free n cap (went p v s.resource w)
    outer-Inv p v w out others sum =
        went-Inv p v s.resource w (λ h. ground (arith, h, out)) (λ h. ground (arith, h, out)) others
          (λ h. ground (arith, ap past_spin h, out)) (λ j ne a. inv.ready j a)
          (ap (λ x. free s.resource + x) (sum ∙ ap permits (sym at)))

    -- `spin_unlock`.
    pub unlock-Inv :
        (p : Pc)
        → past_spin q ≡ true
        → past_spin p ≡ false
        → permits p ≡ permits q
        → Inv res free n cap (went p 0 s.resource s.wait_list)
    unlock-Inv p inside_q out sum =
        outer-Inv p 0 s.wait_list out
          (λ j ne a. absurd (ne (inv.alone j i a (ap past_spin at ∙ inside_q)))) sum

    -- A step that does not touch the spinlock.
    pub move-Inv :
        (p : Pc) (w : List ℕ)
        → past_spin p ≡ false
        → permits p ≡ permits q
        → Inv res free n cap (went p s.value s.resource w)
    move-Inv p w out sum = outer-Inv p s.value w out (λ j ne a. inv.held j a) sum

is_asleep-asleep : (p : Pc) → is_asleep p ≡ true → p ≡ asleep
is_asleep-asleep asleep h = refl
is_asleep-asleep _ h = ground (arith, h)

-- `kthread_unblock` on `w` shows only on a thread that sleeps.
pub wake-cases :
    (pc : ℕ → Pc) (w j : ℕ)
    → (wake pc w j ≡ pc j) ⊎ ((w ≡ j) × (pc j ≡ asleep) × (wake pc w j ≡ spinning down))
wake-cases pc w j = elim (Bool-cases (is_asleep (pc w))) [
  | inl e ↦ elim (Bool-cases (w == j)) [
    | inl f ↦ inr (
      ground (arith, f),
      subst (λ x. pc x ≡ asleep) (ground (arith, f)) (is_asleep-asleep (pc w) e),
      ground (arith, e, f),
    )
    | inr f ↦ inl (ground (arith, e, f))
  ]
  | inr e ↦ inl (ground (arith, e))
]

-- What a sleeping thread has in common with one at the head of the loop, `wake` keeps.
pub wake_same :
    {X : Type 0} (f : Pc → X) (pc : ℕ → Pc) (w j : ℕ)
    → f asleep ≡ f (spinning down)
    → f (wake pc w j) ≡ f (pc j)
wake_same f pc w j same = elim (wake-cases pc w j) [
  | inl e ↦ ap f e
  | inr (e, a, b) ↦ ap f b ∙ sym same ∙ ap f (sym a)
]

-- Nor does any thread that is awake.
pub wake_awake : (pc : ℕ → Pc) (w j : ℕ) (p : Pc) → pc j ≡ p → is_asleep p ≡ false → wake pc w j ≡ p
wake_awake pc w j p e h = elim (wake-cases pc w j) [
  | inl f ↦ f ∙ e
  | inr (f, a, b) ↦ ground (arith, ap is_asleep (sym a ∙ e), h)
]
