-- ===== src/Lock/Reached.antt =====
-- Every step of a lock keeps the invariant, so every reached state has it.
use k_os.Base.{ℕ, ◌+◌, ◌<◌, ◌≡◌, refl, [], ◌∷◌, ◌++◌, arith, inl, inr, ◌∙◌, ap, sym}
use k_os.Base.Family.{total_same, one-total, total_zero}
use k_os.Lock.{
  Resource, Call, down, up, idle, spinning, yielding, inside, taking, parking, taken, parked, going,
  asleep, owning, waking, leaving, System, wake, Step, Steps, here, later, init, call_down, call_up,
  win, lose, stay, retry, find_free, find_busy, take, park, unlock_taken, unlock_parked, block,
  give, wake_none, wake_one, unlock_last,
}
use k_os.Lock.Invariant.{
  past_spin, permits, is_taking, Counts, Inv, went-Inv, inner-Inv, outer-Inv, unlock-Inv, move-Inv,
  wake-cases, wake_awake, wake_same,
}

-- The exchange and its retries move no permit.
spin_same :
    (c : Call)
    → (permits (inside c) ≡ permits (spinning c)) × (permits (yielding c) ≡ permits (spinning c))
spin_same down = (refl, refl)
spin_same up = (refl, refl)

module _ {R : Type 0} (res : Resource R) (free : R → ℕ) (n cap : ℕ) where
  wake-Inv :
      (s : System R) (w : ℕ)
      → Inv res free n cap s
      → Inv res free n cap (record s { pc = wake s.pc w })
  wake-Inv s w inv = record {
    held = λ j h. inv.held j (spin j ∙ h);
    alone = λ i j a b. inv.alone i j (spin i ∙ a) (spin j ∙ b);
    ready = λ j h. inv.ready j (still j h);
    kept =
        ap (λ x. free s.resource + x)
          (total_same permits n (wake s.pc w) s.pc (λ k. wake_same permits s.pc w k refl))
        ∙ inv.kept;
  }
    where
      spin : (j : ℕ) → past_spin (s.pc j) ≡ past_spin (wake s.pc w j)
      spin j = sym (wake_same past_spin s.pc w j refl)

      still : (j : ℕ) → wake s.pc w j ≡ taking → s.pc j ≡ taking
      still j h = elim (wake-cases s.pc w j) [
        | inl e ↦ sym e ∙ h
        | inr (e, a, b) ↦ ground (arith, ap past_spin b, ap past_spin h)
      ]

  pub init-Inv : (r : R) → free r ≡ cap → Inv res free n cap (init r)
  init-Inv r e = record {
    held = λ j h. ground (arith, h);
    alone = λ i j h. ground (arith, h);
    ready = λ j h. ground (arith, ap past_spin h);
    kept = omega (arith, e, total_zero permits n (λ i. idle) (λ k. refl));
  }

  module _ (law : Counts res free cap) where
    -- Who gives back holds a permit.
    room :
        {s : System R} (i : ℕ)
        → i < n
        → s.pc i ≡ inside up
        → Inv res free n cap s
        → free s.resource < cap
    room {s} i lt e inv = omega (arith, one-total permits n s.pc i lt, ap permits e, inv.kept)

    pub Step-Inv : {s t : System R} → Step res n s t → Inv res free n cap s → Inv res free n cap t
    Step-Inv {s} (call_down i lt e) inv = move-Inv inv lt e (spinning down) s.wait_list refl refl
    Step-Inv {s} (call_up i lt e) inv = move-Inv inv lt e (spinning up) s.wait_list refl refl
    Step-Inv {s} (win i c lt e z) inv =
        went-Inv inv lt (inside c) 1 s.resource s.wait_list (λ h. ground arith)
          (λ h j ne a. absurd (inv.held j a z)) (λ j ne a. ground arith)
          (λ h. ground (arith, ap is_taking h)) (λ j ne a. inv.ready j a)
          (ap (λ x. free s.resource + x) ((spin_same c).0 ∙ ap permits (sym e)))
    Step-Inv {s} (lose i c lt e z) inv =
        outer-Inv inv lt e (yielding c) 1 s.wait_list refl (λ j ne a. ground arith) (spin_same c).1
    Step-Inv {s} (stay i c lt e z) inv = inv
    Step-Inv {s} (retry i c lt e z) inv =
        move-Inv inv lt e (spinning c) s.wait_list refl (sym (spin_same c).1)
    Step-Inv {s} (find_free i lt e f) inv =
        inner-Inv inv lt e taking s.resource s.wait_list refl (λ h. f) refl
    Step-Inv {s} (find_busy i lt e f) inv =
        inner-Inv inv lt e parking s.resource s.wait_list refl (λ h. ground (arith, ap is_taking h))
          refl
    Step-Inv {s} (take i lt e) inv =
        inner-Inv inv lt e taken (res.take i s.resource) s.wait_list refl
          (λ h. ground (arith, ap is_taking h))
          (omega (arith, law.take_one i s.resource (inv.ready i e)))
    Step-Inv {s} (park i lt e) inv =
        inner-Inv inv lt e parked s.resource (s.wait_list ++ i ∷ []) refl
          (λ h. ground (arith, ap is_taking h)) refl
    Step-Inv {s} (unlock_taken i lt e) inv = unlock-Inv inv lt e owning refl refl refl
    Step-Inv {s} (unlock_parked i lt e) inv = unlock-Inv inv lt e going refl refl refl
    Step-Inv {s} (block i lt e) inv = move-Inv inv lt e asleep s.wait_list refl refl
    Step-Inv {s} (give i lt e) inv =
        inner-Inv inv lt e waking (res.give s.resource) s.wait_list refl
          (λ h. ground (arith, ap is_taking h))
          (omega (arith, law.give_one s.resource (room i lt e inv)))
    Step-Inv {s} (wake_none i lt e f) inv =
        inner-Inv inv lt e leaving s.resource s.wait_list refl (λ h. ground (arith, ap is_taking h))
          refl
    Step-Inv {s} (wake_one i w ws lt e f) inv =
        inner-Inv (wake-Inv s w inv) lt (wake_awake s.pc w i waking e refl) leaving s.resource ws
          refl (λ h. ground (arith, ap is_taking h)) refl
    Step-Inv {s} (unlock_last i lt e) inv = unlock-Inv inv lt e idle refl refl refl

    pub Steps-Inv : {s t : System R} → Steps res n s t → Inv res free n cap s → Inv res free n cap t
    Steps-Inv here inv = inv
    Steps-Inv (later h step) inv = Step-Inv step (Steps-Inv h inv)
