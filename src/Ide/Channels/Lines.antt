-- ===== src/Ide/Channels/Lines.antt =====
-- The interrupt lines that `pic_init` lets through, and the handlers that serve them.
use k_os.Base.{
  ℕ, ◌<◌, ◌≡◌, ◌≢◌, ◌⊎◌, ◌==◌, ◌||◌, inl, inr, true, not, some, if◌then◌else◌, arith, refl, ◌∙◌, ap,
}
use k_os.Base.Bits.{every, every_at, bit_test}
use k_os.Interrupt.{Tables, Entries, register_handler}
use k_os.Interrupt.Pic.{
  Chip, pic_init, intr_init, accept, program, master, slave, passes, vector_of,
}
use k_os.Timer.{timer_init}
use k_os.Ide.Channels.{
  IdeState, Surroundings, ide_ch_nr, find_channel, ide_handler, set_ports, ide_init,
}
use k_os.Ide.Channels.Probe.{Responds, Started, ide_init-Started}

-- The lines that get through are the timer's, the cascade's, and those of the four channels.
open_lines :
    (m s : Chip) (l : ℕ)
    → l < 16
    → passes (master pic_init m) (slave pic_init s) l ≡ true
    → (l ≡ 0) ⊎ ((l ≡ 2) ⊎ ((l ≡ 10) ⊎ ((l ≡ 11) ⊎ ((l ≡ 14) ⊎ (l ≡ 15)))))
unfolding every passes master slave program accept pic_init bit_test
open_lines m s l below through =
    let table =
      every_at 16
        (λ k.
          not (passes (master pic_init m) (slave pic_init s) k)
          || (k == 0)
          || (k == 2)
          || (k == 10)
          || (k == 11)
          || (k == 14)
          || (k == 15))
        l below refl in
    ground (arith, table, through)

-- The handler looks at the vectors only.
raised :
    (e : Surroundings) (st after : IdeState) (irq : ℕ)
    → ((k : ℕ) → (after.g_ide_ch k).irq ≡ (set_ports st.g_ide_ch k).irq)
    → ide_handler after.g_ide_ch irq ≡ ide_handler (set_ports st.g_ide_ch) irq
unfolding ide_handler find_channel
raised e st after irq same = rw (same 0, same 1, same 2, same 3) refl

-- The handler of the channels is called at the vector, and raises the semaphore of channel `k`.
pub record ServesDrive (e : Surroundings) (after : IdeState) (vec k : ℕ) : Type 0 where
  pub channel : k < ide_ch_nr
  pub own_irq : (after.g_ide_ch k).irq ≡ vec
  pub registered : after.tables.intr_func vec ≡ e.handler
  pub raises : ide_handler after.g_ide_ch vec ≡ some k

serves :
    (e : Surroundings) (st : IdeState) (r : Started (ide_init e st) e st) (vec k : ℕ)
    → k < ide_ch_nr
    → (set_ports st.g_ide_ch k).irq ≡ vec
    → ide_handler (set_ports st.g_ide_ch) vec ≡ some k
    → r.after.tables.intr_func vec ≡ e.handler
    → ServesDrive e r.after vec k
serves e st r vec k lt own raise reg = record {
  channel = lt;
  own_irq = r.irqs k ∙ own;
  registered = reg;
  raises = raised e st r.after vec r.irqs ∙ raise;
}

-- The table of handlers at a vector.
func_at :
    (e : Surroundings) (st : IdeState) (r : Started (ide_init e st) e st) (vec : ℕ)
    → r.after.tables.intr_func vec ≡ (
        if (vec == 42) || (vec == 43) || (vec == 46) || (vec == 47)
        then e.handler
        else st.tables.intr_func vec)
unfolding register_handler
func_at e st r vec = ap (λ t. t.intr_func vec) r.handlers ∙ ground arith

-- When `intr_init` and `timer_init` have run and `ide_init` runs on drives that respond, the set-up
-- goes through, and each interrupt line that the two controllers let through, from whatever state they
-- were in, other than the cascade, has its handler: line 0 that of the timer at vector 0x20, and any other
-- that of the channels, which raises the semaphore of the channel with that vector.
pub open_line-handled :
    (ents : Entries) (t : Tables) (m s : Chip) (timer : ℕ) (e : Surroundings) (st : IdeState)
    (l : ℕ)
    → Responds e
    → st.tables ≡ (timer_init timer (intr_init ents t).0).tables
    → l < 16
    → l ≢ 2
    → passes (master (intr_init ents t).1 m) (slave (intr_init ents t).1 s) l ≡ true
    → (after : IdeState) × (ide_init e st ≡ some after)
      × (((vector_of (master (intr_init ents t).1 m) (slave (intr_init ents t).1 s) l ≡ 0x20)
            × (after.tables.intr_func 0x20 ≡ timer))
          ⊎ ((k : ℕ) × ServesDrive e after
                (vector_of (master (intr_init ents t).1 m) (slave (intr_init ents t).1 s) l)
                k))
unfolding intr_init vector_of master slave program accept pic_init bit_test timer_init
    register_handler set_ports ide_handler find_channel
open_line-handled ents t m s timer e st l resp tables below other through =
    let r = ide_init-Started e st resp in
    let at = func_at e st r in
    elim (open_lines m s l below through) [
      | inl e0 ↦ (r.after, r.goes, inl (rw e0 refl, at 32 ∙ ap (λ x. x.intr_func 32) tables))
      | inr (inl e2) ↦ absurd (other e2)
      | inr (inr (inl e10)) ↦
          (r.after, r.goes, inr (3, rw e10 (serves e st r 42 3 (omega arith) refl refl (at 42))))
      | inr (inr (inr (inl e11))) ↦
          (r.after, r.goes, inr (2, rw e11 (serves e st r 43 2 (omega arith) refl refl (at 43))))
      | inr (inr (inr (inr (inl e14)))) ↦
          (r.after, r.goes, inr (0, rw e14 (serves e st r 46 0 (omega arith) refl refl (at 46))))
      | inr (inr (inr (inr (inr e15)))) ↦
          (r.after, r.goes, inr (1, rw e15 (serves e st r 47 1 (omega arith) refl refl (at 47))))
    ]
