-- ===== src/Ide/Channels/Probe.antt =====
-- The set-up of the channels goes through, and registers the handler of each.
use k_os.Base.{
  ℕ, ◌+◌, ◌≡◌, ◌==◌, Bool, true, false, Option, some, [], ◌++◌, map, arith, refl, ◌∙◌, ap, update,
  Bool-cases, inl, inr,
}
use k_os.Interrupt.{Tables, register_handler}
use k_os.Ide.{Trace, IdeHd, ide_get_identify}
use k_os.Ide.Partition.{Found, ide_get_partition}
use k_os.Ide.Channels.{
  Drive, IdeCh, IdeState, Surroundings, set_ports, set_drive, drive_name, add_drive, init_drive,
  prepare_channel, init_channel, init_channels, ide_ch_init, ide_init,
}

-- Every drive stops being busy within the fuel, and no chain of partition tables is longer.
pub record Responds (e : Surroundings) : Type 0 where
  pub identifies :
      (hd : IdeHd) (t : Trace)
      → (valid : Bool) × (t' : Trace) × (ide_get_identify e.fuel e.answer hd e.id_info t
          ≡ some (valid, t'))
  pub scans :
      (ch_idx hd_idx : ℕ) (f : Found)
      → (f' : Found) × (ide_get_partition e.fuel (e.disk ch_idx hd_idx) 0 0 f ≡ some f')

-- `s'` has the ports, vectors and handlers of `s`.
pub record SameLines (s' s : IdeState) : Type 0 where
  pub ports : (k : ℕ) → (s'.g_ide_ch k).port_base ≡ (s.g_ide_ch k).port_base
  pub irqs : (k : ℕ) → (s'.g_ide_ch k).irq ≡ (s.g_ide_ch k).irq
  pub handlers : s'.tables ≡ s.tables

-- A change of one channel that keeps a field of it keeps that field of all.
update-keeps :
    (field : IdeCh → ℕ) (g : ℕ → IdeCh) (i : ℕ) (c : IdeCh) (k : ℕ)
    → field c ≡ field (g i)
    → field (update g i c k) ≡ field (g k)
update-keeps field g i c k same = elim (Bool-cases (i == k)) [
  | inl here ↦ let e : i ≡ k = ground (arith, here) in rw here (same ∙ ap (λ j. field (g j)) e)
  | inr away ↦ rw away refl
]

set_drive-SameLines :
    (ch_idx hd_idx : ℕ) (hd : Drive) (s : IdeState) → SameLines (set_drive ch_idx hd_idx hd s) s
unfolding set_drive
set_drive-SameLines ch_idx hd_idx hd s = record {
  ports = λ k. update-keeps (λ c. c.port_base) s.g_ide_ch ch_idx _ k refl;
  irqs = λ k. update-keeps (λ c. c.irq) s.g_ide_ch ch_idx _ k refl;
  handlers = refl;
}

-- A step that goes through and keeps the lines of `s`.
record Keeps (r : Option IdeState) (s : IdeState) : Type 0 where
  after : IdeState
  goes : r ≡ some after
  same : SameLines after s

init_drive-Keeps :
    (e : Surroundings) (ch_idx hd_idx : ℕ) (s : IdeState)
    → Responds e
    → Keeps (init_drive e ch_idx hd_idx s) s
unfolding init_drive add_drive
init_drive-Keeps e ch_idx hd_idx s resp =
    let hd : IdeHd = record { port_base = (s.g_ide_ch ch_idx).port_base; dev_nr = hd_idx } in
    let id = resp.identifies hd s.trace in
    let name = drive_name ch_idx hd_idx in
    let drive : Bool → Drive = λ valid. record { name = name; dev_nr = hd_idx; valid = valid } in
    let f = resp.scans ch_idx hd_idx (record { ptn_nr = s.ptn_nr; ptn_list = [] }) in
    let found : IdeState = record s {
      ptn_list = s.ptn_list ++ map (λ p. (name, p)) f.0.ptn_list;
      ptn_nr = f.0.ptn_nr;
      trace = id.1;
    } in
    let step = set_drive-SameLines ch_idx hd_idx (drive true) found in
    let step' = set_drive-SameLines ch_idx hd_idx (drive false) (record s { trace = id.1 }) in
    elim (Bool-cases id.0) [
      | inl there ↦ record {
        after = set_drive ch_idx hd_idx (drive true) found;
        goes = rw (init_drive, id.2, there, add_drive, f.1) refl;
        same = record { ports = step.ports; irqs = step.irqs; handlers = step.handlers };
      }
      | inr absent ↦ record {
        after = set_drive ch_idx hd_idx (drive false) (record s { trace = id.1 });
        goes = rw (init_drive, id.2, absent) refl;
        same = record { ports = step'.ports; irqs = step'.irqs; handlers = step'.handlers };
      }
    ]

-- One channel: its lines stay, and its vector gets the handler.
record Registers (r : Option IdeState) (e : Surroundings) (ch_idx : ℕ) (s : IdeState) : Type 0 where
  after : IdeState
  goes : r ≡ some after
  irqs : (k : ℕ) → (after.g_ide_ch k).irq ≡ (s.g_ide_ch k).irq
  handlers : after.tables ≡ register_handler s.tables (s.g_ide_ch ch_idx).irq e.handler

init_channel-Registers :
    (e : Surroundings) (ch_idx : ℕ) (s : IdeState)
    → Responds e
    → Registers (init_channel e ch_idx s) e ch_idx s
unfolding init_channel prepare_channel
init_channel-Registers e ch_idx s resp =
    let s₀ = prepare_channel e.handler ch_idx s in
    let one = init_drive-Keeps e ch_idx 0 s₀ resp in
    let two = init_drive-Keeps e ch_idx 1 one.after resp in
    record {
      after = two.after;
      goes = rw (one.goes, two.goes) refl;
      irqs = λ k.
          two.same.irqs k ∙ one.same.irqs k ∙ update-keeps (λ c. c.irq) s.g_ide_ch ch_idx _ k refl;
      handlers = two.same.handlers ∙ one.same.handlers;
    }

register_handler-cong :
    (t t' : Tables) (vec vec' func : ℕ)
    → t ≡ t'
    → vec ≡ vec'
    → register_handler t vec func ≡ register_handler t' vec' func
register_handler-cong t t' vec vec' func e f = rw (e, f) refl

-- The set-up as a whole.
pub record Started (r : Option IdeState) (e : Surroundings) (s : IdeState) : Type 0 where
  pub after : IdeState
  pub goes : r ≡ some after
  pub irqs : (k : ℕ) → (after.g_ide_ch k).irq ≡ (set_ports s.g_ide_ch k).irq
  pub handlers :
      after.tables
      ≡ register_handler
          (register_handler
            (register_handler
              (register_handler s.tables (0x20 + 14) e.handler)
              (0x20 + 15)
              e.handler)
            (0x20 + 11)
            e.handler)
          (0x20 + 10)
          e.handler

pub ide_init-Started : (e : Surroundings) (s : IdeState) → Responds e → Started (ide_init e s) e s
unfolding ide_init ide_ch_init init_channels set_ports
ide_init-Started e s resp =
    let s₀ : IdeState = record s { ptn_list = []; g_ide_ch = set_ports s.g_ide_ch } in
    let r₀ = init_channel-Registers e 0 s₀ resp in
    let r₁ = init_channel-Registers e 1 r₀.after resp in
    let r₂ = init_channel-Registers e 2 r₁.after resp in
    let r₃ = init_channel-Registers e 3 r₂.after resp in
    record {
      after = r₃.after;
      goes = rw (r₀.goes, r₁.goes, r₂.goes, r₃.goes) refl;
      irqs = λ k. r₃.irqs k ∙ r₂.irqs k ∙ r₁.irqs k ∙ r₀.irqs k;
      handlers =
          r₃.handlers
          ∙ register_handler-cong _ _ _ _ e.handler
              (r₂.handlers
                ∙ register_handler-cong _ _ _ _ e.handler
                    (r₁.handlers ∙ register_handler-cong _ _ _ _ e.handler r₀.handlers (r₀.irqs 1))
                    (r₁.irqs 2 ∙ r₀.irqs 2))
              (r₂.irqs 3 ∙ r₁.irqs 3 ∙ r₀.irqs 3);
    }
