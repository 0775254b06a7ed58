-- ===== src/Ide/Channels.antt =====
-- code/kernel/src/ide.c: the four channels, as `ide_ch_init` sets them up, and `ide_handler`. What is in
-- the sectors of a drive is a parameter, as in Ide.Partition, and so are the address of `ide_handler` and
-- that of the buffer of `ide_get_identify`. `fuel` bounds the polls of a drive and the chain of
-- its partition tables.
pub mod Probe
pub mod Lines
mod Tests
use k_os.Base.{
  ℕ, zero, suc, ◌+◌, ◌*◌, ◌==◌, Bool, true, false, Option, none, some, if◌then◌else◌, List, [], ◌∷◌,
  ◌++◌, map, update,
}
use k_os.Lock.{System, mutex_init, sema_init}
use k_os.Interrupt.{Tables, register_handler}
use k_os.Ide.{Answer, Trace, IdeHd, ide_get_identify}
use k_os.Ide.Partition.{Ptn, Found, Sector, ide_get_partition}

abbrev pub ide_ch_nr : ℕ
ide_ch_nr = 4

-- `struct ide_hd` without the pointer to its channel.
pub record Drive : Type 0 where
  pub name : List ℕ
  pub dev_nr : ℕ
  pub valid : Bool

-- `struct ide_ch`
pub record IdeCh : Type 0 where
  pub name : List ℕ
  pub dev : ℕ → Drive
  pub mlock : System (Option ℕ)
  pub sema : System ℕ
  pub port_base : ℕ
  pub irq : ℕ

-- The globals, the handlers, and the port accesses so far. A partition stands with the name of its
-- drive; `ptn_nr` is the static variable of `ide_get_partition`.
pub record IdeState : Type 0 where
  pub g_ide_ch : ℕ → IdeCh
  pub ptn_list : List (List ℕ × Ptn)
  pub ptn_nr : ℕ
  pub tables : Tables
  pub trace : Trace

-- The index of the channel whose semaphore is raised.
unfoldable pub find_channel : (left : ℕ) → (g_ide_ch : ℕ → IdeCh) → (irq idx : ℕ) → Option ℕ
find_channel zero g_ide_ch irq idx = none
find_channel (suc left) g_ide_ch irq idx =
    let rest = find_channel left g_ide_ch irq (idx + 1) in
    if (g_ide_ch idx).irq == irq then some idx else rest

unfoldable pub ide_handler : (g_ide_ch : ℕ → IdeCh) → (irq : ℕ) → Option ℕ
ide_handler g_ide_ch irq = find_channel ide_ch_nr g_ide_ch irq 0

unfoldable pub set_ports : (ℕ → IdeCh) → ℕ → IdeCh
set_ports ch =
    let c₀ = update ch 0 (record (ch 0) { port_base = 0x1F0; irq = 0x20 + 14 }) in
    let c₁ = update c₀ 1 (record (ch 1) { port_base = 0x170; irq = 0x20 + 15 }) in
    let c₂ = update c₁ 2 (record (ch 2) { port_base = 0x1E8; irq = 0x20 + 11 }) in
    update c₂ 3 (record (ch 3) { port_base = 0x168; irq = 0x20 + 10 })

-- What the drives and the rest of the kernel provide.
pub record Surroundings : Type 0 where
  pub fuel : ℕ
  pub answer : Answer
  pub disk : (ch_idx hd_idx : ℕ) → ℕ → Sector
  pub id_info : ℕ
  pub handler : ℕ

unfoldable pub set_drive : (ch_idx hd_idx : ℕ) → Drive → IdeState → IdeState
set_drive ch_idx hd_idx hd s =
    let c = s.g_ide_ch ch_idx in
    record s { g_ide_ch = update s.g_ide_ch ch_idx (record c { dev = update c.dev hd_idx hd }) }

abbrev pub drive_name : (ch_idx hd_idx : ℕ) → List ℕ
drive_name ch_idx hd_idx = b's' ∷ b'd' ∷ (b'a' + ch_idx * 2 + hd_idx) ∷ []

-- A drive that is there, with the partitions found on it behind the others.
unfoldable pub add_drive : Surroundings → (ch_idx hd_idx : ℕ) → IdeState → Option IdeState
add_drive e ch_idx hd_idx s =
    let name = drive_name ch_idx hd_idx in
    let found =
      ide_get_partition e.fuel (e.disk ch_idx hd_idx) 0 0
        (record { ptn_nr = s.ptn_nr; ptn_list = [] }) in
    elim found [
      | none ↦ none
      | some f ↦ some (
          set_drive ch_idx hd_idx (record { name = name; dev_nr = hd_idx; valid = true })
            (record s {
              ptn_list = s.ptn_list ++ map (λ p. (name, p)) f.ptn_list;
              ptn_nr = f.ptn_nr;
            }))
    ]

unfoldable pub init_drive : Surroundings → (ch_idx hd_idx : ℕ) → IdeState → Option IdeState
init_drive e ch_idx hd_idx s =
    let hd : IdeHd = record { port_base = (s.g_ide_ch ch_idx).port_base; dev_nr = hd_idx } in
    elim (ide_get_identify e.fuel e.answer hd e.id_info s.trace) [
      | none ↦ none
      | some (valid, trace) ↦
          let s' = record s { trace = trace } in
          let absent : Drive = record {
            name = drive_name ch_idx hd_idx;
            dev_nr = hd_idx;
            valid = false;
          } in
          if valid then add_drive e ch_idx hd_idx s' else some (set_drive ch_idx hd_idx absent s')
    ]

abbrev pub then_state : Option IdeState → (IdeState → Option IdeState) → Option IdeState
then_state first next = elim first [ none ↦ none | some s ↦ next s ]

-- A channel's own fields, and its handler.
unfoldable pub prepare_channel : (handler ch_idx : ℕ) → IdeState → IdeState
prepare_channel handler ch_idx s =
    let c = s.g_ide_ch ch_idx in
    record s {
      g_ide_ch = update s.g_ide_ch ch_idx (record c {
        name = b'i' ∷ b'd' ∷ b'e' ∷ (b'0' + ch_idx) ∷ [];
        mlock = mutex_init;
        sema = sema_init 0;
      });
      tables = register_handler s.tables c.irq handler;
    }

unfoldable pub init_channel : Surroundings → (ch_idx : ℕ) → IdeState → Option IdeState
init_channel e ch_idx s =
    then_state (init_drive e ch_idx 0 (prepare_channel e.handler ch_idx s)) (init_drive e ch_idx 1)

unfoldable pub init_channels : (left : ℕ) → Surroundings → (ch_idx : ℕ) → IdeState → Option IdeState
init_channels zero e ch_idx s = some s
init_channels (suc left) e ch_idx s =
    then_state (init_channel e ch_idx s) (init_channels left e (ch_idx + 1))

unfoldable pub ide_ch_init : Surroundings → IdeState → Option IdeState
ide_ch_init e s = init_channels ide_ch_nr e 0 (record s { g_ide_ch = set_ports s.g_ide_ch })

unfoldable pub ide_init : Surroundings → IdeState → Option IdeState
ide_init e s = ide_ch_init e (record s { ptn_list = [] })
