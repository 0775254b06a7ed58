-- ===== src/Ide/Ports.antt =====
-- What a trace of port accesses asks of the drive, and the lemmas on the parts of a transfer.
use k_os.Base.{
  ℕ, zero, suc, ◌+◌, ◌*◌, ◌/◌, ◌%◌, ◌^◌, ◌<◌, ◌≡◌, ◌⊎◌, inl, inr, refl, true, false, not, ◌&&◌,
  ◌||◌, leb, ◌==◌, some, if◌then◌else◌, List, [], ◌∷◌, bit_or, arith, Bool-cases, ◌∙◌,
}
use k_os.Base.Word.{u8}
use k_os.Base.Bits.{every, every_at}
use k_os.Ide.{
  outb, inb, insw, outsw, msleep, sema_down, sema_up, mutex_lock, mutex_unlock, Trace, Answer,
  IdeHd, sec_cnt, lba_low, lba_mid, lba_high, drive_set, sta_cmd, drive_select, is_busy, has_data,
  ide_set_lba, ide_get_status, wait_data,
}

-- The byte last written to a port, 0 before the first.
unfoldable pub last_written : ℕ → Trace → ℕ
last_written p [] = 0
last_written p (outb q v ∷ t) = if q == p then v else last_written p t
last_written p (inb q ∷ t) = last_written p t
last_written p (insw q d w ∷ t) = last_written p t
last_written p (outsw q s w ∷ t) = last_written p t
last_written p (msleep ms ∷ t) = last_written p t
last_written p (sema_down ∷ t) = last_written p t
last_written p (sema_up ∷ t) = last_written p t
last_written p (mutex_lock ∷ t) = last_written p t
last_written p (mutex_unlock ∷ t) = last_written p t

-- A block of data that was moved: the command in force, the disk address and the count that the
-- registers hold, and the address and length in memory.
pub record Transfer : Type 0 where
  pub command : ℕ
  pub lba : ℕ
  pub count : ℕ
  pub address : ℕ
  pub words : ℕ

-- The 28 bits of the disk address in the registers.
unfoldable pub lba_of : IdeHd → Trace → ℕ
lba_of hd t =
    last_written (lba_low hd) t
    + last_written (lba_mid hd) t * 2 ^ 8
    + last_written (lba_high hd) t * 2 ^ 16
    + last_written (drive_set hd) t % 16 * 2 ^ 24

unfoldable pub transfer : IdeHd → Trace → (address words : ℕ) → Transfer
transfer hd t address words = record {
  command = last_written (sta_cmd hd) t;
  lba = lba_of hd t;
  count = last_written (sec_cnt hd) t;
  address = address;
  words = words;
}

-- The transfers of a trace, the latest first.
unfoldable pub transfers : IdeHd → Trace → List Transfer
transfers hd [] = []
transfers hd (outb q v ∷ t) = transfers hd t
transfers hd (inb q ∷ t) = transfers hd t
transfers hd (insw q d w ∷ t) = transfer hd t d w ∷ transfers hd t
transfers hd (outsw q s w ∷ t) = transfer hd t s w ∷ transfers hd t
transfers hd (msleep ms ∷ t) = transfers hd t
transfers hd (sema_down ∷ t) = transfers hd t
transfers hd (sema_up ∷ t) = transfers hd t
transfers hd (mutex_lock ∷ t) = transfers hd t
transfers hd (mutex_unlock ∷ t) = transfers hd t

-- The trace after `k` rounds of polling.
unfoldable pub polled : IdeHd → ℕ → Trace → Trace
polled hd zero t = t
polled hd (suc k) t = polled hd k (inb (sta_cmd hd) ∷ msleep 10 ∷ t)

-- The last the driver did was to write a command, but for the wait for the interrupt.
pub data Commanded (hd : IdeHd) (cmd : ℕ) : Trace → Type 0 where
  written : (t : Trace) → Commanded hd cmd (outb (sta_cmd hd) cmd ∷ t)
  interrupted : (t : Trace) → Commanded hd cmd (sema_down ∷ outb (sta_cmd hd) cmd ∷ t)

-- What the driver relies on: the drive register reads back as it was written, and when
-- the driver starts to poll after a command, the drive has data within `fuel` rounds.
pub record IsDrive (fuel : ℕ) (answer : Answer) (hd : IdeHd) : Type 0 where
  pub reads_back : (t : Trace) → answer t (drive_set hd) ≡ last_written (drive_set hd) t
  pub gets_ready :
      (cmd : ℕ) (t : Trace)
      → Commanded hd cmd t
      → (k : ℕ) × (k < fuel)
        × ((is_busy (u8 (answer (msleep 10 ∷ polled hd k t) (sta_cmd hd)))
              || not (has_data (u8 (answer (msleep 10 ∷ polled hd k t) (sta_cmd hd)))))
            ≡ false)

-- Both traces have the same registers and transfers.
pub record SameState (hd : IdeHd) (t' t : Trace) : Type 0 where
  pub registers : (p : ℕ) → last_written p t' ≡ last_written p t
  pub moved : transfers hd t' ≡ transfers hd t

-- Polling ends when the drive gets ready, and changes nothing.
pub wait_data-SameState :
    (fuel : ℕ) (answer : Answer) (hd : IdeHd) (t : Trace) (k : ℕ)
    → k < fuel
    → (is_busy (u8 (answer (msleep 10 ∷ polled hd k t) (sta_cmd hd)))
        || not (has_data (u8 (answer (msleep 10 ∷ polled hd k t) (sta_cmd hd)))))
      ≡ false
    → (t' : Trace) × (wait_data fuel answer hd t ≡ some t') × SameState hd t' t
unfolding wait_data ide_get_status polled last_written transfers
wait_data-SameState zero answer hd t k lt ready = absurd (omega arith)
wait_data-SameState (suc fuel) answer hd t zero lt ready = (
  inb (sta_cmd hd) ∷ msleep 10 ∷ t,
  rw ready refl,
  record { registers = λ p. refl; moved = refl },
)
wait_data-SameState (suc fuel) answer hd t (suc k) lt ready =
    let t₁ = inb (sta_cmd hd) ∷ msleep 10 ∷ t in
    let r = wait_data-SameState fuel answer hd t₁ k (omega arith) ready in
    let stat = u8 (answer (msleep 10 ∷ t) (sta_cmd hd)) in
    elim (Bool-cases (is_busy stat || not (has_data stat))) [
      | inl again ↦ (r.0, rw again r.1, record { registers = r.2.registers; moved = r.2.moved })
      | inr done ↦ (t₁, rw done refl, record { registers = λ p. refl; moved = refl })
    ]

-- What the drive register holds during a transfer: the drive, and maybe four bits of an address.
abbrev pub Selects : IdeHd → Trace → (start : ℕ) → Type 0
Selects hd t start =
    (last_written (drive_set hd) t ≡ drive_select hd.dev_nr)
    ⊎ (last_written (drive_set hd) t ≡ drive_select hd.dev_nr + start / 2 ^ 24 % 16)

nibble_table :
    every 16 (λ n.
      (bit_or 0xE0 n == 0xE0 + n)
      && (bit_or 0xF0 n == 0xF0 + n)
      && (bit_or (0xE0 + n) n == 0xE0 + n)
      && (bit_or (0xF0 + n) n == 0xF0 + n))
    ≡ true
unfolding every
nibble_table = refl

or_nibble :
    (dev n reg : ℕ)
    → n < 16
    → (reg ≡ drive_select dev) ⊎ (reg ≡ drive_select dev + n)
    → bit_or (u8 reg) n ≡ drive_select dev + n
or_nibble dev n reg lt h =
    let row = every_at 16 _ n lt nibble_table in
    let small : u8 reg ≡ reg = ground arith in
    rw small (elim h [ inl e ↦ rw e (ground (arith, row)) | inr e ↦ rw e (ground (arith, row)) ])

-- The registers before a command: the whole disk address and the count, with 0 for 256.
pub record Asks (hd : IdeHd) (start cnt : ℕ) (t' t : Trace) : Type 0 where
  pub address : lba_of hd t' ≡ start % 2 ^ 28
  pub count : last_written (sec_cnt hd) t' ≡ u8 (if leb 256 cnt then 0 else cnt)
  pub selects : last_written (drive_set hd) t' ≡ drive_select hd.dev_nr + start / 2 ^ 24 % 16
  pub moved : transfers hd t' ≡ transfers hd t

pub set_lba-Asks :
    (fuel : ℕ) (answer : Answer) (hd : IdeHd) (start cnt : ℕ) (t : Trace)
    → IsDrive fuel answer hd
    → Selects hd t start
    → Asks hd start cnt (ide_set_lba answer hd start cnt t) t
unfolding ide_set_lba last_written transfers lba_of
set_lba-Asks fuel answer hd start cnt t drive sel =
    let t₃ =
      outb (lba_high hd) (u8 (start / 2 ^ 16))
      ∷ outb (lba_mid hd) (u8 (start / 2 ^ 8))
      ∷ outb (lba_low hd) (u8 start)
      ∷ t in
    let nib = start / 2 ^ 24 % 16 in
    let reg : answer t₃ (drive_set hd) ≡ last_written (drive_set hd) t =
      drive.reads_back t₃ ∙ ground arith in
    let sel₃ : (answer t₃ (drive_set hd) ≡ drive_select hd.dev_nr)
        ⊎ (answer t₃ (drive_set hd) ≡ drive_select hd.dev_nr + nib) =
      elim sel [ inl e ↦ inl (reg ∙ e) | inr e ↦ inr (reg ∙ e) ] in
    let written = or_nibble hd.dev_nr nib (answer t₃ (drive_set hd)) (omega arith) sel₃ in
    record {
      address = ground (arith, written);
      count = ground arith;
      selects = ground (arith, written);
      moved = refl;
    }

pub lba_of-cong :
    (hd : IdeHd) (t' t : Trace)
    → last_written (lba_low hd) t' ≡ last_written (lba_low hd) t
    → last_written (lba_mid hd) t' ≡ last_written (lba_mid hd) t
    → last_written (lba_high hd) t' ≡ last_written (lba_high hd) t
    → last_written (drive_set hd) t' ≡ last_written (drive_set hd) t
    → lba_of hd t' ≡ lba_of hd t
unfolding lba_of
lba_of-cong hd t' t low mid high drive = rw (low, mid, high, drive) refl
