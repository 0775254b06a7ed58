-- ===== src/Ide.antt =====
-- code/kernel/src/ide.c: the disk driver, by the accesses to the drive's ports that it makes. A trace
-- lists them with the latest first. What the drive answers to an `inb` is a parameter, a function of
-- the trace so far and the port. The ports of a channel are below 2 ^ 16, so sums of them do not
-- wrap around.
pub mod Ports
pub mod Transfers
pub mod Partition
pub mod Channels
mod Tests
use k_os.Base.{
  ℕ, zero, suc, ◌+◌, ◌-◌, ◌*◌, ◌/◌, ◌%◌, ◌^◌, Bool, true, false, not, ◌&&◌, ◌||◌, ltb, leb, ◌==◌,
  Option, none, some, if◌then◌else◌, List, [], ◌∷◌, bit_and, bit_or,
}
use k_os.Base.Word.{u8, u32}

-- What the driver does: port accesses, and the calls of other parts that may take time. A trace is of
-- a run in which each of these calls returns: `sema_down` once the interrupt has come, `mutex_lock` once
-- the mutex is free.
pub data Event : Type 0 where
  outb : (port value : ℕ) → Event
  inb : (port : ℕ) → Event
  insw : (port dst words : ℕ) → Event
  outsw : (port src words : ℕ) → Event
  msleep : (ms : ℕ) → Event
  sema_down sema_up mutex_lock mutex_unlock : Event

abbrev pub Trace : Type 0
Trace = List Event

abbrev pub Answer : Type 0
Answer = Trace → ℕ → ℕ

-- `struct ide_hd`, with the port base of its channel.
pub record IdeHd : Type 0 where
  pub port_base : ℕ
  pub dev_nr : ℕ

abbrev pub data_reg : IdeHd → ℕ
data_reg hd = hd.port_base + 0x0

abbrev pub sec_cnt : IdeHd → ℕ
sec_cnt hd = hd.port_base + 0x2

abbrev pub lba_low : IdeHd → ℕ
lba_low hd = hd.port_base + 0x3

abbrev pub lba_mid : IdeHd → ℕ
lba_mid hd = hd.port_base + 0x4

abbrev pub lba_high : IdeHd → ℕ
lba_high hd = hd.port_base + 0x5

abbrev pub drive_set : IdeHd → ℕ
drive_set hd = hd.port_base + 0x6

abbrev pub sta_cmd : IdeHd → ℕ
sta_cmd hd = hd.port_base + 0x7

-- `DRIVE_DEFAULT | DRIVE_MASTER | DRIVE_LBA` and `DRIVE_DEFAULT | DRIVE_SLAVE | DRIVE_LBA`
abbrev pub drive_select : ℕ → ℕ
drive_select dev_nr = if dev_nr == 0 then 0xE0 else 0xF0

abbrev pub cmd_identify : ℕ
cmd_identify = 0xEC

abbrev pub cmd_read_sec : ℕ
cmd_read_sec = 0x20

abbrev pub cmd_write_sec : ℕ
cmd_write_sec = 0x30

-- `stat & STAT_BSY` and `stat & STAT_DRQ`
abbrev pub is_busy : ℕ → Bool
is_busy stat = stat / 128 % 2 == 1

abbrev pub has_data : ℕ → Bool
has_data stat = stat / 8 % 2 == 1

unfoldable pub ide_set_drive : IdeHd → Trace → Trace
ide_set_drive hd t = outb (drive_set hd) (drive_select hd.dev_nr) ∷ t

unfoldable pub ide_set_cmd : IdeHd → (cmd : ℕ) → Trace → Trace
ide_set_cmd hd cmd t = outb (sta_cmd hd) cmd ∷ t

unfoldable pub ide_set_lba : Answer → IdeHd → (start cnt : ℕ) → Trace → Trace
ide_set_lba answer hd start cnt t =
    let t' =
      outb (lba_high hd) (u8 (start / 2 ^ 16))
      ∷ outb (lba_mid hd) (u8 (start / 2 ^ 8))
      ∷ outb (lba_low hd) (u8 start)
      ∷ t in
    let reg = u8 (answer t' (drive_set hd)) in
    outb (sec_cnt hd) (u8 (if leb 256 cnt then 0 else cnt))
    ∷ outb (drive_set hd) (bit_or reg (start / 2 ^ 24 % 16))
    ∷ inb (drive_set hd)
    ∷ t'

abbrev pub sector_words : ℕ → ℕ
sector_words cnt = u32 (cnt * 512) / 2

unfoldable pub ide_set_data : IdeHd → (src cnt : ℕ) → Trace → Trace
ide_set_data hd src cnt t = outsw (data_reg hd) src (sector_words cnt) ∷ t

unfoldable pub ide_get_data : IdeHd → (dst cnt : ℕ) → Trace → Trace
ide_get_data hd dst cnt t = insw (data_reg hd) dst (sector_words cnt) ∷ t

unfoldable pub ide_get_status : Answer → IdeHd → Trace → ℕ × Trace
ide_get_status answer hd t = (u8 (answer t (sta_cmd hd)), inb (sta_cmd hd) ∷ t)

-- `do { msleep(10); stat = ide_get_status(hd); } while ((stat & STAT_BSY) || !(stat & STAT_DRQ));`
unfoldable pub wait_data : ℕ → Answer → IdeHd → Trace → Option Trace
wait_data zero answer hd t = none
wait_data (suc fuel) answer hd t =
    let (stat, t') = ide_get_status answer hd (msleep 10 ∷ t) in
    let again = wait_data fuel answer hd t' in
    if is_busy stat || not (has_data stat) then again else some t'

abbrev pub chunk_size : (cnt cnt_done : ℕ) → ℕ
chunk_size cnt cnt_done = if leb 256 (cnt - cnt_done) then 256 else cnt - cnt_done

abbrev pub then_trace : Option Trace → (Trace → Option Trace) → Option Trace
then_trace first next = elim first [ none ↦ none | some t ↦ next t ]

-- One round of the loop of `ide_read`.
unfoldable pub read_chunk : ℕ → Answer → IdeHd → (lba p_dst cnt_each : ℕ) → Trace → Option Trace
read_chunk fuel answer hd lba p_dst cnt_each t =
    let asked = ide_set_cmd hd cmd_read_sec (ide_set_lba answer hd lba cnt_each t) in
    then_trace (wait_data fuel answer hd (sema_down ∷ asked))
      (λ t'. some (ide_get_data hd p_dst cnt_each t'))

-- One round of the loop of `ide_write`.
unfoldable pub write_chunk : ℕ → Answer → IdeHd → (lba p_src cnt_each : ℕ) → Trace → Option Trace
write_chunk fuel answer hd lba p_src cnt_each t =
    let asked = ide_set_cmd hd cmd_write_sec (ide_set_lba answer hd lba cnt_each t) in
    then_trace (wait_data fuel answer hd asked)
      (λ t'. some (sema_down ∷ ide_set_data hd p_src cnt_each t'))

-- The loop of both: `p` is the address in memory, and `lba` stays as it is.
unfoldable pub chunk_loop :
    (rounds : ℕ)
    → (chunk : (p cnt_each : ℕ) → Trace → Option Trace) → (p cnt cnt_done : ℕ) → Trace
    → Option Trace
chunk_loop zero chunk p cnt cnt_done t = none
chunk_loop (suc rounds) chunk p cnt cnt_done t =
    let cnt_each = chunk_size cnt cnt_done in
    let more =
      then_trace (chunk p cnt_each t)
        (chunk_loop rounds chunk (u32 (p + cnt_each * 512)) cnt (cnt_done + cnt_each)) in
    if ltb cnt_done cnt then more else some t

-- `rounds` bounds the chunks, and `fuel` the polls of each.
unfoldable pub ide_read :
    (rounds fuel : ℕ) → Answer → IdeHd → (lba dst cnt : ℕ) → Trace → Option Trace
ide_read rounds fuel answer hd lba dst cnt t =
    then_trace
      (chunk_loop rounds (read_chunk fuel answer hd lba) dst cnt 0
        (ide_set_drive hd (mutex_lock ∷ t)))
      (λ t'. some (mutex_unlock ∷ t'))

unfoldable pub ide_write :
    (rounds fuel : ℕ) → Answer → IdeHd → (lba src cnt : ℕ) → Trace → Option Trace
ide_write rounds fuel answer hd lba src cnt t =
    then_trace
      (chunk_loop rounds (write_chunk fuel answer hd lba) src cnt 0
        (ide_set_drive hd (mutex_lock ∷ t)))
      (λ t'. some (mutex_unlock ∷ t'))

-- `do { msleep(10); stat = ide_get_status(hd); } while (stat & STAT_BSY);`
unfoldable pub wait_idle : ℕ → Answer → IdeHd → Trace → Option (ℕ × Trace)
wait_idle zero answer hd t = none
wait_idle (suc fuel) answer hd t =
    let (stat, t') = ide_get_status answer hd (msleep 10 ∷ t) in
    let again = wait_idle fuel answer hd t' in if is_busy stat then again else some (stat, t')

-- Whether the drive is there; the sector of its description goes to `id_info`.
unfoldable pub ide_get_identify : ℕ → Answer → IdeHd → (id_info : ℕ) → Trace → Option (Bool × Trace)
ide_get_identify fuel answer hd id_info t =
    elim (wait_idle fuel answer hd (ide_set_cmd hd cmd_identify (ide_set_drive hd t))) [
      | none ↦ none
      | some (stat, t') ↦
          if stat == 0
          then some (false, t')
          else some (true, ide_get_data hd id_info 1 (sema_down ∷ t'))
    ]
