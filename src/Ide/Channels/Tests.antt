-- ===== src/Ide/Channels/Tests.antt =====
-- The theorem on interrupt lines for a machine without drives.
use k_os.Base.{ℕ, ◌+◌, ◌*◌, ◌%◌, ◌≡◌, ◌⊎◌, refl, true, false, some, [], arith}
use k_os.Base.Bits.{bit_test}
use k_os.Lock.{mutex_init, sema_init}
use k_os.Interrupt.{Tables, Entries}
use k_os.Interrupt.Pic.{
  Chip, pic_init, intr_init, accept, program, master, slave, passes, vector_of,
}
use k_os.Timer.{timer_init}
use k_os.Ide.{ide_get_identify, wait_idle, ide_get_status, ide_set_cmd, ide_set_drive}
use k_os.Ide.Partition.{ide_get_partition, scan_entries, scan_entry}
use k_os.Ide.Channels.{Drive, IdeCh, IdeState, Surroundings, ide_init}
use k_os.Ide.Channels.Probe.{Responds}
use k_os.Ide.Channels.Lines.{ServesDrive, open_line-handled}

abbrev entries : Entries
entries = record {
  intr_entry = λ v. 0xC0010000 + v * 32 % 4096;
  syscall_entry = 0xC0020000;
  intr_general_handler = 0xC0030000;
}

abbrev blank : Tables
blank = record {
  idt_table =
      λ v. record { offset_1 = 0; selector = 0; zero_byte = 0; attribute = 0; offset_2 = 0 };
  intr_func = λ v. 7;
}

-- Every port reads as 0.
abbrev no_drives : Surroundings
no_drives = record {
  fuel = 1;
  answer = λ t p. 0;
  disk = λ c h lba idx. record { type = 0; start_lba = 0; sec_cnt = 0 };
  id_info = 0xC0200000;
  handler = 0xC0040000;
}

no_drives-Responds : Responds no_drives
unfolding ide_get_identify wait_idle ide_get_status ide_set_cmd ide_set_drive ide_get_partition
    scan_entries scan_entry
no_drives-Responds = record { identifies = λ hd t. (false, _, refl); scans = λ c h f. (f, refl) }

abbrev drive : Drive
drive = record { name = []; dev_nr = 0; valid = false }

abbrev channel : IdeCh
channel = record {
  name = [];
  dev = λ h. drive;
  mlock = mutex_init;
  sema = sema_init 0;
  port_base = 0;
  irq = 0;
}

abbrev booted : IdeState
booted = record {
  g_ide_ch = λ k. channel;
  ptn_list = [];
  ptn_nr = 0;
  tables = (timer_init 0xC0050000 (intr_init entries blank).0).tables;
  trace = [];
}

abbrev reset : Chip
reset = record { expects = 0; vector_base = 0; cascade = 0; mask = 0xFF }

eleven : passes (master pic_init reset) (slave pic_init reset) 11 ≡ true
unfolding passes master slave program accept pic_init bit_test
eleven = refl

open_line-handled_example :
    (after : IdeState) × (ide_init no_drives booted ≡ some after)
    × (((vector_of (master pic_init reset) (slave pic_init reset) 11 ≡ 0x20)
          × (after.tables.intr_func 0x20 ≡ 0xC0050000))
        ⊎ ((k : ℕ) × ServesDrive no_drives after
              (vector_of (master pic_init reset) (slave pic_init reset) 11)
              k))
unfolding intr_init
open_line-handled_example =
    open_line-handled entries blank reset reset 0xC0050000 no_drives booted 11 no_drives-Responds
      refl (omega arith) (omega arith) eleven
