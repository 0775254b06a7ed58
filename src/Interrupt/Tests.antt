-- ===== src/Interrupt/Tests.antt =====
-- The theorem on the interrupt tables at concrete addresses.
use k_os.Base.{◌+◌, ◌*◌, ◌%◌, arith}
use k_os.Interrupt.{Tables, Entries, idt_init}
use k_os.Interrupt.Gates.{InMemory, IsTables, idt_init-IsTables}

-- Stubs of 32 bytes from 0xC0010000 on.
abbrev entries : Entries
entries = record {
  intr_entry = λ v. 0xC0010000 + v * 32 % 4096;
  syscall_entry = 0xC0020000;
  intr_general_handler = 0xC0030000;
}

abbrev blank : Tables
blank = record {
  idt_table =
      λ v. record { offset_1 = 0; selector = 0; zero_byte = 0; attribute = 0; offset_2 = 0 };
  intr_func = λ v. 7;
}

entries-InMemory : InMemory entries
entries-InMemory = record { entries = λ v. omega arith; syscall = omega arith }

idt_init-IsTables_example : IsTables entries (idt_init entries blank)
idt_init-IsTables_example = idt_init-IsTables entries blank entries-InMemory
