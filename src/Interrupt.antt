-- ===== src/Interrupt.antt =====
-- code/kernel/src/interrupt.c: the interrupt descriptor table and the table of handlers. The entry
-- stubs are assembly, so their addresses are parameters, `intr_entry` and `syscall_entry`; so is the
-- address of `intr_general_handler`.
pub mod Gates
pub mod Pic
mod Tests
use k_os.Base.{ℕ, zero, suc, ◌+◌, ◌*◌, ◌/◌, ◌%◌, ◌^◌, ltb, if◌then◌else◌, update, bit_and, bit_or}
use k_os.Base.Word.{u8}

abbrev pub idt_vec_max : ℕ
idt_vec_max = 0x80

-- The length of `intr_entry`.
abbrev pub idt_desc_cnt : ℕ
idt_desc_cnt = 0x30

-- `struct idt_desc`
pub record IdtDesc : Type 0 where
  pub offset_1 : ℕ
  pub selector : ℕ
  pub zero_byte : ℕ
  pub attribute : ℕ
  pub offset_2 : ℕ

-- `SELECTOR_K_CODE`
abbrev pub selector_k_code : ℕ
selector_k_code = 8

-- `GDT_P_1 + GDT_DPL_0` and `GDT_P_1 + GDT_DPL_3`
abbrev pub kernel_gate : ℕ
kernel_gate = 2 ^ 15

abbrev pub user_gate : ℕ
user_gate = 2 ^ 15 + 3 * 2 ^ 13

unfoldable pub make_idt_table : (attr func : ℕ) → IdtDesc
make_idt_table attr func = record {
  offset_1 = func % 2 ^ 16;
  selector = selector_k_code;
  zero_byte = 0;
  attribute = u8 (bit_or (bit_and (attr / 2 ^ 8) 0xE0) 0x0E);
  offset_2 = func / 2 ^ 16 % 2 ^ 16;
}

-- The globals `idt_table` and `intr_func`.
pub record Tables : Type 0 where
  pub idt_table : ℕ → IdtDesc
  pub intr_func : ℕ → ℕ

-- The addresses that the linker provides.
pub record Entries : Type 0 where
  pub intr_entry : ℕ → ℕ
  pub syscall_entry : ℕ
  pub intr_general_handler : ℕ

-- One round of the loop of `idt_init`, but for the vector's name.
unfoldable pub init_vector : Entries → (idx : ℕ) → Tables → Tables
init_vector e idx t =
    if ltb idx idt_desc_cnt
    then record {
      idt_table = update t.idt_table idx (make_idt_table kernel_gate (e.intr_entry idx));
      intr_func = update t.intr_func idx e.intr_general_handler;
    }
    else record t { intr_func = update t.intr_func idx 0 }

unfoldable pub init_vectors : (left : ℕ) → Entries → (idx : ℕ) → Tables → Tables
init_vectors zero e idx t = t
init_vectors (suc left) e idx t = init_vectors left e (idx + 1) (init_vector e idx t)

unfoldable pub idt_init : Entries → Tables → Tables
idt_init e t =
    let t' = init_vectors (idt_vec_max + 1) e 0 t in
    record t' { idt_table = update t'.idt_table 0x80 (make_idt_table user_gate e.syscall_entry) }

unfoldable pub register_handler : Tables → (vec func : ℕ) → Tables
register_handler t vec func = record t { intr_func = update t.intr_func (u8 vec) func }
