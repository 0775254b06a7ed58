-- ===== src/Interrupt/Pic.antt =====
-- code/kernel/src/interrupt.c: `pic_init` and `intr_init`. The writes to the two interrupt controllers
-- are a list in their order; `Chip` is what a controller of type 8259A makes of those to its two ports.
use k_os.Base.{ℕ, ◌+◌, ◌-◌, ◌==◌, ◌&&◌, not, ltb, Bool, if◌then◌else◌, List, [], ◌∷◌}
use k_os.Base.Bits.{bit_test}
use k_os.Interrupt.{Tables, Entries, idt_init}

-- A call of `outb`.
pub record Out : Type 0 where
  pub port : ℕ
  pub value : ℕ

abbrev pub pic_m_ctrl : ℕ
pic_m_ctrl = 0x20

abbrev pub pic_m_data : ℕ
pic_m_data = 0x21

abbrev pub pic_s_ctrl : ℕ
pic_s_ctrl = 0xA0

abbrev pub pic_s_data : ℕ
pic_s_data = 0xA1

abbrev pub out : (port value : ℕ) → Out
out port value = record { port = port; value = value }

unfoldable pub pic_init : List Out
pic_init =
    out pic_m_ctrl 0x11
    ∷ out pic_m_data 0x20
    ∷ out pic_m_data 0x04
    ∷ out pic_m_data 0x01
    ∷ out pic_s_ctrl 0x11
    ∷ out pic_s_data 0x28
    ∷ out pic_s_data 0x02
    ∷ out pic_s_data 0x01
    ∷ out pic_m_data 0xFA
    ∷ out pic_s_data 0x33
    ∷ []

-- The tables, and what is written to the controllers.
unfoldable pub intr_init : Entries → Tables → Tables × List Out
intr_init e t = (idt_init e t, pic_init)

-- A controller: how many initialization words it still expects, the vector of its line 0, its place in
-- the cascade, and its mask.
pub record Chip : Type 0 where
  pub expects : ℕ
  pub vector_base : ℕ
  pub cascade : ℕ
  pub mask : ℕ

-- A first word with bit 4 set starts the initialization, which clears the mask; the next three words on
-- the data port are the vector base, the cascade and the mode, and any later one is the mask.
unfoldable pub accept : (ctrl_port data_port : ℕ) → Out → Chip → Chip
accept ctrl_port data_port o c =
    let word =
      if c.expects == 3
      then record c { expects = 2; vector_base = o.value }
      else if c.expects == 2
      then record c { expects = 1; cascade = o.value }
      else if c.expects == 1
      then record c { expects = 0 }
      else record c { mask = o.value } in
    if (o.port == ctrl_port) && bit_test o.value 4
    then record c { expects = 3; mask = 0 }
    else if o.port == data_port
    then word
    else c

unfoldable pub program : (ctrl_port data_port : ℕ) → List Out → Chip → Chip
program ctrl_port data_port [] c = c
program ctrl_port data_port (o ∷ os) c =
    program ctrl_port data_port os (accept ctrl_port data_port o c)

-- The controllers after a list of writes, from whatever state they were in.
unfoldable pub master : List Out → Chip → Chip
master = program pic_m_ctrl pic_m_data

unfoldable pub slave : List Out → Chip → Chip
slave = program pic_s_ctrl pic_s_data

-- Whether line `l` of the 16 gets through; those from 8 on go through the master's line 2.
unfoldable pub passes : (m s : Chip) → (l : ℕ) → Bool
passes m s l =
    if ltb l 8
    then not (bit_test m.mask l)
    else not (bit_test s.mask (l - 8)) && not (bit_test m.mask s.cascade)

-- The vector that a line raises.
unfoldable pub vector_of : (m s : Chip) → (l : ℕ) → ℕ
vector_of m s l = if ltb l 8 then m.vector_base + l else s.vector_base + (l - 8)
