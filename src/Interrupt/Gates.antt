-- ===== src/Interrupt/Gates.antt =====
-- What `idt_init` puts in the tables.
use k_os.Base.{
  ℕ, zero, suc, ◌+◌, ◌*◌, ◌^◌, ◌≤◌, ◌<◌, ◌≡◌, refl, ◌==◌, ltb, leb, ◌&&◌, if◌then◌else◌, arith, ap,
  ◌∙◌, subst, sym, Bool-cases, inl, inr,
}
use k_os.Interrupt.{
  IdtDesc, Tables, Entries, make_idt_table, init_vector, init_vectors, idt_init, kernel_gate,
  user_gate, selector_k_code, idt_vec_max, idt_desc_cnt,
}

-- The processor enters the gate at `addr` in the kernel's code segment with interrupts off, and
-- lets code of privilege level `dpl` and below it enter by `int`.
pub record Enters (d : IdtDesc) (addr dpl : ℕ) : Type 0 where
  pub target : d.offset_2 * 2 ^ 16 + d.offset_1 ≡ addr
  pub segment : d.selector ≡ selector_k_code
  pub reserved : d.zero_byte ≡ 0
  pub present_gate : d.attribute ≡ 2 ^ 7 + dpl * 2 ^ 5 + 0x0E

kernel-Enters : (func : ℕ) → func < 2 ^ 32 → Enters (make_idt_table kernel_gate func) func 0
unfolding make_idt_table
kernel-Enters func h = record {
  target = omega arith;
  segment = refl;
  reserved = refl;
  present_gate = refl;
}

user-Enters : (func : ℕ) → func < 2 ^ 32 → Enters (make_idt_table user_gate func) func 3
unfolding make_idt_table
user-Enters func h = record {
  target = omega arith;
  segment = refl;
  reserved = refl;
  present_gate = refl;
}

init_vectors-func :
    (left : ℕ) (e : Entries) (idx : ℕ) (t : Tables) (v : ℕ)
    → (init_vectors left e idx t).intr_func v ≡ (
        if leb idx v && ltb v (idx + left)
        then if ltb v idt_desc_cnt then e.intr_general_handler else 0
        else t.intr_func v)
unfolding init_vectors init_vector
init_vectors-func zero e idx t v = ground arith
init_vectors-func (suc left) e idx t v =
    init_vectors-func left e (idx + 1) (init_vector e idx t) v ∙ ground arith

init_vector-table :
    (e : Entries) (idx : ℕ) (t : Tables) (v : ℕ)
    → (init_vector e idx t).idt_table v ≡ (
        if (v == idx) && ltb v idt_desc_cnt
        then make_idt_table kernel_gate (e.intr_entry v)
        else t.idt_table v)
unfolding init_vector
init_vector-table e idx t v = elim (Bool-cases (v == idx)) [
  | inl here ↦
      let e' : idx ≡ v = ground (arith, here) in
      let entry = ap e.intr_entry e' in rw e' (ground arith)
  | inr away ↦ ground (arith, away)
]

init_vectors-table :
    (left : ℕ) (e : Entries) (idx : ℕ) (t : Tables) (v : ℕ)
    → (init_vectors left e idx t).idt_table v ≡ (
        if leb idx v && ltb v (idx + left) && ltb v idt_desc_cnt
        then make_idt_table kernel_gate (e.intr_entry v)
        else t.idt_table v)
unfolding init_vectors init_vector
init_vectors-table zero e idx t v = ground arith
init_vectors-table (suc left) e idx t v =
    init_vectors-table left e (idx + 1) (init_vector e idx t) v
    ∙ ground (arith, init_vector-table e idx t v)

-- Addresses that fit a word.
pub record InMemory (e : Entries) : Type 0 where
  pub entries : (v : ℕ) → e.intr_entry v < 2 ^ 32
  pub syscall : e.syscall_entry < 2 ^ 32

-- After `idt_init` each of the 48 first vectors enters its stub for the kernel only and has the
-- general handler; vector 0x80 enters `syscall_entry` for user code too; no other vector up to
-- 0x80 has a handler.
pub record IsTables (e : Entries) (t : Tables) : Type 0 where
  pub stubs : (v : ℕ) → v < idt_desc_cnt → Enters (t.idt_table v) (e.intr_entry v) 0
  pub system_call : Enters (t.idt_table 0x80) e.syscall_entry 3
  pub general : (v : ℕ) → v < idt_desc_cnt → t.intr_func v ≡ e.intr_general_handler
  pub none_else : (v : ℕ) → idt_desc_cnt ≤ v → v ≤ idt_vec_max → t.intr_func v ≡ 0

-- `idt_init` fills any tables that way, when the addresses fit a word.
pub idt_init-IsTables : (e : Entries) (t : Tables) → InMemory e → IsTables e (idt_init e t)
unfolding idt_init
idt_init-IsTables e t m = record {
  stubs = λ v lt.
      let n = kernel-Enters (e.intr_entry v) (m.entries v) in
      let d : (idt_init e t).idt_table v ≡ make_idt_table kernel_gate (e.intr_entry v) =
        ground (arith, init_vectors-table 129 e 0 t v) in
      subst (λ d. Enters d (e.intr_entry v) 0) (sym d) n;
  system_call = user-Enters e.syscall_entry m.syscall;
  general = λ v lt. ground (arith, init_vectors-func 129 e 0 t v);
  none_else = λ v le ge. ground (arith, init_vectors-func 129 e 0 t v);
}
