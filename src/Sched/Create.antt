-- ===== src/Sched/Create.antt =====
-- `kthread_create` of code/kernel/src/thread.c: the page of a new thread, with its `task_struct` at
-- the start and at its end the stack from which `switch_to` enters `kernel_thread`.
pub mod Page
use k_os.Base.{
  ℕ, ◌+◌, ◌-◌, ◌*◌, ◌/◌, ◌%◌, ◌^◌, ◌<◌, ◌≤◌, ◌≡◌, refl, false, Option, none, some, List, ◌==◌, ◌⊎◌,
  ltb, leb, ◌&&◌, ==_ne, if◌then◌else◌, update, length, arith, inl, inr, ◌∙◌, subst, sym,
}
use k_os.Base.Word.{u32, sub32}
use k_os.CString.{Memory, memset, strcpy}
use k_os.CString.Chars.{Chars, Chars-frame}
use k_os.CString.Copy.{in_block, Apart, memset_lem, strcpy-Chars}
use k_os.Memory.Pool.{pg_size}
use k_os.Memory.Pages.{Kernel, pf_kernel, page_malloc}
use k_os.Sched.{Threads, task_running, task_tag, task_all_tag}

-- The pages, the threads, the 32-bit words and the bytes at each address. A word and a byte are
-- read as the code reads them: the pointers of a thread page as words, its name as bytes.
pub record Machine : Type 0 where
  pub kernel : Kernel
  pub threads : Threads
  pub words : ℕ → ℕ
  pub bytes : Memory

-- The fields of `struct task_struct` by their offsets; its size is 48.
abbrev pub task_name : ℕ → ℕ
task_name task = task + 28

abbrev pub stack_magic_at : ℕ → ℕ
stack_magic_at task = task + 44

abbrev pub task_struct_size : ℕ
task_struct_size = 48

abbrev pub stack_magic : ℕ
stack_magic = 0x19880802

-- `sizeof(struct kstack_switch)`
abbrev pub kstack_switch_size : ℕ
kstack_switch_size = 32

-- `memset(task, 0, sizeof(struct task_struct))`, on links and fields, and on words; TASK_RUNNING is 0.
unfoldable pub cleared : Threads → ℕ → Threads
cleared s task = record s {
  tasks = update s.tasks task (record { status = task_running; time_slice = 0 });
  links =
      update (update s.links (task_tag task) (record { prev = 0; next = 0 })) (task_all_tag task)
        (record { prev = 0; next = 0 });
}

abbrev pub zero_struct : (ℕ → ℕ) → (task : ℕ) → ℕ → ℕ
zero_struct words task a = if leb task a && ltb a (task + task_struct_size) then 0 else words a

-- The words that `switch_to` and `kernel_thread` find on the new stack; the return address is not
-- written.
unfoldable pub forge_stack : (ℕ → ℕ) → (ks_sw kernel_thread fn fn_arg : ℕ) → ℕ → ℕ
forge_stack words ks_sw kernel_thread fn fn_arg =
    let saved =
      update (update (update (update words ks_sw 0) (ks_sw + 4) 0) (ks_sw + 8) 0) (ks_sw + 12) 0 in
    update (update (update saved (ks_sw + 16) kernel_thread) (ks_sw + 24) fn) (ks_sw + 28) fn_arg

-- `kernel_thread` is the address of that function, `fuel` bounds the name. NULL is not tested in the
-- source: the write at NULL is a fault.
unfoldable pub kthread_create :
    (fuel : ℕ) → Machine → (kernel_thread fn fn_arg name : ℕ) → Option (ℕ × Machine)
kthread_create fuel m kernel_thread fn fn_arg name =
    let (task, k) = page_malloc pf_kernel m.kernel 0 1 in
    let ks_sw = sub32 (u32 (task + pg_size)) kstack_switch_size in
    let words =
      update (update (zero_struct m.words task) task ks_sw) (stack_magic_at task) stack_magic in
    let made : Option (ℕ × Machine) =
      elim (strcpy fuel (memset m.bytes task 0 task_struct_size) (task_name task) name) [
        | none ↦ none
        | some bytes ↦ some (
          task,
          record {
            kernel = k;
            threads = cleared m.threads task;
            words = forge_stack words ks_sw kernel_thread fn fn_arg;
            bytes = bytes;
          },
        )
      ] in
    if task == 0 then none else made

-- `esp & 0xfffff000`
unfoldable pub kthread_current : (esp : ℕ) → ℕ
kthread_current esp = esp / 2 ^ 12 * 2 ^ 12
