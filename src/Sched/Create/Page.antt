-- ===== src/Sched/Create/Page.antt =====
-- What `kthread_create` makes of the page of a new thread.
use k_os.Base.{
  ℕ, ◌+◌, ◌-◌, ◌%◌, ◌^◌, ◌<◌, ◌≤◌, ◌≡◌, refl, false, some, List, ◌==◌, ◌⊎◌, ==_ne, update, length,
  arith, inl, inr, ◌∙◌, subst, sym,
}
use k_os.Base.Word.{u32, sub32}
use k_os.CString.{Memory, memset, strcpy}
use k_os.CString.Chars.{Chars, Chars-frame}
use k_os.CString.Copy.{in_block, Apart, memset_lem, strcpy-Chars}
use k_os.Memory.Pool.{pg_size}
use k_os.Memory.Pages.{Kernel, pf_kernel, page_malloc}
use k_os.Sched.Create.{
  Machine, task_name, stack_magic_at, task_struct_size, stack_magic, kstack_switch_size, cleared,
  zero_struct, forge_stack, kthread_create, kthread_current,
}

-- What `kthread_create` makes of a page: the saved stack pointer, the entry and its arguments where
-- `switch_to` and `kernel_thread` look for them, the mark at the end of the `task_struct`, the name.
pub record Created (after : Machine) (task kernel_thread fn fn_arg : ℕ) (s : List ℕ) : Type 0 where
  pub kstack : after.words task ≡ task + pg_size - kstack_switch_size
  pub entry : after.words (after.words task + 16) ≡ kernel_thread
  pub argument_1 : after.words (after.words task + 24) ≡ fn
  pub argument_2 : after.words (after.words task + 28) ≡ fn_arg
  pub magic : after.words (stack_magic_at task) ≡ stack_magic
  pub name : Chars after.bytes (task_name task) s
  pub mark_kept :
      (a : ℕ) → stack_magic_at task ≤ a → a < task + task_struct_size → after.bytes a ≡ 0
  pub name_kept : (a : ℕ) → task_name task ≤ a → a < stack_magic_at task → after.words a ≡ 0
  pub current :
      (esp : ℕ) → after.words task ≤ esp → esp < task + pg_size → kthread_current esp ≡ task

module _ (words : ℕ → ℕ) (task kernel_thread fn fn_arg : ℕ) where
  -- The words of the new page.
  abbrev page_words : ℕ → ℕ
  page_words =
      forge_stack
        (update (update (zero_struct words task) task (task + 4064)) (stack_magic_at task)
          stack_magic)
        (task + 4064) kernel_thread fn fn_arg

  kstack_lem : page_words task ≡ task + 4064
  unfolding forge_stack
  kstack_lem = ground arith

  magic_lem : page_words (stack_magic_at task) ≡ stack_magic
  unfolding forge_stack
  magic_lem = ground arith

  words_of_name : (a : ℕ) → task_name task ≤ a → a < stack_magic_at task → page_words a ≡ 0
  unfolding forge_stack
  words_of_name a low high = ground (arith, low, high)

  frame_lem :
      (page_words (task + 4064 + 16) ≡ kernel_thread)
      × (page_words (task + 4064 + 24) ≡ fn)
      × (page_words (task + 4064 + 28) ≡ fn_arg)
  unfolding forge_stack
  frame_lem = (ground arith, ground arith, ground arith)

memset-outside :
    (m : Memory) (task a : ℕ)
    → in_block task task_struct_size a ≡ false
    → memset m task 0 task_struct_size a ≡ m a
memset-outside m task a out = memset_lem m task 0 task_struct_size a ∙ rw out refl

create-step :
    (fuel : ℕ) (m : Machine) (kernel_thread fn fn_arg name task : ℕ) (k : Kernel) (bytes : Memory)
    → page_malloc pf_kernel m.kernel 0 1 ≡ (task, k)
    → (task == 0) ≡ false
    → sub32 (u32 (task + pg_size)) kstack_switch_size ≡ task + 4064
    → strcpy fuel (memset m.bytes task 0 task_struct_size) (task_name task) name ≡ some bytes
    → kthread_create fuel m kernel_thread fn fn_arg name
      ≡ some (
        task,
        record {
          kernel = k;
          threads = cleared m.threads task;
          words = page_words m.words task kernel_thread fn fn_arg;
          bytes = bytes;
        },
      )
unfolding kthread_create
create-step fuel m kernel_thread fn fn_arg name task k bytes page ne at copied =
    rw (kthread_create, page, ne, copied, page, at) refl

name-Apart :
    (task name n : ℕ)
    → n < 16
    → Apart task pg_size name 16
    → Apart (task_name task) (n + 1) name (n + 1)
name-Apart task name n short (inl before) = inl (omega (arith, before, short))
name-Apart task name n short (inr after) = inr (omega (arith, after, short))

current_lem :
    (task esp : ℕ)
    → task % 2 ^ 12 ≡ 0
    → task ≤ esp
    → esp < task + pg_size
    → kthread_current esp ≡ task
unfolding kthread_current
current_lem task esp aligned low high = omega (arith, aligned, low, high)

-- All that `kthread_create` does to the machine.
pub record Made (m after : Machine) (task kernel_thread fn fn_arg : ℕ) (s : List ℕ) : Type 0 where
  pub created : Created after task kernel_thread fn fn_arg s
  pub threads_eq : after.threads ≡ cleared m.threads task
  pub bytes_frame : (a : ℕ) → (a < task) ⊎ (task + pg_size ≤ a) → after.bytes a ≡ m.bytes a

pub create-Made :
    (fuel : ℕ) (m : Machine) (kernel_thread fn fn_arg name task : ℕ) (k : Kernel) (s : List ℕ)
    → page_malloc pf_kernel m.kernel 0 1 ≡ (task, k)
    → task % 2 ^ 12 ≡ 0
    → 0 < task
    → task + pg_size < 2 ^ 32
    → Chars m.bytes name s
    → length s < 16
    → Apart task pg_size name 16
    → length s < fuel
    → (after : Machine) × (kthread_create fuel m kernel_thread fn fn_arg name ≡ some (task, after))
      × Made m after task kernel_thread fn fn_arg s
create-Made fuel m kernel_thread fn fn_arg name task k s page aligned pos top string short away
      enough =
    let safe : (a : ℕ) → name ≤ a → a ≤ name + length s → in_block task task_struct_size a ≡ false =
      λ a low high. elim away [
        | inl before ↦ ground (arith, low, before)
        | inr after ↦ ground (arith, high, short, after)
      ] in
    let copied =
      strcpy-Chars fuel (memset m.bytes task 0 task_struct_size) (task_name task) name s
        (Chars-frame m.bytes (memset m.bytes task 0 task_struct_size) name s string
          (λ a low high. memset-outside m.bytes task a (safe a low high)))
        enough (name-Apart task name (length s) short away) in
    let kstack = kstack_lem m.words task kernel_thread fn fn_arg in
    let frame = frame_lem m.words task kernel_thread fn fn_arg in
    let w = page_words m.words task kernel_thread fn fn_arg in
    (
      record { kernel = k; threads = cleared m.threads task; words = w; bytes = copied.0 },
      create-step fuel m kernel_thread fn fn_arg name task k copied.0 page
          (==_ne task 0 (omega (arith, pos))) (omega (arith, top)) copied.1,
      record {
        created = record {
          kstack = kstack ∙ omega arith;
          entry = subst (λ esp. w (esp + 16) ≡ kernel_thread) (sym kstack) frame.0;
          argument_1 = subst (λ esp. w (esp + 24) ≡ fn) (sym kstack) frame.1;
          argument_2 = subst (λ esp. w (esp + 28) ≡ fn_arg) (sym kstack) frame.2;
          magic = magic_lem m.words task kernel_thread fn fn_arg;
          name = copied.2;
          mark_kept = λ a low high.
              copied.3 a (ground (arith, low, short))
              ∙ memset_lem m.bytes task 0 task_struct_size a
              ∙ ground (arith, low, high);
          name_kept = words_of_name m.words task kernel_thread fn fn_arg;
          current = λ esp low high. current_lem task esp aligned (omega (arith, kstack, low)) high;
        };
        threads_eq = refl;
        bytes_frame = λ a away'.
            copied.3 a (ground (arith, away', short))
            ∙ memset-outside m.bytes task a (ground (arith, away'));
      },
    )

-- `kthread_create` with a free page and a name of up to 15 characters outside that page returns the
-- page as a new thread: the stack at the end of the page starts `kernel_thread` with both
-- arguments; the mark and the name are in their places, no byte of the name was written from the mark
-- on, where the `task_struct` was cleared, and no word but zeros into the name's 16 bytes; and the
-- stack pointers of the frame lead back to the thread.
pub create-Created :
    (fuel : ℕ) (m : Machine) (kernel_thread fn fn_arg name task : ℕ) (k : Kernel) (s : List ℕ)
    → page_malloc pf_kernel m.kernel 0 1 ≡ (task, k)
    → task % 2 ^ 12 ≡ 0
    → 0 < task
    → task + pg_size < 2 ^ 32
    → Chars m.bytes name s
    → length s < 16
    → Apart task pg_size name 16
    → length s < fuel
    → (after : Machine) × (kthread_create fuel m kernel_thread fn fn_arg name ≡ some (task, after))
      × Created after task kernel_thread fn fn_arg s
create-Created fuel m kernel_thread fn fn_arg name task k s page aligned pos top string short away
      enough =
    let r =
      create-Made fuel m kernel_thread fn fn_arg name task k s page aligned pos top string short
        away enough in
    (r.0, r.1, r.2.created)
