-- ===== src/Sched/Init/TwoThreads.antt =====
-- `kthread_init` as a whole.
use k_os.Base.{
  ℕ, ◌%◌, ◌^◌, ◌<◌, ◌≤◌, ◌≡◌, refl, List, [], ◌∷◌, some, arith, ap, ◌∙◌, update, length,
}
use k_os.CString.{Memory, memset, strcpy}
use k_os.CString.Chars.{Chars, Chars-frame}
use k_os.CString.Copy.{Apart, memset_lem, strcpy-Chars}
use k_os.LinkedList.{list_init}
use k_os.LinkedList.Links.{IsList}
use k_os.LinkedList.Ops.{initialised, init-ok}
use k_os.Memory.Pool.{pg_size}
use k_os.Memory.Pages.{Kernel, pf_kernel, page_malloc}
use k_os.Sched.{
  Threads, task_ready, task_all_tag, sched_rr_time_slice, kthread_run, links_after, ◌>>=◌,
}
use k_os.Sched.Ready.{Ready}
use k_os.Sched.Create.{
  Machine, kthread_create, kthread_current, cleared, task_name, stack_magic, stack_magic_at,
  task_struct_size, zero_struct,
}
use k_os.Sched.Create.Page.{create-Made}
use k_os.Sched.Init.{with_threads, main_thread_init, kthread_init}
use k_os.Sched.Init.Started.{Placed, emptied, with_idle, first_run, with_main, second_run}

-- The state that `kthread_init` leaves: both threads are in both lists, the idle thread first, and
-- the boot code runs as the thread `main`, which is marked as ready and queued all the same.
pub record TwoThreads (after : Machine) (idle main esp : ℕ) (name : List ℕ) : Type 0 where
  pub ready : Ready after.threads (idle ∷ main ∷ [])
  pub every :
      IsList after.threads.links after.threads.task_all_list
        (task_all_tag idle ∷ task_all_tag main ∷ [])
  pub runs : after.threads.current ≡ main
  pub idle_task : after.threads.g_idle_task ≡ idle
  pub main_task :
      after.threads.tasks main ≡ record { status = task_ready; time_slice = sched_rr_time_slice }
  pub main_stack : after.words main ≡ esp
  pub main_magic : after.words (stack_magic_at main) ≡ stack_magic
  pub main_name : Chars after.bytes (task_name main) name

main-step :
    (fuel : ℕ) (m : Machine) (esp name : ℕ) (bytes : Memory) (threads : Threads)
    → strcpy fuel
        (memset m.bytes (kthread_current esp) 0 task_struct_size)
        (task_name (kthread_current esp))
        name
      ≡ some bytes
    → kthread_run
        (record (cleared m.threads (kthread_current esp)) { current = kthread_current esp })
        (kthread_current esp)
      ≡ some threads
    → main_thread_init fuel m esp name
      ≡ some (record {
        kernel = m.kernel;
        threads = threads;
        words =
            update
              (update (zero_struct m.words (kthread_current esp)) (kthread_current esp) esp)
              (stack_magic_at (kthread_current esp))
              stack_magic;
        bytes = bytes;
      })
unfolding main_thread_init
main-step fuel m esp name bytes threads copied run =
    rw (main_thread_init, copied, ◌>>=◌, run, ◌>>=◌) refl

lists-step :
    (s : Threads)
    → 0 < s.task_ready_list
    → 0 < s.task_all_list
    → (links_after (list_init s.task_ready_list) s
        ≡ some (record s { links = initialised s.links s.task_ready_list }))
      × (links_after
            (list_init s.task_all_list)
            (record s { links = initialised s.links s.task_ready_list })
          ≡ some (record s {
            links = initialised (initialised s.links s.task_ready_list) s.task_all_list;
          }))
lists-step s r a = (
  rw (init-ok s.links s.task_ready_list (omega (arith, r)), links_after) refl,
  rw
      (
        init-ok (initialised s.links s.task_ready_list) s.task_all_list (omega (arith, a)),
        links_after,
      )
      refl,
)

init-step :
    (fuel : ℕ) (m : Machine) (kernel_thread idle_thread idle_name main_name esp idle : ℕ)
    (s₁ s₂ s₃ : Threads) (m₁ after : Machine)
    → links_after (list_init m.threads.task_ready_list) m.threads ≡ some s₁
    → links_after (list_init s₁.task_all_list) s₁ ≡ some s₂
    → kthread_create fuel (with_threads m s₂) kernel_thread idle_thread 0 idle_name
      ≡ some (idle, m₁)
    → kthread_run (record m₁.threads { g_idle_task = idle }) idle ≡ some s₃
    → main_thread_init fuel (with_threads m₁ s₃) esp main_name ≡ some after
    → kthread_init fuel m kernel_thread idle_thread idle_name main_name esp ≡ some after
unfolding kthread_init
init-step fuel m kernel_thread idle_thread idle_name main_name esp idle s₁ s₂ s₃ m₁ after one two
      made run rest =
    rw (kthread_init, one, ◌>>=◌, two, ◌>>=◌, made, ◌>>=◌, run, ◌>>=◌) rest

-- The name of the boot thread is copied to its page; the bytes at `name` are as they were.
main-name :
    (fuel : ℕ) (m : Machine) (main name : ℕ) (s : List ℕ)
    → Chars m.bytes name s
    → length s < 16
    → length s < fuel
    → Apart main pg_size name 16
    → (bytes : Memory) × (strcpy fuel (memset m.bytes main 0 task_struct_size) (task_name main) name
        ≡ some bytes)
      × Chars bytes (task_name main) s
main-name fuel m main name s string short enough away =
    let copied =
      strcpy-Chars fuel (memset m.bytes main 0 task_struct_size) (task_name main) name s
        (Chars-frame m.bytes (memset m.bytes main 0 task_struct_size) name s string
          (λ a low high. memset_lem m.bytes main 0 task_struct_size a ∙ ground arith))
        enough (ground arith) in
    (copied.0, copied.1, copied.2)

-- `kthread_init` with a free page for the idle thread, the boot code on a page of its own, and names of
-- up to 15 characters outside of both pages goes through, and leaves the two threads.
pub kthread_init-TwoThreads :
    (fuel : ℕ) (m : Machine) (kernel_thread idle_thread idle_name main_name esp idle : ℕ)
    (k : Kernel) (si sm : List ℕ)
    → page_malloc pf_kernel m.kernel 0 1 ≡ (idle, k)
    → idle % 2 ^ 12 ≡ 0
    → Placed m.threads.task_ready_list m.threads.task_all_list idle (kthread_current esp)
    → Chars m.bytes idle_name si
    → Chars m.bytes main_name sm
    → length si < 16
    → length sm < 16
    → Apart idle pg_size idle_name 16
    → Apart idle pg_size main_name 16
    → Apart (kthread_current esp) pg_size main_name 16
    → 16 ≤ fuel
    → (after : Machine) × (kthread_init fuel m kernel_thread idle_thread idle_name main_name esp
        ≡ some after)
      × TwoThreads after idle (kthread_current esp) esp sm
unfolding emptied with_idle with_main cleared
kthread_init-TwoThreads fuel m kernel_thread idle_thread idle_name main_name esp idle k si sm page
      aligned pl idle_string main_string short_i short_m away_i away_im away_m enough =
    let main = kthread_current esp in
    let s = m.threads in
    let lists = lists-step s pl.ready_some pl.all_some in
    let s₂ = emptied s idle main pl in
    let made =
      create-Made fuel (with_threads m s₂) kernel_thread idle_thread 0 idle_name idle k si page
        aligned pl.idle_some pl.idle_top idle_string short_i away_i
        (omega (arith, enough, short_i)) in
    let one = first_run s idle main pl in
    let m₁ = made.0 in
    let run : kthread_run (record m₁.threads { g_idle_task = idle }) idle ≡ some one.0 =
      ap (λ t. kthread_run (record t { g_idle_task = idle }) idle) made.2.threads_eq ∙ one.1 in
    let two = second_run s idle main pl one.0 one.2 one.3 one.5 in
    let named =
      main-name fuel m₁ main main_name sm
        (Chars-frame m.bytes m₁.bytes main_name sm main_string
          (λ a low high. made.2.bytes_frame a (ground arith)))
        short_m (omega (arith, enough, short_m)) away_m in
    let end = main-step fuel (with_threads m₁ one.0) esp main_name named.0 two.0 named.1 two.1 in
    (
      _,
      init-step fuel m kernel_thread idle_thread idle_name main_name esp idle _ s₂ one.0 m₁ _
          lists.0 lists.1 made.1 run end,
      record {
        ready = two.2;
        every = two.3;
        runs = ap (λ t. t.current) two.5;
        idle_task = ap (λ t. t.g_idle_task) two.5 ∙ ap (λ t. t.g_idle_task) one.5;
        main_task = two.4;
        main_stack = ground arith;
        main_magic = ground arith;
        main_name = named.2;
      },
    )
