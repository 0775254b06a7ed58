-- ===== src/Sched/Init/Tests.antt =====
-- The start of the first two threads on a small machine.
use k_os.Base.{ℕ, ◌≡◌, ◌≢◌, ◌<◌, refl, inl, inr, some, [], ◌∷◌, arith, ◌==◌, if◌then◌else◌}
use k_os.Base.Bits.{bit_test, bit_set, bit_clear}
use k_os.Bitmap.{
  bitmap_acquire, byte_search, bit_search, run_search, set_run, bitmap_set, bitmap_check,
}
use k_os.CString.Chars.{Chars}
use k_os.Memory.Pool.{PPool, palloc, vaddr_acquire, claim_fixed}
use k_os.Memory.PageTable.{page_table_add, pde_ptr, pte_ptr}
use k_os.Memory.Pages.{Kernel, pf_kernel, page_acquire, page_malloc, map_pages}
use k_os.Sched.{task_running}
use k_os.Sched.Create.{Machine, kthread_current}
use k_os.Sched.Init.{kthread_init}
use k_os.Sched.Init.Started.{Placed}
use k_os.Sched.Init.TwoThreads.{TwoThreads, kthread_init-TwoThreads}

-- "idle" at 0x9000, "main" at 0x9010.
abbrev names : ℕ → ℕ
names a =
    if a == 0x9000
    then b'i'
    else if a == 0x9001
    then b'd'
    else if a == 0x9002
    then b'l'
    else if a == 0x9003
    then b'e'
    else if a == 0x9010
    then b'm'
    else if a == 0x9011
    then b'a'
    else if a == 0x9012
    then b'i'
    else if a == 0x9013
    then b'n'
    else 0

abbrev machine : Machine
machine =
    let frames : PPool = record {
      paddr_start = 0x200000;
      size = 0x8000;
      paddr_bitmap = record { len = 1; bits = λ i. 0x01 };
    } in
    record {
      kernel = record {
        k_p_pool = frames;
        u_p_pool = frames;
        k_v_pool = record {
          vaddr_start = 0xC0100000;
          vaddr_bitmap = record { len = 1; bits = λ i. 0x05 };
        };
        words = λ a. 0;
      };
      threads = record {
        task_ready_list = 100;
        task_all_list = 200;
        g_idle_task = 0;
        current = 0;
        links = λ a. record { prev = 7; next = 7 };
        tasks = λ a. record { status = task_running; time_slice = 0 };
      };
      words = λ a. 0;
      bytes = names;
    }

thread_page : (k : Kernel) × (page_malloc pf_kernel machine.kernel 0 1 ≡ (0xC0101000, k))
unfolding page_malloc page_acquire vaddr_acquire map_pages palloc page_table_add pde_ptr pte_ptr
    bitmap_acquire byte_search bit_search run_search set_run bitmap_set bitmap_check bit_test
    bit_set bit_clear claim_fixed
thread_page = (_, refl)

placed : Placed 100 200 0xC0101000 (kthread_current 0xC009EF00)
unfolding kthread_current
placed = record {
  idle_some = omega arith;
  ready_some = omega arith;
  all_some = omega arith;
  lists = inl (omega arith);
  idle_ready = inr (omega arith);
  idle_all = inr (omega arith);
  main_ready = inr (omega arith);
  main_all = inr (omega arith);
  threads = inr (omega arith);
  idle_top = omega arith;
  main_top = omega arith;
}

ne : (c d : ℕ) → d < c → c ≢ d
ne c d h e = omega arith

idle_here : Chars names 0x9000 (b'i' ∷ b'd' ∷ b'l' ∷ b'e' ∷ [])
idle_here = (
  refl,
  ne _ _ (omega arith),
  (refl, ne _ _ (omega arith), (refl, ne _ _ (omega arith), (refl, ne _ _ (omega arith), refl))),
)

main_here : Chars names 0x9010 (b'm' ∷ b'a' ∷ b'i' ∷ b'n' ∷ [])
main_here = (
  refl,
  ne _ _ (omega arith),
  (refl, ne _ _ (omega arith), (refl, ne _ _ (omega arith), (refl, ne _ _ (omega arith), refl))),
)

kthread_init-TwoThreads_example :
    (after : Machine) × (kthread_init 16 machine 0x1000 0x2000 0x9000 0x9010 0xC009EF00
      ≡ some after)
    × TwoThreads after 0xC0101000
        (kthread_current 0xC009EF00)
        0xC009EF00
        (b'm' ∷ b'a' ∷ b'i' ∷ b'n' ∷ [])
unfolding kthread_current
kthread_init-TwoThreads_example =
    kthread_init-TwoThreads 16 machine 0x1000 0x2000 0x9000 0x9010 0xC009EF00 0xC0101000
      thread_page.0 (b'i' ∷ b'd' ∷ b'l' ∷ b'e' ∷ []) (b'm' ∷ b'a' ∷ b'i' ∷ b'n' ∷ []) thread_page.1
      refl placed idle_here main_here (omega arith) (omega arith) (inr (omega arith))
      (inr (omega arith)) (inr (omega arith)) (omega arith)
