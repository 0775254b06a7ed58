-- ===== src/Sched/Tests.antt =====
-- Runs of the scheduler, and its theorems at a state with three threads.
use k_os.Base.{
  ℕ, ◌||◌, ◌≡◌, refl, ◌==◌, inr, update, Option, none, some, if◌then◌else◌, [], ◌∷◌, arith,
}
use k_os.LinkedList.{
  ListElem, Heap, list_push, list_pop, list_empty, list_insert, list_remove, get_prev, get_next,
  set_prev, set_next,
}
use k_os.Sched.{
  Threads, Task, task_running, task_ready, task_blocked, set_status, set_ready, schedule,
  kthread_yield, kthread_block, kthread_unblock, kthread_exit, requeue, wake_idle, pick_up, ◌>>=◌,
  kthread_exit, requeue, wake_idle, pick_up,
}
use k_os.Sched.Ready.{tags, Ready, Running}
use k_os.Sched.Switch.{Switches}
use k_os.Sched.RoundRobin.{schedule-Switches, yield-Switches}
use k_os.Sched.Sleep.{block-Switches}
use k_os.Sched.Create.{Machine, kthread_create}
use k_os.Sched.Create.Page.{Created, create-Created}
use k_os.Base.Bits.{bit_test, bit_set, bit_clear}
use k_os.Bitmap.{
  bitmap_set, bitmap_check, bitmap_acquire, byte_search, bit_search, run_search, set_run,
}
use k_os.Memory.Pool.{PPool, vaddr_acquire, palloc, claim_fixed}
use k_os.Memory.PageTable.{pde_ptr, pte_ptr, page_table_add}
use k_os.Memory.Pages.{Kernel, pf_kernel, page_malloc, page_acquire, map_pages}

elem : ℕ → ℕ → ListElem
elem p n = record { prev = p; next = n }

-- The ready list at 100 with the threads 4096 and 8192, and the list of all at 200 with the thread
-- 12288, whose link of the ready list is as `list_pop` left it.
abbrev links : Heap
links a =
    if a == 100
    then record { prev = 0; next = 4108 }
    else if a == 4108
    then record { prev = 100; next = 8204 }
    else if a == 8204
    then record { prev = 4108; next = 108 }
    else if a == 108
    then record { prev = 8204; next = 0 }
    else if a == 12300
    then record { prev = 100; next = 4108 }
    else if a == 200
    then record { prev = 0; next = 12308 }
    else if a == 12308
    then record { prev = 200; next = 208 }
    else if a == 208
    then record { prev = 12308; next = 0 }
    else record { prev = 0; next = 0 }

-- Thread 12288 runs, and the idle thread 16384 and the thread 20480 are asleep.
abbrev tasks : ℕ → Task
tasks t =
    if t == 12288
    then record { status = task_running; time_slice = 5 }
    else if (t == 4096) || (t == 8192)
    then record { status = task_ready; time_slice = 5 }
    else record { status = task_blocked; time_slice = 5 }

abbrev state : Threads
state = record {
  task_ready_list = 100;
  task_all_list = 200;
  g_idle_task = 16384;
  current = 12288;
  links = links;
  tasks = tasks;
}

state-Running : Running state (4096 ∷ 8192 ∷ [])
unfolding tags
state-Running = record {
  ready = record {
    list = record { linked = ground arith; distinct = ground arith; not_null = ground arith };
    queued = (
      (record { fits = omega arith; apart = ground arith }, refl),
      ((record { fits = omega arith; apart = ground arith }, refl), tt),
    );
  };
  runs = refl;
  is_task = record { fits = omega arith; apart = ground arith };
  idle_task = record { fits = omega arith; apart = ground arith };
  idle = refl;
}

schedule-Switches_example :
    Switches (set_ready state 12288).tasks (schedule state) 4096 (8192 ∷ 12288 ∷ [])
schedule-Switches_example =
    schedule-Switches state 4096 (4096 ∷ 8192 ∷ []) (8192 ∷ 12288 ∷ []) state-Running refl

yield-Switches_example :
    Switches
      (set_status state 12288 task_ready).tasks
      (kthread_yield state)
      4096
      (8192 ∷ 12288 ∷ [])
yield-Switches_example =
    yield-Switches state 4096 (4096 ∷ 8192 ∷ []) (8192 ∷ 12288 ∷ []) state-Running refl

block-Switches_example :
    Switches
      (set_status state 12288 task_blocked).tasks
      (kthread_block state task_blocked)
      4096
      (8192 ∷ [])
block-Switches_example = block-Switches state task_blocked (4096 ∷ 8192 ∷ []) state-Running refl

current_after : Option Threads → Option ℕ
current_after none = none
current_after (some s) = some s.current

wake_and_exit : Threads → Option Threads
wake_and_exit s = kthread_unblock s 20480 >>= kthread_exit

wake_and_block : Threads → Option Threads
wake_and_block s = kthread_unblock s 20480 >>= λ s'. kthread_block s' task_blocked

-- A thread wakes another and goes to sleep: the woken thread runs.
wake_and_block_run : current_after (wake_and_block state) ≡ some 20480
unfolding current_after wake_and_block wake_and_exit kthread_unblock kthread_block kthread_exit
    schedule requeue wake_idle pick_up list_push list_pop list_empty list_insert list_remove
    get_prev get_next set_prev set_next elem
wake_and_block_run = refl

-- A thread wakes another and exits: the stale link drops the woken thread from the ready list.
wake_and_exit_run : current_after (wake_and_exit state) ≡ some 4096
unfolding current_after wake_and_block wake_and_exit kthread_unblock kthread_block kthread_exit
    schedule requeue wake_idle pick_up list_push list_pop list_empty list_insert list_remove
    get_prev get_next set_prev set_next elem
wake_and_exit_run = refl

-- The thread 24576 has been woken since 12288 was picked.
abbrev woken : Threads
woken = record state {
  links =
      update
        (update (update links 100 (record { prev = 0; next = 24588 })) 24588
          (record { prev = 100; next = 4108 }))
        4108 (record { prev = 24588; next = 8204 });
  tasks = update tasks 24576 (record { status = task_ready; time_slice = 5 });
}

-- One page in three is free, and the name "idle" stands at 0x9000.
abbrev machine : Machine
machine =
    let frames : PPool = record {
      paddr_start = 0x200000;
      size = 0x8000;
      paddr_bitmap = record { len = 1; bits = λ i. 0x01 };
    } in
    record {
      kernel = record {
        k_p_pool = frames;
        u_p_pool = frames;
        k_v_pool = record {
          vaddr_start = 0xC0100000;
          vaddr_bitmap = record { len = 1; bits = λ i. 0x05 };
        };
        words = λ a. 0;
      };
      threads = state;
      words = λ a. 0;
      bytes =
          update (update (update (update (λ a. 0) 0x9000 105) 0x9001 100) 0x9002 108) 0x9003 101;
    }

thread_page : (k : Kernel) × (page_malloc pf_kernel machine.kernel 0 1 ≡ (0xC0101000, k))
unfolding page_malloc page_acquire vaddr_acquire map_pages palloc page_table_add pde_ptr pte_ptr
    bitmap_acquire byte_search bit_search run_search set_run bitmap_set bitmap_check bit_test
    bit_set bit_clear claim_fixed
thread_page = (_, refl)

create-Created_example :
    (after : Machine) × (kthread_create 16 machine 0x1000 0x2000 7 0x9000
      ≡ some (0xC0101000, after))
    × Created after 0xC0101000 0x1000 0x2000 7 (105 ∷ 100 ∷ 108 ∷ 101 ∷ [])
create-Created_example =
    create-Created 16 machine 0x1000 0x2000 7 0x9000 0xC0101000 thread_page.0
      (105 ∷ 100 ∷ 108 ∷ 101 ∷ []) thread_page.1 refl (omega arith) (omega arith)
      (
        refl,
        (λ e. omega arith),
        (refl, (λ e. omega arith), (refl, (λ e. omega arith), (refl, (λ e. omega arith), refl))),
      )
      (omega arith) (inr (omega arith)) (omega arith)
