-- ===== src/Sched/Init/Started.antt =====
-- The two lists and the two threads that `kthread_init` leaves.
use k_os.Base.{ℕ, ◌+◌, ◌^◌, ◌<◌, ◌≡◌, refl, [], ◌∷◌, some, arith, ap}
use k_os.CString.Copy.{Apart}
use k_os.LinkedList.Links.{IsList}
use k_os.LinkedList.Ops.{initialised}
use k_os.LinkedList.Apart.{IsList-frame}
use k_os.Memory.Pool.{pg_size}
use k_os.Sched.{Threads, task_all_tag, task_ready, sched_rr_time_slice, kthread_run, set_ready}
use k_os.Sched.Ready.{tags, Ready}
use k_os.Sched.Switch.{changed}
use k_os.Sched.Start.{run-Made}
use k_os.Sched.Create.{cleared}

-- The two lists and the pages of the two threads overlap nowhere.
pub record Placed (ready all idle main : ℕ) : Type 0 where
  pub idle_some : 0 < idle
  pub ready_some : 0 < ready
  pub all_some : 0 < all
  pub lists : Apart ready 16 all 16
  pub idle_ready : Apart idle pg_size ready 16
  pub idle_all : Apart idle pg_size all 16
  pub main_ready : Apart main pg_size ready 16
  pub main_all : Apart main pg_size all 16
  pub threads : Apart idle pg_size main pg_size
  pub idle_top : idle + pg_size < 2 ^ 32
  pub main_top : main + pg_size < 2 ^ 32

module _ (s : Threads) (idle main : ℕ)
    (pl : Placed s.task_ready_list s.task_all_list idle main) where
  unfoldable pub emptied : Threads
  emptied = record s { links = initialised (initialised s.links s.task_ready_list) s.task_all_list }

  emptied-all : IsList emptied.links s.task_all_list []
  unfolding emptied initialised
  emptied-all = record { linked = ground arith; distinct = ground arith; not_null = ground arith }

  emptied-ready : IsList emptied.links s.task_ready_list []
  unfolding emptied initialised
  emptied-ready = record { linked = ground arith; distinct = ground arith; not_null = ground arith }

  unfoldable pub with_idle : Threads
  with_idle = record (cleared emptied idle) { g_idle_task = idle }

  idle_all : IsList with_idle.links s.task_all_list []
  unfolding with_idle cleared
  idle_all =
      IsList-frame emptied.links with_idle.links s.task_all_list [] (λ a h. ground arith)
        emptied-all

  idle-Ready : Ready with_idle []
  unfolding with_idle cleared tags emptied
  idle-Ready = record {
    list =
        IsList-frame emptied.links with_idle.links s.task_ready_list [] (λ a h. ground arith)
          emptied-ready;
    queued = tt;
  }

  -- Both lists with the idle thread.
  pub first_run :
      (after : Threads) × (kthread_run with_idle idle ≡ some after)
      × Ready after (idle ∷ [])
      × IsList after.links after.task_all_list (task_all_tag idle ∷ [])
      × (after.tasks idle ≡ record { status = task_ready; time_slice = sched_rr_time_slice })
      × (after ≡ changed with_idle after.links (set_ready with_idle idle).tasks)
  unfolding with_idle cleared tags emptied
  first_run =
      run-Made with_idle idle [] [] idle-Ready (record { fits = omega arith; apart = ground arith })
        refl idle_all (ground arith) (λ a h. ground arith)

  module _ (r : Threads) (ready : Ready r (idle ∷ []))
      (all : IsList r.links r.task_all_list (task_all_tag idle ∷ []))
      (same : r ≡ changed with_idle r.links (set_ready with_idle idle).tasks) where
    unfoldable pub with_main : Threads
    with_main = record (cleared r main) { current = main }

    places : (r.task_ready_list ≡ s.task_ready_list) × (r.task_all_list ≡ s.task_all_list)
    unfolding with_idle cleared emptied
    places = (ap (λ t. t.task_ready_list) same, ap (λ t. t.task_all_list) same)

    main-Ready : Ready with_main (idle ∷ [])
    unfolding with_main cleared tags
    main-Ready =
        let e = places in
        record {
          list =
              IsList-frame r.links with_main.links r.task_ready_list (tags (idle ∷ []))
                (λ a h. ground (arith, h, e.0)) ready.list;
          queued = (
            (
              record { fits = omega arith; apart = ground (arith, e.0) },
              ground (arith, ready.queued.0.1),
            ),
            tt,
          );
        }

    main_all : IsList with_main.links r.task_all_list (task_all_tag idle ∷ [])
    unfolding with_main cleared
    main_all =
        let e = places in
        IsList-frame r.links with_main.links r.task_all_list (task_all_tag idle ∷ [])
          (λ a h. ground (arith, h, e.1)) all

    pub second_run :
        (after : Threads) × (kthread_run with_main main ≡ some after)
        × Ready after (idle ∷ main ∷ [])
        × IsList after.links after.task_all_list (task_all_tag idle ∷ task_all_tag main ∷ [])
        × (after.tasks main ≡ record { status = task_ready; time_slice = sched_rr_time_slice })
        × (after ≡ changed with_main after.links (set_ready with_main main).tasks)
    unfolding with_main cleared tags
    second_run =
        let e = places in
        run-Made with_main main (idle ∷ []) (task_all_tag idle ∷ []) main-Ready
          (record { fits = omega arith; apart = ground (arith, e.0) }) (ground arith) main_all
          (ground (arith, e.1)) (λ a h. ground (arith, h, e.0, e.1))
