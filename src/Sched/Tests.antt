-- ===== src/Sched/Tests.antt =====
-- kernel/sched.c with an idle task at 100, and tasks at 200 and 300.
use snap_os.Prelude.{ℕ, ◌≤◌, ◌≡◌, refl, inl, false, arith, ok, Returns, some}
use snap_os.Links.{Links, init_list_head}
use snap_os.Links.Ring.{with_last, init_list_head-IsRing}
use snap_os.Sched.{
  Sched, run_queue, task_running, set_state, sched_enqueue, schedule, wake_up_task,
  create_idle_task,
}
use snap_os.Sched.Next.{IsQueue}
use snap_os.Sched.Schedule.{IsScheduled, InQueue, Switched, schedule-Switched}
use snap_os.Sched.Turns.{ticks, ticks-fair}
use snap_os.Sched.Wake.{
  Woken, wake_up_task-Woken, Severed, wake_up_task-Severed, sched_enqueue-IsScheduled,
}
use snap_os.Sched.Reach.{IsSafe, Step, Reach, Reach-IsSafe}

abbrev no_links : Links
no_links = record { next = λ i. 0; prev = λ i. 0 }

abbrev boot : Sched
boot = record {
  links = init_list_head run_queue no_links;
  task = λ t. record { pid = t; state = task_running; kernel_stack = 0; mm = 0 };
  idle = 0;
  current = 0;
  cpu = record { current = 0; kernel_stack = 0; rsp0 = 0; cr3 = 0 };
  pgd = λ mm. 0;
}

abbrev idle_only : Sched
unfolding create_idle_task
idle_only = elim (create_idle_task (some 100) boot) [ ok s ↦ s | _ ↦ boot ]

abbrev two_tasks : Sched
unfolding sched_enqueue
two_tasks = sched_enqueue 300 (sched_enqueue 200 idle_only)

abbrev head_only : ℕ → ℕ
head_only i = run_queue

abbrev one : ℕ → ℕ
one = with_last head_only 0 200

abbrev two : ℕ → ℕ
two = with_last one 1 300

idle_only-IsScheduled : IsScheduled idle_only head_only 0
unfolding create_idle_task
idle_only-IsScheduled = record {
  queue = record {
    ring = init_list_head-IsRing run_queue no_links;
    head = refl;
    no_idle = λ i le. omega arith;
    idle_runs = refl;
  };
  current = inl refl;
  cpu = record { named = refl; cr3 = λ h. absurd (h refl); rsp0 = λ h. absurd (h refl) };
}

two_tasks-IsScheduled : IsScheduled two_tasks two 2
unfolding idle_only sched_enqueue
two_tasks-IsScheduled =
    sched_enqueue-IsScheduled 300
      (sched_enqueue-IsScheduled 200 idle_only-IsScheduled (λ i le. omega arith) (omega arith))
      (λ i le. ground arith) (omega arith)

schedule-Switched_example : Switched false two_tasks two 2 (schedule false two_tasks)
schedule-Switched_example = schedule-Switched false two_tasks-IsScheduled

ticks-fair_example : Returns (λ s. s.current ≡ 200) (ticks 2 two_tasks) × (2 ≤ 2)
ticks-fair_example = ticks-fair 1 two_tasks-IsScheduled (omega arith) (omega arith)

wake_up_task-Woken_example : Woken two_tasks two 2 400 (wake_up_task 400 two_tasks)
wake_up_task-Woken_example = wake_up_task-Woken 400 two_tasks-IsScheduled (λ i le. ground arith)

-- The first of the two tasks has called prepare_to_wait.
abbrev waiting : Sched
unfolding set_state
waiting = set_state 200 1 two_tasks

waiting-IsQueue : IsQueue waiting two 2
unfolding waiting two_tasks idle_only
waiting-IsQueue = record {
  ring = two_tasks-IsScheduled.queue.ring;
  head = refl;
  no_idle = two_tasks-IsScheduled.queue.no_idle;
  idle_runs = refl;
}

abbrev first : InQueue two 2 200
first = record { k = 1; low = omega arith; high = omega arith; here = refl }

wake_up_task-Severed_example : Severed two 2 1 (wake_up_task 200 waiting).1.links
unfolding waiting
wake_up_task-Severed_example = wake_up_task-Severed 200 first waiting-IsQueue (omega arith)

Reach-IsSafe_example : IsSafe (schedule false idle_only)
unfolding create_idle_task
Reach-IsSafe_example =
    Reach-IsSafe boot no_links 100 (omega arith) refl refl
      (Reach.step Reach.start (Step.yield_cpu idle_only))
