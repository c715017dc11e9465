-- ===== src/Wait/Tests.antt =====
-- kernel/wait.c: the task at 200 is in the run queue, the wait queue at 50 is empty, and the task's
-- entry is at 60.
use snap_os.Prelude.{ℕ, refl, arith, ◌==◌, if◌then◌else◌}
use snap_os.Wait.{Waits, WakeFunc, prepare_to_wait, finish_wait}
use snap_os.Wait.Queue.{IsApartFrom, Restored, finish_wait-prepare_to_wait}

abbrev other_node : ℕ → ℕ
other_node a = if a == 1 then 200 else if a == 200 then 1 else a

abbrev at_work : Waits
at_work = record {
  sched = record {
    links = record { next = other_node; prev = other_node };
    task = λ t. record { pid = t; state = 0; kernel_stack = 0; mm = 0 };
    idle = 100;
    current = 200;
    cpu = record { current = 200; kernel_stack = 0; rsp0 = 0; cr3 = 0 };
    pgd = λ mm. 0;
  };
  entry = λ e. record { flags = 0; private = 200; func = WakeFunc.default_wake_function };
}

abbrev run : ℕ → ℕ
run i = if i == 0 then 1 else 200

abbrev waiters : ℕ → ℕ
waiters i = 50

at_work-IsApartFrom : IsApartFrom at_work.sched.links run 1 waiters 0 60
at_work-IsApartFrom = record {
  run_ring = record {
    apart = λ i j lt le. ground arith;
    next = λ i lt. ground arith;
    last = refl;
    prev = λ i lt. ground arith;
    first = refl;
  };
  wait_ring = record {
    apart = λ i j lt le. absurd (omega arith);
    next = λ i lt. absurd (omega arith);
    last = refl;
    prev = λ i lt. absurd (omega arith);
    first = refl;
  };
  alone = record {
    apart = λ i j lt le. absurd (omega arith);
    next = λ i lt. absurd (omega arith);
    last = refl;
    prev = λ i lt. absurd (omega arith);
    first = refl;
  };
  apart = λ i j le le'. ground arith;
  not_running = λ i le. ground arith;
  not_waiting = λ i le. omega arith;
}

finish_wait-prepare_to_wait_example :
    Restored at_work run 1 waiters 0 60 (finish_wait 50 60 (prepare_to_wait 50 60 1 at_work))
finish_wait-prepare_to_wait_example = finish_wait-prepare_to_wait 1 at_work at_work-IsApartFrom

-- The task has gone to sleep, and its entry is the only one of the wait queue.
abbrev waiter : ℕ → ℕ
waiter i = if i == 0 then 50 else 60

abbrev other_waiter : ℕ → ℕ
other_waiter a = if a == 50 then 60 else if a == 60 then 50 else a

abbrev asleep : Waits
asleep = record at_work {
  sched = record {
    links = record { next = other_waiter; prev = other_waiter };
    task = λ t. record { pid = t; state = if t == 200 then 1 else 0; kernel_stack = 0; mm = 0 };
    idle = 100;
    current = 100;
    cpu = record { current = 100; kernel_stack = 0; rsp0 = 0; cr3 = 0 };
    pgd = λ mm. 0;
  };
}
