-- ===== src/Sched/Reach.antt =====
-- Every state that the scheduler reaches, as long as no interrupt falls between a task's marking
-- itself asleep and its call of schedule.
use snap_os.Prelude.{
  ℕ, ◌+◌, ◌≤◌, ◌<◌, ◌≡◌, ◌≢◌, refl, inl, inr, Bool, false, arith, ltb, ◌∙◌, sym, ◌==◌,
  if◌then◌else◌, Bool-cases, dec_lt, write, ok, some, Returns, returns, Returns-ok,
}
use snap_os.Links.{Links, init_list_head}
use snap_os.Links.Ring.{IsNew, with_last, init_list_head-IsRing}
use snap_os.Sched.{
  Task, Sched, run_queue, task_running, task_interruptible, set_state, set_current_state,
  sched_enqueue, wake_up_task, schedule, timer_irq_handler, create_idle_task,
}
use snap_os.Sched.Next.{IsQueue, rotated}
use snap_os.Sched.Schedule.{IsScheduled, Turned, Switched, stays, leaves, schedule-Switched}
use snap_os.Sched.Turns.{timer_irq_handler-Turned}
use snap_os.Sched.Wake.{
  Woken, awake, woken, wake_up_task-Woken, wake_up_task-awake, set_state-IsCurrent,
  write-IsScheduled, sched_enqueue-IsScheduled,
}

-- A state whose queue is a ring of running tasks.
pub data IsSafe (s : Sched) : Type 0 where
  safe :
      (node : ℕ → ℕ) (n : ℕ)
      → IsScheduled s node n
      → ((k : ℕ) → 0 < k → k ≤ n → (s.task (node k)).state ≡ task_running)
      → IsSafe s

-- The task is in no run queue of the state, and is not its head.
abbrev IsUnknown : Sched → ℕ → Type 0
IsUnknown s t = (node : ℕ → ℕ) (n : ℕ) → IsQueue s node n → IsNew node n t

-- The tasks and the queue of a kernel at work. A new task is one that nothing names yet, as
-- kthread_run enqueues it.
pub data Step : Sched → Sched → Type 0 where
  tick : {s s' : Sched} → timer_irq_handler s ≡ ok s' → Step s s'
  yield_cpu : (s : Sched) → Step s (schedule false s)
  sleep :
      (s : Sched)
      → s.current ≢ s.idle
      → Step s (schedule false (set_current_state task_interruptible s))
  wake : (s : Sched) (t : ℕ) → t ≢ run_queue → Step s (wake_up_task t s).1
  spawn :
      (s : Sched) (t : ℕ) (x : Task)
      → x.state ≡ task_running
      → t ≢ s.idle
      → IsUnknown s t
      → Step s (sched_enqueue t (record s { task = write s.task t x }))

pub data Reach (first : Sched) : Sched → Type 0 where
  start : Reach first first
  step : {s s' : Sched} → Reach first s → Step s s' → Reach first s'

Turned-IsSafe :
    {s s' : Sched} {node : ℕ → ℕ} {n : ℕ}
    → Turned s node n s'
    → ((k : ℕ) → 0 < k → k ≤ n → (s.task (node k)).state ≡ task_running)
    → IsSafe s'
Turned-IsSafe {s} {s'} {node} {n} t run =
    safe (rotated node n) n t.scheduled
      (rw t.task (λ k low high. ground (arith, run 1, run (k + 1))))

Switched-IsSafe :
    {s s' : Sched} {node : ℕ → ℕ} {n : ℕ}
    → Switched false s node n s'
    → ((k : ℕ) → 0 < k → k ≤ n → node k ≢ s.current → (s.task (node k)).state ≡ task_running)
    → ((i j : ℕ) → i < j → j ≤ n → node i ≢ node j)
    → IsSafe s'
Switched-IsSafe {s} {s'} {node} (stays e t) others apart = Turned-IsSafe t (λ k low high.
    elim (dec_lt 0 (if node k == s.current then 1 else 0)) [
      | yes same ↦ let here : node k ≡ s.current = ground arith in rw here (ground arith)
      | no other ↦ others k low high (ground arith)
    ])
Switched-IsSafe {s} {s'} {node} (leaves q e l t) others apart = Turned-IsSafe t (λ k low high.
    elim (Bool-cases (ltb k q.k)) [
      | inl before ↦ rw before (
          others k low (ground arith)
            (λ same. apart k q.k (ground arith) q.high (same ∙ sym q.here)))
      | inr behind ↦ rw behind (
          others (k + 1) (omega arith) (omega arith)
            (λ same. apart q.k (k + 1) (ground arith) (omega arith) (q.here ∙ sym same)))
    ])

set_current_state-IsScheduled :
    (x : ℕ) {s : Sched} {node : ℕ → ℕ} {n : ℕ}
    → IsScheduled s node n
    → s.current ≢ s.idle
    → IsScheduled (set_current_state x s) node n
unfolding set_current_state set_state
set_current_state-IsScheduled x {s} h busy = record {
  queue = record {
    ring = h.queue.ring;
    head = h.queue.head;
    no_idle = h.queue.no_idle;
    idle_runs = ground (arith, h.queue.idle_runs);
  };
  current = h.current;
  cpu = set_state-IsCurrent s.current x h.cpu;
}

set_current_state-others :
    (x : ℕ) (s : Sched) (u : ℕ) → u ≢ s.current → (set_current_state x s).task u ≡ s.task u
unfolding set_current_state set_state
set_current_state-others x s u other = ground arith

set_current_state-current : (x : ℕ) (s : Sched) → (set_current_state x s).current ≡ s.current
unfolding set_current_state set_state
set_current_state-current x s = refl

Woken-IsSafe :
    {s : Sched} {node : ℕ → ℕ} {n t : ℕ} {out : Bool × Sched}
    → IsSafe s
    → ((k : ℕ) → 0 < k → k ≤ n → (s.task (node k)).state ≡ task_running)
    → Woken s node n t out
    → IsSafe out.1
Woken-IsSafe before run (awake e) = before
Woken-IsSafe {s} {node} {n} {t} before run (woken s' asleep h runs others c i) =
    safe (with_last node n t) (n + 1) h (λ k low high. elim (Bool-cases (k == n + 1)) [
      | inl last ↦ rw last runs
      | inr earlier ↦
          rw (earlier, others (node k) (λ same. asleep (rw same at (run k low (ground arith)))))
            (run k low (ground arith))
    ])

spawned :
    (t : ℕ) (s : Sched) {node : ℕ → ℕ} {n : ℕ}
    → IsScheduled (sched_enqueue t s) node n
    → ((k : ℕ) → 0 < k → k ≤ n → (s.task (node k)).state ≡ task_running)
    → IsSafe (sched_enqueue t s)
unfolding sched_enqueue
spawned t s {node} {n} h run = safe node n h run

Step-IsSafe : {s s' : Sched} → Step s s' → IsSafe s → IsSafe s'
Step-IsSafe (tick e) (safe node n h run) =
    Turned-IsSafe (Returns-ok (rw e at (timer_irq_handler-Turned h))) run
Step-IsSafe (yield_cpu s) (safe node n h run) =
    Switched-IsSafe (schedule-Switched false h) (λ k low high other. run k low high)
      h.queue.ring.apart
Step-IsSafe (sleep s busy) (safe node n h run) =
    let h' = set_current_state-IsScheduled task_interruptible h busy in
    Switched-IsSafe (schedule-Switched false h')
      (λ k low high other.
        rw
          (set_current_state-others task_interruptible s (node k)
            (λ e. other (e ∙ sym (set_current_state-current task_interruptible s))))
          (run k low high))
      h.queue.ring.apart
Step-IsSafe (wake s t other) (safe node n h run) =
    elim (Bool-cases ((s.task t).state == task_running)) [
      | inl runs ↦ rw (wake_up_task-awake t s (ground arith)) (safe node n h run)
      | inr sleeps ↦
          let fresh : IsNew node n t = λ i le e. elim (dec_lt 0 i) [
            | yes low ↦
                (let r : (s.task t).state ≡ task_running = rw e at (run i low le) in
                  absurd (ground arith))
            | no at_head ↦ (let z : i ≡ 0 = omega arith in other (sym (rw z at e) ∙ h.queue.head))
          ] in
          Woken-IsSafe (safe node n h run) run (wake_up_task-Woken t h fresh)
    ]
Step-IsSafe (spawn s t x runs busy unknown) (safe node n h run) =
    let fresh = unknown node n h.queue in
    spawned t (record s { task = write s.task t x })
      (sched_enqueue-IsScheduled t (write-IsScheduled t h fresh busy x) fresh busy)
      (λ k low high. elim (Bool-cases (k == n + 1)) [
        | inl last ↦ ground (arith, last, runs)
        | inr earlier ↦
            let other : (node k == t) ≡ false = ground (arith, fresh k) in
            let r = run k low (ground arith) in ground (arith, other, earlier, r)
      ])

create_idle_task-IsSafe :
    (before : Sched) (l : Links) (idle : ℕ)
    → idle ≢ run_queue
    → before.links ≡ init_list_head run_queue l
    → Returns IsSafe (create_idle_task (some idle) before)
unfolding create_idle_task
create_idle_task-IsSafe before l idle other empty = returns (
    safe (λ i. run_queue) 0
      (record {
        queue = record {
          ring = rw empty (init_list_head-IsRing run_queue l);
          head = refl;
          no_idle = λ i le e. other (sym e);
          idle_runs = ground arith;
        };
        current = inl refl;
        cpu = record {
          named = refl;
          cr3 = λ h. absurd (ground arith);
          rsp0 = λ h. absurd (ground arith);
        };
      })
      (λ k low high. absurd (omega arith)))

-- Once create_idle_task has been given memory for the idle task, on a run queue that is initialised
-- and empty, any sequence of timer interrupts, calls of schedule, tasks that go to sleep by
-- set_current_state and schedule with no interrupt between the two, and calls of wake_up_task keeps
-- the queue a ring of running tasks without the idle task; the current task is the idle one or
-- queued, and the CPU holds its page table and its stack.
pub Reach-IsSafe :
    (before : Sched) (l : Links) {s s' : Sched} (idle : ℕ)
    → idle ≢ run_queue
    → before.links ≡ init_list_head run_queue l
    → create_idle_task (some idle) before ≡ ok s
    → Reach s s'
    → IsSafe s'
Reach-IsSafe before l idle other empty e start =
    Returns-ok (rw e at (create_idle_task-IsSafe before l idle other empty))
Reach-IsSafe before l idle other empty e (step r st) =
    Step-IsSafe st (Reach-IsSafe before l idle other empty e r)
