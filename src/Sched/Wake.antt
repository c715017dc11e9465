-- ===== src/Sched/Wake.antt =====
-- wake_up_task, on a task that has left the queue, and on one that has not yet.
use snap_os.Prelude.{
  ℕ, ◌+◌, ◌<◌, ◌≡◌, ◌≢◌, refl, inl, inr, ◌⊎◌, Bool, true, false, arith, ◌∙◌, sym, ◌==◌, Bool-cases,
  dec_lt, write,
}
use snap_os.Links.{Links, list_add_tail}
use snap_os.Links.Ring.{IsNew, with_last, list_add_tail-IsRing}
use snap_os.Sched.{Task, Sched, task_running, set_state, sched_enqueue, wake_up_task}
use snap_os.Sched.{run_queue}
use snap_os.Sched.Next.{IsQueue}
use snap_os.Sched.Schedule.{IsScheduled, IsCurrent, InQueue}

-- What wake_up_task returns for a task that is not in the queue: false, with nothing changed, for a
-- running task; or true, and the task is running, and the last of the queue.
pub data Woken (s : Sched) (node : ℕ → ℕ) (n t : ℕ) : Bool × Sched → Type 0 where
  awake : (s.task t).state ≡ task_running → Woken s node n t (false, s)
  woken :
      (s' : Sched)
      → (s.task t).state ≢ task_running
      → IsScheduled s' (with_last node n t) (n + 1)
      → (s'.task t).state ≡ task_running
      → ((u : ℕ) → u ≢ t → s'.task u ≡ s.task u)
      → s'.current ≡ s.current
      → s'.idle ≡ s.idle
      → Woken s node n t (true, s')

mm-set_state : (t x : ℕ) (s : Sched) (u : ℕ) → ((set_state t x s).task u).mm ≡ (s.task u).mm
unfolding set_state
mm-set_state t x s u = ground arith

kernel_stack-set_state :
    (t x : ℕ) (s : Sched) (u : ℕ)
    → ((set_state t x s).task u).kernel_stack ≡ (s.task u).kernel_stack
unfolding set_state
kernel_stack-set_state t x s u = ground arith

-- The state of a task plays no part in what the CPU holds.
pub set_state-IsCurrent : (t x : ℕ) {s : Sched} → IsCurrent s → IsCurrent (set_state t x s)
unfolding set_state
set_state-IsCurrent t x {s} c = record {
  named = c.named;
  cr3 = rw (mm-set_state t x s s.current) (c.cr3);
  rsp0 = rw (kernel_stack-set_state t x s s.current) (c.rsp0);
}

-- A task that is neither queued nor idle may change, and join the queue.
module _ (t : ℕ) {s : Sched} {node : ℕ → ℕ} {n : ℕ} (h : IsScheduled s node n)
    (fresh : IsNew node n t) (busy : t ≢ s.idle) where
  pub not_current : t ≢ s.current
  not_current e = from h.current
    where
      from : (s.current ≡ s.idle) ⊎ InQueue node n s.current → ⊥
      from (inl idle) = busy (e ∙ idle)
      from (inr q) = fresh q.k q.high (q.here ∙ sym e)

  pub write-IsScheduled : (x : Task) → IsScheduled (record s { task = write s.task t x }) node n
  write-IsScheduled x =
      let other : (s.current == t) ≡ false = ground (arith, not_current) in
      record {
        queue = record {
          ring = h.queue.ring;
          head = h.queue.head;
          no_idle = h.queue.no_idle;
          idle_runs = ground (arith, h.queue.idle_runs);
        };
        current = h.current;
        cpu = record {
          named = h.cpu.named;
          cr3 = rw other (h.cpu.cr3);
          rsp0 = rw other (h.cpu.rsp0);
        };
      }

  pub sched_enqueue-IsScheduled : IsScheduled (sched_enqueue t s) (with_last node n t) (n + 1)
  unfolding sched_enqueue
  sched_enqueue-IsScheduled = record {
    queue = record {
      ring = rw h.queue.head at (list_add_tail-IsRing t h.queue.ring fresh);
      head = ground (arith, h.queue.head);
      no_idle = λ i le. ground (arith, h.queue.no_idle i);
      idle_runs = h.queue.idle_runs;
    };
    current = behind h.current;
    cpu = record { named = h.cpu.named; cr3 = h.cpu.cr3; rsp0 = h.cpu.rsp0 };
  }
    where
      behind :
          (s.current ≡ s.idle) ⊎ InQueue node n s.current
          → (s.current ≡ s.idle) ⊎ InQueue (with_last node n t) (n + 1) s.current
      behind (inl e) = inl e
      behind (inr q) = inr (record {
        k = q.k;
        low = q.low;
        high = omega (arith, q.high);
        here = ground (arith, q.high, q.here);
      })

enqueue-IsScheduled :
    (t : ℕ) {s : Sched} {node : ℕ → ℕ} {n : ℕ}
    → IsScheduled s node n
    → IsNew node n t
    → t ≢ s.idle
    → IsScheduled (sched_enqueue t (set_state t task_running s)) (with_last node n t) (n + 1)
unfolding set_state
enqueue-IsScheduled t {s} h fresh busy =
    sched_enqueue-IsScheduled t
      (write-IsScheduled t h fresh busy (record (s.task t) { state = task_running })) fresh busy

pub wake_up_task-awake :
    (t : ℕ) (s : Sched) → (s.task t).state ≡ task_running → wake_up_task t s ≡ (false, s)
unfolding wake_up_task
wake_up_task-awake t s runs =
    let e : ((s.task t).state == task_running) ≡ true = ground arith in rw e refl

-- A task that stands nowhere in the queue and is not running is put at its end and runs; the queue,
-- the CPU and the other tasks are kept. On a running task nothing happens. The result says which.
pub wake_up_task-Woken :
    (t : ℕ) {s : Sched} {node : ℕ → ℕ} {n : ℕ}
    → IsScheduled s node n
    → IsNew node n t
    → Woken s node n t (wake_up_task t s)
unfolding wake_up_task
wake_up_task-Woken t {s} {node} {n} h fresh = elim (Bool-cases ((s.task t).state == task_running)) [
  | inl runs ↦ rw runs (awake (ground arith))
  | inr sleeps ↦ rw sleeps (
      woken (sched_enqueue t (set_state t task_running s)) (ground arith)
        (enqueue-IsScheduled t h fresh (λ e. absurd (ground (arith, e, h.queue.idle_runs))))
        (ground arith) (λ u other. ground arith) refl refl)
]

-- What is left of a queue whose task at place `k` is put at its end a second time: the way from the
-- head along the next pointers comes back to it behind place `k`, and the tasks at higher places are
-- lost; or, where it was the last, that task follows itself, and the way never comes back.
pub data Severed (node : ℕ → ℕ) (n k : ℕ) (l : Links) : Type 0 where
  lost :
      k < n
      → ((i : ℕ) → i < k → l.next (node i) ≡ node (i + 1))
      → l.next (node k) ≡ node 0
      → Severed node n k l
  stuck :
      k ≡ n
      → ((i : ℕ) → i < n → l.next (node i) ≡ node (i + 1))
      → l.next (node n) ≡ node n
      → Severed node n k l

-- A task that has marked itself asleep but not yet called schedule still stands in the queue. If it
-- is woken then, it is put into the queue a second time, and the queue is severed.
pub wake_up_task-Severed :
    (t : ℕ) {s : Sched} {node : ℕ → ℕ} {n : ℕ} (q : InQueue node n t)
    → IsQueue s node n
    → (s.task t).state ≢ task_running
    → Severed node n q.k (wake_up_task t s).1.links
unfolding wake_up_task sched_enqueue set_state list_add_tail
wake_up_task-Severed t {s} {node} {n} q h sleeps =
    let e : ((s.task t).state == task_running) ≡ false = ground arith in
    rw (e, ← q.here, ← h.head)
      (elim (dec_lt q.k n) [
        | yes inside ↦
            lost inside
              (λ i lt.
                ground (arith, h.ring.first, h.ring.next i, h.ring.apart i q.k, h.ring.apart i n))
              (ground (arith, h.ring.first, h.ring.apart q.k n))
        | no at_end ↦
            stuck (omega (arith, q.high))
              (λ i lt. ground (arith, h.ring.first, h.ring.next i, h.ring.apart i n))
              (ground (arith, h.ring.first))
      ])

-- The list operation of a wake-up.
pub links-wake_up_task :
    (t : ℕ) (s : Sched)
    → (s.task t).state ≢ task_running
    → (wake_up_task t s).1.links ≡ list_add_tail t run_queue s.links
unfolding wake_up_task sched_enqueue set_state
links-wake_up_task t s sleeps =
    let e : ((s.task t).state == task_running) ≡ false = ground arith in rw e refl
