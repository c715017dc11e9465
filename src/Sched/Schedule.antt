-- ===== src/Sched/Schedule.antt =====
-- __schedule: a task that sleeps leaves the queue, the queue turns by one, and the CPU's view of the
-- current task follows.
use snap_os.Prelude.{
  ℕ, ◌+◌, ◌-◌, ◌≤◌, ◌<◌, ◌≡◌, ◌≢◌, refl, inl, inr, ◌⊎◌, Bool, true, false, not, ◌&&◌, ◌||◌, arith,
  ◌∙◌, ◌==◌, Bool-cases, dec_lt,
}
use snap_os.Links.Ring.{IsNew, without, list_del-IsRing}
use snap_os.Sched.{
  Sched, task_running, task_kernel_stack_size, virt_to_phys, sched_next, sched_dequeue, leave_queue,
  become_current, arch_switch_to, schedule,
}
use snap_os.Sched.Next.{IsQueue, rotated, first_or, sched_next-Picked}

-- The task stands in the queue.
pub record InQueue (node : ℕ → ℕ) (n t : ℕ) : Type 0 where
  pub k : ℕ
  pub low : 0 < k
  pub high : k ≤ n
  pub here : node k ≡ t

-- cpu0_data and the registers belong to the current task: cpu0_data names it, cr3 holds its page
-- table where it has an address space, and rsp0 the top of its kernel stack where it has one.
pub record IsCurrent (s : Sched) : Type 0 where
  pub named : s.cpu.current ≡ s.current
  pub cr3 : (s.task s.current).mm ≢ 0 → s.cpu.cr3 ≡ virt_to_phys (s.pgd (s.task s.current).mm)
  pub rsp0 :
      (s.task s.current).kernel_stack ≢ 0
      → s.cpu.rsp0 ≡ (s.task s.current).kernel_stack + task_kernel_stack_size

pub record IsScheduled (s : Sched) (node : ℕ → ℕ) (n : ℕ) : Type 0 where
  pub queue : IsQueue s node n
  pub current : (s.current ≡ s.idle) ⊎ InQueue node n s.current
  pub cpu : IsCurrent s

become_current-IsCurrent : (next : ℕ) (s : Sched) → IsCurrent s → IsCurrent (become_current next s)
unfolding become_current arch_switch_to
become_current-IsCurrent next s c = elim (Bool-cases (next == s.current)) [
  | inl same ↦ rw same c
  | inr other ↦ rw other (record {
    named = refl;
    cr3 = λ h. elim (Bool-cases ((s.task next).mm == (s.task s.current).mm)) [
      | inl shared ↦
          let e : (s.task next).mm ≡ (s.task s.current).mm = ground arith in
          let kept = c.cr3 (λ z. h (e ∙ z)) in rw e (ground (arith, kept))
      | inr own ↦ ground arith
    ];
    rsp0 = λ h. ground arith;
  })
]

-- Nothing but the current task and the CPU changes.
record IsSwitch (s s' : Sched) (next : ℕ) : Type 0 where
  links : s'.links ≡ s.links
  task : s'.task ≡ s.task
  idle : s'.idle ≡ s.idle
  current : s'.current ≡ next

become_current-IsSwitch : (next : ℕ) (s : Sched) → IsSwitch s (become_current next s) next
unfolding become_current arch_switch_to
become_current-IsSwitch next s = elim (Bool-cases (next == s.current)) [
  | inl same ↦ rw same (record { links = refl; task = refl; idle = refl; current = ground arith })
  | inr other ↦ rw other (record { links = refl; task = refl; idle = refl; current = refl })
]

-- What __schedule leaves of a queue: it is turned by one, and its first task then is the current
-- one, or the idle task where it is empty.
pub record Turned (s : Sched) (node : ℕ → ℕ) (n : ℕ) (s' : Sched) : Type 0 where
  pub scheduled : IsScheduled s' (rotated node n) n
  pub runs : s'.current ≡ first_or s.idle (rotated node n) n
  pub task : s'.task ≡ s.task
  pub idle : s'.idle ≡ s.idle

first_or-InQueue :
    (idle : ℕ) (node : ℕ → ℕ) (n : ℕ)
    → (first_or idle node n ≡ idle) ⊎ InQueue node n (first_or idle node n)
first_or-InQueue idle node n = elim (dec_lt 0 n) [
  | yes some_task ↦
      inr (record { k = 1; low = omega arith; high = omega arith; here = ground arith })
  | no empty ↦ inl (ground arith)
]

rotated-IsNew : {node : ℕ → ℕ} {n new : ℕ} → IsNew node n new → IsNew (rotated node n) n new
rotated-IsNew {node} {n} {new} fresh i le = ground (arith, fresh 0, fresh 1, fresh (i + 1))

-- The part of __schedule that follows once the queue holds the tasks that go on.
switch-Turned :
    {s : Sched} {node : ℕ → ℕ} {n : ℕ}
    → IsQueue s node n
    → IsCurrent s
    → Turned s node n (become_current (sched_next s).0 (sched_next s).1)
switch-Turned {s} {node} {n} q c =
    let p = sched_next-Picked q in
    let w =
      become_current-IsSwitch (first_or s.idle (rotated node n) n) (record s { links = p.links }) in
    let cpu =
      become_current-IsCurrent (first_or s.idle (rotated node n) n) (record s { links = p.links })
        (record { named = c.named; cr3 = c.cr3; rsp0 = c.rsp0 }) in
    rw (p.out) (record {
      scheduled = record {
        queue = record {
          ring = rw w.links (p.ring);
          head = q.head;
          no_idle = rw w.idle (rotated-IsNew q.no_idle);
          idle_runs = rw (w.task, w.idle) (q.idle_runs);
        };
        current = rw (w.current, w.idle) (first_or-InQueue s.idle (rotated node n) n);
        cpu = cpu;
      };
      runs = w.current;
      task = w.task;
      idle = w.idle;
    })

-- What __schedule may leave: the queue goes on as it is, or without the current task, which has
-- marked itself asleep.
pub data Switched (preempt : Bool) (s : Sched) (node : ℕ → ℕ) (n : ℕ) (s' : Sched) : Type 0 where
  stays :
      (preempt || ((s.task s.current).state == task_running)) ≡ true
      → Turned s node n s'
      → Switched preempt s node n s'
  leaves :
      (q : InQueue node n s.current)
      → preempt ≡ false
      → (s.task s.current).state ≢ task_running
      → Turned s (without node q.k) (n - 1) s'
      → Switched preempt s node n s'

without-IsQueue :
    {s : Sched} {node : ℕ → ℕ} {n : ℕ} (q : IsQueue s node n) (t : InQueue node n s.current)
    → IsQueue (sched_dequeue s.current s) (without node t.k) (n - 1)
unfolding sched_dequeue
without-IsQueue {s} {node} {n} q t = record {
  ring = rw t.here at (list_del-IsRing t.k q.ring t.low t.high);
  head = ground (arith, t.low, q.head);
  no_idle = λ i le. ground (arith, t.low, t.high, q.no_idle i, q.no_idle (i + 1));
  idle_runs = q.idle_runs;
}

sched_dequeue-IsCurrent : (t : ℕ) {s : Sched} → IsCurrent s → IsCurrent (sched_dequeue t s)
unfolding sched_dequeue
sched_dequeue-IsCurrent t c = record { named = c.named; cr3 = c.cr3; rsp0 = c.rsp0 }

dequeue-Turned :
    (t : ℕ) {s s' : Sched} {node : ℕ → ℕ} {n : ℕ}
    → Turned (sched_dequeue t s) node n s'
    → Turned s node n s'
unfolding sched_dequeue
dequeue-Turned t h = record { scheduled = h.scheduled; runs = h.runs; task = h.task; idle = h.idle }

-- On a state whose queue is a ring without the idle task, whose current task is the idle one or
-- queued, and whose CPU fits it, __schedule leaves such a state. A current task that has marked
-- itself asleep is taken out, unless it is preempted; what then is the first task goes to the end
-- of the queue, and the one behind it runs, or the only one, or the idle task where none is left.
pub schedule-Switched :
    (preempt : Bool) {s : Sched} {node : ℕ → ℕ} {n : ℕ}
    → IsScheduled s node n
    → Switched preempt s node n (schedule preempt s)
unfolding schedule leave_queue
schedule-Switched preempt {s} {node} {n} h =
    elim (Bool-cases (preempt || ((s.task s.current).state == task_running))) [
      | inl awake ↦
          let e : (not preempt && not ((s.task s.current).state == task_running)) ≡ false =
            ground arith in
          stays awake (rw e (switch-Turned h.queue h.cpu))
      | inr asleep ↦
          let e : (not preempt && not ((s.task s.current).state == task_running)) ≡ true =
            ground arith in
          let t = queued h.current (ground arith) in
          leaves t (ground arith) (ground arith) (
            rw e (
              dequeue-Turned s.current (
                switch-Turned (without-IsQueue h.queue t)
                  (sched_dequeue-IsCurrent s.current h.cpu))))
    ]
  where
    queued :
        (s.current ≡ s.idle) ⊎ InQueue node n s.current
        → (s.task s.current).state ≢ task_running
        → InQueue node n s.current
    queued (inl idle) awake = absurd (awake (rw idle h.queue.idle_runs))
    queued (inr t) awake = t
