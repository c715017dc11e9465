-- ===== src/Sched/Turns.antt =====
-- The timer: every queued task gets its turn.
use snap_os.Prelude.{
  ℕ, zero, suc, ◌+◌, ◌-◌, ◌≤◌, ◌<◌, ◌≡◌, true, arith, ◌==◌, if◌then◌else◌, Exec, ok, ◌>>=◌, Returns,
  returns, Returns->>=, Returns-mono,
}
use snap_os.Sched.{Sched, timer_irq_handler}
use snap_os.Sched.Schedule.{IsScheduled, Switched, stays, leaves, Turned, schedule-Switched}

-- The interrupts of `k` periods of the timer.
pub ticks : ℕ → Sched → Exec Sched
unfolding timer_irq_handler
ticks zero s = ok s
ticks (suc k) s = timer_irq_handler s >>= ticks k

-- The timer interrupt finds cpu0_data in order and never panics. It turns the queue by one, whether
-- or not the current task is about to sleep.
pub timer_irq_handler-Turned :
    {s : Sched} {node : ℕ → ℕ} {n : ℕ}
    → IsScheduled s node n
    → Returns (Turned s node n) (timer_irq_handler s)
unfolding timer_irq_handler
timer_irq_handler-Turned {s} {node} {n} h =
    let e : (s.cpu.current == s.current) ≡ true = ground (arith, h.cpu.named) in
    rw e (returns (preempted (schedule-Switched true h)))
  where
    preempted : {s' : Sched} → Switched true s node n s' → Turned s node n s'
    preempted (stays e t) = t
    preempted (leaves q e l t) = absurd (ground arith)

-- With `n` tasks in the queue, the task at place `j + 1` runs after `j` interrupts, and the one at
-- place 1 after `n`.
place : ℕ → ℕ → ℕ
place n j = if j == n then 1 else j + 1

ticks-current :
    (j : ℕ) {s : Sched} {node : ℕ → ℕ} {n : ℕ}
    → IsScheduled s node n
    → j < n
    → Returns (λ s'. s'.current ≡ node (place n (suc j))) (ticks (suc j) s)
unfolding ticks place
ticks-current zero {s} {node} {n} h lt =
    Returns->>= _ (timer_irq_handler-Turned h) (λ s' t. returns (ground (arith, t.runs)))
ticks-current (suc j) {s} {node} {n} h lt =
    Returns->>= _ (timer_irq_handler-Turned h)
      (λ s' t. Returns-mono (ticks-current j t.scheduled (omega arith)) (λ r e. ground (arith, e)))

-- The number of interrupts until the task at place `k` runs.
abbrev pub turn : ℕ → ℕ → ℕ
turn n k = if k == 1 then n else k - 1

-- If no task leaves or joins the queue, each of the `n` tasks in it runs after at most `n` timer
-- interrupts, none of which panics: the one at place `k` after `k - 1`, and the first after `n`.
pub ticks-fair :
    {s : Sched} {node : ℕ → ℕ} {n : ℕ} (k : ℕ)
    → IsScheduled s node n
    → 0 < k
    → k ≤ n
    → Returns (λ s'. s'.current ≡ node k) (ticks (turn n k) s) × (turn n k ≤ n)
unfolding place
ticks-fair {s} {node} {n} k h low high =
    let e : suc (turn n k - 1) ≡ turn n k = ground arith in
    let p : place n (turn n k) ≡ k = ground arith in
    (rw (e, p) at (ticks-current (turn n k - 1) h (ground arith)), ground arith)
