-- ===== src/Wait/Wakeup.antt =====
-- __wakeup on a queue of ordinary entries: every task that waits is made to run.
use snap_os.Prelude.{ℕ, ◌+◌, ◌≤◌, ◌<◌, ◌≡◌, ◌≢◌, Bool, ◌==◌, if◌then◌else◌, ◌⊎◌, bit_and}
use snap_os.Links.Ring.{IsRing, IsNew}
use snap_os.Sched.{Sched, task_running}
use snap_os.Sched.Schedule.{IsScheduled, InQueue}
use snap_os.Wait.{Waits, default_wake_function, wq_flag_exclusive}
use snap_os.Wait.Queue.{AreApart}

-- The task of the waiter at place `k`.
abbrev pub waiting_task : Waits → (ℕ → ℕ) → ℕ → ℕ
waiting_task w waiters k = (w.entry (waiters k)).private

-- The wait queue holds the entries at places 1 to `n`. They are ordinary: not exclusive, and woken by
-- default_wake_function. Their tasks are no entries, and are off the run queue if they sleep.
pub record IsWaiting (w : Waits) (run : ℕ → ℕ) (m : ℕ) (waiters : ℕ → ℕ) (n : ℕ) : Type 0 where
  pub scheduled : IsScheduled w.sched run m
  pub ring : IsRing w.sched.links waiters n
  pub apart : AreApart run m waiters n
  pub ordinary : (k : ℕ) → 0 < k → k ≤ n → (w.entry (waiters k)).func ≡ default_wake_function
  pub shared : (k : ℕ) → 0 < k → k ≤ n → bit_and (w.entry (waiters k)).flags wq_flag_exclusive ≡ 0
  pub tasks : (k : ℕ) → 0 < k → k ≤ n → IsNew waiters n (waiting_task w waiters k)
  pub asleep :
      (k : ℕ)
      → 0 < k
      → k ≤ n
      → ((w.sched.task (waiting_task w waiters k)).state ≡ task_running)
        ⊎ IsNew run m (waiting_task w waiters k)

-- The tasks of the first `k` waiters run.
abbrev RunBefore : Waits → (ℕ → ℕ) → ℕ → Type 0
RunBefore w waiters k =
    (j : ℕ) → 0 < j → j < k → (w.sched.task (waiting_task w waiters j)).state ≡ task_running

-- A run queue with tasks added at its end.
pub record Extends (run : ℕ → ℕ) (m : ℕ) (run' : ℕ → ℕ) (m' : ℕ) : Type 0 where
  pub longer : m ≤ m'
  pub same : (i : ℕ) → i ≤ m → run' i ≡ run i

-- The tasks of the waiters that slept in `w` stand in the queue.
abbrev pub Queued : Waits → (ℕ → ℕ) → ℕ → (ℕ → ℕ) → ℕ → Type 0
Queued w waiters n run m =
    (k : ℕ)
    → 0 < k
    → k ≤ n
    → (w.sched.task (waiting_task w waiters k)).state ≢ task_running
    → InQueue run m (waiting_task w waiters k)

-- The wait queue, the entries and the run queue, after a wake-up: the run queue is the old one with
-- tasks behind it, among them all that slept.
pub data AllWoken (w : Waits) (run : ℕ → ℕ) (m : ℕ) (waiters : ℕ → ℕ) (n : ℕ) (w' : Waits)
    : Type 0 where
  all_woken :
      (run' : ℕ → ℕ) (m' : ℕ)
      → IsWaiting w' run' m' waiters n
      → ((k : ℕ) → 0 < k → k ≤ n → (w'.sched.task (waiting_task w waiters k)).state ≡ task_running)
      → Extends run m run' m'
      → Queued w waiters n run' m'
      → w'.entry ≡ w.entry
      → AllWoken w run m waiters n w'

-- One call of default_wake_function.
data StepWoken (w : Waits) (run0 : ℕ → ℕ) (m0 : ℕ) (waiters : ℕ → ℕ) (n t : ℕ)
    : Bool × Sched → Type 0 where
  step_woken :
      (woke_up : Bool) (s : Sched) (run : ℕ → ℕ) (m : ℕ)
      → IsWaiting (record w { sched = s }) run m waiters n
      → (s.task t).state ≡ task_running
      → ((u : ℕ) → (w.sched.task u).state ≡ task_running → (s.task u).state ≡ task_running)
      → Extends run0 m0 run m
      → ((w.sched.task t).state ≢ task_running → InQueue run m t)
      → ((u : ℕ) → u ≢ t → s.task u ≡ w.sched.task u)
      → StepWoken w run0 m0 waiters n t (woke_up, s)

-- The entry at place `k`, or the head behind the last.
abbrev place : (ℕ → ℕ) → ℕ → ℕ → ℕ
place waiters n k = if k == n + 1 then waiters 0 else waiters k
