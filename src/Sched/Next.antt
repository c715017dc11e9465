-- ===== src/Sched/Next.antt =====
-- __sched_next: the first task of the queue goes to its end.
use snap_os.Prelude.{ℕ, ◌+◌, ◌-◌, ◌<◌, ◌≡◌, refl, true, false, arith, ◌==◌, if◌then◌else◌, dec_lt}
use snap_os.Links.{Links, list_add_tail, list_del, list_empty}
use snap_os.Links.Ring.{
  IsRing, IsNew, without, IsRing-same, list_del-IsRing, list_add_tail-IsRing, list_empty-IsRing,
}
use snap_os.Sched.{Sched, run_queue, task_running, sched_next}

-- The run queue holds the tasks `node 1` to `node n`.
pub record IsQueue (s : Sched) (node : ℕ → ℕ) (n : ℕ) : Type 0 where
  pub ring : IsRing s.links node n
  pub head : node 0 ≡ run_queue
  pub no_idle : IsNew node n s.idle
  pub idle_runs : (s.task s.idle).state ≡ task_running

-- The sequence with its first task moved to the end.
abbrev pub rotated : (ℕ → ℕ) → ℕ → ℕ → ℕ
rotated node n i = if i == 0 then node 0 else if i == n then node 1 else node (i + 1)

-- The task that is to run: the first of the queue, or the idle task.
abbrev pub first_or : ℕ → (ℕ → ℕ) → ℕ → ℕ
first_or idle node n = if n == 0 then idle else node 1

-- What __sched_next leaves: the queue rotated, and its first task then, or the idle task.
pub record Picked (s : Sched) (node : ℕ → ℕ) (n : ℕ) (result : ℕ × Sched) : Type 0 where
  pub links : Links
  pub out : result ≡ (first_or s.idle (rotated node n) n, record s { links = links })
  pub ring : IsRing links (rotated node n) n

module _ {s : Sched} {node : ℕ → ℕ} {n : ℕ} (q : IsQueue s node n) where
  is_empty : list_empty run_queue s.links ≡ (n == 0)
  is_empty = rw q.head at (list_empty-IsRing q.ring)

  moved-IsRing :
      0 < n
      → IsRing (list_add_tail (node 1) (node 0) (list_del (node 1) s.links)) (rotated node n) n
  moved-IsRing some_task =
      let e : n - 1 + 1 ≡ n = omega arith in
      let fresh : IsNew (without node 1) (n - 1) (node 1) =
        λ i le. ground (arith, q.ring.apart 0 1, q.ring.apart 1 (i + 1)) in
      IsRing-same (λ i le. ground arith)
        (rw e at
          (list_add_tail-IsRing (node 1) (list_del-IsRing 1 q.ring (omega arith) some_task) fresh))

  pub sched_next-Picked : Picked s node n (sched_next s)
  unfolding sched_next
  sched_next-Picked = elim (dec_lt 0 n) [
    | no empty ↦
        let e : n ≡ 0 = omega arith in
        let b : list_empty run_queue s.links ≡ true = ground (arith, is_empty) in
        record {
          links = s.links;
          out = rw (b, e) refl;
          ring = IsRing-same (λ i le. ground arith) q.ring;
        }
    | yes some_task ↦
        let b : list_empty run_queue s.links ≡ false = ground (arith, is_empty) in
        let f : s.links.next run_queue ≡ node 1 = rw q.head at (q.ring.next 0 some_task) in
        let r : IsRing (list_add_tail (node 1) run_queue (list_del (node 1) s.links))
            (rotated node n) n =
          rw q.head at (moved-IsRing some_task) in
        let h : (list_add_tail (node 1) run_queue (list_del (node 1) s.links)).next run_queue
            ≡ rotated node n 1 =
          rw q.head at (r.next 0 some_task) in
        let g : (list_add_tail (node 1) run_queue (list_del (node 1) s.links)).next run_queue
            ≡ first_or s.idle (rotated node n) n =
          ground (arith, h) in
        record {
          links = list_add_tail (node 1) run_queue (list_del (node 1) s.links);
          out = rw (b, f, g) refl;
          ring = r;
        }
  ]
