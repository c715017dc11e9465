-- ===== src/Wait/Queue.antt =====
-- Joining and leaving a wait queue: the queue, the entry, and the run queue beside them.
use snap_os.Prelude.{
  ℕ, ◌+◌, ◌-◌, ◌≤◌, ◌<◌, ◌≡◌, ◌≢◌, inl, inr, true, false, arith, ◌==◌, if◌then◌else◌, Bool-cases,
  ◌∙◌,
}
use snap_os.Links.{Links, list_add_tail, list_del, list_empty, init_list_head}
use snap_os.Links.Ring.{
  IsRing, IsNew, with_last, IsRing-same, list_add_tail-IsRing, list_del-IsRing,
  init_list_head-IsRing,
}
use snap_os.Sched.{task_running, set_state}
use snap_os.Wait.{Waits, prepare_to_wait, finish_wait}

-- No node of one list is one of the other.
abbrev pub AreApart : (ℕ → ℕ) → ℕ → (ℕ → ℕ) → ℕ → Type 0
AreApart a m b n = (i j : ℕ) → i ≤ m → j ≤ n → a i ≢ b j

-- What happens to one list leaves another alone.
pub list_add_tail-other :
    {l : Links} {a b : ℕ → ℕ} {m n : ℕ} (new : ℕ)
    → IsRing l a m
    → IsRing l b n
    → AreApart a m b n
    → IsNew a m new
    → IsRing (list_add_tail new (b 0) l) a m
unfolding list_add_tail
list_add_tail-other {l} {a} {b} {m} {n} new r q apart fresh = record {
  apart = r.apart;
  next = λ i lt. ground (arith, r.next i, q.first, apart i n, fresh i);
  last = ground (arith, r.last, q.first, apart m n, fresh m);
  prev = λ i lt. ground (arith, r.prev i, apart (i + 1) 0, fresh (i + 1));
  first = ground (arith, r.first, apart 0 0, fresh 0);
}

list_del-other :
    {l : Links} {a b : ℕ → ℕ} {m n : ℕ} (k : ℕ)
    → IsRing l a m
    → IsRing l b n
    → AreApart a m b n
    → 0 < k
    → k ≤ n
    → IsRing (list_del (b k) l) a m
unfolding list_del
list_del-other {l} {a} {b} {m} {n} k r q apart low high =
    let e : k - 1 + 1 ≡ k = omega arith in
    let before : l.prev (b k) ≡ b (k - 1) = rw e at (q.prev (k - 1) (omega arith)) in
    let j : ℕ = if k == n then 0 else k + 1 in
    let after : l.next (b k) ≡ b j = ground (arith, q.next k, q.last) in
    let inside : j ≤ n = ground arith in
    record {
      apart = r.apart;
      next = λ i lt. ground (arith, r.next i, before, apart i (k - 1));
      last = ground (arith, r.last, before, apart m (k - 1));
      prev = λ i lt.
          ground (arith, r.prev i, before, after, inside, apart (i + 1) j, apart (i + 1) (k - 1));
      first = ground (arith, r.first, before, after, inside, apart 0 j);
    }

init_list_head-other :
    {l : Links} {a : ℕ → ℕ} {m : ℕ} (e : ℕ)
    → IsRing l a m
    → IsNew a m e
    → IsRing (init_list_head e l) a m
unfolding init_list_head
init_list_head-other {l} {a} {m} e r fresh = record {
  apart = r.apart;
  next = λ i lt. ground (arith, r.next i, fresh i);
  last = ground (arith, r.last, fresh m);
  prev = λ i lt. ground (arith, r.prev i, fresh (i + 1));
  first = ground (arith, r.first, fresh 0);
}

-- The memory holds the run queue `run`, the wait queue `waiters`, and an entry that is in neither.
pub record IsApartFrom (l : Links) (run : ℕ → ℕ) (m : ℕ) (waiters : ℕ → ℕ) (n : ℕ) (e : ℕ)
    : Type 0 where
  pub run_ring : IsRing l run m
  pub wait_ring : IsRing l waiters n
  pub alone : IsRing l (λ i. e) 0
  pub apart : AreApart run m waiters n
  pub not_running : IsNew run m e
  pub not_waiting : IsNew waiters n e

-- Both queues, with the entry at the end of the wait queue.
pub record HasJoined (l : Links) (run : ℕ → ℕ) (m : ℕ) (waiters : ℕ → ℕ) (n : ℕ) (e : ℕ)
    : Type 0 where
  pub run_ring : IsRing l run m
  pub wait_ring : IsRing l (with_last waiters n e) (n + 1)

module _ {run waiters : ℕ → ℕ} {m n e : ℕ} (w : Waits)
    (h : IsApartFrom w.sched.links run m waiters n e) where
  prepare_to_wait-HasJoined :
      (state : ℕ) → HasJoined (prepare_to_wait (waiters 0) e state w).sched.links run m waiters n e
  unfolding prepare_to_wait set_state list_empty
  prepare_to_wait-HasJoined state =
      let empty : (w.sched.links.next e == e) ≡ true = ground (arith, h.alone.last) in
      rw empty (record {
        run_ring = list_add_tail-other e h.run_ring h.wait_ring h.apart h.not_running;
        wait_ring = list_add_tail-IsRing e h.wait_ring h.not_waiting;
      })

leave-IsApartFrom :
    {l : Links} {run waiters : ℕ → ℕ} {m n e : ℕ}
    → HasJoined l run m waiters n e
    → AreApart run m waiters n
    → IsNew run m e
    → IsNew waiters n e
    → IsApartFrom (init_list_head e (list_del e l)) run m waiters n e
leave-IsApartFrom {l} {run} {waiters} {m} {n} {e} j apart not_running not_waiting =
    let here : with_last waiters n e (n + 1) ≡ e = ground arith in
    let apart' : AreApart run m (with_last waiters n e) (n + 1) =
      λ i k le le'. ground (arith, apart i k, not_running i) in
    let less : n + 1 - 1 ≡ n = omega arith in
    let out = list_del-IsRing (n + 1) j.wait_ring (omega arith) (omega arith) in
    let out' = rw (here, less) at out in
    let run' = list_del-other (n + 1) j.run_ring j.wait_ring apart' (omega arith) (omega arith) in
    record {
      run_ring = init_list_head-other e (rw here at run') not_running;
      wait_ring = init_list_head-other e (IsRing-same (λ i le. ground arith) out') not_waiting;
      alone = init_list_head-IsRing e (list_del e l);
      apart = apart;
      not_running = not_running;
      not_waiting = not_waiting;
    }

finish_wait-IsApartFrom :
    {run waiters : ℕ → ℕ} {m n e : ℕ} (q : ℕ) (w : Waits)
    → HasJoined w.sched.links run m waiters n e
    → AreApart run m waiters n
    → IsNew run m e
    → IsNew waiters n e
    → IsApartFrom (finish_wait q e w).sched.links run m waiters n e
unfolding finish_wait set_state list_empty
finish_wait-IsApartFrom {run} {waiters} {m} {n} {e} q w j apart not_running not_waiting =
    let here : with_last waiters n e (n + 1) ≡ e = ground arith in
    let last : w.sched.links.next e ≡ waiters 0 = (rw here at j.wait_ring.last) ∙ (ground arith) in
    let filled : (w.sched.links.next e == e) ≡ false = ground (arith, last, not_waiting 0) in
    rw filled (leave-IsApartFrom j apart not_running not_waiting)

-- After a task has waited: the queues are as they were, its entry is alone, and it runs.
pub record Restored (w : Waits) (run : ℕ → ℕ) (m : ℕ) (waiters : ℕ → ℕ) (n e : ℕ) (w' : Waits)
    : Type 0 where
  pub memory : IsApartFrom w'.sched.links run m waiters n e
  pub running : (w'.sched.task (w.entry e).private).state ≡ task_running
  pub others : (u : ℕ) → u ≢ (w.entry e).private → w'.sched.task u ≡ w.sched.task u

finish_wait-running :
    (q e : ℕ) (w : Waits)
    → ((finish_wait q e w).sched.task (w.entry e).private).state ≡ task_running
unfolding finish_wait set_state
finish_wait-running q e w = elim (Bool-cases (list_empty e w.sched.links)) [
  | inl alone ↦ rw alone (ground arith)
  | inr queued ↦ rw queued (ground arith)
]

finish_wait-others :
    (q e : ℕ) (w : Waits) (u : ℕ)
    → u ≢ (w.entry e).private
    → (finish_wait q e w).sched.task u ≡ w.sched.task u
unfolding finish_wait set_state
finish_wait-others q e w u other = elim (Bool-cases (list_empty e w.sched.links)) [
  | inl alone ↦ rw alone (ground arith)
  | inr queued ↦ rw queued (ground arith)
]

prepare_to_wait-others :
    (q e state : ℕ) (w : Waits) (u : ℕ)
    → u ≢ (w.entry e).private
    → (prepare_to_wait q e state w).sched.task u ≡ w.sched.task u
unfolding prepare_to_wait set_state
prepare_to_wait-others q e state w u other = elim (Bool-cases (list_empty e w.sched.links)) [
  | inl alone ↦ rw alone (ground arith)
  | inr queued ↦ rw queued (ground arith)
]

-- With an initialised entry that is in no queue, prepare_to_wait and then finish_wait leave the run
-- queue and the wait queue as they were, the entry initialised and in neither, and the entry's task
-- running; no other task changes.
pub finish_wait-prepare_to_wait :
    {run waiters : ℕ → ℕ} {m n e : ℕ} (state : ℕ) (w : Waits)
    → IsApartFrom w.sched.links run m waiters n e
    → Restored w run m waiters n e
        (finish_wait (waiters 0) e (prepare_to_wait (waiters 0) e state w))
unfolding prepare_to_wait
finish_wait-prepare_to_wait {run} {waiters} {m} {n} {e} state w h =
    let w' = prepare_to_wait (waiters 0) e state w in
    record {
      memory =
          finish_wait-IsApartFrom (waiters 0) w' (prepare_to_wait-HasJoined w h state) h.apart
            h.not_running h.not_waiting;
      running = finish_wait-running (waiters 0) e w';
      others = λ u other.
          finish_wait-others (waiters 0) e w' u other
          ∙ prepare_to_wait-others (waiters 0) e state w u other;
    }
