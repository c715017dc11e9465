-- ===== src/Wait.antt =====
-- kernel/wait.c: wait queues. Their entries are list nodes in the same memory as the run queue. An
-- entry is named by the address of its node, and the lock of a queue is held throughout.
pub mod Queue
pub mod Wakeup
mod Tests
use snap_os.Prelude.{
  ℕ, zero, suc, ◌+◌, ◌-◌, ◌%◌, ◌^◌, Bool, true, false, not, ◌&&◌, ◌||◌, Option, none, some, ltb,
  ◌==◌, if◌then◌else◌, Exec, ok, fault, out_of_fuel, ◌>>=◌, word32, bit_and, write,
}
use snap_os.Links.{Links, list_add_tail, list_del, list_empty, init_list_head}
use snap_os.Sched.{Sched, Task, task_running, set_state, wake_up_task}

-- The functions that an entry may name.
pub data WakeFunc : Type 0 where
  default_wake_function pid_filter_wake_func : WakeFunc

-- `struct wait_queue_entry`; `private` is the task.
pub record WaitEntry : Type 0 where
  pub flags : ℕ
  pub private : ℕ
  pub func : WakeFunc

pub record Waits : Type 0 where
  pub sched : Sched
  pub entry : ℕ → WaitEntry

abbrev pub wq_flag_exclusive : ℕ
wq_flag_exclusive = 1

abbrev pub on_links : (Links → Links) → Sched → Sched
on_links f s = record s { links = f s.links }

pub init_waitqueue_entry : (wq_entry t : ℕ) → Waits → Waits
init_waitqueue_entry wq_entry t w = record {
  sched = on_links (init_list_head wq_entry) w.sched;
  entry = write w.entry wq_entry (record { flags = 0; private = t; func = default_wake_function });
}

pub prepare_to_wait : (wq_head wq_entry state : ℕ) → Waits → Waits
prepare_to_wait wq_head wq_entry state w =
    let s : Sched =
      if list_empty wq_entry w.sched.links
      then on_links (list_add_tail wq_entry wq_head) w.sched
      else w.sched in
    record w { sched = set_state (w.entry wq_entry).private state s }

pub finish_wait : (wq_head wq_entry : ℕ) → Waits → Waits
finish_wait wq_head wq_entry w =
    let s = set_state (w.entry wq_entry).private task_running w.sched in
    record w {
      sched =
          if not (list_empty wq_entry s.links)
          then on_links (λ l. init_list_head wq_entry (list_del wq_entry l)) s
          else s;
    }

-- `cur->func(cur, mode, 0, key)`, where `key` points to a pid or is null.
pub wake_func : WakeFunc → (t : ℕ) → (key : Option ℕ) → Sched → Exec (Bool × Sched)
wake_func default_wake_function t key s = ok (wake_up_task t s)
wake_func pid_filter_wake_func t none s = fault
wake_func pid_filter_wake_func t (some pid) s =
    if (s.task t).pid == pid then ok (wake_up_task t s) else ok (false, s)

-- The loop of __wakeup at the entry `cur`.
pub wakeup_loop :
    (fuel : ℕ) → (wq_head mode nr_exclusive : ℕ) → (key : Option ℕ) → (cur : ℕ) → Waits → Exec Waits
unfolding wake_func
wakeup_loop zero wq_head mode nr key cur w = out_of_fuel
wakeup_loop (suc fuel) wq_head mode nr key cur w =
    let e = w.entry cur in
    let skip = wakeup_loop fuel wq_head mode nr key (w.sched.links.next cur) w in
    if cur == wq_head
    then ok w
    else if mode == 0 || not (bit_and e.flags mode == 0)
    then wake_func e.func e.private key w.sched >>= (λ (woke_up, s).
      let w' : Waits = record w { sched = s } in
      let counts : Bool = woke_up && not (bit_and e.flags wq_flag_exclusive == 0) in
      let nr' : ℕ = if counts then word32 (nr + (2 ^ 32 - 1)) else nr in
      let go_on = wakeup_loop fuel wq_head mode nr' key (s.links.next cur) w' in
      if counts && nr' == 0 then ok w' else go_on)
    else skip

pub wakeup : (fuel : ℕ) → (wq_head mode nr_exclusive : ℕ) → (key : Option ℕ) → Waits → Exec Waits
unfolding wakeup_loop
wakeup fuel wq_head mode nr key w =
    wakeup_loop fuel wq_head mode nr key (w.sched.links.next wq_head) w
