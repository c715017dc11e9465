-- ===== src/Sched.antt =====
-- kernel/sched.c, and arch_switch_to of arch/x86_64/kernel/process.c. A task is named by the address
-- of its run_node, so that container_of is the identity. Interrupts are off while these functions
-- work on the queue, and each of them is one step of the model.
pub mod Next
pub mod Schedule
pub mod Turns
pub mod Wake
pub mod Reach
mod Tests
use snap_os.Prelude.{
  ℕ, ◌+◌, ◌*◌, ◌-◌, ◌^◌, Bool, true, false, not, ◌&&◌, ◌||◌, Option, none, some, ◌==◌,
  if◌then◌else◌, Exec, ok, panic, ◌>>◌, ensure, word64, write, page_size,
}
use snap_os.Links.{Links, list_add_tail, list_del, list_empty}

-- `struct task_struct`, without the files and the saved registers.
pub record Task : Type 0 where
  pub pid : ℕ
  pub state : ℕ
  pub kernel_stack : ℕ
  pub mm : ℕ

-- The fields of cpu0_data that the scheduler sets, and the registers that arch_switch_to does.
pub record Cpu : Type 0 where
  pub current : ℕ
  pub kernel_stack : ℕ
  pub rsp0 : ℕ
  pub cr3 : ℕ

-- The statics of kernel/sched.c, the tasks, and the page table of each address space.
pub record Sched : Type 0 where
  pub links : Links
  pub task : ℕ → Task
  pub idle : ℕ
  pub current : ℕ
  pub cpu : Cpu
  pub pgd : ℕ → ℕ

abbrev pub task_running : ℕ
task_running = 0

abbrev pub task_interruptible : ℕ
task_interruptible = 1

abbrev pub task_kernel_stack_size : ℕ
task_kernel_stack_size = 4 * page_size

-- The address of the static list head.
abbrev pub run_queue : ℕ
run_queue = 1

-- The block of kzalloc is given, `none` where it fails.
pub create_idle_task : Option ℕ → Sched → Exec Sched
create_idle_task none s = panic
create_idle_task (some t) s = ok (record s {
  idle = t;
  task = write s.task t (record { pid = 0; state = task_running; kernel_stack = 0; mm = 0 });
  current = t;
  cpu = record s.cpu { current = t };
})

pub sched_enqueue : ℕ → Sched → Sched
sched_enqueue t s = record s { links = list_add_tail t run_queue s.links }

pub sched_dequeue : ℕ → Sched → Sched
sched_dequeue t s = record s { links = list_del t s.links }

pub sched_next : Sched → ℕ × Sched
sched_next s =
    let node = s.links.next run_queue in
    let l = list_add_tail node run_queue (list_del node s.links) in
    if list_empty run_queue s.links then (s.idle, s) else (l.next run_queue, record s { links = l })

-- VIRT_TO_PHYS on the addresses of page tables.
abbrev pub virt_to_phys : ℕ → ℕ
virt_to_phys a = word64 (a + (2 ^ 64 - 0xffff888000000000))

-- Up to the exchange of the stack pointers, after which the next task runs.
pub arch_switch_to : (prev next : ℕ) → Sched → Sched
arch_switch_to prev next s =
    let stack = (s.task next).kernel_stack in
    let mm = (s.task next).mm in
    record s {
      cpu = record s.cpu {
        rsp0 = if not (stack == 0) then stack + task_kernel_stack_size else s.cpu.rsp0;
        cr3 =
            if not (mm == 0) && not (mm == (s.task prev).mm)
            then virt_to_phys (s.pgd mm)
            else s.cpu.cr3;
      };
    }

-- The part of __schedule that takes the current task off the queue.
pub leave_queue : Bool → Sched → Sched
unfolding sched_dequeue
leave_queue preempt s =
    if not preempt && not ((s.task s.current).state == task_running)
    then sched_dequeue s.current s
    else s

-- The part that makes `next` the current task.
pub become_current : ℕ → Sched → Sched
unfolding arch_switch_to
become_current next s =
    if next == s.current
    then s
    else arch_switch_to s.current next (record s {
      current = next;
      cpu = record s.cpu { current = next; kernel_stack = (s.task next).kernel_stack };
    })

pub schedule : (preempt : Bool) → Sched → Sched
unfolding leave_queue become_current sched_next
schedule preempt s = let (next, s') = sched_next (leave_queue preempt s) in become_current next s'

unfoldable pub set_state : (t state : ℕ) → Sched → Sched
set_state t state s = record s { task = write s.task t (record (s.task t) { state = state }) }

pub set_current_state : ℕ → Sched → Sched
unfolding set_state
set_current_state state s = set_state s.current state s

pub wake_up_task : ℕ → Sched → Bool × Sched
unfolding sched_enqueue set_state
wake_up_task t s =
    if not ((s.task t).state == task_running)
    then (true, sched_enqueue t (set_state t task_running s))
    else (false, s)

pub timer_irq_handler : Sched → Exec Sched
unfolding schedule
timer_irq_handler s = ensure (s.cpu.current == s.current) >> ok (schedule true s)
