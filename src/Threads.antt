-- ===== src/Threads.antt =====
-- Threads of the kernel and their scheduler: code/threads/thread.h and thread.cc, and
-- code/threads/scheduler.cc. A thread is named by its address, a number. The ready list is what its
-- linked list stands for, the entries in order. `delete` of a thread notes it in `deleted`. Stacks,
-- the registers of the host and debugging output are left out.
pub mod Members
pub mod Ready
pub mod Dispatch
pub mod UserState
use jalepenos.Base.{
  ℕ, zero, suc, ◌+◌, Bool, true, false, List, [], ◌∷◌, Option, none, some, ◌==◌, if◌then◌else◌,
  update, ◌>>=◌,
}
use jalepenos.Base.Int.{ℤ, pos}
use jalepenos.LinkedList.Queue.{Entry, enqueue, dequeue}

pub data ThreadStatus : Type 0 where
  just_created : ThreadStatus
  running : ThreadStatus
  ready : ThreadStatus
  blocked : ThreadStatus

pub data IntStatus : Type 0 where
  int_off : IntStatus
  int_on : IntStatus

-- class Semaphore of synch.h: the pattern of an int, and the threads waiting.
pub record Semaphore : Type 0 where
  pub value : ℕ
  pub queue : List (Entry ℕ)

pub record Thread : Type 0 where
  pub joining : Bool
  pub key : ℤ
  pub join_signal : Semaphore
  pub may_die : Semaphore
  pub status : ThreadStatus
  pub exit_status : ℤ

-- The globals `currentThread` and `threadToBeDestroyed`, the scheduler's list, and the level of
-- `interrupt`.
pub record Kernel : Type 0 where
  pub threads : ℕ → Thread
  pub ready_list : List (Entry ℕ)
  pub current : ℕ
  pub level : IntStatus
  pub to_be_destroyed : Option ℕ
  pub deleted : List ℕ

-- Interrupt::ChangeLevel as SetLevel calls it, and the old level that SetLevel returns. The ASSERT of
-- SetLevel and the tick that it takes when it enables interrupts are in Interrupt.Clock.set_level.
unfoldable pub exchange_level : Kernel → IntStatus → IntStatus × Kernel
exchange_level k now = (k.level, record k { level = now })

unfoldable pub set_status : Kernel → ℕ → ThreadStatus → Kernel
set_status k t st = record k { threads = update k.threads t (record (k.threads t) { status = st }) }

unfoldable pub set_priority : Kernel → ℕ → ℤ → Kernel
set_priority k t priority = record k {
  threads = update k.threads t (record (k.threads t) { key = priority });
}

unfoldable pub get_priority : Kernel → ℕ → ℤ
get_priority k t = (k.threads t).key

-- SortedInsert((void *)t, t->getPriority()).
unfoldable pub insert_thread : Kernel → ℕ → List (Entry ℕ) → List (Entry ℕ)
unfolding get_priority
insert_thread k t q = enqueue (record { key = get_priority k t; item = t }) q

-- Scheduler::ReadyToRun
unfoldable pub ready_to_run : Kernel → ℕ → Kernel
unfolding set_status insert_thread
ready_to_run k t =
    let k1 = set_status k t ready in record k1 { ready_list = insert_thread k1 t k1.ready_list }

abbrev pub thread_of : Option (Entry ℕ) → Option ℕ
thread_of none = none
thread_of (some e) = some e.item

-- Scheduler::FindNextToRun
unfoldable pub find_next_to_run : Kernel → Option ℕ × Kernel
find_next_to_run k =
    let (e, others) = dequeue k.ready_list in (thread_of e, record k { ready_list = others })

-- Scheduler::Run, up to SWITCH.
unfoldable pub run : Kernel → ℕ → Kernel
unfolding set_status
run k next = set_status (record k { current = next }) next running

-- delete threadToBeDestroyed, with the ASSERT of the destructor.
abbrev delete_thread : Option ℕ → Kernel → Option Kernel
delete_thread none k = some k
delete_thread (some t) k =
    if t == k.current
    then none
    else some (record k { to_be_destroyed = none; deleted = t ∷ k.deleted })

-- Scheduler::Run, from SWITCH on, in the thread that had called it.
unfoldable pub after_switch : Kernel → Option Kernel
after_switch k = delete_thread k.to_be_destroyed k

-- Thread::Fork
unfoldable pub fork : Kernel → ℕ → Kernel
unfolding exchange_level ready_to_run
fork k t = let (old, k1) = exchange_level k int_off in (exchange_level (ready_to_run k1 t) old).1

-- ASSERT(interrupt->getLevel() == IntOff);
abbrev pub is_off : IntStatus → Bool
is_off int_off = true
is_off int_on = false

-- Where a call leaves the processor: the caller goes on; or SetLevel has enabled interrupts, and takes a
-- tick before the caller goes on; or the caller has been switched out in the middle of the call, with the
-- old level that it is going to restore.
pub data Outcome : Type 0 where
  returned : Outcome
  enabling : Outcome
  switched : IntStatus → Outcome

abbrev yield_to : IntStatus → Option ℕ × Kernel → Outcome × Kernel
yield_to old (none, k) = ((if is_off old then returned else enabling), (exchange_level k old).1)
yield_to old (some next, k) = (switched old, run (ready_to_run k k.current) next)

-- Thread::Yield of the current thread.
unfoldable pub yield_thread : Kernel → Outcome × Kernel
unfolding exchange_level ready_to_run find_next_to_run run
yield_thread k = let (old, k1) = exchange_level k int_off in yield_to old (find_next_to_run k1)

-- The loop of Thread::Sleep, with Interrupt::Idle, on fuel.
module _ (idle : Kernel → Option Kernel) where
  unfoldable sleep_turn : (Kernel → Option Kernel) → Option ℕ × Kernel → Option Kernel
  unfolding run
  sleep_turn again (some next, k) = some (run k next)
  sleep_turn again (none, k) = idle k >>= again

  pub sleep_loop : ℕ → Kernel → Option Kernel
  unfolding find_next_to_run sleep_turn
  sleep_loop zero k = none
  sleep_loop (suc fuel) k = sleep_turn (sleep_loop fuel) (find_next_to_run k)

  -- Thread::Sleep of the current thread, up to the switch.
  unfoldable pub sleep : ℕ → Kernel → Option Kernel
  unfolding set_status
  sleep fuel k =
      let rest = sleep_loop fuel (set_status k k.current blocked) in
      if is_off k.level then rest else none
