-- ===== src/Synch.antt =====
-- The synchronisation primitives of code/threads/synch.h and synch.cc over the threads and their
-- scheduler. An operation that may sleep is split where it calls Thread::Sleep: what runs up to there,
-- with interrupts off, is one function, which says whether the call has returned or sleeps, and
-- what runs when the thread has been dispatched again is another.
pub mod Mutex
pub mod Holding
pub mod Wake
pub mod Mailbox
pub mod Join
pub mod Whale
use jalepenos.Base.{
  ℕ, ◌+◌, ◌-◌, ◌%◌, ◌^◌, Bool, true, false, List, [], ◌∷◌, Option, none, some, ◌==◌, if◌then◌else◌,
  ◌>>=◌,
}
use jalepenos.LinkedList.Queue.{Entry, dequeue}
use jalepenos.Threads.{
  IntStatus, int_off, Semaphore, Kernel, exchange_level, insert_thread, ready_to_run,
}

-- A call that sleeps keeps the old level, which it is going to restore.
pub data Outcome : Type 0 where
  returned : Outcome
  sleeps : IntStatus → Outcome

-- Remove from a queue, and ReadyToRun of the thread that came out, if there was one.
abbrev wake : Kernel → Option (Entry ℕ) × List (Entry ℕ) → Kernel × List (Entry ℕ)
wake k (none, others) = (k, others)
wake k (some e, others) = (ready_to_run k e.item, others)

unfoldable pub wake_first : Kernel → List (Entry ℕ) → Kernel × List (Entry ℕ)
unfolding ready_to_run
wake_first k q = wake k (dequeue q)

-- while ((thread = (Thread*)queue->Remove()) != NULL) scheduler->ReadyToRun(thread);
pub wake_all : Kernel → List (Entry ℕ) → Kernel
wake_all k [] = k
wake_all k (e ∷ q) = wake_all (ready_to_run k e.item) q

-- n++ and n--, on the pattern of an int.
abbrev pub increment : ℕ → ℕ
increment n = (n + 1) % 2 ^ 32

abbrev pub decrement : ℕ → ℕ
decrement n = (n + (2 ^ 32 - 1)) % 2 ^ 32

-- Semaphore::Semaphore
abbrev pub new_semaphore : ℕ → Semaphore
new_semaphore initial_value = record { value = initial_value; queue = [] }

-- One turn of the loop of Semaphore::P, and what follows the loop.
unfoldable pub p_turn : IntStatus → Kernel → Semaphore → Outcome × Kernel × Semaphore
unfolding exchange_level insert_thread
p_turn old k s =
    if s.value == 0
    then (sleeps old, k, record s { queue = insert_thread k k.current s.queue })
    else (returned, (exchange_level k old).1, record s { value = decrement s.value })

-- Semaphore::P
unfoldable pub p : Kernel → Semaphore → Outcome × Kernel × Semaphore
unfolding exchange_level p_turn
p k s = let (old, k1) = exchange_level k int_off in p_turn old k1 s

-- Semaphore::V
unfoldable pub v : Kernel → Semaphore → Kernel × Semaphore
unfolding exchange_level wake_first
v k s =
    let (old, k1) = exchange_level k int_off in
    let (k2, q) = wake_first k1 s.queue in
    ((exchange_level k2 old).1, record { value = increment s.value; queue = q })

pub record Lock : Type 0 where
  pub is_locked : Bool
  pub holder : Option ℕ
  pub queue : List (Entry ℕ)

-- Lock::Lock
abbrev pub new_lock : Lock
new_lock = record { is_locked = false; holder = none; queue = [] }

-- ASSERT(!isLocked) of the destructor.
abbrev pub delete_lock : Lock → Option (Unit {0})
delete_lock l = if l.is_locked then none else some tt

abbrev pub is_thread : Option ℕ → ℕ → Bool
is_thread none t = false
is_thread (some h) t = t == h

abbrev pub is_held_by_current_thread : Kernel → Lock → Bool
is_held_by_current_thread k l = is_thread l.holder k.current

-- One turn of the loop of Lock::Acquire, and what follows the loop.
unfoldable pub acquire_turn : IntStatus → Kernel → Lock → Outcome × Kernel × Lock
unfolding exchange_level insert_thread
acquire_turn old k l =
    if l.is_locked
    then (sleeps old, k, record l { queue = insert_thread k k.current l.queue })
    else (
      returned,
      (exchange_level k old).1,
      record l { is_locked = true; holder = some k.current },
    )

-- Lock::Acquire
unfoldable pub acquire : Kernel → Lock → Option (Outcome × Kernel × Lock)
unfolding exchange_level acquire_turn
acquire k l =
    let (old, k1) = exchange_level k int_off in
    if is_held_by_current_thread k1 l then none else some (acquire_turn old k1 l)

-- Lock::Release
unfoldable pub release : Kernel → Lock → Option (Kernel × Lock)
unfolding exchange_level wake_first
release k l =
    let (old, k1) = exchange_level k int_off in
    let (k2, q) = wake_first k1 l.queue in
    if is_held_by_current_thread k1 l
    then some ((exchange_level k2 old).1, record { is_locked = false; holder = none; queue = q })
    else none

-- class Condition: the threads waiting. Its own `lock` is never used.
pub record Condition : Type 0 where
  pub queue : List (Entry ℕ)
  pub lock : Lock

-- Condition::Condition
abbrev pub new_condition : Condition
new_condition = record { queue = []; lock = new_lock }

abbrev delete_by : Option (Entry ℕ) × List (Entry ℕ) → Lock → Option (Unit {0})
delete_by (none, others) l = delete_lock l
delete_by (some e, others) l = none

-- The ASSERTs of Condition::~Condition.
unfoldable pub delete_condition : Condition → Option (Unit {0})
delete_condition c = delete_by (dequeue c.queue) c.lock

-- Condition::Wait, up to Sleep.
unfoldable pub wait : Kernel → Condition → Lock → Option (Outcome × Kernel × Condition × Lock)
unfolding exchange_level release insert_thread
wait k c l =
    let (old, k1) = exchange_level k int_off in
    if is_held_by_current_thread k1 l
    then (release k1 l >>= λ (k2, l1).
        some (sleeps old, k2, record c { queue = insert_thread k2 k2.current c.queue }, l1))
    else none

-- The end of Condition::Wait, once Acquire has returned.
unfoldable pub wait_end : IntStatus → Kernel → Kernel
unfolding exchange_level
wait_end old k = (exchange_level k old).1

-- Condition::Signal
unfoldable pub signal : Kernel → Condition → Lock → Option (Kernel × Condition)
unfolding exchange_level wake_first
signal k c l =
    let (old, k1) = exchange_level k int_off in
    let (k2, q) = wake_first k1 c.queue in
    if is_held_by_current_thread k1 l
    then some ((exchange_level k2 old).1, record c { queue = q })
    else none

-- Condition::Broadcast
unfoldable pub broadcast : Kernel → Condition → Lock → Option (Kernel × Condition)
unfolding exchange_level
broadcast k c l =
    let (old, k1) = exchange_level k int_off in
    let k2 = wake_all k1 c.queue in
    if is_held_by_current_thread k1 l
    then some ((exchange_level k2 old).1, record c { queue = [] })
    else none
