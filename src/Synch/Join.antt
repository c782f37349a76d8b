-- ===== src/Synch/Join.antt =====
-- The parts of code/threads/thread.cc that use semaphores: the constructor, `Finish` and `Join`. The
-- semaphores of a thread are in its record. `Finish` and `Join` are split where `P` may sleep. Join
-- of a thread that is not joinable reads a pointer that was never set, which is `none`.
pub mod Meeting
use jalepenos.Base.{
  ℕ, Bool, true, false, List, [], Option, none, some, ◌==◌, if◌then◌else◌, update, ◌>>=◌,
}
use jalepenos.Base.Int.{ℤ, pos}
use jalepenos.Threads.{
  ThreadStatus, just_created, IntStatus, int_off, Semaphore, Thread, Kernel, exchange_level,
}
use jalepenos.Synch.{Outcome, returned, sleeps, new_semaphore, p_turn, p, v}

abbrev with_may_die : Thread → Outcome × Kernel × Semaphore → Kernel × Thread
with_may_die t (o, k, s) = (k, record t { may_die = s })

-- Thread::Thread, with what memory held in `exitStatus` and, for a thread that is not joinable, in
-- `joinSignal`.
unfoldable pub new_thread : ℤ → Semaphore → Kernel → Bool → Kernel × Thread
new_thread old_status old_signal k joining =
    let t : Thread = record {
      joining = joining;
      key = pos 0;
      join_signal = if joining then new_semaphore 0 else old_signal;
      may_die = new_semaphore 1;
      status = just_created;
      exit_status = old_status;
    } in
    if joining then with_may_die t (p k t.may_die) else (k, t)

unfoldable pub set_may_die : Kernel → ℕ → Semaphore → Kernel
set_may_die k t s = record k { threads = update k.threads t (record (k.threads t) { may_die = s }) }

unfoldable pub set_join_signal : Kernel → ℕ → Semaphore → Kernel
set_join_signal k t s = record k {
  threads = update k.threads t (record (k.threads t) { join_signal = s });
}

unfoldable pub set_exit_status : Kernel → ℕ → ℤ → Kernel
set_exit_status k t status = record k {
  threads = update k.threads t (record (k.threads t) { exit_status = status });
}

-- threadToBeDestroyed = currentThread;
unfoldable pub mark_current : Kernel → Kernel
mark_current k = record k { to_be_destroyed = some k.current }

-- After a turn of mayDie->P() of the thread `t`, which finishes: on to Sleep, or asleep in `P`.
unfoldable pub finish_after : ℕ → Outcome × Kernel × Semaphore → Outcome × Kernel
finish_after t (returned, k, s) = (returned, mark_current (set_may_die k t s))
finish_after t (sleeps old, k, s) = (sleeps old, set_may_die k t s)

-- Finish of the current thread, up to Sleep, its own or that in `P`.
unfoldable pub finish : Kernel → Outcome × Kernel
finish k =
    let this = k.current in
    let k1 = (exchange_level k int_off).1 in
    let (k2, signal) = v k1 (k1.threads this).join_signal in
    let k3 = set_join_signal k2 this signal in
    if (k1.threads this).joining
    then finish_after this (p k3 (k3.threads this).may_die)
    else (returned, mark_current k1)

-- Finish, from the turn of `P` after it has slept.
unfoldable pub finish_again : IntStatus → Kernel → Outcome × Kernel
finish_again old k = finish_after k.current (p_turn old k (k.threads k.current).may_die)

-- After a turn of joinSignal->P() for the thread `t`.
unfoldable pub join_after : ℕ → Outcome × Kernel × Semaphore → Outcome × Kernel
join_after t (sleeps old, k, s) = (sleeps old, set_join_signal k t s)
join_after t (returned, k, s) =
    let k1 = set_join_signal k t s in
    let k2 = set_exit_status k1 k.current (k1.threads t).exit_status in
    let (k3, die) = v k2 (k2.threads t).may_die in (returned, set_may_die k3 t die)

-- Join of the thread `t` by the current thread.
unfoldable pub join : Kernel → ℕ → Option (Outcome × Kernel)
join k t =
    let after = join_after t (p k (k.threads t).join_signal) in
    if t == k.current then none else if (k.threads t).joining then some after else none

unfoldable pub join_again : IntStatus → Kernel → ℕ → Outcome × Kernel
join_again old k t = join_after t (p_turn old k (k.threads t).join_signal)
