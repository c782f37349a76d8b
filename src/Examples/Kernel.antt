-- ===== src/Examples/Kernel.antt =====
-- Threads, a lock and a condition on concrete inputs.
use jalepenos.Base.{
  ℕ, ◌≡◌, refl, true, false, [], ◌∷◌, none, some, ◌==◌, if◌then◌else◌, arith, update, not, ◌||◌,
}
use jalepenos.Base.Int.{pos}
use jalepenos.LinkedList.Queue.{Entry}
use jalepenos.Threads.{
  ThreadStatus, just_created, running, ready, int_off, int_on, Thread, Kernel, exchange_level,
  set_status, ready_to_run, find_next_to_run, run, yield_thread, insert_thread, get_priority,
}
use jalepenos.Threads.Ready.{IsScheduled, IsBusy}
use jalepenos.Threads.Dispatch.{Yields, yield_thread-Yields}
use jalepenos.Synch.{new_semaphore, new_lock, acquire_turn, acquire, release, wake_first}
use jalepenos.Synch.Mutex.{
  System, outside, settle, enters, leaves, dispatches, yields, Reach, starts, later,
}
use jalepenos.Synch.Mutex.Safety.{one_inside, waiter-TriesAgain, asserts_exactly, is_none}
use jalepenos.Synch.Mutex.Invariant.{TriesAgain}

-- Thread 1 runs, 2 and 3 are ready, and the others are new.
abbrev thread : ThreadStatus → Thread
thread st = record {
  joining = true;
  key = pos 0;
  join_signal = new_semaphore 0;
  may_die = new_semaphore 0;
  status = st;
  exit_status = pos 7;
}

abbrev three_threads : ℕ → Thread
three_threads t =
    if t == 1
    then thread running
    else if t == 2 || t == 3
    then thread ready
    else thread just_created

abbrev entry : ℕ → Entry ℕ
entry t = record { key = pos 0; item = t }

abbrev three : Kernel
three = record {
  threads = three_threads;
  ready_list = entry 2 ∷ entry 3 ∷ [];
  current = 1;
  level = int_on;
  to_be_destroyed = none;
  deleted = [];
}

three-IsScheduled : IsScheduled three
three-IsScheduled = record {
  ascends = (omega arith, tt);
  distinct = (refl, (refl, tt));
  listed = λ t. ground arith;
}

three-IsBusy : IsBusy three
three-IsBusy = record { is_scheduled = three-IsScheduled; is_running = refl }

yield_thread-Yields_example : Yields three (entry 2 ∷ entry 3 ∷ []) (yield_thread three)
yield_thread-Yields_example = yield_thread-Yields three three-IsBusy

abbrev three_off : Kernel
three_off = record three { level = int_off }

abbrev start_system : System
start_system = record { kernel = three; lock = new_lock; at = λ t. outside }

abbrev one : ℕ
one = 1

-- Thread 1 enters.
abbrev one_in : System
one_in = settle start_system (acquire_turn int_on three_off new_lock)

one_in-Reach : Reach one_in
unfolding acquire exchange_level acquire_turn settle
one_in-Reach = later (starts three three-IsBusy) (enters _ refl refl refl)

one_inside_example : (one ≡ one) × (one_in.lock.holder ≡ some one) × (one_in.lock.is_locked ≡ true)
unfolding acquire_turn settle
one_inside_example = one_inside one_in one one one_in-Reach refl refl

-- Thread 1 yields, and 2 and 3 fall asleep in Acquire.
abbrev two_runs : System
two_runs = record one_in { kernel = (yield_thread one_in.kernel).1 }

abbrev two_asleep : System
two_asleep =
    settle two_runs (
      acquire_turn two_runs.kernel.level (record two_runs.kernel { level = int_off }) two_runs.lock)

abbrev three_runs : System
three_runs = record two_asleep { kernel = run (find_next_to_run two_asleep.kernel).1 3 }

abbrev both_asleep : System
both_asleep = settle three_runs (
    acquire_turn three_runs.kernel.level (record three_runs.kernel { level = int_off })
      three_runs.lock)

-- Thread 1 runs again, and leaves.
abbrev one_runs : System
one_runs = record both_asleep { kernel = run (find_next_to_run both_asleep.kernel).1 1 }

abbrev one_out : System
one_out = record {
  kernel = record (ready_to_run (record one_runs.kernel { level = int_off }) 2) {
    level = one_runs.kernel.level;
  };
  lock = record { is_locked = false; holder = none; queue = entry 3 ∷ [] };
  at = update one_runs.at 1 outside;
}

two_runs-Reach : Reach two_runs
unfolding acquire exchange_level acquire_turn settle
two_runs-Reach = later one_in-Reach (yields refl)

two_asleep-Reach : Reach two_asleep
unfolding acquire exchange_level acquire_turn settle yield_thread find_next_to_run run set_status
    ready_to_run insert_thread get_priority
two_asleep-Reach = later two_runs-Reach (enters _ refl refl refl)

three_runs-Reach : Reach three_runs
unfolding acquire exchange_level acquire_turn settle yield_thread find_next_to_run run set_status
    ready_to_run insert_thread get_priority
three_runs-Reach = later two_asleep-Reach (dispatches 3 _ refl refl)

both_asleep-Reach : Reach both_asleep
unfolding acquire exchange_level acquire_turn settle yield_thread find_next_to_run run set_status
    ready_to_run insert_thread get_priority
both_asleep-Reach = later three_runs-Reach (enters _ refl refl refl)

one_runs-Reach : Reach one_runs
unfolding acquire exchange_level acquire_turn settle yield_thread find_next_to_run run set_status
    ready_to_run insert_thread get_priority
one_runs-Reach = later both_asleep-Reach (dispatches 1 _ refl refl)

one_out-Reach : Reach one_out
unfolding acquire exchange_level acquire_turn settle yield_thread find_next_to_run run set_status
    ready_to_run insert_thread get_priority release wake_first
one_out-Reach = later one_runs-Reach (leaves _ _ refl refl refl)

waiter-TriesAgain_example : (w : ℕ) × TriesAgain one_out w
unfolding acquire exchange_level acquire_turn settle yield_thread find_next_to_run run set_status
    ready_to_run insert_thread get_priority
waiter-TriesAgain_example = waiter-TriesAgain one_out 3 one_out-Reach refl refl refl

asserts_exactly_example :
    (is_none (acquire one_in.kernel one_in.lock) ≡ true)
    × (is_none (release one_in.kernel one_in.lock) ≡ not true)
unfolding acquire_turn settle
asserts_exactly_example = asserts_exactly one_in one_in-Reach
