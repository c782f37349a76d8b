-- ===== src/Examples/Meetings.antt =====
-- A mailbox, a condition, a whale and a join on concrete inputs.
use jalepenos.Base.{ℕ, ◌≡◌, refl, true, [], ◌∷◌, none, some, ◌==◌, if◌then◌else◌, arith, update}
use jalepenos.Base.Int.{pos}
use jalepenos.LinkedList.Queue.{Entry}
use jalepenos.Threads.{running, ready, blocked, int_on, Thread, Kernel}
use jalepenos.Threads.Ready.{status_of, IsScheduled}
use jalepenos.Synch.{returned, Lock, Condition, new_semaphore, new_lock, wait, broadcast, release}
use jalepenos.Synch.Holding.{Succeeds}
use jalepenos.Synch.Wake.{IsWoken, broadcast-IsWoken}
use jalepenos.Synch.Mailbox.{Mailbox, new_mailbox, send_turn, send_entered, receive_turn}
use jalepenos.Synch.Mailbox.Delivery.{Trace, opens, locks, sends, IsDelivered, Trace-IsDelivered}
use jalepenos.Synch.Mailbox.Turns.{Unlocked, UnlockedAfter, turns_succeed}
use jalepenos.Synch.Join.{join}
use jalepenos.Synch.Join.Meeting.{join-returns}
use jalepenos.Synch.Whale.{Whale, new_whale, completion_turn}
use jalepenos.Synch.Whale.Turns.{LeavesMinusOne, completion_turn-LeavesMinusOne}

-- Thread 1 runs, and the others sleep.
abbrev asleep_but_one : ℕ → Thread
asleep_but_one t = record {
  joining = true;
  key = pos 0;
  join_signal = new_semaphore 0;
  may_die = new_semaphore 0;
  status = if t == 1 then running else blocked;
  exit_status = pos t;
}

abbrev one_runs : Kernel
one_runs = record {
  threads = asleep_but_one;
  ready_list = [];
  current = 1;
  level = int_on;
  to_be_destroyed = none;
  deleted = [];
}

abbrev held : Lock
held = record { is_locked = true; holder = some 1; queue = [] }

abbrev entry : ℕ → Entry ℕ
entry t = record { key = pos 0; item = t }

one_runs-IsScheduled : IsScheduled one_runs
one_runs-IsScheduled = record { ascends = tt; distinct = tt; listed = λ t. ground arith }

abbrev two_wait : Condition
two_wait = record { queue = entry 2 ∷ entry 3 ∷ []; lock = new_lock }

broadcast-IsWoken_example :
    Succeeds
      (λ (k1, c1). IsWoken one_runs (entry 2 ∷ entry 3 ∷ []) k1 × (c1.queue ≡ []))
      (broadcast one_runs two_wait held)
broadcast-IsWoken_example =
    broadcast-IsWoken one_runs two_wait held one_runs-IsScheduled (refl, (refl, tt))
      (λ t m. ground arith) refl

-- A message has been sent, and its sender waits.
abbrev with_held : Mailbox
with_held = record new_mailbox { lock = held }

abbrev one_message : Mailbox
one_message = record with_held {
  buffer = 42 ∷ [];
  num_pending_sends = 1;
  mail_snd = record { queue = entry 1 ∷ []; lock = new_lock };
  lock = new_lock;
}

one_message-Trace : Trace (42 ∷ []) [] one_message
unfolding send_entered send_turn wait release
one_message-Trace = sends one_runs 42 _ _ one_message (locks held opens) refl

Trace-IsDelivered_example : IsDelivered (42 ∷ []) [] one_message
Trace-IsDelivered_example = Trace-IsDelivered one_message-Trace

abbrev taken_again : Mailbox
taken_again = record one_message { lock = held }

turns_succeed_example :
    Succeeds Unlocked (send_turn one_runs taken_again)
    × Succeeds UnlockedAfter (receive_turn one_runs taken_again)
turns_succeed_example =
    turns_succeed one_runs (42 ∷ []) [] taken_again (locks held one_message-Trace) refl

-- Thread 2 has called Finish and sleeps there.
abbrev two_finished : Kernel
two_finished = record one_runs {
  threads = update asleep_but_one 2 (record (asleep_but_one 2) {
    join_signal = new_semaphore 1;
    may_die = record { value = 0; queue = entry 2 ∷ [] };
  });
}

join-returns_example :
    (k1 : Kernel) × (join two_finished 2 ≡ some (returned, k1))
    × ((k1.threads 1).exit_status ≡ pos 2)
    × (status_of k1 2 ≡ ready)
    × ((k1.threads 2).may_die ≡ new_semaphore 1)
join-returns_example =
    join-returns two_finished 2
      (record { is_joining = refl; signal_is = refl; may_die_is = (pos 0, refl) }) refl

abbrev one_male : Whale
one_male = record new_whale {
  lock = held;
  num_pending_male = 1;
  num_pending_female = 1;
  num_pending_match = 1;
  num_complete_male = 1;
}

completion_turn-LeavesMinusOne_example : Succeeds LeavesMinusOne (completion_turn one_runs one_male)
completion_turn-LeavesMinusOne_example =
    completion_turn-LeavesMinusOne one_runs one_male refl refl refl
