-- ===== src/Synch/Mailbox.antt =====
-- `Mailbox` of code/threads/synch.h and synch.cc. `Send` and `Receive` run under the mailbox's lock;
-- each is split where Acquire has returned and where a wait has: the turn of a loop, with what
-- follows the loop.
pub mod Delivery
pub mod Turns
use jalepenos.Base.{
  ℕ, ◌+◌, ◌%◌, ◌^◌, Bool, true, false, List, [], ◌∷◌, ◌++◌, Option, none, some, ◌==◌, if◌then◌else◌,
  ◌>>=◌,
}
use jalepenos.Threads.{Kernel}
use jalepenos.Synch.{
  Outcome, returned, sleeps, increment, decrement, Lock, new_lock, Condition, new_condition,
  acquire, release, wait, signal,
}

-- The messages are what the pointers of `buffer` point at. The counters are patterns of ints.
-- `condLock`, `mailCpyDone` and `copyComplete` are never used.
pub record Mailbox : Type 0 where
  pub buffer : List ℕ
  pub lock : Lock
  pub mail_snd : Condition
  pub mail_rcv : Condition
  pub num_pending_sends : ℕ
  pub num_pending_recs : ℕ

-- Mailbox::Mailbox
abbrev pub new_mailbox : Mailbox
new_mailbox = record {
  buffer = [];
  lock = new_lock;
  mail_snd = new_condition;
  mail_rcv = new_condition;
  num_pending_sends = 0;
  num_pending_recs = 0;
}

-- The loop of Send and what follows it.
unfoldable pub send_turn : Kernel → Mailbox → Option (Outcome × Kernel × Mailbox)
unfolding wait signal release
send_turn k m =
    if m.num_pending_recs == 0
    then (wait k m.mail_snd m.lock >>= λ (o, k1, c, l).
        some (o, k1, record m { mail_snd = c; lock = l }))
    else (signal k m.mail_rcv m.lock >>= λ (k1, c). release k1 m.lock >>= λ (k2, l). some (
      returned,
      k2,
      record m { mail_rcv = c; lock = l; num_pending_recs = decrement m.num_pending_recs },
    ))

-- Send, once Acquire has returned.
unfoldable pub send_entered : ℕ → Kernel → Mailbox → Option (Outcome × Kernel × Mailbox)
unfolding send_turn
send_entered message k m = send_turn k (record m {
  num_pending_sends = increment m.num_pending_sends;
  buffer = m.buffer ++ message ∷ [];
})

-- *message = *(int*) buffer->Remove();
abbrev take_message : List ℕ → Option (ℕ × List ℕ)
take_message [] = none
take_message (x ∷ xs) = some (x, xs)

-- The loop of Receive and what follows it, with the message.
unfoldable pub receive_turn : Kernel → Mailbox → Option (Option ℕ × Outcome × Kernel × Mailbox)
unfolding wait signal release
receive_turn k m =
    if m.num_pending_sends == 0
    then (wait k m.mail_rcv m.lock >>= λ (o, k1, c, l).
        some (none, o, k1, record m { mail_rcv = c; lock = l }))
    else (take_message m.buffer >>= λ (message, others). signal k m.mail_snd m.lock >>= λ (k1, c).
        release k1 m.lock >>= λ (k2, l). some (
          some message,
          returned,
          k2,
          record m {
            buffer = others;
            mail_snd = c;
            lock = l;
            num_pending_sends = decrement m.num_pending_sends;
          },
        ))

-- Receive, once Acquire has returned.
unfoldable pub receive_entered : Kernel → Mailbox → Option (Option ℕ × Outcome × Kernel × Mailbox)
unfolding receive_turn
receive_entered k m = receive_turn k (record m { num_pending_recs = increment m.num_pending_recs })

-- What follows lock->Acquire(), when it has returned.
unfoldable pub send_after :
    ℕ → Mailbox → Outcome × Kernel × Lock → Option (Outcome × Kernel × Mailbox)
send_after message m (returned, k, l) = send_entered message k (record m { lock = l })
send_after message m (sleeps old, k, l) = some (sleeps old, k, record m { lock = l })

-- Mailbox::Send, up to its return or its first sleep.
unfoldable pub send : ℕ → Kernel → Mailbox → Option (Outcome × Kernel × Mailbox)
send message k m = acquire k m.lock >>= send_after message m

unfoldable pub receive_after :
    Mailbox → Outcome × Kernel × Lock → Option (Option ℕ × Outcome × Kernel × Mailbox)
receive_after m (returned, k, l) = receive_entered k (record m { lock = l })
receive_after m (sleeps old, k, l) = some (none, sleeps old, k, record m { lock = l })

-- Mailbox::Receive, up to its return or its first sleep.
unfoldable pub receive : Kernel → Mailbox → Option (Option ℕ × Outcome × Kernel × Mailbox)
receive k m = acquire k m.lock >>= receive_after m
