-- ===== src/Synch/Mailbox/Turns.antt =====
-- No ASSERT fails and no NULL is read in a turn of a mailbox whose lock the current thread holds.
use jalepenos.Base.{
  ℕ, ◌≡◌, refl, ◌∙◌, ap, true, false, List, [], ◌∷◌, Option, ◌==◌, inl, inr, Bool-cases,
}
use jalepenos.Threads.{Kernel}
use jalepenos.Synch.{Outcome, release, wait, signal, is_thread, is_held_by_current_thread}
use jalepenos.Synch.Holding.{
  Succeeds, bind-Succeeds, SameCurrent, Free, signal-SameCurrent, release-Free, wait-Free,
}
use jalepenos.Synch.Mailbox.{Mailbox, send_turn, receive_turn}
use jalepenos.Synch.Mailbox.Delivery.{IsCounted, Trace, Trace-IsDelivered}

pub Unlocked : Outcome × Kernel × Mailbox → Type 0
Unlocked (o, k, m) = m.lock.is_locked ≡ false

send_turn-Unlocked :
    (k : Kernel) (m : Mailbox)
    → is_held_by_current_thread k m.lock ≡ true
    → Succeeds Unlocked (send_turn k m)
unfolding send_turn Unlocked
send_turn-Unlocked k m held = elim (Bool-cases (m.num_pending_recs == 0)) [
  | inl nobody ↦ rw nobody (
      bind-Succeeds _ Unlocked (wait k m.mail_snd m.lock) _ (wait-Free k m.lock held m.mail_snd)
        (λ r u. u))
  | inr some_rec ↦ rw some_rec (
      bind-Succeeds (SameCurrent k) Unlocked (signal k m.mail_rcv m.lock) _
        (signal-SameCurrent k m.lock held m.mail_rcv)
        (λ (k1, c) same.
          bind-Succeeds Free Unlocked (release k1 m.lock) _
            (release-Free k1 m.lock (ap (is_thread m.lock.holder) same ∙ held)) (λ r u. u)))
]

pub UnlockedAfter : Option ℕ × Outcome × Kernel × Mailbox → Type 0
UnlockedAfter (x, o, k, m) = m.lock.is_locked ≡ false

receive_by_buffer :
    (k : Kernel) (m : Mailbox) (buffer : List ℕ)
    → m.buffer ≡ buffer
    → IsCounted m
    → is_held_by_current_thread k m.lock ≡ true
    → Succeeds UnlockedAfter (receive_turn k m)
unfolding receive_turn UnlockedAfter
receive_by_buffer k m [] h counted held =
    let nothing : m.num_pending_sends ≡ 0 = counted ∙ rw h refl in
    rw nothing (
      bind-Succeeds _ UnlockedAfter (wait k m.mail_rcv m.lock) _
        (wait-Free k m.lock held m.mail_rcv) (λ r u. u))
receive_by_buffer k m (x ∷ xs) h counted held = elim (Bool-cases (m.num_pending_sends == 0)) [
  | inl nothing ↦ rw nothing (
      bind-Succeeds _ UnlockedAfter (wait k m.mail_rcv m.lock) _
        (wait-Free k m.lock held m.mail_rcv) (λ r u. u))
  | inr some_sent ↦
      rw (some_sent, h)
        (bind-Succeeds (SameCurrent k) UnlockedAfter (signal k m.mail_snd m.lock) _
          (signal-SameCurrent k m.lock held m.mail_snd)
          (λ (k1, c) same.
            bind-Succeeds Free UnlockedAfter (release k1 m.lock) _
              (release-Free k1 m.lock (ap (is_thread m.lock.holder) same ∙ held)) (λ r u. u)))
]

-- After any sequence of turns, and while the current thread holds the mailbox's lock, a turn of
-- Send and a turn of Receive go through: no ASSERT fails and no NULL is taken from the buffer;
-- each leaves the lock free, in Release or in Wait.
pub turns_succeed :
    (k : Kernel) (sent received : List ℕ) (m : Mailbox)
    → Trace sent received m
    → is_held_by_current_thread k m.lock ≡ true
    → Succeeds Unlocked (send_turn k m) × Succeeds UnlockedAfter (receive_turn k m)
turns_succeed k sent received m t held = (
  send_turn-Unlocked k m held,
  receive_by_buffer k m m.buffer refl (Trace-IsDelivered t).is_counted held,
)
