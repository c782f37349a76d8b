-- ===== src/Synch/Whale/Turns.antt =====
-- The turns of a whale whose lock the current thread holds.
use jalepenos.Base.{◌-◌, ◌^◌, ◌≡◌, refl, true, false, Option, arith, inl, inr, Bool-cases, ◌>>=◌}
use jalepenos.Threads.{Kernel}
use jalepenos.Synch.{
  Outcome, returned, Lock, Condition, release, wait, signal, is_held_by_current_thread,
}
use jalepenos.Synch.Holding.{
  Succeeds, bind-Succeeds, SameCurrent, Free, signal-SameCurrent, release-Free, wait-Free,
  held-same,
}
use jalepenos.Synch.Whale.{
  Whale, male_waits, female_waits, match_waits, completion_waits, male_turn, female_turn,
  match_turn, completion_turn,
}

pub IsFreed : Outcome × Kernel × Whale → Type 0
IsFreed (o, k, w) = w.lock.is_locked ≡ false

-- What follows a loop: a signal, and the rest in a state with the same current thread.
after_signal {κ} :
    {B : Type κ} (P : B → Type 0) (k : Kernel) (l : Lock) (c : Condition)
    (f : Kernel × Condition → Option B)
    → is_held_by_current_thread k l ≡ true
    → ((k1 : Kernel) (c1 : Condition)
        → is_held_by_current_thread k1 l ≡ true
        → Succeeds P (f (k1, c1)))
    → Succeeds P (signal k c l >>= f)
after_signal P k l c f held h =
    bind-Succeeds (SameCurrent k) P (signal k c l) f (signal-SameCurrent k l held c)
      (λ (k1, c1) same. h k1 c1 (held-same k k1 l same held))

male_turn-IsFreed :
    (k : Kernel) (w : Whale)
    → is_held_by_current_thread k w.lock ≡ true
    → Succeeds IsFreed (male_turn k w)
unfolding male_turn IsFreed
male_turn-IsFreed k w held = elim (Bool-cases (male_waits w)) [
  | inl waits ↦ rw waits (
      bind-Succeeds _ IsFreed (wait k w.male_snd w.lock) _ (wait-Free k w.lock held w.male_snd)
        (λ r u. u))
  | inr passes ↦ rw passes (
      after_signal IsFreed k w.lock w.match_snd _ held (λ k1 c1 held1.
        after_signal IsFreed k1 w.lock w.female_snd _ held1 (λ k2 c2 held2.
          after_signal IsFreed k2 w.lock w.match_wait _ held2 (λ k3 c3 held3.
            bind-Succeeds Free IsFreed (release k3 w.lock) _ (release-Free k3 w.lock held3)
              (λ r u. u)))))
]

female_turn-IsFreed :
    (k : Kernel) (w : Whale)
    → is_held_by_current_thread k w.lock ≡ true
    → Succeeds IsFreed (female_turn k w)
unfolding female_turn IsFreed
female_turn-IsFreed k w held = elim (Bool-cases (female_waits w)) [
  | inl waits ↦ rw waits (
      bind-Succeeds _ IsFreed (wait k w.female_snd w.lock) _ (wait-Free k w.lock held w.female_snd)
        (λ r u. u))
  | inr passes ↦ rw passes (
      after_signal IsFreed k w.lock w.match_snd _ held (λ k1 c1 held1.
        after_signal IsFreed k1 w.lock w.male_snd _ held1 (λ k2 c2 held2.
          after_signal IsFreed k2 w.lock w.match_wait _ held2 (λ k3 c3 held3.
            bind-Succeeds Free IsFreed (release k3 w.lock) _ (release-Free k3 w.lock held3)
              (λ r u. u)))))
]

completion_turn-IsFreed :
    (k : Kernel) (w : Whale)
    → is_held_by_current_thread k w.lock ≡ true
    → Succeeds IsFreed (completion_turn k w)
unfolding completion_turn IsFreed
completion_turn-IsFreed k w held = elim (Bool-cases (completion_waits w)) [
  | inl waits ↦ rw waits (
      bind-Succeeds _ IsFreed (wait k w.match_wait w.lock) _ (wait-Free k w.lock held w.match_wait)
        (λ r u. u))
  | inr passes ↦
      rw passes
        (bind-Succeeds Free IsFreed (release k w.lock) _ (release-Free k w.lock held) (λ r u. u))
]

match_turn-IsFreed :
    (k : Kernel) (w : Whale)
    → is_held_by_current_thread k w.lock ≡ true
    → Succeeds IsFreed (match_turn k w)
unfolding match_turn IsFreed
match_turn-IsFreed k w held = elim (Bool-cases (match_waits w)) [
  | inl waits ↦ rw waits (
      bind-Succeeds _ IsFreed (wait k w.match_snd w.lock) _ (wait-Free k w.lock held w.match_snd)
        (λ r u. u))
  | inr passes ↦ rw passes (
      after_signal IsFreed k w.lock w.female_snd _ held (λ k1 c1 held1.
        after_signal IsFreed k1 w.lock w.male_snd _ held1 (λ k2 c2 held2.
          completion_turn-IsFreed k2 (record w { female_snd = c1; male_snd = c2 }) held2)))
]

-- While the current thread holds the whale's lock, a turn of each loop goes through and leaves the lock
-- free, in Release or in Wait.
pub turns-IsFreed :
    (k : Kernel) (w : Whale)
    → is_held_by_current_thread k w.lock ≡ true
    → Succeeds IsFreed (male_turn k w)
      × Succeeds IsFreed (female_turn k w)
      × Succeeds IsFreed (match_turn k w)
      × Succeeds IsFreed (completion_turn k w)
turns-IsFreed k w held = (
  male_turn-IsFreed k w held,
  female_turn-IsFreed k w held,
  match_turn-IsFreed k w held,
  completion_turn-IsFreed k w held,
)

-- Matchmaker has returned, and numCompleteFemale is the pattern of -1, for which Female waits.
pub LeavesMinusOne : Outcome × Kernel × Whale → Type 0
LeavesMinusOne (o, k, w) =
    (o ≡ returned) × (w.num_complete_female ≡ 2 ^ 32 - 1) × (female_waits w ≡ true)

-- While the current thread holds the lock, and when a male has completed and no female has, the
-- second loop of Matchmaker ends: the call returns, and leaves the number of completed females
-- as the pattern of -1, so that the next turn of Female waits whatever else is pending.
pub completion_turn-LeavesMinusOne :
    (k : Kernel) (w : Whale)
    → is_held_by_current_thread k w.lock ≡ true
    → w.num_complete_male ≡ 1
    → w.num_complete_female ≡ 0
    → Succeeds LeavesMinusOne (completion_turn k w)
unfolding completion_turn LeavesMinusOne
completion_turn-LeavesMinusOne k w held male female =
    rw (male, female)
      (bind-Succeeds Free LeavesMinusOne (release k w.lock) _ (release-Free k w.lock held)
        (λ r u. (refl, refl, ground arith)))
