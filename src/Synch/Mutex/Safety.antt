-- ===== src/Synch/Mutex/Safety.antt =====
-- Every step of the threads that use a lock keeps the invariant: mutual exclusion, and no lost
-- wake-up.
use jalepenos.Base.{
  ℕ, ◌≡◌, refl, sym, ◌∙◌, ap, Bool, true, false, not, Option, none, some, ==_iff, inl, inr,
  Bool-cases,
}
use jalepenos.Threads.{blocked, Kernel, exchange_level}
use jalepenos.Threads.Ready.{status_of, IsBusy}
use jalepenos.Synch.{Lock, new_lock, is_thread, is_held_by_current_thread, acquire, release}
use jalepenos.Synch.Mutex.{
  outside, inside, is_waiting, is_inside, System, Step, enters, tries_again, leaves, dispatches,
  yields, sleeps_elsewhere, woken_elsewhere, forks, sets_priority, sets_level, Reach, starts, later,
}
use jalepenos.Synch.Mutex.Invariant.{TriesAgain, Inv, level-Inv, turn-Inv}
use jalepenos.Synch.Mutex.Steps.{
  enters-Inv, leaves-Inv, dispatches_by_list, yields_by_list, sleeps_elsewhere-Inv,
  woken_elsewhere-Inv, forks-Inv, sets_priority-Inv,
}

abbrev pub is_none {ℓ} : {A : Type ℓ} → Option A → Bool
is_none none = true
is_none (some a) = false

-- Every step keeps the invariant.
pub Step-Inv : {s t : System} → Step s t → Inv s → Inv t
Step-Inv {s} (enters r go out h) i = enters-Inv s i r go out h
Step-Inv {s} (tries_again old go w) i = turn-Inv s i old go (rw w refl)
Step-Inv {s} (leaves k l go here h) i = leaves-Inv s i k l here h
Step-Inv {s} (dispatches t k go h) i = dispatches_by_list s i s.kernel.ready_list t k refl h
Step-Inv {s} (yields go) i = yields_by_list s i s.kernel.ready_list refl go
Step-Inv {s} (sleeps_elsewhere go out) i = sleeps_elsewhere-Inv s i go out
Step-Inv {s} (woken_elsewhere t was out) i = woken_elsewhere-Inv s i t was out
Step-Inv {s} (forks t was) i = forks-Inv s i t was
Step-Inv {s} (sets_priority t priority) i = sets_priority-Inv s i t priority
Step-Inv {s} (sets_level now) i = level-Inv s i now

start-Inv :
    (k : Kernel) → IsBusy k → Inv (record { kernel = k; lock = new_lock; at = λ t. outside })
start-Inv k b = record {
  is_scheduled = b.is_scheduled;
  held = λ t. refl;
  locked = refl;
  distinct = tt;
  queued = λ t. refl;
  not_lost = λ t free m. absurd cc;
}

pub Reach-Inv : {s : System} → Reach s → Inv s
Reach-Inv (starts k b) = start-Inv k b
Reach-Inv (later r st) = Step-Inv st (Reach-Inv r)

acquire-is_none : (k : Kernel) (l : Lock) → is_none (acquire k l) ≡ is_held_by_current_thread k l
unfolding acquire exchange_level
acquire-is_none k l = elim (Bool-cases (is_held_by_current_thread k l)) [
  | inl mine ↦ rw mine refl
  | inr other ↦ rw other refl
]

release-is_none :
    (k : Kernel) (l : Lock) → is_none (release k l) ≡ not (is_held_by_current_thread k l)
unfolding release exchange_level
release-is_none k l = elim (Bool-cases (is_held_by_current_thread k l)) [
  | inl mine ↦ rw mine refl
  | inr other ↦ rw other refl
]

-- However the threads are scheduled, the ASSERT of Acquire fails in the current thread exactly
-- when it is between Acquire and Release of the lock, and that of Release exactly when it is
-- not.
pub asserts_exactly :
    (s : System)
    → Reach s
    → (is_none (acquire s.kernel s.lock) ≡ is_inside (s.at s.kernel.current))
      × (is_none (release s.kernel s.lock) ≡ not (is_inside (s.at s.kernel.current)))
asserts_exactly s r =
    let held = (Reach-Inv r).held s.kernel.current in
    (
      acquire-is_none s.kernel s.lock ∙ sym held,
      release-is_none s.kernel s.lock ∙ ap not (sym held),
    )

is_thread-some : (h : Option ℕ) (t : ℕ) → is_thread h t ≡ true → h ≡ some t
is_thread-some none t e = absurd cc
is_thread-some (some u) t e = ap some (sym ((==_iff t u).0 e))

-- Mutual exclusion: however the threads are scheduled, two threads between Acquire and Release
-- of a lock are the same thread, which the lock names as its holder, and the lock is taken.
pub one_inside :
    (s : System) (t u : ℕ)
    → Reach s
    → s.at t ≡ inside
    → s.at u ≡ inside
    → (t ≡ u) × (s.lock.holder ≡ some t) × (s.lock.is_locked ≡ true)
one_inside s t u r it iu =
    let i = Reach-Inv r in
    let ht = is_thread-some s.lock.holder t (sym (i.held t) ∙ rw it refl) in
    let hu = is_thread-some s.lock.holder u (sym (i.held u) ∙ rw iu refl) in
    (cc (ht, hu), ht, i.locked ∙ rw ht refl)

-- No wake-up is lost: however the threads are scheduled, while the lock is free and a thread
-- sleeps in Acquire, some thread that is READY or RUNNING is in Acquire and is going to try
-- again.
pub waiter-TriesAgain :
    (s : System) (t : ℕ)
    → Reach s
    → s.lock.is_locked ≡ false
    → is_waiting (s.at t) ≡ true
    → status_of s.kernel t ≡ blocked
    → (w : ℕ) × TriesAgain s w
waiter-TriesAgain s t r free w asleep =
    let i = Reach-Inv r in i.not_lost t free (i.queued t ∙ rw (w, asleep) refl)
