-- ===== src/Synch/Mutex.antt =====
-- Threads that use one lock: each is outside, asleep or on its way in Acquire, or inside. The steps
-- are the calls, what Yield and the loop of Sleep do, and what other parts of the kernel do to
-- threads that are not in a call of this lock.
pub mod Invariant
pub mod Steps
pub mod Safety
use jalepenos.Base.{ℕ, ◌≡◌, Bool, true, false, List, Option, none, some, update}
use jalepenos.Base.Int.{ℤ}
use jalepenos.Threads.{
  IntStatus, ThreadStatus, just_created, running, blocked, Kernel, set_status, set_priority, fork,
  find_next_to_run, run, ready_to_run, yield_thread,
}
use jalepenos.Threads.Ready.{status_of, IsBusy}
use jalepenos.Synch.{Outcome, returned, sleeps, Lock, new_lock, acquire_turn, acquire, release}

pub data Location : Type 0 where
  outside : Location
  waiting : IntStatus → Location
  inside : Location

abbrev pub is_waiting : Location → Bool
is_waiting (waiting old) = true
is_waiting outside = false
is_waiting inside = false

abbrev pub is_inside : Location → Bool
is_inside inside = true
is_inside outside = false
is_inside (waiting old) = false

pub record System : Type 0 where
  pub kernel : Kernel
  pub lock : Lock
  pub at : ℕ → Location

-- What the current thread does next after Acquire has returned or sleeps: in the second case it is in
-- Thread::Sleep, BLOCKED.
unfoldable pub settle : System → Outcome × Kernel × Lock → System
settle s (returned, k, l) = record { kernel = k; lock = l; at = update s.at k.current inside }
settle s (sleeps old, k, l) = record {
  kernel = set_status k k.current blocked;
  lock = l;
  at = update s.at k.current (waiting old);
}

-- The current thread is BLOCKED while it is in the loop of Sleep, where it looks for another.
pub data Step (s : System) : System → Type 0 where
  enters :
      (r : Outcome × Kernel × Lock)
      → status_of s.kernel s.kernel.current ≡ running
      → s.at s.kernel.current ≡ outside
      → acquire s.kernel s.lock ≡ some r
      → Step s (settle s r)
  tries_again :
      (old : IntStatus)
      → status_of s.kernel s.kernel.current ≡ running
      → s.at s.kernel.current ≡ waiting old
      → Step s (settle s (acquire_turn old s.kernel s.lock))
  leaves :
      (k : Kernel) (l : Lock)
      → status_of s.kernel s.kernel.current ≡ running
      → s.at s.kernel.current ≡ inside
      → release s.kernel s.lock ≡ some (k, l)
      → Step s (record { kernel = k; lock = l; at = update s.at s.kernel.current outside })
  dispatches :
      (t : ℕ) (k : Kernel)
      → status_of s.kernel s.kernel.current ≡ blocked
      → find_next_to_run s.kernel ≡ (some t, k)
      → Step s (record s { kernel = run k t })
  yields :
      status_of s.kernel s.kernel.current ≡ running
      → Step s (record s { kernel = (yield_thread s.kernel).1 })
  sleeps_elsewhere :
      status_of s.kernel s.kernel.current ≡ running
      → is_waiting (s.at s.kernel.current) ≡ false
      → Step s (record s { kernel = set_status s.kernel s.kernel.current blocked })
  woken_elsewhere :
      (t : ℕ)
      → status_of s.kernel t ≡ blocked
      → is_waiting (s.at t) ≡ false
      → Step s (record s { kernel = ready_to_run s.kernel t })
  forks :
      (t : ℕ) → status_of s.kernel t ≡ just_created → Step s (record s { kernel = fork s.kernel t })
  sets_priority :
      (t : ℕ) (priority : ℤ) → Step s (record s { kernel = set_priority s.kernel t priority })
  sets_level : (now : IntStatus) → Step s (record s { kernel = record s.kernel { level = now } })

-- The lock is new, and its threads are outside of it.
pub data Reach : System → Type 0 where
  starts :
      (k : Kernel) → IsBusy k → Reach (record { kernel = k; lock = new_lock; at = λ t. outside })
  later : {s t : System} → Reach s → Step s t → Reach t
