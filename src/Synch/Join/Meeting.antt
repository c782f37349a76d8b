-- ===== src/Synch/Join/Meeting.antt =====
-- A thread that finishes and the thread that joins it.
use jalepenos.Base.{ℕ, ◌≡◌, refl, ◌∙◌, ap, true, false, [], ◌∷◌, some, ◌==◌, arith}
use jalepenos.Base.Int.{ℤ}
use jalepenos.LinkedList.Queue.{Entry}
use jalepenos.Threads.{
  ready, IntStatus, int_off, Semaphore, Kernel, exchange_level, get_priority, set_status,
  insert_thread, ready_to_run,
}
use jalepenos.Threads.Ready.{status_of}
use jalepenos.Synch.{returned, sleeps, new_semaphore, p_turn, p, v, wake_first}
use jalepenos.Synch.Join.{
  new_thread, set_may_die, set_join_signal, set_exit_status, mark_current, finish_after, finish,
  finish_again, join_after, join,
}

-- A joinable thread that is not marked for deletion, before it finishes and while nobody joins.
pub record IsLive (k : Kernel) (t : ℕ) : Type 0 where
  pub is_joining : (k.threads t).joining ≡ true
  pub signal_is : (k.threads t).join_signal ≡ new_semaphore 0
  pub may_die_is : (k.threads t).may_die ≡ new_semaphore 0

new_thread-lem :
    (old_status : ℤ) (old_signal : Semaphore) (k : Kernel)
    → let (k1, t) = new_thread old_status old_signal k true in
      (t.joining ≡ true)
      × (t.join_signal ≡ new_semaphore 0)
      × (t.may_die ≡ new_semaphore 0)
      × (k1 ≡ k)
unfolding new_thread p p_turn exchange_level
new_thread-lem old_status old_signal k = (refl, refl, refl, refl)

-- A live thread that has called Finish and sleeps there.
pub record IsFinished (k : Kernel) (t : ℕ) : Type 0 where
  pub is_joining : (k.threads t).joining ≡ true
  pub signal_is : (k.threads t).join_signal ≡ new_semaphore 1
  pub may_die_is :
      (key : ℤ) × ((k.threads t).may_die
        ≡ record { value = 0; queue = record { key = key; item = t } ∷ [] })

p-zero :
    (k : Kernel)
    → p k (new_semaphore 0) ≡ (
      sleeps k.level,
      record k { level = int_off },
      record {
        value = 0;
        queue = record { key = get_priority k k.current; item = k.current } ∷ [];
      },
    )
unfolding p p_turn exchange_level insert_thread get_priority
p-zero k = refl

p-one : (k : Kernel) → p k (new_semaphore 1) ≡ (returned, k, new_semaphore 0)
unfolding p p_turn exchange_level
p-one k = refl

v-zero : (k : Kernel) → v k (new_semaphore 0) ≡ (k, new_semaphore 1)
unfolding v wake_first exchange_level
v-zero k = refl

v-wakes :
    (k : Kernel) (e : Entry ℕ)
    → v k (record { value = 0; queue = e ∷ [] }) ≡ (ready_to_run k e.item, new_semaphore 1)
unfolding v wake_first exchange_level ready_to_run set_status insert_thread get_priority
v-wakes k e = refl

may_die-set_join_signal :
    (k : Kernel) (t : ℕ) (s : Semaphore)
    → ((set_join_signal k t s).threads t).may_die ≡ (k.threads t).may_die
unfolding set_join_signal
may_die-set_join_signal k t s = ground arith

set_join_signal-same :
    (k : Kernel) (t : ℕ) (s : Semaphore)
    → (((set_join_signal k t s).threads t).joining ≡ (k.threads t).joining)
      × (((set_join_signal k t s).threads t).join_signal ≡ s)
unfolding set_join_signal
set_join_signal-same k t s = (ground arith, ground arith)

finish_after-sleeps :
    (k : Kernel) (t : ℕ)
    → k.current ≡ t
    → (k.threads t).joining ≡ true
    → (k.threads t).join_signal ≡ new_semaphore 1
    → let (o, k1) = finish_after t (p k (new_semaphore 0)) in
      (o ≡ sleeps k.level) × IsFinished k1 t × (k1.to_be_destroyed ≡ k.to_be_destroyed)
unfolding finish_after set_may_die
finish_after-sleeps k t this joining signal = rw (p-zero k) (
  refl,
  record {
    is_joining = ground arith;
    signal_is = ground arith;
    may_die_is = (get_priority k k.current, ground arith);
  },
  refl,
)

rest-set_join_signal :
    (k : Kernel) (t : ℕ) (s : Semaphore)
    → ((set_join_signal k t s).current ≡ k.current)
      × ((set_join_signal k t s).level ≡ k.level)
      × ((set_join_signal k t s).to_be_destroyed ≡ k.to_be_destroyed)
unfolding set_join_signal
rest-set_join_signal k t s = (refl, refl, refl)

-- Finish of a joinable thread that nobody has joined sleeps in P and does not mark the thread
-- for deletion.
pub finish-waits :
    (k : Kernel)
    → IsLive k k.current
    → ((finish k).0 ≡ sleeps int_off)
      × IsFinished (finish k).1 k.current
      × ((finish k).1.to_be_destroyed ≡ k.to_be_destroyed)
unfolding finish exchange_level
finish-waits k l =
    let k1 = record k { level = int_off } in
    let k3 = set_join_signal k1 k.current (new_semaphore 1) in
    let die : (k3.threads k.current).may_die ≡ new_semaphore 0 =
      may_die-set_join_signal k1 k.current (new_semaphore 1) ∙ l.may_die_is in
    let (joined, signalled) = set_join_signal-same k1 k.current (new_semaphore 1) in
    let (this, level, marks) = rest-set_join_signal k1 k.current (new_semaphore 1) in
    let (sleeping, finished, unmarked) =
      finish_after-sleeps k3 k.current this (joined ∙ l.is_joining) signalled in
    rw (l.is_joining, l.signal_is, v-zero k1, die)
      (sleeping ∙ ap sleeps level, finished, unmarked ∙ marks)

-- What Join has done when it calls mayDie->V().
abbrev copied : Kernel → ℕ → Kernel
copied k t =
    let k1 = set_join_signal k t (new_semaphore 0) in
    set_exit_status k1 k.current (k1.threads t).exit_status

copied-lem :
    (k : Kernel) (t : ℕ)
    → (t == k.current) ≡ false
    → (((copied k t).threads t).may_die ≡ (k.threads t).may_die)
      × (((copied k t).threads k.current).exit_status ≡ (k.threads t).exit_status)
unfolding set_join_signal set_exit_status
copied-lem k t other = ground arith

woken :
    (k : Kernel) (t c : ℕ)
    → (t == c) ≡ false
    → let k1 = set_may_die (ready_to_run k t) t (new_semaphore 1) in
      ((k1.threads c).exit_status ≡ (k.threads c).exit_status)
      × (status_of k1 t ≡ ready)
      × ((k1.threads t).may_die ≡ new_semaphore 1)
unfolding set_may_die ready_to_run set_status
woken k t c other = (ground arith, ground arith, ground arith)

-- When another thread joins a thread that has called Finish, Join returns with the exit status
-- of the other, whose wait in Finish is over: it is READY, and its semaphore lets it pass.
pub join-returns :
    (k : Kernel) (t : ℕ)
    → IsFinished k t
    → (t == k.current) ≡ false
    → (k1 : Kernel) × (join k t ≡ some (returned, k1))
      × ((k1.threads k.current).exit_status ≡ (k.threads t).exit_status)
      × (status_of k1 t ≡ ready)
      × ((k1.threads t).may_die ≡ new_semaphore 1)
unfolding join join_after
join-returns k t f other =
    let (key, m) = f.may_die_is in
    let (die, exit) = copied-lem k t other in
    let (kept, is, passes) = woken (copied k t) t k.current other in
    let e : Entry ℕ = record { key = key; item = t } in
    rw (other, f.is_joining, f.signal_is, p-one k, die, m, v-wakes (copied k t) e)
      (_, refl, kept ∙ exit, is, passes)

-- A thread whose wait in Finish is over is marked for deletion when it runs again.
pub finish_again-marks :
    (old : IntStatus) (k : Kernel)
    → (k.threads k.current).may_die ≡ new_semaphore 1
    → ((finish_again old k).0 ≡ returned)
      × ((finish_again old k).1.to_be_destroyed ≡ some k.current)
unfolding finish_again p_turn finish_after mark_current set_may_die exchange_level
finish_again-marks old k h = rw h (refl, refl)
