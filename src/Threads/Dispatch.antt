-- ===== src/Threads/Dispatch.antt =====
-- `Fork`, `Yield` and `Sleep`, and the order in which ready threads run.
use jalepenos.Base.{
  ℕ, suc, ◌≡◌, refl, ◌∙◌, ap, true, false, List, [], ◌∷◌, ◌++◌, Option, some, ◌==◌, ==_iff,
  if◌then◌else◌, arith, inl, inr, Bool-cases,
}
use jalepenos.Base.Int.{ℤ, ltb_ℤ, ◌≤ℤ◌}
use jalepenos.LinkedList.Queue.{Entry, enqueue, Ascends}
use jalepenos.Threads.{
  int_off, running, ready, blocked, Kernel, set_status, exchange_level, ready_to_run,
  find_next_to_run, run, fork, Outcome, returned, enabling, switched, yield_thread, get_priority,
  sleep, sleep_loop, sleep_turn, is_off,
}
use jalepenos.Threads.Ready.{
  is_ready, status_of, IsScheduled, IsBusy, status-set_status, set_status-IsScheduled,
  status-ready_to_run, list-ready_to_run, ready_to_run-IsScheduled, run-IsBusy, current-run,
  status-run, find_next-some, find_next-IsTaken, ready_to_run-IsTaken, level-IsBusy, head-ready,
}

-- Each key of the queue is at most, or is greater than, a key.
abbrev pub UpTo : ℤ → List (Entry ℕ) → Type 0
UpTo key [] = Unit {0}
UpTo key (e ∷ q) = (e.key ≤ℤ key) × UpTo key q

abbrev pub Above : ℤ → List (Entry ℕ) → Type 0
Above key [] = Unit {0}
Above key (e ∷ q) = (ltb_ℤ key e.key ≡ true) × Above key q

Above-tail :
    (key : ℤ) (x : Entry ℕ) (q : List (Entry ℕ))
    → Ascends (x ∷ q)
    → ltb_ℤ key x.key ≡ true
    → Above key q
Above-tail key x [] h l = tt
Above-tail key x (y ∷ q) (le, h) l =
    let m : ltb_ℤ key y.key ≡ true = ground arith in (m, Above-tail key y q h m)

abbrev pub Splits : Entry ℕ → List (Entry ℕ) → List (Entry ℕ) → Type 0
Splits e q after_insert =
    (urgent : List (Entry ℕ)) × (later : List (Entry ℕ)) × (q ≡ urgent ++ later)
    × (after_insert ≡ urgent ++ e ∷ later)
    × UpTo e.key urgent
    × Above e.key later

Ascends-rest : (x : Entry ℕ) (q : List (Entry ℕ)) → Ascends (x ∷ q) → Ascends q
Ascends-rest x [] h = tt
Ascends-rest x (y ∷ q) h = h.1

enqueue-Splits : (e : Entry ℕ) (q : List (Entry ℕ)) → Ascends q → Splits e q (enqueue e q)
enqueue-Splits e [] h = ([], [], refl, refl, tt, tt)
enqueue-Splits e (x ∷ q) h = elim (Bool-cases (ltb_ℤ e.key x.key)) [
  | inl less ↦ rw less ([], x ∷ q, refl, refl, tt, (less, Above-tail e.key x q h less))
  | inr more ↦
      let (urgent, later, was, is, up, above) = enqueue-Splits e q (Ascends-rest x q h) in
      rw more
        (x ∷ urgent, later, ap (λ l. x ∷ l) was, ap (λ l. x ∷ l) is, (ground arith, up), above)
]

-- When the ready list is in order, ReadyToRun puts the thread behind every thread whose priority
-- was not greater when it was put there and in front of all others, which keep their order.
pub ready_to_run-Splits :
    (k : Kernel) (t : ℕ)
    → IsScheduled k
    → Splits
        (record { key = get_priority k t; item = t })
        k.ready_list
        (ready_to_run k t).ready_list
ready_to_run-Splits k t i =
    rw (list-ready_to_run k t)
      (enqueue-Splits (record { key = get_priority k t; item = t }) k.ready_list i.ascends)

-- Fork of a thread that is not READY keeps the ready list in order and the level of interrupts.
pub fork-IsScheduled :
    (k : Kernel) (t : ℕ)
    → IsScheduled k
    → is_ready (status_of k t) ≡ false
    → IsScheduled (fork k t) × ((fork k t).level ≡ k.level) × (status_of (fork k t) t ≡ ready)
unfolding fork exchange_level ready_to_run set_status
fork-IsScheduled k t i was =
    let r =
      ready_to_run-IsScheduled (record k { level = int_off }) t
        (record { ascends = i.ascends; distinct = i.distinct; listed = i.listed }) was in
    (record { ascends = r.ascends; distinct = r.distinct; listed = r.listed }, refl, ground arith)

pub status-fork :
    (k : Kernel) (t u : ℕ) → status_of (fork k t) u ≡ (if u == t then ready else status_of k u)
unfolding fork exchange_level ready_to_run set_status
status-fork k t u = ground arith

-- What Yield leaves behind: with nobody ready the caller goes on, after a tick if interrupts were on;
-- otherwise the first of the ready list runs and the caller is ready.
pub Yields : Kernel → List (Entry ℕ) → Outcome × Kernel → Type 0
Yields k [] (o, k1) = (o ≡ (if is_off k.level then returned else enabling)) × (k1 ≡ k)
Yields k (e ∷ q) (o, k1) =
    (o ≡ switched k.level) × (k1.current ≡ e.item) × (status_of k1 k.current ≡ ready) × IsBusy k1

pub yield-none :
    (k : Kernel)
    → k.ready_list ≡ []
    → yield_thread k ≡ ((if is_off k.level then returned else enabling), k)
unfolding yield_thread exchange_level find_next_to_run
yield-none k h = rw h refl

pub yield-some :
    (k : Kernel) (e : Entry ℕ) (q : List (Entry ℕ))
    → k.ready_list ≡ e ∷ q
    → yield_thread k ≡ (
      switched k.level,
      run (ready_to_run (record k { level = int_off; ready_list = q }) k.current) e.item,
    )
unfolding yield_thread exchange_level find_next_to_run
yield-some k e q h = rw h refl

-- A thread that is READY is not the one that runs.
pub apart_from_running :
    (k : Kernel) (t u : ℕ)
    → is_ready (status_of k t) ≡ true
    → status_of k u ≡ running
    → (u == t) ≡ false
apart_from_running k t u r s = elim (Bool-cases (u == t)) [
  | inl same ↦ absurd (cc (r, s, ap (λ w. is_ready (status_of k w)) ((==_iff u t).0 same)))
  | inr other ↦ other
]

yield_by_list :
    (k : Kernel) (q : List (Entry ℕ)) → k.ready_list ≡ q → IsBusy k → Yields k q (yield_thread k)
unfolding Yields
yield_by_list k [] h b = rw (yield-none k h) (refl, refl)
yield_by_list k (e ∷ q) h b =
    let b1 = level-IsBusy k int_off b in
    let k2 = record k { level = int_off; ready_list = q } in
    let apart =
      apart_from_running k e.item k.current (head-ready k e q b.is_scheduled h) b.is_running in
    let was : is_ready (status_of k k.current) ≡ false = rw b.is_running refl in
    let taken = find_next-IsTaken _ e q b1.is_scheduled h in
    rw (yield-some k e q h) (
      refl,
      current-run _ e.item,
      rw
          (
            status-run (ready_to_run k2 k.current) e.item k.current,
            apart,
            status-ready_to_run k2 k.current k.current,
          )
          (ground arith),
      run-IsBusy _ e.item (ready_to_run-IsTaken k2 e.item k.current taken apart was),
    )

-- When the current thread runs and the ready list is in order, Yield changes nothing if nobody
-- is ready, and then returns if interrupts were off and goes on to the tick of SetLevel if they
-- were on; otherwise it runs the first thread of the list and leaves the caller ready, with the
-- list still in order.
pub yield_thread-Yields : (k : Kernel) → IsBusy k → Yields k k.ready_list (yield_thread k)
yield_thread-Yields k b = yield_by_list k k.ready_list refl b

sleep_loop-some :
    (idle : Kernel → Option Kernel) (fuel : ℕ) (k : Kernel) (e : Entry ℕ) (q : List (Entry ℕ))
    → k.ready_list ≡ e ∷ q
    → sleep_loop idle (suc fuel) k ≡ some (run (record k { ready_list = q }) e.item)
unfolding sleep_loop sleep_turn
sleep_loop-some idle fuel k e q h = rw (find_next-some k e q h) refl

-- When the current thread runs, the ready list is in order, somebody is ready and interrupts are
-- off, Sleep with fuel for one turn runs the first thread of the list and leaves the caller
-- blocked, with the list still in order, whatever Idle does.
pub sleep-runs_first :
    (idle : Kernel → Option Kernel) (fuel : ℕ) (k : Kernel) (e : Entry ℕ) (q : List (Entry ℕ))
    → IsBusy k
    → is_off k.level ≡ true
    → k.ready_list ≡ e ∷ q
    → (k1 : Kernel) × (sleep idle (suc fuel) k ≡ some k1)
      × (k1.current ≡ e.item)
      × (status_of k1 k.current ≡ blocked)
      × IsBusy k1
unfolding sleep
sleep-runs_first idle fuel k e q b off h =
    let k1 = set_status k k.current blocked in
    let was : is_ready (status_of k k.current) ≡ false = rw b.is_running refl in
    let apart =
      apart_from_running k e.item k.current (head-ready k e q b.is_scheduled h) b.is_running in
    (
      run (record k1 { ready_list = q }) e.item,
      rw off (sleep_loop-some idle fuel k1 e q h),
      current-run _ e.item,
      rw (status-run (record k1 { ready_list = q }) e.item k.current, apart)
          (status-set_status k k.current k.current blocked ∙ ground arith),
      run-IsBusy _ e.item (
          find_next-IsTaken k1 e q
            (set_status-IsScheduled k k.current blocked b.is_scheduled was refl) h),
    )
