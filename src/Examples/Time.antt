-- ===== src/Examples/Time.antt =====
-- Interrupts on concrete inputs: a timer that schedules itself again, as TimerExpired of
-- code/machine/timer.cc does, and a disk interrupt.
use jalepenos.Base.{
  ℕ, ◌+◌, ◌≡◌, refl, [], ◌∷◌, Option, none, some, ◌==◌, if◌then◌else◌, arith, ltb, ◌>>=◌, ◌^◌,
  Bool-cases, inl, inr,
}
use jalepenos.Base.Int.{pos}
use jalepenos.LinkedList.Queue.{Entry, Ascends}
use jalepenos.Threads.{int_off, int_on}
use jalepenos.Interrupt.{
  PendingInterrupt, Interrupt, timer_int, disk_int, init, schedule, advance_time,
}
use jalepenos.Machine.Words.{add}
use jalepenos.Interrupt.Clock.{fire_due, one_tick}
use jalepenos.Interrupt.Due.{Handles, CatchesUp, fire_due-CatchesUp}
use jalepenos.Interrupt.Ticks.{IsTicked, yielding, one_tick-IsTicked, schedule-IsQuiet}

-- The handlers count their calls; the timer's schedules the next interrupt, before the clock ends.
abbrev again : Interrupt → Option Interrupt
again i = schedule i 1 0 100 timer_int

abbrev handle_timer : Interrupt → ℕ → Option (Interrupt × ℕ)
handle_timer i calls =
    if ltb (i.stats.total_ticks + 100) (2 ^ 31)
    then (again i >>= λ i1. some (i1, calls + 1))
    else some (i, calls + 1)

abbrev handle : PendingInterrupt → Interrupt × ℕ → Option (Interrupt × ℕ)
handle p (i, calls) = if p.handler == 1 then handle_timer i calls else some (i, calls + 1)

handle-Handles :
    (p : PendingInterrupt) (i : Interrupt) (calls : ℕ)
    → i.level ≡ int_off
    → Ascends i.pending
    → Handles i (handle p (i, calls))
handle-Handles p i calls off asc = elim (Bool-cases (p.handler == 1)) [
  | inl timer ↦ elim (Bool-cases (ltb (i.stats.total_ticks + 100) (2 ^ 31))) [
    | inl soon ↦
        let (i1, e, q) =
          schedule-IsQuiet i 1 0 100 timer_int off asc (omega arith) (ground arith) in
        rw (timer, soon, e) q
    | inr late ↦
        rw (timer, late) record { level = off; stats = refl; ascends = asc; no_more = omega arith }
  ]
  | inr other ↦ rw other record { level = off; stats = refl; ascends = asc; no_more = omega arith }
]

abbrev pending_at : ℕ → ℕ → Entry PendingInterrupt
pending_at when handler = record {
  key = pos when;
  item = record {
    handler = handler;
    arg = 0;
    when = when;
    type = if handler == 1 then timer_int else disk_int;
  };
}

-- At time 100 the timer's interrupt and the first of the disk are due.
abbrev at_hundred : Interrupt
at_hundred = record init {
  pending = pending_at 90 2 ∷ pending_at 100 1 ∷ pending_at 150 2 ∷ [];
  stats = record { total_ticks = 100; idle_ticks = 60; system_ticks = 30; user_ticks = 10 };
}

fire_due-CatchesUp_example :
    CatchesUp at_hundred (fire_due handle (λ calls. calls) 3 (at_hundred, 0))
fire_due-CatchesUp_example =
    fire_due-CatchesUp handle (λ calls. calls) handle-Handles 3 at_hundred 0 refl
      (omega arith, (omega arith, tt)) refl (omega arith)

-- A Yield that gives up.
abbrev no_yield : Interrupt × ℕ → Option (Interrupt × ℕ)
no_yield s = none

one_tick-IsTicked_example :
    (i1 : Interrupt) × (calls : ℕ) × (fire_due handle
        (λ calls. calls)
        3
        (record (advance_time at_hundred) { level = int_off }, 0)
      ≡ some (i1, calls))
    × IsTicked at_hundred (record i1 { level = int_on })
    × (one_tick handle (λ calls. calls) no_yield 3 (at_hundred, 0) ≡ (
        if i1.yield_on_return
        then yielding handle
            (λ calls. calls)
            no_yield
            handle-Handles
            at_hundred
            (record i1 { level = int_on }, calls)
        else some (record i1 { level = int_on }, calls)))
unfolding advance_time add
one_tick-IsTicked_example =
    one_tick-IsTicked handle (λ calls. calls) no_yield handle-Handles 3 at_hundred 0
      (omega arith, (omega arith, tt)) refl (record { system = omega arith; user = omega arith })
      (omega arith)
