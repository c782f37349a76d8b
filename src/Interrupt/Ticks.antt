-- ===== src/Interrupt/Ticks.antt =====
-- Simulated time: what Schedule adds, and where each tick of the clock is counted.
use jalepenos.Base.{
  ℕ, ◌+◌, ◌<◌, ◌%◌, ◌^◌, ◌≡◌, refl, sym, subst, true, false, Option, none, some, arith,
  if◌then◌else◌, ◌>>=◌,
}
use jalepenos.Base.Int.{pos, ltb_ℤ}
use jalepenos.LinkedList.Queue.{Ascends, enqueue-Ascends}
use jalepenos.Threads.{int_off, int_on}
use jalepenos.Machine.Words.{add}
use jalepenos.Machine.Words.Signs.{to_int}
use jalepenos.Interrupt.{
  PendingInterrupt, Interrupt, IntType, Statistics, system_mode, idle_mode, user_mode,
  MachineStatus, is_idle, schedule, advance_time, advance_in, change_level,
}
use jalepenos.Interrupt.Clock.{fire_due, yield_if_asked, one_tick}
use jalepenos.Interrupt.Due.{
  due, due-enqueue, IsQuiet, Handles, IsCaughtUp, CatchesUp, fire_due-CatchesUp,
}

-- With interrupts off and the pending ones in order, Schedule of an interrupt in a positive number of ticks,
-- while the clock does not pass 2 ^ 31, goes through and is what a handler may do: the clock stays,
-- the order is kept and no more interrupts are due.
pub schedule-IsQuiet :
    (i : Interrupt) (handler arg from_now : ℕ) (type : IntType)
    → i.level ≡ int_off
    → Ascends i.pending
    → 0 < from_now
    → i.stats.total_ticks + from_now < 2 ^ 31
    → (i1 : Interrupt) × (schedule i handler arg from_now type ≡ some i1) × IsQuiet i i1
unfolding schedule add
schedule-IsQuiet i handler arg from_now type off asc soon fits =
    let when = (i.stats.total_ticks + from_now) % 2 ^ 32 in
    let positive : ltb_ℤ (pos 0) (to_int from_now) ≡ true = ground arith in
    let later : ltb_ℤ (to_int i.stats.total_ticks) (to_int when) ≡ true = ground arith in
    rw positive (
      _,
      refl,
      record {
        level = off;
        stats = refl;
        ascends = enqueue-Ascends _ i.pending asc;
        no_more = ground (
          arith,
          due-enqueue (to_int i.stats.total_ticks)
              (record {
                key = to_int when;
                item = record { handler = handler; arg = arg; when = when; type = type };
              })
              i.pending,
          later,
        );
      },
    )

-- What a tick adds to a counter, modulo 2 ^ 32, in system mode and in user mode.
abbrev pub IsCounted : ℕ → ℕ → ℕ → Type 0
IsCounted was is ticks = is ≡ (was + ticks) % 2 ^ 32

abbrev pub ticks_of : MachineStatus → ℕ
ticks_of system_mode = 10
ticks_of _ = 1

abbrev pub system_share : MachineStatus → ℕ
system_share system_mode = 10
system_share _ = 0

abbrev pub user_share : MachineStatus → ℕ
user_share system_mode = 0
user_share _ = 1

-- The clock has moved on by one tick, which is counted as system or as user time and as nothing else.
pub record CountsTick (m : MachineStatus) (s s1 : Statistics) : Type 0 where
  pub total : IsCounted s.total_ticks s1.total_ticks (ticks_of m)
  pub system : IsCounted s.system_ticks s1.system_ticks (system_share m)
  pub user : IsCounted s.user_ticks s1.user_ticks (user_share m)
  pub idle : s1.idle_ticks ≡ s.idle_ticks

-- That, with interrupts on, the status as it was, and the pending interrupts in order and not due.
pub record IsTicked (i i1 : Interrupt) : Type 0 where
  pub level : i1.level ≡ int_on
  pub status : i1.status ≡ i.status
  pub counts : CountsTick i.status i.stats i1.stats
  pub ascends : Ascends i1.pending
  pub none_due : due i1 ≡ 0

-- The counters are the patterns of ints.
pub record AreInts (s : Statistics) : Type 0 where
  pub system : s.system_ticks < 2 ^ 32
  pub user : s.user_ticks < 2 ^ 32

advance_in-CountsTick :
    (m : MachineStatus) (s : Statistics) → AreInts s → CountsTick m s (advance_in m s)
unfolding add
advance_in-CountsTick idle_mode s ints = record {
  total = refl;
  system = omega (arith, ints.system);
  user = refl;
  idle = refl;
}
advance_in-CountsTick system_mode s ints = record {
  total = refl;
  system = refl;
  user = omega (arith, ints.user);
  idle = refl;
}
advance_in-CountsTick user_mode s ints = record {
  total = refl;
  system = omega (arith, ints.system);
  user = refl;
  idle = refl;
}

caught_up-IsTicked :
    (i i1 : Interrupt)
    → AreInts i.stats
    → IsCaughtUp (record (advance_time i) { level = int_off }) i1
    → IsTicked i (record i1 { level = int_on })
unfolding advance_time
caught_up-IsTicked i i1 ints c = record {
  level = refl;
  status = c.status;
  counts =
      subst (CountsTick i.status i.stats) (sym c.stats)
        (advance_in-CountsTick i.status i.stats ints);
  ascends = c.ascends;
  none_due = c.none_due;
}

module _ {W : Type 0} (handle : PendingInterrupt → Interrupt × W → Option (Interrupt × W))
    (delayed_load : W → W) (yield_current : Interrupt × W → Option (Interrupt × W))
    (quiet : (p : PendingInterrupt) (i : Interrupt) (w : W)
      → i.level ≡ int_off
      → Ascends i.pending
      → Handles i (handle p (i, w))) where
  -- The Yield that a handler has asked for, in system mode; then the status is that from before.
  abbrev pub yielding : Interrupt → Interrupt × W → Option (Interrupt × W)
  yielding i (i1, w1) =
      yield_current (record i1 { yield_on_return = false; status = system_mode }, w1)
      >>= λ (i2, w2). some (record i2 { status = i.status }, w2)

  then_yields :
      (i i0 : Interrupt) (o : Option (Interrupt × W))
      → ((i1 : Interrupt) → IsCaughtUp i0 i1 → IsTicked i (record i1 { level = int_on }))
      → CatchesUp i0 o
      → (i1 : Interrupt) × (w1 : W) × (o ≡ some (i1, w1))
        × IsTicked i (record i1 { level = int_on })
        × ((o >>= λ (i1, w1).
              yield_if_asked handle delayed_load yield_current i.status
                (change_level i1 int_on, w1))
            ≡ (if i1.yield_on_return
                then yielding i (record i1 { level = int_on }, w1)
                else some (record i1 { level = int_on }, w1)))
  unfolding change_level yield_if_asked
  then_yields i i0 none after c = absurd c
  then_yields i i0 (some (i1, w1)) after c = (i1, w1, refl, after i1 c, refl)

  -- For handlers that only schedule interrupts which are not due, outside of idle mode, with the
  -- pending interrupts in order, counters that are patterns of ints, and fuel for one turn more
  -- than interrupts are due after the tick, the loop of CheckIfDue in OneTick ends. Then the
  -- clock has moved on, modulo 2 ^ 32, by 10 ticks in system mode, counted as system time alone,
  -- and by 1 in user mode, counted as user time alone, interrupts are on, the status is as it
  -- was, and no pending interrupt is due; OneTick ends there, unless a handler has asked for a
  -- Yield: then it runs Yield from this state, in system mode and with the request cleared,
  -- whatever Yield does, and puts the status back.
  pub one_tick-IsTicked :
      (fuel : ℕ) (i : Interrupt) (w : W)
      → Ascends i.pending
      → is_idle i.status ≡ false
      → AreInts i.stats
      → due (advance_time i) < fuel
      → (i1 : Interrupt) × (w1 : W) × (fire_due handle delayed_load fuel
            (record (advance_time i) { level = int_off }, w)
          ≡ some (i1, w1))
        × IsTicked i (record i1 { level = int_on })
        × (one_tick handle delayed_load yield_current fuel (i, w) ≡ (
            if i1.yield_on_return
            then yielding i (record i1 { level = int_on }, w1)
            else some (record i1 { level = int_on }, w1)))
  unfolding one_tick change_level advance_time
  one_tick-IsTicked fuel i w asc busy ints enough =
      let i0 = record (advance_time i) { level = int_off } in
      then_yields i i0 (fire_due handle delayed_load fuel (i0, w))
        (λ i1 c. caught_up-IsTicked i i1 ints c)
        (fire_due-CatchesUp handle delayed_load quiet fuel i0 w refl asc busy enough)
