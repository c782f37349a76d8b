-- ===== src/Interrupt/Clock.antt =====
-- The operations of code/machine/interrupt.cc that run handlers: CheckIfDue, OneTick, SetLevel and Idle.
use jalepenos.Base.{
  ℕ, zero, suc, Bool, true, false, not, ◌&&◌, List, Option, none, some, if◌then◌else◌, ◌>>=◌,
}
use jalepenos.LinkedList.Queue.{Entry, dequeue}
use jalepenos.Threads.{IntStatus, int_off, int_on, is_off}
use jalepenos.Interrupt.{
  MachineStatus, system_mode, idle_mode, PendingInterrupt, Interrupt, is_later, advance_to,
  advance_time, put_back, is_over, change_level,
}

-- How Interrupt::Idle ends: it returns, or it halts the machine.
pub data Idled (S : Type 0) : Type 0 where
  resumed : S → Idled S
  halted : S → Idled S

module _ {W : Type 0} (handle : PendingInterrupt → Interrupt × W → Option (Interrupt × W))
    (delayed_load : W → W) where
  -- From `inHandler = TRUE` on: the handler runs in system mode.
  unfoldable pub fire : PendingInterrupt → Interrupt × W → Option (Bool × Interrupt × W)
  fire to_occur (i, w) =
      handle to_occur (record i { in_handler = true; status = system_mode }, delayed_load w)
      >>= λ (i1, w1). some (true, record i1 { in_handler = false; status = i.status }, w1)

  unfoldable pub fire_unless_over :
      Entry PendingInterrupt → Interrupt × W → Option (Bool × Interrupt × W)
  fire_unless_over e (i, w) =
      let fired = fire e.item (i, w) in if is_over e i then some (false, put_back e i, w) else fired

  -- CheckIfDue, with the first of the pending interrupts and the others.
  unfoldable pub check_first :
      Bool
      → Interrupt × W
      → Option (Entry PendingInterrupt) × List (Entry PendingInterrupt)
      → Option (Bool × Interrupt × W)
  check_first advance_clock (i, w) (none, others) = some (false, i, w)
  check_first advance_clock (i, w) (some e, others) =
      let taken = record i { pending = others } in
      if advance_clock && is_later e.key i
      then fire_unless_over e (advance_to e.key taken, w)
      else if is_later e.key i
      then some (false, put_back e taken, w)
      else fire_unless_over e (taken, w)

  -- Interrupt::CheckIfDue
  unfoldable pub check_if_due : Bool → Interrupt × W → Option (Bool × Interrupt × W)
  check_if_due advance_clock (i, w) =
      let checked = check_first advance_clock (i, w) (dequeue i.pending) in
      if is_off i.level then checked else none

  unfoldable pub go_on_if :
      (Interrupt × W → Option (Interrupt × W)) → Bool × Interrupt × W → Option (Interrupt × W)
  go_on_if again (true, i, w) = again (i, w)
  go_on_if again (false, i, w) = some (i, w)

  -- while (CheckIfDue(FALSE)); on fuel.
  unfoldable pub fire_due : ℕ → Interrupt × W → Option (Interrupt × W)
  fire_due zero s = none
  fire_due (suc fuel) s = check_if_due false s >>= go_on_if (fire_due fuel)

  unfoldable pub after_idle : ℕ → Bool × Interrupt × W → Option (Idled (Interrupt × W))
  after_idle fuel (false, i, w) = some (halted (i, w))
  after_idle fuel (true, i, w) = fire_due fuel (i, w) >>= λ (i1, w1).
      some (resumed (record i1 { yield_on_return = false; status = system_mode }, w1))

  -- Interrupt::Idle
  unfoldable pub idle : ℕ → Interrupt × W → Option (Idled (Interrupt × W))
  idle fuel (i, w) = check_if_due true (record i { status = idle_mode }, w) >>= after_idle fuel

module _ {W : Type 0} (handle : PendingInterrupt → Interrupt × W → Option (Interrupt × W))
    (delayed_load : W → W) (yield_current : Interrupt × W → Option (Interrupt × W)) where
  -- The end of OneTick, in the machine status from its beginning.
  unfoldable pub yield_if_asked : MachineStatus → Interrupt × W → Option (Interrupt × W)
  yield_if_asked old (i, w) =
      let yielded = yield_current (record i { yield_on_return = false; status = system_mode }, w) in
      if i.yield_on_return
      then (yielded >>= λ (i1, w1). some (record i1 { status = old }, w1))
      else some (i, w)

  -- Interrupt::OneTick
  unfoldable pub one_tick : ℕ → Interrupt × W → Option (Interrupt × W)
  one_tick fuel (i, w) =
      fire_due handle delayed_load fuel (change_level (advance_time i) int_off, w) >>= λ (i1, w1).
      yield_if_asked i.status (change_level i1 int_on, w1)

  -- Interrupt::SetLevel, with the old level.
  unfoldable pub set_level : ℕ → IntStatus → Interrupt × W → Option (IntStatus × Interrupt × W)
  set_level fuel now (i, w) =
      let changed = change_level i now in
      let ticked = one_tick fuel (changed, w) in
      if not (is_off now) && i.in_handler
      then none
      else if not (is_off now) && is_off i.level
      then (ticked >>= λ s. some (i.level, s.0, s.1))
      else some (i.level, changed, w)

  -- Interrupt::Enable
  unfoldable pub enable : ℕ → Interrupt × W → Option (Interrupt × W)
  enable fuel s = set_level fuel int_on s >>= λ (old, i, w). some (i, w)
