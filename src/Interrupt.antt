-- ===== src/Interrupt.antt =====
-- Interrupts and simulated time: code/machine/interrupt.h and interrupt.cc, with the ticks of
-- code/machine/stats.h. The list of pending interrupts is what its linked list stands for. The
-- handlers of the devices, the load that `machine` delays and the switch of threads act on the rest of
-- the kernel, `W`, and are parameters. A tick count is the pattern of an int.
pub mod Clock
pub mod Due
pub mod Ticks
use jalepenos.Base.{
  ℕ, zero, suc, ◌+◌, ◌-◌, ◌%◌, ◌^◌, Bool, true, false, not, ◌&&◌, ◌||◌, List, [], ◌∷◌, Option, none,
  some, ◌==◌, ltb, if◌then◌else◌, ◌>>=◌,
}
use jalepenos.Base.Int.{ℤ, pos, negsuc, ltb_ℤ}
use jalepenos.LinkedList.Queue.{Entry, enqueue, dequeue}
use jalepenos.Threads.{IntStatus, int_off, int_on, is_off}
use jalepenos.Machine.Words.{add, sub}
use jalepenos.Machine.Words.Signs.{to_int}

pub data MachineStatus : Type 0 where
  idle_mode : MachineStatus
  system_mode : MachineStatus
  user_mode : MachineStatus

pub data IntType : Type 0 where
  timer_int : IntType
  disk_int : IntType
  console_write_int : IntType
  console_read_int : IntType
  network_send_int : IntType
  network_recv_int : IntType

-- The handler is named by its address.
pub record PendingInterrupt : Type 0 where
  pub handler : ℕ
  pub arg : ℕ
  pub when : ℕ
  pub type : IntType

pub record Statistics : Type 0 where
  pub total_ticks : ℕ
  pub idle_ticks : ℕ
  pub system_ticks : ℕ
  pub user_ticks : ℕ

pub record Interrupt : Type 0 where
  pub level : IntStatus
  pub pending : List (Entry PendingInterrupt)
  pub in_handler : Bool
  pub yield_on_return : Bool
  pub status : MachineStatus
  pub stats : Statistics

-- Interrupt::Interrupt, with the counters of Statistics::Statistics.
abbrev pub init : Interrupt
init = record {
  level = int_off;
  pending = [];
  in_handler = false;
  yield_on_return = false;
  status = system_mode;
  stats = record { total_ticks = 0; idle_ticks = 0; system_ticks = 0; user_ticks = 0 };
}

abbrev pub system_tick : ℕ
system_tick = 10

abbrev pub user_tick : ℕ
user_tick = 1

-- The pattern of an int.
abbrev pub pattern_of : ℤ → ℕ
pattern_of (pos n) = n % 2 ^ 32
pattern_of (negsuc n) = 2 ^ 32 - 1 - n % 2 ^ 32

abbrev pub is_idle : MachineStatus → Bool
is_idle idle_mode = true
is_idle system_mode = false
is_idle user_mode = false

abbrev pub is_timer : IntType → Bool
is_timer timer_int = true
is_timer _ = false

abbrev pub has_none {ℓ} : {A : Type ℓ} → List A → Bool
has_none [] = true
has_none (x ∷ xs) = false

-- Interrupt::ChangeLevel
unfoldable pub change_level : Interrupt → IntStatus → Interrupt
change_level i now = record i { level = now }

-- Interrupt::Schedule, of an interrupt in `from_now` ticks.
unfoldable pub schedule : Interrupt → ℕ → ℕ → ℕ → IntType → Option Interrupt
schedule i handler arg from_now type =
    let when = add i.stats.total_ticks from_now in
    let to_occur : PendingInterrupt = record {
      handler = handler;
      arg = arg;
      when = when;
      type = type;
    } in
    if ltb_ℤ (pos 0) (to_int from_now)
    then some
        (record i { pending = enqueue (record { key = to_int when; item = to_occur }) i.pending })
    else none

-- Interrupt::YieldOnReturn
unfoldable pub yield_on_return : Interrupt → Option Interrupt
yield_on_return i = if i.in_handler then some (record i { yield_on_return = true }) else none

-- The clock of an idle machine moves on to `when`.
unfoldable pub advance_to : ℤ → Interrupt → Interrupt
advance_to when i = record i {
  stats = record i.stats {
    idle_ticks = add i.stats.idle_ticks (sub (pattern_of when) i.stats.total_ticks);
    total_ticks = pattern_of when;
  };
}

-- `when > stats->totalTicks`
abbrev pub is_later : ℤ → Interrupt → Bool
is_later when i = ltb_ℤ (to_int i.stats.total_ticks) when

-- Simulated time advances, by what the machine is doing.
abbrev pub advance_in : MachineStatus → Statistics → Statistics
advance_in system_mode s = record s {
  total_ticks = add s.total_ticks system_tick;
  system_ticks = add s.system_ticks system_tick;
}
advance_in _ s = record s {
  total_ticks = add s.total_ticks user_tick;
  user_ticks = add s.user_ticks user_tick;
}

unfoldable pub advance_time : Interrupt → Interrupt
advance_time i = record i { stats = advance_in i.status i.stats }

-- SortedInsert(toOccur, when)
abbrev pub put_back : Entry PendingInterrupt → Interrupt → Interrupt
put_back e i = record i { pending = enqueue e i.pending }

-- Nothing but the timer is going to happen on an idle machine.
abbrev pub is_over : Entry PendingInterrupt → Interrupt → Bool
is_over e i = is_idle i.status && is_timer e.item.type && has_none i.pending
