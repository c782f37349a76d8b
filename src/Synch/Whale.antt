-- ===== src/Synch/Whale.antt =====
-- `Whale` of code/threads/synch.h and synch.cc: a male, a female and a matchmaker meet. Each call is
-- split where Acquire has returned and where a wait has: the turn of a loop, with what follows it.
pub mod Turns
use jalepenos.Base.{
  ℕ, ◌≡◌, ◌≢◌, refl, sym, ◌∙◌, Bool, true, false, not, ◌&&◌, ◌||◌, List, [], Option, none, some,
  ◌==◌, if◌then◌else◌, ◌>>=◌, arith, ◌-◌, ◌^◌,
}
use jalepenos.Threads.{Kernel}
use jalepenos.Synch.{
  Outcome, returned, sleeps, acquire, increment, decrement, Lock, new_lock, Condition,
  new_condition, release, wait, signal,
}

-- The counters are patterns of ints. `condLock` is never used.
pub record Whale : Type 0 where
  pub lock : Lock
  pub male_snd : Condition
  pub female_snd : Condition
  pub match_snd : Condition
  pub match_wait : Condition
  pub num_pending_male : ℕ
  pub num_pending_female : ℕ
  pub num_pending_match : ℕ
  pub num_complete_male : ℕ
  pub num_complete_female : ℕ

-- Whale::Whale
abbrev pub new_whale : Whale
new_whale = record {
  lock = new_lock;
  male_snd = new_condition;
  female_snd = new_condition;
  match_snd = new_condition;
  match_wait = new_condition;
  num_pending_male = 0;
  num_pending_female = 0;
  num_pending_match = 0;
  num_complete_male = 0;
  num_complete_female = 0;
}

-- The conditions of the loops.
abbrev pub male_waits : Whale → Bool
male_waits w =
    ((w.num_pending_female == 0) || (w.num_pending_match == 0)) || not (w.num_complete_male == 0)

abbrev pub female_waits : Whale → Bool
female_waits w =
    ((w.num_pending_male == 0) || (w.num_pending_match == 0)) || not (w.num_complete_female == 0)

abbrev pub match_waits : Whale → Bool
match_waits w = (w.num_pending_female == 0) || (w.num_pending_male == 0)

abbrev pub completion_waits : Whale → Bool
completion_waits w = (w.num_complete_male == 0) && (w.num_complete_female == 0)

-- The loop of Male and what follows it.
unfoldable pub male_turn : Kernel → Whale → Option (Outcome × Kernel × Whale)
male_turn k w =
    if male_waits w
    then (wait k w.male_snd w.lock >>= λ (o, k1, c, l).
        some (o, k1, record w { male_snd = c; lock = l }))
    else (signal k w.match_snd w.lock >>= λ (k1, c1). signal k1 w.female_snd w.lock >>= λ (k2, c2).
        signal k2 w.match_wait w.lock >>= λ (k3, c3). release k3 w.lock >>= λ (k4, l). some (
          returned,
          k4,
          record w {
            lock = l;
            match_snd = c1;
            female_snd = c2;
            match_wait = c3;
            num_complete_male = increment w.num_complete_male;
          },
        ))

-- Male, once Acquire has returned.
unfoldable pub male_entered : Kernel → Whale → Option (Outcome × Kernel × Whale)
male_entered k w = male_turn k (record w { num_pending_male = increment w.num_pending_male })

-- The loop of Female and what follows it.
unfoldable pub female_turn : Kernel → Whale → Option (Outcome × Kernel × Whale)
female_turn k w =
    if female_waits w
    then (wait k w.female_snd w.lock >>= λ (o, k1, c, l).
        some (o, k1, record w { female_snd = c; lock = l }))
    else (signal k w.match_snd w.lock >>= λ (k1, c1). signal k1 w.male_snd w.lock >>= λ (k2, c2).
        signal k2 w.match_wait w.lock >>= λ (k3, c3). release k3 w.lock >>= λ (k4, l). some (
          returned,
          k4,
          record w {
            lock = l;
            match_snd = c1;
            male_snd = c2;
            match_wait = c3;
            num_complete_female = increment w.num_complete_female;
          },
        ))

-- Female, once Acquire has returned.
unfoldable pub female_entered : Kernel → Whale → Option (Outcome × Kernel × Whale)
female_entered k w =
    female_turn k (record w { num_pending_female = increment w.num_pending_female })

-- The second loop of Matchmaker and what follows it.
unfoldable pub completion_turn : Kernel → Whale → Option (Outcome × Kernel × Whale)
completion_turn k w =
    if completion_waits w
    then (wait k w.match_wait w.lock >>= λ (o, k1, c, l).
        some (o, k1, record w { match_wait = c; lock = l }))
    else (release k w.lock >>= λ (k1, l). some (
      returned,
      k1,
      record w {
        lock = l;
        num_pending_male = decrement w.num_pending_male;
        num_pending_female = decrement w.num_pending_female;
        num_complete_male = decrement w.num_complete_male;
        num_complete_female = decrement w.num_complete_female;
        num_pending_match = decrement w.num_pending_match;
      },
    ))

-- The first loop of Matchmaker and what follows it.
unfoldable pub match_turn : Kernel → Whale → Option (Outcome × Kernel × Whale)
match_turn k w =
    if match_waits w
    then (wait k w.match_snd w.lock >>= λ (o, k1, c, l).
        some (o, k1, record w { match_snd = c; lock = l }))
    else (signal k w.female_snd w.lock >>= λ (k1, c1). signal k1 w.male_snd w.lock >>= λ (k2, c2).
        completion_turn k2 (record w { female_snd = c1; male_snd = c2 }))

-- Matchmaker, once Acquire has returned.
unfoldable pub match_entered : Kernel → Whale → Option (Outcome × Kernel × Whale)
match_entered k w = match_turn k (record w { num_pending_match = increment w.num_pending_match })

-- What follows lock->Acquire(), when it has returned.
unfoldable pub enter_after :
    (Kernel → Whale → Option (Outcome × Kernel × Whale))
    → Whale
    → Outcome × Kernel × Lock
    → Option (Outcome × Kernel × Whale)
enter_after entered w (returned, k, l) = entered k (record w { lock = l })
enter_after entered w (sleeps old, k, l) = some (sleeps old, k, record w { lock = l })

-- Whale::Male, Whale::Female and Whale::Matchmaker, up to their return or their first sleep.
unfoldable pub male : Kernel → Whale → Option (Outcome × Kernel × Whale)
male k w = acquire k w.lock >>= enter_after male_entered w

unfoldable pub female : Kernel → Whale → Option (Outcome × Kernel × Whale)
female k w = acquire k w.lock >>= enter_after female_entered w

unfoldable pub matchmaker : Kernel → Whale → Option (Outcome × Kernel × Whale)
matchmaker k w = acquire k w.lock >>= enter_after match_entered w
