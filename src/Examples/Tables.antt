-- ===== src/Examples/Tables.antt =====
-- A table of objects on concrete inputs.
use jalepenos.Base.{zero, suc, ◌≡◌, refl, true, [], ◌∷◌, none, some, arith}
use jalepenos.Base.Int.{pos}
use jalepenos.Threads.{running, int_on, Kernel}
use jalepenos.Synch.{new_semaphore}
use jalepenos.Synch.{new_lock}
use jalepenos.Table.{Table, alloc_entered}
use jalepenos.Table.Slots.{NoneNull, alloc_entered-overruns}
use jalepenos.Table.Full.{taken_by}

abbrev busy : Kernel
busy = record {
  threads = λ t. record {
    joining = true;
    key = pos 0;
    join_signal = new_semaphore 0;
    may_die = new_semaphore 0;
    status = running;
    exit_status = pos t;
  };
  ready_list = [];
  current = 1;
  level = int_on;
  to_be_destroyed = none;
  deleted = [];
}

-- Elements 0 and 2 are free, and the search starts at 1.
abbrev with_gap : Table
with_gap = record {
  backing = none ∷ some 7 ∷ none ∷ [];
  access_lock = taken_by busy new_lock;
  last_element = 1;
  max_elements = 3;
}

one_taken : NoneNull with_gap.backing 1 2
one_taken zero lo hi = absurd (omega (arith, lo))
one_taken (suc zero) lo hi = λ e. absurd cc
one_taken (suc (suc h)) lo hi = absurd (omega (arith, hi))

-- Element 0 is free, and the search starts at 1.
abbrev behind : Table
behind = record {
  backing = none ∷ some 7 ∷ [];
  access_lock = taken_by busy new_lock;
  last_element = 1;
  max_elements = 2;
}

rest_taken : NoneNull behind.backing 1 2
rest_taken zero lo hi = absurd (omega (arith, lo))
rest_taken (suc zero) lo hi = λ e. absurd cc
rest_taken (suc (suc h)) lo hi = absurd (omega (arith, hi))

alloc_entered-overruns_example : alloc_entered 9 busy behind ≡ none
alloc_entered-overruns_example =
    alloc_entered-overruns busy behind 9 refl (omega arith) (omega arith) rest_taken

abbrev one_full : Table
one_full = record {
  backing = some 7 ∷ [];
  access_lock = new_lock;
  last_element = 0;
  max_elements = 1;
}
