-- ===== src/Examples/Queues.antt =====
-- Sorted queues in a store, saved registers and open files on concrete inputs.
use jalepenos.Base.{
  ℕ, zero, suc, ◌*◌, ◌+◌, ◌<◌, ◌≡◌, refl, List, [], ◌∷◌, none, some, ◌==◌, if◌then◌else◌, arith,
  update, get_elem?,
}
use jalepenos.Base.Int.{pos, negsuc}
use jalepenos.LinkedList.{Store, LinkedList, sorted_insert}
use jalepenos.LinkedList.Chain.{Cell, element_of}
use jalepenos.LinkedList.Queue.{Entry, enqueue, Holds, LeavesQueue, sorted_insert-enqueue}
use jalepenos.Machine.{Machine}
use jalepenos.OpenFile.{OpenFile, Sectors, write_at}
use jalepenos.OpenFile.Bytes.{IsMapped, Gives}
use jalepenos.OpenFile.Stored.{IsStored, ReadsBack, write_at-IsStored, read_at-write_at}

abbrev low : Cell
low = record { at = 16; key = negsuc 3; item = 100 }

abbrev high : Cell
high = record { at = 8; key = pos 7; item = 200 }

abbrev two_entries : List (Entry ℕ)
two_entries = record { key = negsuc 3; item = 100 } ∷ record { key = pos 7; item = 200 } ∷ []

abbrev two_store : Store
two_store = update (update (λ _. none) 16 (some (element_of low 8))) 8 (some (element_of high 0))

abbrev two_list : LinkedList
two_list = record { first = 16; last = 8 }

two-Holds : Holds two_store two_list two_entries
two-Holds = (
  low ∷ high ∷ [],
  record {
    first_is = refl;
    last_is = refl;
    chain = (omega arith, refl, refl, (omega arith, refl, refl, tt));
  },
  refl,
)

sorted_insert-enqueue_example :
    LeavesQueue
      (sorted_insert 2 two_store two_list 24 300 (pos 2))
      (enqueue (record { key = pos 2; item = 300 }) two_entries)
sorted_insert-enqueue_example =
    sorted_insert-enqueue 2 two_store two_list two_entries 24 300 (pos 2) two-Holds
      (omega arith, tt) (omega arith) refl (omega arith)

-- Registers that hold their numbers.
abbrev numbered : Machine
numbered = record {
  registers = λ r. r;
  main_memory = λ _. 7;
  tlb = none;
  page_table = none;
  page_table_size = 0;
}

-- A file of 200 bytes in the sectors 9 and 5.
abbrev pub two_sectors : OpenFile
two_sectors = record {
  hdr = record { num_bytes = 200; num_sectors = 2; data_sectors = pos 9 ∷ pos 5 ∷ [] };
  seek_position = 0;
}

abbrev pub sector_of : ℕ → ℕ
sector_of i = if i == 0 then 9 else 5

stored_at :
    (i : ℕ) → i * 128 < 200 → get_elem? two_sectors.hdr.data_sectors i ≡ some (pos (sector_of i))
stored_at zero lt = refl
stored_at (suc zero) lt = refl
stored_at (suc (suc i)) lt = absurd (omega arith)

pub two_sectors-IsMapped : IsMapped two_sectors.hdr sector_of
two_sectors-IsMapped = record {
  stored = stored_at;
  on_disk = λ i lt. ground arith;
  apart = λ i j hi hj same. ground arith;
}

abbrev pub blank : Sectors
blank s o = 0

write_at-IsStored_example :
    Gives
      (IsStored sector_of blank (λ q. q + 1) 20 120 130)
      (write_at two_sectors blank (λ _. 99) (λ q. q + 1) 20 120)
write_at-IsStored_example =
    write_at-IsStored two_sectors sector_of two_sectors-IsMapped blank (λ _. 99) (λ q. q + 1) 20 120
      130 (omega arith) (omega arith)

read_at-write_at_example :
    Gives
      (ReadsBack two_sectors sector_of two_sectors-IsMapped
        (λ _. 99)
        (λ q. q + 1)
        (λ _. 0)
        1000
        20
        120
        11)
      (write_at two_sectors blank (λ _. 99) (λ q. q + 1) 20 120)
read_at-write_at_example =
    read_at-write_at two_sectors sector_of two_sectors-IsMapped blank (λ _. 99) (λ q. q + 1)
      (λ _. 0) 1000 20 120 11 (omega arith) (omega arith)
