-- ===== src/Table/Full.antt =====
-- A full table: Alloc returns -1 and keeps the lock.
use jalepenos.Base.{◌≡◌, true, false, none, some, length}
use jalepenos.Threads.{Kernel}
use jalepenos.Synch.{Lock}
use jalepenos.Table.Slots.{NoneNull}
use jalepenos.Table.{Table}

-- The table is full, its lock is free and the search starts at the first element.
abbrev pub IsFull : Table → Type 0
IsFull t =
    (t.last_element ≡ 0)
    × (length t.backing ≡ t.max_elements)
    × NoneNull t.backing 0 t.max_elements
    × (t.access_lock.is_locked ≡ false)
    × (t.access_lock.holder ≡ none)

abbrev pub taken_by : Kernel → Lock → Lock
taken_by k l = record l { is_locked = true; holder = some k.current }
