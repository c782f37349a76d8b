-- ===== src/Table.antt =====
-- The table of objects of code/threads/table.h and table.cc. `Alloc` and `Release` run under the
-- table's lock; each is split where Acquire has returned. Tables have fewer than 2 ^ 30 elements, so
-- that no counter overflows; a read or a write outside `backing` is none.
pub mod Slots
pub mod Full
use jalepenos.Base.{
  ℕ, zero, suc, ◌+◌, ◌<◌, Bool, true, false, List, Option, none, some, get_elem?, set, length, ltb,
  if◌then◌else◌, ◌>>=◌,
}
use jalepenos.Base.Int.{ℤ, pos, negsuc}
use jalepenos.Threads.{Kernel}
use jalepenos.Synch.{Outcome, returned, sleeps, Lock, new_lock, acquire, release}

-- An element is the object its pointer points at, none for NULL.
pub record Table : Type 0 where
  pub backing : List (Option ℕ)
  pub access_lock : Lock
  pub last_element : ℕ
  pub max_elements : ℕ

-- Table::Table: `new void*[size]` is what the memory held.
abbrev pub new_table : List (Option ℕ) → ℕ → Table
new_table garbage size = record {
  backing = garbage;
  access_lock = new_lock;
  last_element = 0;
  max_elements = size;
}

abbrev pub is_null : Option ℕ → Bool
is_null none = true
is_null (some x) = false

-- The loop of Alloc, `rounds` rounds from element `i` on, up to the element it takes.
unfoldable pub alloc_loop : ℕ → ℕ → List (Option ℕ) → Option (Option ℕ)
alloc_loop zero i b = some none
alloc_loop (suc rounds) i b =
    let rest = alloc_loop rounds (suc i) b in
    (get_elem? b i >>= λ x. if is_null x then some (some i) else rest)

-- The branch of the loop that takes an element, and the end of Alloc, which does not reach its Release.
unfoldable pub alloc_at : ℕ → Kernel → Table → Option ℕ → Option (ℤ × Kernel × Table)
alloc_at object k t none = some (negsuc 0, k, t)
alloc_at object k t (some i) = release k t.access_lock >>= λ (k1, l). some (
  pos (suc i),
  k1,
  record t { backing = set t.backing i (some object); access_lock = l; last_element = suc i },
)

-- Alloc, once Acquire has returned.
unfoldable pub alloc_entered : ℕ → Kernel → Table → Option (ℤ × Kernel × Table)
alloc_entered object k t =
    alloc_loop t.max_elements t.last_element t.backing >>= alloc_at object k t

-- What follows Acquire: Alloc up to its return, with its result, or to its first sleep.
unfoldable pub alloc_after :
    ℕ → Table → Outcome × Kernel × Lock → Option (Option ℤ × Outcome × Kernel × Table)
alloc_after object t (returned, k, l) =
    alloc_entered object k (record t { access_lock = l }) >>= λ (r, k1, t1).
    some (some r, returned, k1, t1)
alloc_after object t (sleeps old, k, l) = some (none, sleeps old, k, record t { access_lock = l })

-- Table::Alloc
unfoldable pub alloc : ℕ → Kernel → Table → Option (Option ℤ × Outcome × Kernel × Table)
alloc object k t = acquire k t.access_lock >>= alloc_after object t

-- backing[index-1]
unfoldable pub get : Table → ℤ → Option (Option ℕ)
get t (pos zero) = none
get t (pos (suc i)) = get_elem? t.backing i
get t (negsuc n) = none

-- Release, once Acquire has returned.
unfoldable pub release_entered : Kernel → Table → ℤ → Option (Kernel × Table)
release_entered k t (pos zero) = none
release_entered k t (negsuc n) = none
release_entered k t (pos (suc i)) =
    if ltb i (length t.backing)
    then (release k t.access_lock >>= λ (k1, l).
        some (k1, record t { backing = set t.backing i none; access_lock = l }))
    else none

unfoldable pub release_after :
    ℤ → Table → Outcome × Kernel × Lock → Option (Outcome × Kernel × Table)
release_after index t (returned, k, l) =
    release_entered k (record t { access_lock = l }) index >>= λ (k1, t1). some (returned, k1, t1)
release_after index t (sleeps old, k, l) = some (sleeps old, k, record t { access_lock = l })

-- Table::Release
unfoldable pub release_index : ℤ → Kernel → Table → Option (Outcome × Kernel × Table)
release_index index k t = acquire k t.access_lock >>= release_after index t
