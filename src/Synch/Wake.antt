-- ===== src/Synch/Wake.antt =====
-- Which threads `Signal`, `Broadcast` and `V` wake.
use jalepenos.Base.{ℕ, ◌≡◌, refl, ◌∙◌, true, false, List, [], ◌∷◌, if◌then◌else◌, arith}
use jalepenos.LinkedList.Queue.{Entry, dequeue}
use jalepenos.Threads.{ready, int_off, Kernel, exchange_level, ready_to_run}
use jalepenos.Threads.Members.{mem, Distinct}
use jalepenos.Threads.Ready.{
  status_of, is_ready, IsScheduled, level-IsScheduled, status-ready_to_run, current-ready_to_run,
  ready_to_run-IsScheduled,
}
use jalepenos.Synch.{
  Lock, Condition, is_held_by_current_thread, wake_first, wake_all, signal, broadcast,
}
use jalepenos.Synch.Holding.{Succeeds}

-- The ready list is in order, and the threads of `q` are READY, and the others as they were.
pub record IsWoken (k : Kernel) (q : List (Entry ℕ)) (k1 : Kernel) : Type 0 where
  pub is_scheduled : IsScheduled k1
  pub status : (t : ℕ) → status_of k1 t ≡ (if mem t q then ready else status_of k t)
  pub current : k1.current ≡ k.current

wake_all-IsWoken :
    (k : Kernel) (q : List (Entry ℕ))
    → IsScheduled k
    → Distinct q
    → ((t : ℕ) → mem t q ≡ true → is_ready (status_of k t) ≡ false)
    → IsWoken k q (wake_all k q)
unfolding wake_all
wake_all-IsWoken k [] i d asleep = record { is_scheduled = i; status = λ t. refl; current = refl }
wake_all-IsWoken k (e ∷ q) i (n, d) asleep =
    let was = asleep e.item (ground arith) in
    let w =
      wake_all-IsWoken (ready_to_run k e.item) q (ready_to_run-IsScheduled k e.item i was) d
        (λ t m. rw (status-ready_to_run k e.item t) (ground (arith, asleep t, n))) in
    record {
      is_scheduled = w.is_scheduled;
      status = λ t. w.status t ∙ rw (status-ready_to_run k e.item t) (ground (arith));
      current = w.current ∙ current-ready_to_run k e.item;
    }

-- While the ready list is in order, the current thread holds the lock and the condition's queue
-- holds, once each, threads that are not READY, Broadcast goes through, empties the queue, makes
-- exactly these threads READY and keeps the ready list in order.
pub broadcast-IsWoken :
    (k : Kernel) (c : Condition) (l : Lock)
    → IsScheduled k
    → Distinct c.queue
    → ((t : ℕ) → mem t c.queue ≡ true → is_ready (status_of k t) ≡ false)
    → is_held_by_current_thread k l ≡ true
    → Succeeds (λ (k1, c1). IsWoken k c.queue k1 × (c1.queue ≡ [])) (broadcast k c l)
unfolding broadcast exchange_level
broadcast-IsWoken k c l i d asleep held =
    let off = record k { level = int_off } in
    let w = wake_all-IsWoken off c.queue (level-IsScheduled k int_off i) d asleep in
    rw held (
      record {
        is_scheduled = level-IsScheduled (wake_all off c.queue) k.level w.is_scheduled;
        status = w.status;
        current = w.current;
      },
      refl,
    )

-- The first thread of a queue, as a queue.
abbrev first_of : List (Entry ℕ) → List (Entry ℕ)
first_of [] = []
first_of (e ∷ q) = e ∷ []

wake_first-IsWoken :
    (k : Kernel) (q : List (Entry ℕ))
    → IsScheduled k
    → ((t : ℕ) → mem t q ≡ true → is_ready (status_of k t) ≡ false)
    → IsWoken k (first_of q) (wake_first k q).0 × ((wake_first k q).1 ≡ (dequeue q).1)
unfolding wake_first
wake_first-IsWoken k [] i asleep =
    (record { is_scheduled = i; status = λ t. refl; current = refl }, refl)
wake_first-IsWoken k (e ∷ q) i asleep = (
  record {
    is_scheduled = ready_to_run-IsScheduled k e.item i (asleep e.item (ground arith));
    status = λ t. rw (status-ready_to_run k e.item t) (ground arith);
    current = current-ready_to_run k e.item;
  },
  refl,
)

-- Under the same conditions Signal goes through, takes the first thread from the queue, if there is one, and
-- makes it and no other READY.
pub signal-IsWoken :
    (k : Kernel) (c : Condition) (l : Lock)
    → IsScheduled k
    → ((t : ℕ) → mem t c.queue ≡ true → is_ready (status_of k t) ≡ false)
    → is_held_by_current_thread k l ≡ true
    → Succeeds
        (λ (k1, c1). IsWoken k (first_of c.queue) k1 × (c1.queue ≡ (dequeue c.queue).1))
        (signal k c l)
unfolding signal exchange_level
signal-IsWoken k c l i asleep held =
    let off = record k { level = int_off } in
    let (w, rest) = wake_first-IsWoken off c.queue (level-IsScheduled k int_off i) asleep in
    rw held (
      record {
        is_scheduled = level-IsScheduled (wake_first off c.queue).0 k.level w.is_scheduled;
        status = w.status;
        current = w.current;
      },
      rest,
    )
