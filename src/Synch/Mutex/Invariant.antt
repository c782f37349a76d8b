-- ===== src/Synch/Mutex/Invariant.antt =====
-- What holds of a lock and its threads after every step.
use jalepenos.Base.{
  ℕ, ◌≡◌, refl, sym, ◌∙◌, ap, subst, Bool, true, false, ◌&&◌, List, [], ◌∷◌, Option, none, some,
  ◌==◌, arith, inl, inr, Bool-cases, update,
}
use jalepenos.LinkedList.Queue.{Entry}
use jalepenos.Threads.{
  IntStatus, ThreadStatus, running, ready, blocked, Kernel, set_status, exchange_level,
  ready_to_run, insert_thread, get_priority,
}
use jalepenos.Threads.Members.{mem, Distinct, mem-enqueue, enqueue-Distinct}
use jalepenos.Threads.Ready.{
  status_of, IsScheduled, level-IsScheduled, status-set_status, set_status-IsScheduled,
  status-ready_to_run, ready_to_run-IsScheduled,
}
use jalepenos.Synch.{returned, sleeps, Lock, is_thread, acquire_turn}
use jalepenos.Synch.Mutex.{
  Location, outside, waiting, inside, is_waiting, is_inside, System, settle,
}

abbrev pub is_blocked : ThreadStatus → Bool
is_blocked blocked = true
is_blocked _ = false

-- READY or RUNNING.
abbrev pub is_awake : ThreadStatus → Bool
is_awake ready = true
is_awake running = true
is_awake _ = false

abbrev pub is_some : Option ℕ → Bool
is_some none = false
is_some (some t) = true

-- The thread is in Acquire, and not asleep: it is going to try again.
abbrev pub TriesAgain : System → ℕ → Type 0
TriesAgain s t = (is_waiting (s.at t) ≡ true) × (is_awake (status_of s.kernel t) ≡ true)

pub record Inv (s : System) : Type 0 where
  -- The ready list is in order.
  pub is_scheduled : IsScheduled s.kernel
  -- The thread inside is the holder.
  pub held : (t : ℕ) → is_inside (s.at t) ≡ is_thread s.lock.holder t
  pub locked : s.lock.is_locked ≡ is_some s.lock.holder
  -- The queue holds, once each, the threads that sleep in Acquire.
  pub distinct : Distinct s.lock.queue
  pub queued :
      (t : ℕ) → mem t s.lock.queue ≡ (is_waiting (s.at t) && is_blocked (status_of s.kernel t))
  -- While the lock is free and threads sleep in Acquire, another one is going to try again.
  pub not_lost :
      (t : ℕ) → s.lock.is_locked ≡ false → mem t s.lock.queue ≡ true → (w : ℕ) × TriesAgain s w

is_thread-none : (h : Option ℕ) (t : ℕ) → is_some h ≡ false → is_thread h t ≡ false
is_thread-none none t e = refl
is_thread-none (some u) t e = absurd cc

is_thread-other :
    (h : Option ℕ) (c t : ℕ) → is_thread h c ≡ true → (t == c) ≡ false → is_thread h t ≡ false
is_thread-other none c t e n = refl
is_thread-other (some u) c t e n = ground arith

not_both : (l : Location) → is_inside l ≡ true → is_waiting l ≡ false
not_both outside h = refl
not_both (waiting old) h = absurd cc
not_both inside h = refl

acquire_turn-taken :
    (old : IntStatus) (k : Kernel) (l : Lock)
    → l.is_locked ≡ true
    → acquire_turn old k l ≡ (sleeps old, k, record l { queue = insert_thread k k.current l.queue })
unfolding acquire_turn
acquire_turn-taken old k l h = rw h refl

acquire_turn-free :
    (old : IntStatus) (k : Kernel) (l : Lock)
    → l.is_locked ≡ false
    → acquire_turn old k l
      ≡ (returned, record k { level = old }, record l { is_locked = true; holder = some k.current })
unfolding acquire_turn exchange_level
acquire_turn-free old k l h = rw h refl

module _ (s : System) (i : Inv s) where
  -- The kernel moves, and no thread in Acquire falls asleep or is woken.
  pub kernel-Inv :
      (k : Kernel)
      → IsScheduled k
      → ((t : ℕ)
          → is_waiting (s.at t) ≡ true
          → is_blocked (status_of k t) ≡ is_blocked (status_of s.kernel t))
      → ((t : ℕ)
          → is_waiting (s.at t) ≡ true
          → is_awake (status_of s.kernel t) ≡ true
          → is_awake (status_of k t) ≡ true)
      → Inv (record s { kernel = k })
  kernel-Inv k sch same kept = record {
    is_scheduled = sch;
    held = i.held;
    locked = i.locked;
    distinct = i.distinct;
    queued = λ t. elim (Bool-cases (is_waiting (s.at t))) [
      | inl w ↦ i.queued t ∙ rw (w, same t w) refl
      | inr w ↦ i.queued t ∙ rw w refl
    ];
    not_lost = λ t free m. let (w, (wt, aw)) = i.not_lost t free m in (w, (wt, kept w wt aw));
  }

  nobody_inside : s.lock.is_locked ≡ false → (t : ℕ) → is_inside (s.at t) ≡ false
  nobody_inside free t = i.held t ∙ is_thread-none s.lock.holder t (sym i.locked ∙ free)

  -- Acquire of a lock that is taken.
  falls_asleep-Inv :
      (old : IntStatus)
      → status_of s.kernel s.kernel.current ≡ running
      → is_inside (s.at s.kernel.current) ≡ false
      → s.lock.is_locked ≡ true
      → Inv (record {
        kernel = set_status s.kernel s.kernel.current blocked;
        lock = record s.lock { queue = insert_thread s.kernel s.kernel.current s.lock.queue };
        at = update s.at s.kernel.current (waiting old);
      })
  unfolding insert_thread
  falls_asleep-Inv old r out lk =
      let c = s.kernel.current in
      let e : Entry ℕ = record { key = get_priority s.kernel c; item = c } in
      let absent : mem c s.lock.queue ≡ false = i.queued c ∙ rw r (ground arith) in
      record {
        is_scheduled = set_status-IsScheduled s.kernel c blocked i.is_scheduled (rw r refl) refl;
        held = λ t. ground (arith, i.held t, out);
        locked = i.locked;
        distinct = enqueue-Distinct e s.lock.queue absent i.distinct;
        queued = λ t.
            rw (mem-enqueue t e s.lock.queue, status-set_status s.kernel c t blocked)
              (ground (arith, i.queued t));
        not_lost = λ t free m. absurd cc;
      }

  -- Acquire of a lock that is free.
  goes_in-Inv :
      (old : IntStatus)
      → status_of s.kernel s.kernel.current ≡ running
      → s.lock.is_locked ≡ false
      → Inv (record {
        kernel = record s.kernel { level = old };
        lock = record s.lock { is_locked = true; holder = some s.kernel.current };
        at = update s.at s.kernel.current inside;
      })
  goes_in-Inv old r free = record {
    is_scheduled = level-IsScheduled s.kernel old i.is_scheduled;
    held = λ t. ground (arith, nobody_inside free t);
    locked = refl;
    distinct = i.distinct;
    queued = λ t. ground (arith, i.queued t, r);
    not_lost = λ t is m. absurd cc;
  }

  -- A turn of Acquire, by a thread that runs and is not inside.
  pub turn-Inv :
      (old : IntStatus)
      → status_of s.kernel s.kernel.current ≡ running
      → is_inside (s.at s.kernel.current) ≡ false
      → Inv (settle s (acquire_turn old s.kernel s.lock))
  unfolding settle
  turn-Inv old r out = elim (Bool-cases s.lock.is_locked) [
    | inl lk ↦ rw (acquire_turn-taken old s.kernel s.lock lk) (falls_asleep-Inv old r out lk)
    | inr free ↦ rw (acquire_turn-free old s.kernel s.lock free) (goes_in-Inv old r free)
  ]

  pub level-Inv : (now : IntStatus) → Inv (record s { kernel = record s.kernel { level = now } })
  level-Inv now =
      kernel-Inv _ (level-IsScheduled s.kernel now i.is_scheduled) (λ t w. refl) (λ t w a. a)

  other_outside :
      is_inside (s.at s.kernel.current) ≡ true
      → (t : ℕ) → (t == s.kernel.current) ≡ false
      → is_inside (s.at t) ≡ false
  other_outside here t apart =
      i.held t
      ∙ is_thread-other s.lock.holder s.kernel.current t (sym (i.held s.kernel.current) ∙ here)
          apart

  waiting_outside :
      is_inside (s.at s.kernel.current) ≡ true → is_waiting (s.at s.kernel.current) ≡ false
  waiting_outside here = not_both (s.at s.kernel.current) here

  -- Release by the thread inside, which wakes the first of the queue.
  pub free-Inv :
      is_inside (s.at s.kernel.current) ≡ true
      → s.lock.queue ≡ []
      → Inv (record s {
        lock = record { is_locked = false; holder = none; queue = [] };
        at = update s.at s.kernel.current outside;
      })
  free-Inv here h = record {
    is_scheduled = i.is_scheduled;
    held = λ t. ground (arith, other_outside here t);
    locked = refl;
    distinct = tt;
    queued = λ t. ground (
      arith,
      subst (λ l. mem t l ≡ (is_waiting (s.at t) && is_blocked (status_of s.kernel t))) h
          (i.queued t),
    );
    not_lost = λ t free m. absurd cc;
  }

  pub wake-Inv :
      (e : Entry ℕ) (q : List (Entry ℕ))
      → is_inside (s.at s.kernel.current) ≡ true
      → s.lock.queue ≡ e ∷ q
      → Inv (record {
        kernel = ready_to_run s.kernel e.item;
        lock = record { is_locked = false; holder = none; queue = q };
        at = update s.at s.kernel.current outside;
      })
  wake-Inv e q here h =
      let c = s.kernel.current in
      let slept : (is_waiting (s.at e.item) && is_blocked (status_of s.kernel e.item)) ≡ true =
        sym (i.queued e.item) ∙ ap (mem e.item) h ∙ ground arith in
      let dis : Distinct (e ∷ q) = subst Distinct h i.distinct in
      record {
        is_scheduled =
            ready_to_run-IsScheduled s.kernel e.item i.is_scheduled (ground (arith, slept));
        held = λ t. ground (arith, other_outside here t);
        locked = refl;
        distinct = dis.1;
        queued = λ t. rw (status-ready_to_run s.kernel e.item t) (
            ground (
              arith,
              subst (λ l. mem t l ≡ (is_waiting (s.at t) && is_blocked (status_of s.kernel t))) h
                  (i.queued t),
              dis.0,
              waiting_outside here,
            ));
        not_lost = λ t free m. (
          e.item,
          rw (status-ready_to_run s.kernel e.item e.item)
              (ground (arith, slept, waiting_outside here)),
        );
      }
