-- ===== src/Threads/Ready.antt =====
-- The ready list and the states of the threads: what each operation of the scheduler keeps.
use jalepenos.Base.{
  ℕ, ◌≡◌, refl, sym, ◌∙◌, ap, subst, Bool, true, false, List, [], ◌∷◌, none, some, ◌==◌, ==_iff,
  if◌then◌else◌, arith, inl, inr, Bool-cases,
}
use jalepenos.LinkedList.Queue.{Entry, enqueue, Ascends, enqueue-Ascends}
use jalepenos.Threads.{
  IntStatus, ThreadStatus, running, ready, Kernel, set_status, ready_to_run, find_next_to_run,
  insert_thread, run, get_priority,
}
use jalepenos.Threads.Members.{mem, Distinct, mem-enqueue, enqueue-Distinct}

abbrev pub is_ready : ThreadStatus → Bool
is_ready ready = true
is_ready _ = false

abbrev pub status_of : Kernel → ℕ → ThreadStatus
status_of k t = (k.threads t).status

-- The ready list holds, once each and in the order of their keys, the threads that are READY.
pub record IsScheduled (k : Kernel) : Type 0 where
  pub ascends : Ascends k.ready_list
  pub distinct : Distinct k.ready_list
  pub listed : (t : ℕ) → mem t k.ready_list ≡ is_ready (status_of k t)

pub status-set_status :
    (k : Kernel) (t u : ℕ) (st : ThreadStatus)
    → status_of (set_status k t st) u ≡ (if u == t then st else status_of k u)
unfolding set_status
status-set_status k t u st = ground arith

-- A status that is not READY for another one.
pub set_status-IsScheduled :
    (k : Kernel) (t : ℕ) (st : ThreadStatus)
    → IsScheduled k
    → is_ready (status_of k t) ≡ false
    → is_ready st ≡ false
    → IsScheduled (set_status k t st)
unfolding set_status
set_status-IsScheduled k t st i was is = record {
  ascends = i.ascends;
  distinct = i.distinct;
  listed = λ u. ground (arith, i.listed u);
}

pub status-ready_to_run :
    (k : Kernel) (t u : ℕ)
    → status_of (ready_to_run k t) u ≡ (if u == t then ready else status_of k u)
unfolding ready_to_run set_status
status-ready_to_run k t u = ground arith

pub current-ready_to_run : (k : Kernel) (t : ℕ) → (ready_to_run k t).current ≡ k.current
unfolding ready_to_run set_status
current-ready_to_run k t = refl

pub list-ready_to_run :
    (k : Kernel) (t : ℕ)
    → (ready_to_run k t).ready_list
      ≡ enqueue (record { key = get_priority k t; item = t }) k.ready_list
unfolding ready_to_run set_status insert_thread get_priority
list-ready_to_run k t =
    ap (λ key. enqueue (record { key = key; item = t }) k.ready_list) (ground arith)

-- A thread that was not on the list is put behind those of the same or a smaller key.
pub ready_to_run-IsScheduled :
    (k : Kernel) (t : ℕ)
    → IsScheduled k
    → is_ready (status_of k t) ≡ false
    → IsScheduled (ready_to_run k t)
ready_to_run-IsScheduled k t i was =
    let e : Entry ℕ = record { key = get_priority k t; item = t } in
    record {
      ascends = rw (list-ready_to_run k t) (enqueue-Ascends e k.ready_list i.ascends);
      distinct =
          rw (list-ready_to_run k t)
            (enqueue-Distinct e k.ready_list (i.listed t ∙ was) i.distinct);
      listed = λ u.
          rw (list-ready_to_run k t, mem-enqueue u e k.ready_list, status-ready_to_run k t u)
            (ground (arith, i.listed u));
    }

Ascends-tail : (e : Entry ℕ) (q : List (Entry ℕ)) → Ascends (e ∷ q) → Ascends q
Ascends-tail e [] h = tt
Ascends-tail e (x ∷ q) h = h.1

-- The ready list without one thread, `t`, that has been taken from it to run next.
pub record IsTaken (t : ℕ) (k : Kernel) : Type 0 where
  pub ascends : Ascends k.ready_list
  pub distinct : Distinct k.ready_list
  pub absent : mem t k.ready_list ≡ false
  pub listed : (u : ℕ) → (u == t) ≡ false → mem u k.ready_list ≡ is_ready (status_of k u)

-- FindNextToRun of a list that is not empty.
pub find_next-IsTaken :
    (k : Kernel) (e : Entry ℕ) (q : List (Entry ℕ))
    → IsScheduled k
    → k.ready_list ≡ e ∷ q
    → IsTaken e.item (record k { ready_list = q })
find_next-IsTaken k e q i h =
    let asc : Ascends (e ∷ q) = subst Ascends h i.ascends in
    let dis : Distinct (e ∷ q) = subst Distinct h i.distinct in
    record {
      ascends = Ascends-tail e q asc;
      distinct = dis.1;
      absent = dis.0;
      listed = λ u other.
          let l : mem u (e ∷ q) ≡ is_ready (status_of k u) =
            subst (λ l. mem u l ≡ is_ready (status_of k u)) h (i.listed u) in
          ground arith;
    }

pub ready_to_run-IsTaken :
    (k : Kernel) (t u : ℕ)
    → IsTaken t k
    → (u == t) ≡ false
    → is_ready (status_of k u) ≡ false
    → IsTaken t (ready_to_run k u)
ready_to_run-IsTaken k t u i other was =
    let e : Entry ℕ = record { key = get_priority k u; item = u } in
    let apart : (t == u) ≡ false = ground arith in
    record {
      ascends = rw (list-ready_to_run k u) (enqueue-Ascends e k.ready_list i.ascends);
      distinct =
          rw (list-ready_to_run k u)
            (enqueue-Distinct e k.ready_list (i.listed u other ∙ was) i.distinct);
      absent = rw (list-ready_to_run k u, mem-enqueue t e k.ready_list, apart) i.absent;
      listed = λ w o.
          rw (list-ready_to_run k u, mem-enqueue w e k.ready_list, status-ready_to_run k u w)
            (ground (arith, i.listed w o));
    }

-- The processor runs its current thread, and the ready list is in order.
pub record IsBusy (k : Kernel) : Type 0 where
  pub is_scheduled : IsScheduled k
  pub is_running : status_of k k.current ≡ running

pub status-run :
    (k : Kernel) (t u : ℕ) → status_of (run k t) u ≡ (if u == t then running else status_of k u)
unfolding run set_status
status-run k t u = ground arith

pub list-run : (k : Kernel) (t : ℕ) → (run k t).ready_list ≡ k.ready_list
unfolding run set_status
list-run k t = refl

pub current-run : (k : Kernel) (t : ℕ) → (run k t).current ≡ t
unfolding run set_status
current-run k t = refl

pub run-IsBusy : (k : Kernel) (t : ℕ) → IsTaken t k → IsBusy (run k t)
run-IsBusy k t i = record {
  is_scheduled = record {
    ascends = rw (list-run k t) i.ascends;
    distinct = rw (list-run k t) i.distinct;
    listed = λ u.
        rw (list-run k t, status-run k t u)
          (elim (Bool-cases (u == t)) [
            | inl same ↦ rw (same) (rw ((==_iff u t).0 same) i.absent)
            | inr other ↦ rw other (i.listed u other)
          ]);
  };
  is_running = rw (current-run k t, status-run k t t) (ground arith);
}

pub find_next-some :
    (k : Kernel) (e : Entry ℕ) (q : List (Entry ℕ))
    → k.ready_list ≡ e ∷ q
    → find_next_to_run k ≡ (some e.item, record k { ready_list = q })
unfolding find_next_to_run
find_next-some k e q h = rw h refl

pub find_next-none : (k : Kernel) → k.ready_list ≡ [] → find_next_to_run k ≡ (none, k)
unfolding find_next_to_run
find_next-none k h = rw h refl

-- The level of interrupts has no part in it.
pub level-IsScheduled :
    (k : Kernel) (now : IntStatus) → IsScheduled k → IsScheduled (record k { level = now })
level-IsScheduled k now i = record { ascends = i.ascends; distinct = i.distinct; listed = i.listed }

pub level-IsBusy : (k : Kernel) (now : IntStatus) → IsBusy k → IsBusy (record k { level = now })
level-IsBusy k now b = record {
  is_scheduled = level-IsScheduled k now b.is_scheduled;
  is_running = b.is_running;
}

-- A thread that is taken from the ready list was READY.
pub head-ready :
    (k : Kernel) (e : Entry ℕ) (q : List (Entry ℕ))
    → IsScheduled k
    → k.ready_list ≡ e ∷ q
    → is_ready (status_of k e.item) ≡ true
head-ready k e q i h = sym (i.listed e.item) ∙ ap (mem e.item) h ∙ ground arith
