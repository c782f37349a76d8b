-- ===== src/Synch/Mutex/Steps.antt =====
-- What each step of the threads that use a lock does to the invariant.
use jalepenos.Base.{
  ℕ, ◌≡◌, refl, subst, Bool, true, false, List, [], ◌∷◌, Option, none, some, if◌then◌else◌, arith,
  update,
}
use jalepenos.Base.Int.{ℤ}
use jalepenos.LinkedList.Queue.{Entry}
use jalepenos.Threads.{
  int_off, just_created, running, blocked, Kernel, set_status, set_priority, fork, find_next_to_run,
  run, exchange_level, ready_to_run, yield_thread,
}
use jalepenos.Threads.Ready.{
  status_of, level-IsScheduled, status-set_status, set_status-IsScheduled, status-ready_to_run,
  ready_to_run-IsScheduled, find_next-some, find_next-none, find_next-IsTaken, ready_to_run-IsTaken,
  run-IsBusy, status-run, head-ready,
}
use jalepenos.Threads.Dispatch.{
  fork-IsScheduled, status-fork, yield-none, apart_from_running, yield-some,
}
use jalepenos.Synch.{
  Outcome, Lock, is_held_by_current_thread, acquire_turn, acquire, release, wake_first,
}
use jalepenos.Synch.Mutex.{outside, inside, is_waiting, is_inside, System, settle}
use jalepenos.Synch.Mutex.Invariant.{Inv, kernel-Inv, level-Inv, turn-Inv, free-Inv, wake-Inv}

passes_unless {ℓ} :
    {A : Type ℓ} (b : Bool) (x r : A) → (if b then none else some x) ≡ some r → x ≡ r
passes_unless true x r h = absurd cc
passes_unless false x r h = cc

passes_if {ℓ} : {A : Type ℓ} (b : Bool) (x r : A) → (if b then some x else none) ≡ some r → x ≡ r
passes_if true x r h = cc
passes_if false x r h = absurd cc

acquire-some :
    (k : Kernel) (l : Lock) (r : Outcome × Kernel × Lock)
    → acquire k l ≡ some r
    → acquire_turn k.level (record k { level = int_off }) l ≡ r
unfolding acquire exchange_level
acquire-some k l r h = passes_unless (is_held_by_current_thread k l) _ r h

release-some :
    (k : Kernel) (l : Lock) (r : Kernel × Lock)
    → release k l ≡ some r
    → let (k2, q) = wake_first (record k { level = int_off }) l.queue in
      (record k2 { level = k.level }, record { is_locked = false; holder = none; queue = q }) ≡ r
unfolding release exchange_level
release-some k l r h = passes_if (is_held_by_current_thread k l) _ r h

some_pair :
    (r : Option ℕ × Kernel) (t u : ℕ) (k k1 : Kernel)
    → r ≡ (some t, k)
    → r ≡ (some u, k1)
    → Path (ℕ × Kernel) (t, k) (u, k1)
some_pair r t u k k1 g h = cc

module _ (s : System) (i : Inv s) where
  pub enters-Inv :
      (r : Outcome × Kernel × Lock)
      → status_of s.kernel s.kernel.current ≡ running
      → s.at s.kernel.current ≡ outside
      → acquire s.kernel s.lock ≡ some r
      → Inv (settle s r)
  unfolding settle
  enters-Inv r go out h =
      let k1 = record s.kernel { level = int_off } in
      let off = level-Inv s i int_off in
      subst (λ x. Inv (settle s x)) (acquire-some s.kernel s.lock r h)
        (turn-Inv (record s { kernel = k1 }) off s.kernel.level go (rw out refl))

  leaves_by_queue :
      (q : List (Entry ℕ))
      → s.lock.queue ≡ q
      → is_inside (s.at s.kernel.current) ≡ true
      → let (k2, q2) = wake_first (record s.kernel { level = int_off }) s.lock.queue in
        Inv (record {
          kernel = record k2 { level = s.kernel.level };
          lock = record { is_locked = false; holder = none; queue = q2 };
          at = update s.at s.kernel.current outside;
        })
  unfolding wake_first
  leaves_by_queue [] h here = rw h (free-Inv s i here h)
  leaves_by_queue (e ∷ q) h here =
      let s1 = record s { kernel = record s.kernel { level = int_off } } in
      rw h (level-Inv _ (wake-Inv s1 (level-Inv s i int_off) e q here h) s.kernel.level)

  pub leaves-Inv :
      (k : Kernel) (l : Lock)
      → s.at s.kernel.current ≡ inside
      → release s.kernel s.lock ≡ some (k, l)
      → Inv (record { kernel = k; lock = l; at = update s.at s.kernel.current outside })
  leaves-Inv k l here h =
      subst
        (λ (k1, l1).
          Inv (record { kernel = k1; lock = l1; at = update s.at s.kernel.current outside }))
        (release-some s.kernel s.lock (k, l) h) (leaves_by_queue s.lock.queue refl (rw here refl))

  pub dispatches_by_list :
      (q : List (Entry ℕ)) (t : ℕ) (k : Kernel)
      → s.kernel.ready_list ≡ q
      → find_next_to_run s.kernel ≡ (some t, k)
      → Inv (record s { kernel = run k t })
  dispatches_by_list [] t k h f = absurd (cc (find_next-none s.kernel h, f))
  dispatches_by_list (e ∷ q) t k h f =
      let k1 = record s.kernel { ready_list = q } in
      let was = head-ready s.kernel e q i.is_scheduled h in
      let taken = find_next-some s.kernel e q h in
      subst (λ (u, k1). Inv (record s { kernel = run k1 u })) (some_pair _ e.item t k1 k taken f)
        (kernel-Inv s i _
          (run-IsBusy k1 e.item (find_next-IsTaken s.kernel e q i.is_scheduled h)).is_scheduled
          (λ u w. rw (status-run k1 e.item u) (ground (arith, was)))
          (λ u w a. rw (status-run k1 e.item u) (ground (arith, was))))

  pub yields_by_list :
      (q : List (Entry ℕ))
      → s.kernel.ready_list ≡ q
      → status_of s.kernel s.kernel.current ≡ running
      → Inv (record s { kernel = (yield_thread s.kernel).1 })
  yields_by_list [] h go = rw (yield-none s.kernel h) i
  yields_by_list (e ∷ q) h go =
      let k1 = record s.kernel { level = int_off; ready_list = q } in
      let c = s.kernel.current in
      let was = head-ready s.kernel e q i.is_scheduled h in
      let apart = apart_from_running s.kernel e.item c was go in
      let taken =
        find_next-IsTaken (record s.kernel { level = int_off }) e q
          (level-IsScheduled s.kernel int_off i.is_scheduled) h in
      let k2 = ready_to_run k1 c in
      rw (yield-some s.kernel e q h) (
        kernel-Inv s i _
          (run-IsBusy k2 e.item
            (ready_to_run-IsTaken k1 e.item c taken apart (rw go refl))).is_scheduled
          (λ u w. rw (status-run k2 e.item u, status-ready_to_run k1 c u) (ground (arith, was, go)))
          (λ u w a.
            rw (status-run k2 e.item u, status-ready_to_run k1 c u) (ground (arith, was, go))))

  pub sleeps_elsewhere-Inv :
      status_of s.kernel s.kernel.current ≡ running
      → is_waiting (s.at s.kernel.current) ≡ false
      → Inv (record s { kernel = set_status s.kernel s.kernel.current blocked })
  sleeps_elsewhere-Inv go out =
      kernel-Inv s i _ (set_status-IsScheduled s.kernel _ blocked i.is_scheduled (rw go refl) refl)
        (λ t w.
          rw (status-set_status s.kernel s.kernel.current t blocked) (ground (arith, go, out)))
        (λ t w a.
          rw (status-set_status s.kernel s.kernel.current t blocked) (ground (arith, go, out)))

  pub woken_elsewhere-Inv :
      (t : ℕ)
      → status_of s.kernel t ≡ blocked
      → is_waiting (s.at t) ≡ false
      → Inv (record s { kernel = ready_to_run s.kernel t })
  woken_elsewhere-Inv t was out =
      kernel-Inv s i _ (ready_to_run-IsScheduled s.kernel t i.is_scheduled (rw was refl))
        (λ u w. rw (status-ready_to_run s.kernel t u) (ground (arith, was, out)))
        (λ u w a. rw (status-ready_to_run s.kernel t u) (ground (arith, was, out)))

  pub forks-Inv :
      (t : ℕ) → status_of s.kernel t ≡ just_created → Inv (record s { kernel = fork s.kernel t })
  forks-Inv t was =
      kernel-Inv s i _ (fork-IsScheduled s.kernel t i.is_scheduled (rw was refl)).0
        (λ u w. rw (status-fork s.kernel t u) (ground (arith, was, w)))
        (λ u w a. rw (status-fork s.kernel t u) (ground (arith, was, w)))

  pub sets_priority-Inv :
      (t : ℕ) (priority : ℤ) → Inv (record s { kernel = set_priority s.kernel t priority })
  unfolding set_priority
  sets_priority-Inv t priority =
      kernel-Inv s i _
        record {
          ascends = i.is_scheduled.ascends;
          distinct = i.is_scheduled.distinct;
          listed = λ u. ground (arith, i.is_scheduled.listed u);
        }
        (λ u w. ground arith) (λ u w a. ground arith)
