-- ===== src/Interrupt/Due.antt =====
-- Which interrupts fire: the loop of CheckIfDue ends, and leaves none that is due.
use jalepenos.Base.{
  ℕ, zero, suc, ◌≤◌, ◌<◌, ◌≡◌, refl, ◌∙◌, ap, subst, Bool, true, false, List, [], ◌∷◌, Option, none,
  some, if◌then◌else◌, arith, inl, inr, Bool-cases, ◌>>=◌,
}
use jalepenos.Base.Int.{ℤ, ltb_ℤ}
use jalepenos.LinkedList.Queue.{Entry, enqueue, Ascends, enqueue-Ascends}
use jalepenos.Threads.{int_off}
use jalepenos.Machine.Words.Signs.{to_int}
use jalepenos.Interrupt.{PendingInterrupt, Interrupt, system_mode, is_idle, is_later, put_back}
use jalepenos.Interrupt.Clock.{
  fire, fire_unless_over, check_first, check_if_due, go_on_if, fire_due,
}

-- How many of the pending interrupts are due at a time.
abbrev pub due_at : ℤ → List (Entry PendingInterrupt) → ℕ
due_at now [] = 0
due_at now (e ∷ q) = if ltb_ℤ now e.key then due_at now q else suc (due_at now q)

abbrev pub due : Interrupt → ℕ
due i = due_at (to_int i.stats.total_ticks) i.pending

pub due-enqueue :
    (now : ℤ) (e : Entry PendingInterrupt) (q : List (Entry PendingInterrupt))
    → due_at now (enqueue e q) ≡ (if ltb_ℤ now e.key then due_at now q else suc (due_at now q))
due-enqueue now e [] = refl
due-enqueue now e (x ∷ q) = ground (arith, due-enqueue now e q)

-- When the first is not due, none is.
none_due :
    (now : ℤ) (e : Entry PendingInterrupt) (q : List (Entry PendingInterrupt))
    → Ascends (e ∷ q)
    → ltb_ℤ now e.key ≡ true
    → due_at now (e ∷ q) ≡ 0
none_due now e [] h l = ground arith
none_due now e (x ∷ q) (le, h) l =
    let m : ltb_ℤ now x.key ≡ true = ground arith in let ih = none_due now x q h m in ground arith

-- Schedule of an interrupt in a positive number of ticks keeps the order.
rest-Ascends :
    (e : Entry PendingInterrupt) (q : List (Entry PendingInterrupt)) → Ascends (e ∷ q) → Ascends q
rest-Ascends e [] h = tt
rest-Ascends e (x ∷ q) h = h.1

-- What a handler may do to the interrupts: add some that are not due, and nothing to the clock.
pub record IsQuiet (i i1 : Interrupt) : Type 0 where
  pub level : i1.level ≡ int_off
  pub stats : i1.stats ≡ i.stats
  pub ascends : Ascends i1.pending
  pub no_more : due i1 ≤ due i

abbrev pub Handles {ℓ} : {W : Type ℓ} → Interrupt → Option (Interrupt × W) → Type 0
Handles i none = ⊥
Handles i (some (i1, w1)) = IsQuiet i i1

-- The pending interrupts are in order and not due, the clock and the status are as they were.
pub record IsCaughtUp (i i1 : Interrupt) : Type 0 where
  pub level : i1.level ≡ int_off
  pub stats : i1.stats ≡ i.stats
  pub status : i1.status ≡ i.status
  pub ascends : Ascends i1.pending
  pub none_due : due i1 ≡ 0

abbrev pub CatchesUp {ℓ} : {W : Type ℓ} → Interrupt → Option (Interrupt × W) → Type 0
CatchesUp i none = ⊥
CatchesUp i (some (i1, w1)) = IsCaughtUp i i1

-- An interrupt has fired: CheckIfDue is true, and the status is as it was.
abbrev Fires {ℓ} : {W : Type ℓ} → Interrupt → Option (Bool × Interrupt × W) → Type 0
Fires i none = ⊥
Fires i (some (true, i1, w1)) = IsQuiet i i1 × (i1.status ≡ i.status)
Fires i (some (false, i1, w1)) = ⊥

fired {ℓ} :
    {W : Type ℓ} (i : Interrupt) (o : Option (Interrupt × W))
    → Handles (record i { in_handler = true; status = system_mode }) o
    → Fires i
        (o >>= λ (i1, w1). some (true, record i1 { in_handler = false; status = i.status }, w1))
fired i none h = h
fired i (some (i1, w1)) h =
    (record { level = h.level; stats = h.stats; ascends = h.ascends; no_more = h.no_more }, refl)

since {ℓ} :
    {W : Type ℓ} (i i1 : Interrupt) (o : Option (Interrupt × W))
    → i1.stats ≡ i.stats
    → i1.status ≡ i.status
    → CatchesUp i1 o
    → CatchesUp i o
since i i1 none stats status c = c
since i i1 (some (i2, w2)) stats status c = record {
  level = c.level;
  stats = c.stats ∙ stats;
  status = c.status ∙ status;
  ascends = c.ascends;
  none_due = c.none_due;
}

-- Nothing is pending, or what is comes later.
stays-IsCaughtUp :
    (i : Interrupt) (e : Entry PendingInterrupt) (q : List (Entry PendingInterrupt))
    → i.level ≡ int_off
    → Ascends (e ∷ q)
    → is_later e.key i ≡ true
    → IsCaughtUp i (put_back e (record i { pending = q }))
stays-IsCaughtUp i e q off asc later =
    let none : due_at (to_int i.stats.total_ticks) (e ∷ q) ≡ 0 =
      none_due (to_int i.stats.total_ticks) e q asc later in
    record {
      level = off;
      stats = refl;
      status = refl;
      ascends = enqueue-Ascends e q (rest-Ascends e q asc);
      none_due = due-enqueue (to_int i.stats.total_ticks) e q ∙ none;
    }

module _ {W : Type 0} (handle : PendingInterrupt → Interrupt × W → Option (Interrupt × W))
    (delayed_load : W → W)
    (quiet : (p : PendingInterrupt) (i : Interrupt) (w : W)
      → i.level ≡ int_off
      → Ascends i.pending
      → Handles i (handle p (i, w))) where
  fire-Fires :
      (p : PendingInterrupt) (i : Interrupt) (w : W)
      → i.level ≡ int_off
      → Ascends i.pending
      → Fires i (fire handle delayed_load p (i, w))
  unfolding fire
  fire-Fires p i w off asc = fired i (handle p _) (quiet p _ (delayed_load w) off asc)

  check-none :
      (i : Interrupt) (w : W)
      → i.level ≡ int_off
      → i.pending ≡ []
      → check_if_due handle delayed_load false (i, w) ≡ some (false, i, w)
  unfolding check_if_due check_first
  check-none i w off h = rw (off, h) refl

  check-later :
      (i : Interrupt) (w : W) (e : Entry PendingInterrupt) (q : List (Entry PendingInterrupt))
      → i.level ≡ int_off
      → i.pending ≡ e ∷ q
      → is_later e.key i ≡ true
      → check_if_due handle delayed_load false (i, w)
        ≡ some (false, put_back e (record i { pending = q }), w)
  unfolding check_if_due check_first
  check-later i w e q off h later = rw (off, h, later) refl

  check-fires :
      (i : Interrupt) (w : W) (e : Entry PendingInterrupt) (q : List (Entry PendingInterrupt))
      → i.level ≡ int_off
      → i.pending ≡ e ∷ q
      → is_later e.key i ≡ false
      → is_idle i.status ≡ false
      → check_if_due handle delayed_load false (i, w)
        ≡ fire handle delayed_load e.item (record i { pending = q }, w)
  unfolding check_if_due check_first fire_unless_over
  check-fires i w e q off h now busy = rw (off, h, now, busy) refl

  goes_on :
      (i i0 : Interrupt) (again : Interrupt × W → Option (Interrupt × W))
      (o : Option (Bool × Interrupt × W))
      → Fires i0 o
      → ((i1 : Interrupt) (w1 : W)
          → IsQuiet i0 i1
          → i1.status ≡ i0.status
          → CatchesUp i (again (i1, w1)))
      → CatchesUp i (o >>= go_on_if handle delayed_load again)
  unfolding go_on_if
  goes_on i i0 again none f h = f
  goes_on i i0 again (some (true, i1, w1)) (quiet1, same) h = h i1 w1 quiet1 same
  goes_on i i0 again (some (false, i1, w1)) f h = absurd f

  caught_up_by_list :
      (fuel : ℕ) (i : Interrupt) (w : W) (q : List (Entry PendingInterrupt))
      → ((i1 : Interrupt) (w1 : W)
          → i1.level ≡ int_off
          → Ascends i1.pending
          → is_idle i1.status ≡ false
          → due i1 < fuel
          → CatchesUp i1 (fire_due handle delayed_load fuel (i1, w1)))
      → i.pending ≡ q
      → i.level ≡ int_off
      → Ascends i.pending
      → is_idle i.status ≡ false
      → due i < suc fuel
      → CatchesUp i (fire_due handle delayed_load (suc fuel) (i, w))
  unfolding fire_due go_on_if
  caught_up_by_list fuel i w [] ih h off asc busy enough =
      rw (check-none i w off h)
        record { level = off; stats = refl; status = refl; ascends = asc; none_due = rw h refl }
  caught_up_by_list fuel i w (e ∷ q) ih h off asc busy enough =
      elim (Bool-cases (is_later e.key i)) [
        | inl later ↦
            rw (check-later i w e q off h later)
              (stays-IsCaughtUp i e q off (subst Ascends h asc) later)
        | inr now ↦
            let i0 = record i { pending = q } in
            let before : due i ≡ suc (due i0) =
              ap (due_at (to_int i.stats.total_ticks)) h ∙ ground (arith, now) in
            rw (check-fires i w e q off h now busy) (
              goes_on i i0 (fire_due handle delayed_load fuel) _
                (fire-Fires e.item i0 w off (rest-Ascends e q (subst Ascends h asc)))
                (λ i1 w1 y same.
                  let c =
                    ih i1 w1 y.level y.ascends (ap is_idle same ∙ busy)
                      (omega (arith, y.no_more)) in
                  since i i1 (fire_due handle delayed_load fuel (i1, w1)) y.stats same c))
      ]

  -- For handlers that only schedule interrupts which are not due, outside of idle mode and with
  -- fuel for one turn more than interrupts are due, the loop of CheckIfDue ends, with the clock
  -- and the status as they were and the pending interrupts in order and none of them due.
  pub fire_due-CatchesUp :
      (fuel : ℕ) (i : Interrupt) (w : W)
      → i.level ≡ int_off
      → Ascends i.pending
      → is_idle i.status ≡ false
      → due i < fuel
      → CatchesUp i (fire_due handle delayed_load fuel (i, w))
  fire_due-CatchesUp zero i w off asc busy enough = absurd (omega arith)
  fire_due-CatchesUp (suc fuel) i w off asc busy enough =
      caught_up_by_list fuel i w i.pending (fire_due-CatchesUp fuel) refl off asc busy enough
