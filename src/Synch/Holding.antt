-- ===== src/Synch/Holding.antt =====
-- What the thread that holds a lock can do: no ASSERT fails.
use jalepenos.Base.{ℕ, ◌≡◌, refl, ◌∙◌, ap, true, false, List, [], ◌∷◌, Option, none, some, ◌>>=◌}
use jalepenos.LinkedList.Queue.{Entry}
use jalepenos.Threads.{Kernel, ready_to_run, set_status, exchange_level, int_off}
use jalepenos.Synch.{
  Lock, Condition, release, wait, signal, is_thread, wake_first, is_held_by_current_thread,
}

-- The operation goes through, and its result satisfies a predicate.
abbrev pub Succeeds {ℓ} : {A : Type ℓ} → (A → Type 0) → Option A → Type 0
Succeeds P none = ⊥
Succeeds P (some a) = P a

pub bind-Succeeds {ℓ κ} :
    {A : Type ℓ} {B : Type κ} (Q : A → Type 0) (P : B → Type 0) (x : Option A) (f : A → Option B)
    → Succeeds Q x
    → ((a : A) → Q a → Succeeds P (f a))
    → Succeeds P (x >>= f)
bind-Succeeds Q P none f q h = q
bind-Succeeds Q P (some a) f q h = h a q

pub current-wake_first : (k : Kernel) (q : List (Entry ℕ)) → (wake_first k q).0.current ≡ k.current
unfolding wake_first ready_to_run set_status
current-wake_first k [] = refl
current-wake_first k (e ∷ q) = refl

abbrev pub SameCurrent : Kernel → Kernel × Condition → Type 0
SameCurrent k (k1, c) = k1.current ≡ k.current

abbrev pub Free : Kernel × Lock → Type 0
Free (k, l) = l.is_locked ≡ false

module _ (k : Kernel) (l : Lock) (held : is_held_by_current_thread k l ≡ true) where
  pub signal-SameCurrent : (c : Condition) → Succeeds (SameCurrent k) (signal k c l)
  unfolding signal exchange_level
  signal-SameCurrent c = rw held (current-wake_first (record k { level = int_off }) c.queue)

  pub release-Free : Succeeds Free (release k l)
  unfolding release exchange_level
  release-Free = rw held refl

  pub wait-Free : (c : Condition) → Succeeds (λ (o, k1, c1, l1). l1.is_locked ≡ false) (wait k c l)
  unfolding wait release exchange_level
  wait-Free c = rw held refl

pub held-same :
    (k k1 : Kernel) (l : Lock)
    → k1.current ≡ k.current
    → is_held_by_current_thread k l ≡ true
    → is_held_by_current_thread k1 l ≡ true
held-same k k1 l same held = ap (is_thread l.holder) same ∙ held
