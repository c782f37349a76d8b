-- ===== src/Synch/Mailbox/Delivery.antt =====
-- What a mailbox delivers, over every sequence of its turns.
use jalepenos.Base.{
  ℕ, suc, ◌%◌, ◌^◌, ◌≡◌, refl, sym, ◌∙◌, ap, subst, false, List, [], ◌∷◌, ◌++◌, Option, none, some,
  ◌==◌, arith, inl, inr, Bool-cases, ◌>>=◌, length,
}
use jalepenos.Threads.{Kernel}
use jalepenos.Synch.{Outcome, Lock, increment, decrement, release, wait, signal}
use jalepenos.Synch.Mailbox.{
  Mailbox, new_mailbox, send_turn, send_entered, receive_turn, receive_entered,
}

abbrev listed : Option ℕ → List ℕ
listed none = []
listed (some x) = x ∷ []

-- The messages sent and received so far, in their order, and the mailbox, after any sequence of turns of
-- Send and Receive in any states of the kernel, between which the lock may change.
pub data Trace : List ℕ → List ℕ → Mailbox → Type 0 where
  opens : Trace [] [] new_mailbox
  locks :
      {sent received : List ℕ} {m : Mailbox} (l : Lock)
      → Trace sent received m
      → Trace sent received (record m { lock = l })
  sends :
      {sent received : List ℕ} {m : Mailbox} (k : Kernel) (message : ℕ) (o : Outcome) (k1 : Kernel)
      (m1 : Mailbox)
      → Trace sent received m
      → send_entered message k m ≡ some (o, k1, m1)
      → Trace (sent ++ message ∷ []) received m1
  sends_again :
      {sent received : List ℕ} {m : Mailbox} (k : Kernel) (o : Outcome) (k1 : Kernel) (m1 : Mailbox)
      → Trace sent received m
      → send_turn k m ≡ some (o, k1, m1)
      → Trace sent received m1
  receives :
      {sent received : List ℕ} {m : Mailbox} (k : Kernel) (x : Option ℕ) (o : Outcome) (k1 : Kernel)
      (m1 : Mailbox)
      → Trace sent received m
      → receive_entered k m ≡ some (x, o, k1, m1)
      → Trace sent (received ++ listed x) m1
  receives_again :
      {sent received : List ℕ} {m : Mailbox} (k : Kernel) (x : Option ℕ) (o : Outcome) (k1 : Kernel)
      (m1 : Mailbox)
      → Trace sent received m
      → receive_turn k m ≡ some (x, o, k1, m1)
      → Trace sent (received ++ listed x) m1

-- The buffer, and the counter of sends that counts it.
abbrev pub IsCounted : Mailbox → Type 0
IsCounted m = m.num_pending_sends ≡ length m.buffer % 2 ^ 32

-- A result of a turn satisfies a predicate, when there is one.
abbrev Result {ℓ} : {A : Type ℓ} → (A → Type 0) → Option A → Type 0
Result P none = Unit {0}
Result P (some a) = P a

bind-Result {ℓ κ} :
    {A : Type ℓ} {B : Type κ} (P : B → Type 0) (x : Option A) (f : A → Option B)
    → ((a : A) → Result P (f a))
    → Result P (x >>= f)
bind-Result P none f h = tt
bind-Result P (some a) f h = h a

SameMail : Mailbox → Outcome × Kernel × Mailbox → Type 0
SameMail m (o, k, m1) = (m1.buffer ≡ m.buffer) × (m1.num_pending_sends ≡ m.num_pending_sends)

send_turn-SameMail : (k : Kernel) (m : Mailbox) → Result (SameMail m) (send_turn k m)
unfolding send_turn SameMail
send_turn-SameMail k m = elim (Bool-cases (m.num_pending_recs == 0)) [
  | inl nobody ↦
      rw nobody (bind-Result (SameMail m) (wait k m.mail_snd m.lock) _ (λ r. (refl, refl)))
  | inr some_rec ↦ rw some_rec (
      bind-Result (SameMail m) (signal k m.mail_rcv m.lock) _
        (λ (k1, c). bind-Result (SameMail m) (release k1 m.lock) _ (λ r. (refl, refl))))
]

Takes : Mailbox → Option ℕ × Outcome × Kernel × Mailbox → Type 0
Takes m (x, o, k, m1) = (m.buffer ≡ listed x ++ m1.buffer) × (IsCounted m → IsCounted m1)

decrement-length : (n v : ℕ) → v ≡ suc n % 2 ^ 32 → decrement v ≡ n % 2 ^ 32
decrement-length n v h = omega arith

increment-length : (n v : ℕ) → v ≡ n % 2 ^ 32 → increment v ≡ suc n % 2 ^ 32
increment-length n v h = omega arith

length-snoc : (xs : List ℕ) (x : ℕ) → length (xs ++ x ∷ []) ≡ suc (length xs)
length-snoc [] x = refl
length-snoc (y ∷ xs) x = omega (arith, length-snoc xs x)

Takes-from :
    (k : Kernel) (m : Mailbox) (buffer : List ℕ)
    → m.buffer ≡ buffer
    → (m.num_pending_sends == 0) ≡ false
    → Result (Takes m) (receive_turn k m)
unfolding receive_turn Takes
Takes-from k m [] h some_sent = rw (some_sent, h) tt
Takes-from k m (x ∷ xs) h some_sent =
    rw (some_sent, h)
      (bind-Result _ (signal k m.mail_snd m.lock) _ (λ (k1, c).
        bind-Result _ (release k1 m.lock) _
          (λ r. (refl, decrement-length (length xs) m.num_pending_sends))))

receive_turn-Takes : (k : Kernel) (m : Mailbox) → Result (Takes m) (receive_turn k m)
unfolding receive_turn Takes
receive_turn-Takes k m = elim (Bool-cases (m.num_pending_sends == 0)) [
  | inl nothing ↦
      rw nothing
        (bind-Result (Takes m) (wait k m.mail_rcv m.lock) _ (λ r. (refl, λ counted. counted)))
  | inr some_sent ↦ Takes-from k m m.buffer refl some_sent
]

-- What is true of every trace.
pub record IsDelivered (sent received : List ℕ) (m : Mailbox) : Type 0 where
  pub in_order : sent ≡ received ++ m.buffer
  pub is_counted : IsCounted m

append_assoc : (xs ys zs : List ℕ) → (xs ++ ys) ++ zs ≡ xs ++ (ys ++ zs)
append_assoc [] ys zs = refl
append_assoc (x ∷ xs) ys zs = ap (λ l. x ∷ l) (append_assoc xs ys zs)

result_is {ℓ} : {A : Type ℓ} (P : A → Type 0) (o : Option A) (a : A) → Result P o → o ≡ some a → P a
result_is P o a h e = subst (Result P) e h

-- The mailbox in which the loop of Send starts.
abbrev posted : ℕ → Mailbox → Mailbox
posted message m = record m {
  num_pending_sends = increment m.num_pending_sends;
  buffer = m.buffer ++ message ∷ [];
}

-- After any sequence of turns of Send and Receive, the messages received, in their order, and
-- then those in the buffer are the messages sent, and numPendingSends counts the buffer, modulo
-- 2 ^ 32.
pub Trace-IsDelivered :
    {sent received : List ℕ} {m : Mailbox} → Trace sent received m → IsDelivered sent received m
unfolding send_entered receive_entered SameMail Takes
Trace-IsDelivered opens = record { in_order = refl; is_counted = refl }
Trace-IsDelivered (locks l t) =
    let d = Trace-IsDelivered t in record { in_order = d.in_order; is_counted = d.is_counted }
Trace-IsDelivered (sends {sent} {received} {m} k message o k1 m1 t h) =
    let d = Trace-IsDelivered t in
    let same =
      result_is (SameMail (posted message m)) _ (o, k1, m1)
        (send_turn-SameMail k (posted message m)) h in
    record {
      in_order = rw (same.0, d.in_order) (append_assoc received m.buffer (message ∷ []));
      is_counted =
          rw (same.0, same.1, length-snoc m.buffer message)
            (increment-length (length m.buffer) m.num_pending_sends d.is_counted);
    }
Trace-IsDelivered (sends_again {sent} {received} {m} k o k1 m1 t h) =
    let d = Trace-IsDelivered t in
    let same = result_is (SameMail m) _ (o, k1, m1) (send_turn-SameMail k m) h in
    record { in_order = rw (same.0) d.in_order; is_counted = rw (same.0, same.1) d.is_counted }
Trace-IsDelivered (receives {sent} {received} {m} k x o k1 m1 t h) =
    let d = Trace-IsDelivered t in
    let m0 = record m { num_pending_recs = increment m.num_pending_recs } in
    let taken = result_is (Takes m0) _ (x, o, k1, m1) (receive_turn-Takes k m0) h in
    record {
      in_order =
          d.in_order
          ∙ ap (λ l. received ++ l) taken.0
          ∙ sym (append_assoc received (listed x) m1.buffer);
      is_counted = taken.1 d.is_counted;
    }
Trace-IsDelivered (receives_again {sent} {received} {m} k x o k1 m1 t h) =
    let d = Trace-IsDelivered t in
    let taken = result_is (Takes m) _ (x, o, k1, m1) (receive_turn-Takes k m) h in
    record {
      in_order =
          d.in_order
          ∙ ap (λ l. received ++ l) taken.0
          ∙ sym (append_assoc received (listed x) m1.buffer);
      is_counted = taken.1 d.is_counted;
    }
