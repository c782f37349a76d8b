-- ===== src/LinkedList/Queue.antt =====
-- What a list of code/threads/list.cc that is filled by `SortedInsert` alone means to its clients:
-- the entries in order. The ready list, the queues of the synchronisation primitives and the
-- pending interrupts are such lists.
use jalepenos.Base.{
  ℕ, ◌≤◌, ◌≡◌, ◌≢◌, refl, sym, subst, inl, inr, ◌∙◌, ap, false, List, [], ◌∷◌, Option, none, some,
  ◌==◌, ==_iff, if◌then◌else◌, arith, Bool-cases, length,
}
use jalepenos.Base.Int.{ℤ, ltb_ℤ, ◌≤ℤ◌}
use jalepenos.LinkedList.{Store, LinkedList, sorted_insert, sorted_remove}
use jalepenos.LinkedList.Chain.{is_empty-[], Cell, has, Chain, Represents, Leaves}
use jalepenos.LinkedList.Ends.{sorted_remove-first}
use jalepenos.LinkedList.Insert.{insert_sorted, IsSorted, sorted_insert-sorts}

pub record Entry {ℓ} (A : Type ℓ) : Type ℓ where
  pub key : ℤ
  pub item : A

-- SortedInsert: behind every entry whose key is not greater.
abbrev pub enqueue {ℓ} : {A : Type ℓ} → Entry A → List (Entry A) → List (Entry A)
enqueue e [] = e ∷ []
enqueue e (x ∷ xs) = if ltb_ℤ e.key x.key then e ∷ x ∷ xs else x ∷ enqueue e xs

-- Remove: the first entry, if there is one, and the others.
abbrev pub dequeue {ℓ} : {A : Type ℓ} → List (Entry A) → Option (Entry A) × List (Entry A)
dequeue [] = (none, [])
dequeue (x ∷ xs) = (some x, xs)

-- The keys ascend.
abbrev pub Ascends {ℓ} : {A : Type ℓ} → List (Entry A) → Type 0
Ascends [] = Unit {0}
Ascends (x ∷ []) = Unit {0}
Ascends (x ∷ y ∷ xs) = (x.key ≤ℤ y.key) × Ascends (y ∷ xs)

pub enqueue-Ascends {ℓ} :
    {A : Type ℓ} (e : Entry A) (xs : List (Entry A)) → Ascends xs → Ascends (enqueue e xs)
enqueue-Ascends e [] h = tt
enqueue-Ascends e (x ∷ []) h = ground arith
enqueue-Ascends e (x ∷ y ∷ xs) (le, h) = let ih = enqueue-Ascends e (y ∷ xs) h in ground arith

abbrev entry_of : Cell → Entry ℕ
entry_of c = record { key = c.key; item = c.item }

abbrev entries : List Cell → List (Entry ℕ)
entries [] = []
entries (c ∷ xs) = entry_of c ∷ entries xs

-- The list `l` in the store stands for the entries `q`.
abbrev pub Holds : Store → LinkedList → List (Entry ℕ) → Type 0
Holds s l q = (xs : List Cell) × Represents s l xs × (entries xs ≡ q)

abbrev pub LeavesQueue : Option (Store × LinkedList) → List (Entry ℕ) → Type 0
LeavesQueue none q = ⊥
LeavesQueue (some (s, l)) q = Holds s l q

abbrev pub key_and_item : Option (Entry ℕ) → Option (ℕ × ℤ)
key_and_item none = none
key_and_item (some e) = some (e.item, e.key)

entries-insert_sorted :
    (n : Cell) (xs : List Cell) → entries (insert_sorted n xs) ≡ enqueue (entry_of n) (entries xs)
entries-insert_sorted n [] = refl
entries-insert_sorted n (c ∷ xs) = ground (arith, entries-insert_sorted n xs)

length-entries : (xs : List Cell) → length (entries xs) ≡ length xs
length-entries [] = refl
length-entries (c ∷ xs) = omega (arith, length-entries xs)

entries-IsSorted : (xs : List Cell) → Ascends (entries xs) → IsSorted xs
entries-IsSorted [] h = tt
entries-IsSorted (c ∷ []) h = tt
entries-IsSorted (c ∷ d ∷ xs) (le, h) = (le, entries-IsSorted (d ∷ xs) h)

not_in-Chain : (s : Store) (xs : List Cell) (a : ℕ) → Chain s xs → s a ≡ none → has a xs ≡ false
not_in-Chain s [] a k free = refl
not_in-Chain s (c ∷ xs) a (n, e, out, k) free =
    let ih = not_in-Chain s xs a k free in
    elim (Bool-cases (a == c.at)) [
      | inl same ↦ absurd (cc (e, free, ap s ((==_iff a c.at).0 same)))
      | inr other ↦ rw (other, ih) refl
    ]

as_queue :
    (o : Option (Store × LinkedList)) (xs : List Cell) (q : List (Entry ℕ))
    → Leaves o xs
    → entries xs ≡ q
    → LeavesQueue o q
as_queue none xs q x e = x
as_queue (some (s, l)) xs q r e = (xs, r, e)

-- For a list that holds ascending entries, an address that is not NULL and that nothing is
-- stored at, and fuel for each entry, SortedInsert goes through and leaves a list that holds the
-- entries with the new one behind every entry whose key is not greater.
pub sorted_insert-enqueue :
    (fuel : ℕ) (s : Store) (l : LinkedList) (q : List (Entry ℕ)) (a item : ℕ) (key : ℤ)
    → Holds s l q
    → Ascends q
    → a ≢ 0
    → s a ≡ none
    → length q ≤ fuel
    → LeavesQueue
        (sorted_insert fuel s l a item key)
        (enqueue (record { key = key; item = item }) q)
sorted_insert-enqueue fuel s l q a item key (xs, r, e) asc ne free enough =
    let n : Cell = record { at = a; key = key; item = item } in
    as_queue (sorted_insert fuel s l a item key) (insert_sorted n xs) _
      (sorted_insert-sorts fuel s l xs n r (entries-IsSorted xs (subst Ascends (sym e) asc)) ne
        (not_in-Chain s xs a r.chain free) (omega (arith, length-entries xs, ap length e))).0
      (entries-insert_sorted n xs ∙ ap (enqueue (entry_of n)) e)

-- For a list that holds some entries, SortedRemove goes through, gives the key and the item of
-- the first, or NULL when there is none, and leaves a list that holds the others.
pub sorted_remove-dequeue :
    (s : Store) (l : LinkedList) (q : List (Entry ℕ))
    → Holds s l q
    → (s' : Store) × (l' : LinkedList) × (sorted_remove s l
        ≡ some (key_and_item (dequeue q).0, s', l'))
      × Holds s' l' (dequeue q).1
unfolding sorted_remove
sorted_remove-dequeue s l q ([], r, e) = rw (sym e, is_empty-[] s l r) (s, l, refl, ([], r, refl))
sorted_remove-dequeue s l q (c ∷ xs, r, e) =
    let (s', l', given, r', gone) = sorted_remove-first s l c xs r in
    rw (sym e) (s', l', given, (xs, r', refl))
