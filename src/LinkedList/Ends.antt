-- ===== src/LinkedList/Ends.antt =====
-- `IsEmpty`, `Append`, `Prepend`, `Remove` and `SortedRemove`, at the two ends of the list.
use jalepenos.Base.{
  ℕ, ◌≡◌, ◌≢◌, refl, sym, true, false, List, [], ◌∷◌, ◌++◌, Option, none, some, ◌==◌, arith, update,
  update_self, ◌>>=◌,
}
use jalepenos.Base.Int.{pos}
use jalepenos.LinkedList.{
  Store, LinkedList, init, new_element, set_next, append, prepend, sorted_remove,
}
use jalepenos.LinkedList.Chain.{
  Cell, is_empty-[], is_empty-∷, load-some, set_next-some, last_from, has, Represents, Leaves,
  Chain-update, has-ne, last-has, Extends, set_next-last,
}

-- A fresh element for `a`: an address that `new` can return.
abbrev pub plain : ℕ → ℕ → Cell
plain a item = record { at = a; key = pos 0; item = item }

pub Represents-init : (s : Store) → Represents s init []
Represents-init s = record { first_is = refl; last_is = refl; chain = tt }

single :
    (s : Store) (a item : ℕ)
    → a ≢ 0
    → Represents
        (update s a (some (new_element item (pos 0))))
        (record { first = a; last = a })
        (plain a item ∷ [])
single s a item ne = record {
  first_is = refl;
  last_is = refl;
  chain = (ne, update_self s a _, refl, tt);
}

last-snoc : (c : Cell) (xs : List Cell) (n : Cell) → last_from c (xs ++ n ∷ []) ≡ n.at
last-snoc c [] n = refl
last-snoc c (d ∷ xs) n = last-snoc d xs n

extended :
    (s : Store) (first : ℕ) (o : Option Store) (c : Cell) (xs : List Cell) (n : Cell)
    → first ≡ c.at
    → Extends s (last_from c xs) o ((c ∷ xs) ++ n ∷ [])
    → Leaves (o >>= λ s2. some (s2, record { first = first; last = n.at })) ((c ∷ xs) ++ n ∷ [])
extended s first none c xs n h x = x
extended s first (some s2) c xs n h (k, same) = record {
  first_is = h;
  last_is = sym (last-snoc c xs n);
  chain = k;
}

-- Prepend at a fresh address that is not NULL goes through and leaves a list that stands for the
-- new element and the old ones behind it.
pub prepend-Leaves :
    (s : Store) (l : LinkedList) (xs : List Cell) (a item : ℕ)
    → Represents s l xs
    → a ≢ 0
    → has a xs ≡ false
    → Leaves (prepend s l a item) (plain a item ∷ xs)
unfolding prepend
prepend-Leaves s l [] a item r ne out = rw (is_empty-[] s l r) (single s a item ne)
prepend-Leaves s l (c ∷ xs) a item r ne out =
    let s1 = update s a (some (new_element item (pos 0))) in
    let linked = Chain-update s (c ∷ xs) a _ r.chain out in
    rw (is_empty-∷ s l c xs r, set_next-some s1 a l.first _ ne (update_self s a _), r.first_is)
      record {
        first_is = refl;
        last_is = r.last_is;
        chain = (ne, update_self s1 a _, out, Chain-update s1 (c ∷ xs) a _ linked out);
      }

-- Append at a fresh address that is not NULL goes through and leaves a list that stands for the
-- old elements and the new one behind them.
pub append-Leaves :
    (s : Store) (l : LinkedList) (xs : List Cell) (a item : ℕ)
    → Represents s l xs
    → a ≢ 0
    → has a xs ≡ false
    → Leaves (append s l a item) (xs ++ plain a item ∷ [])
unfolding append
append-Leaves s l [] a item r ne out = rw (is_empty-[] s l r) (single s a item ne)
append-Leaves s l (c ∷ xs) a item r ne out =
    let s1 = update s a (some (new_element item (pos 0))) in
    rw (is_empty-∷ s l c xs r, r.last_is)
      (extended s1 l.first (set_next s1 (last_from c xs) a) c xs (plain a item) r.first_is (
        set_next-last s1 (plain a item) ne (update_self s a _) c xs
          (Chain-update s (c ∷ xs) a _ r.chain out) out))

-- SortedRemove of a list that is not empty goes through, gives the first element's item and key,
-- deletes that element, and leaves a list that stands for the others.
pub sorted_remove-first :
    (s : Store) (l : LinkedList) (c : Cell) (xs : List Cell)
    → Represents s l (c ∷ xs)
    → (s' : Store) × (l' : LinkedList) × (sorted_remove s l ≡ some (some (c.item, c.key), s', l'))
      × Represents s' l' xs
      × (s' c.at ≡ none)
unfolding sorted_remove
sorted_remove-first s l c [] r =
    let (n, e, sep, k) = r.chain in
    let same : (c.at == c.at) ≡ true = ground arith in
    (
      update s c.at none,
      init,
      rw (is_empty-∷ s l c [] r, r.first_is, r.last_is, load-some s c.at _ n e, same) refl,
      Represents-init _,
      update_self s c.at none,
    )
sorted_remove-first s l c (d ∷ xs) r =
    let (n, e, sep, k) = r.chain in
    let differ : (c.at == l.last) ≡ false =
      rw r.last_is (has-ne (last_from d xs) c.at (d ∷ xs) (last-has d xs) sep) in
    (
      update s c.at none,
      record l { first = d.at },
      rw (is_empty-∷ s l c (d ∷ xs) r, r.first_is, load-some s c.at _ n e, differ) refl,
      record {
        first_is = refl;
        last_is = r.last_is;
        chain = Chain-update s (d ∷ xs) c.at none k sep;
      },
      update_self s c.at none,
    )
