-- ===== src/LinkedList/Insert.antt =====
-- `SortedInsert`: where the element goes, and that a sorted list stays sorted.
use jalepenos.Base.{
  ℕ, zero, suc, ◌≤◌, ◌<◌, ◌≡◌, ◌≢◌, refl, ◌∙◌, inl, inr, true, false, ◌||◌, List, [], ◌∷◌, Option,
  none, some, ◌==◌, if◌then◌else◌, arith, update, update_self, update_ne, Bool-cases, ◌>>=◌, length,
}
use jalepenos.Base.Int.{ltb_ℤ, ◌≤ℤ◌}
use jalepenos.LinkedList.{
  Store, LinkedList, new_element, set_next, insert_last, insert_after, insert_loop, sorted_insert,
}
use jalepenos.LinkedList.Chain.{
  Cell, is_empty-[], is_empty-∷, load-some, set_next-some, last_from, has, element_of, Chain,
  Represents, Leaves, Chain-update, Extends, set_next-last,
}

-- Behind every element whose key is not greater.
abbrev pub insert_sorted : Cell → List Cell → List Cell
insert_sorted n [] = n ∷ []
insert_sorted n (c ∷ xs) = if ltb_ℤ n.key c.key then n ∷ c ∷ xs else c ∷ insert_sorted n xs

-- From the element `c` on, the loop leaves the list with `n` in its place.
abbrev Inserts : Store → LinkedList → Cell → List Cell → Cell → Option (Store × LinkedList) → Type 0
Inserts s l c xs n none = ⊥
Inserts s l c xs n (some (s', l')) =
    Chain s' (c ∷ insert_sorted n xs)
    × (l'.first ≡ l.first)
    × (l'.last ≡ last_from c (insert_sorted n xs))
    × ((b : ℕ) → has b (c ∷ xs) ≡ false → (b == n.at) ≡ false → s' b ≡ s b)

has-insert_sorted :
    (a : ℕ) (n : Cell) (xs : List Cell) → has a (insert_sorted n xs) ≡ ((a == n.at) || has a xs)
has-insert_sorted a n [] = refl
has-insert_sorted a n (c ∷ xs) = ground (arith, has-insert_sorted a n xs)

module _ (s : Store) (l : LinkedList) (n : Cell) (ne : n.at ≢ 0)
    (fresh : s n.at ≡ some (element_of n 0)) where
  behind_last :
      (c : Cell) (o : Option Store)
      → Extends s c.at o (c ∷ n ∷ [])
      → Inserts s l c [] n (o >>= λ s1. some (s1, record l { last = n.at }))
  behind_last c none x = x
  behind_last c (some s1) (k, same) = (k, refl, refl, λ b i j. same b (ground arith))

  between :
      (c d : Cell) (xs : List Cell)
      → Chain s (c ∷ d ∷ xs)
      → has n.at (c ∷ d ∷ xs) ≡ false
      → l.last ≡ last_from d xs
      → ltb_ℤ n.key d.key ≡ true
      → Inserts s l c (d ∷ xs) n (insert_after s l n.at c.at d.at)
  unfolding insert_after
  between c d xs (nz, e, sep, k) out last less =
      let s1 = update s n.at (some (element_of n d.at)) in
      let apart : (c.at == n.at) ≡ false = ground arith in
      rw
        (
          set_next-some s n.at d.at _ ne fresh,
          set_next-some s1 c.at n.at _ nz (update_ne s n.at c.at _ apart ∙ e),
          less,
        )
        (
          (
            nz,
            update_self s1 c.at _,
            ground arith,
            (
              ne,
              update_ne s1 c.at n.at _ (ground arith) ∙ update_self s n.at _,
              ground arith,
              Chain-update s1 (d ∷ xs) c.at _ (Chain-update s (d ∷ xs) n.at _ k (ground arith)) sep,
            ),
          ),
          refl,
          last,
          λ b i j. update_ne s1 c.at b _ (ground arith) ∙ update_ne s n.at b _ j,
        )

  further :
      (c d : Cell) (xs : List Cell) (o : Option (Store × LinkedList))
      → Chain s (c ∷ d ∷ xs)
      → has n.at (c ∷ d ∷ xs) ≡ false
      → ltb_ℤ n.key d.key ≡ false
      → Inserts s l d xs n o
      → Inserts s l c (d ∷ xs) n o
  further c d xs none k out less x = x
  further c d xs (some (s', l')) (nz, e, sep, k) out less (k', f, last, same) = rw less (
    (nz, same c.at sep (ground arith) ∙ e, rw (has-insert_sorted c.at n xs) (ground arith), k'),
    f,
    last,
    λ b i j. same b (ground arith) j,
  )

  insert_loop-Inserts :
      (fuel : ℕ) (c : Cell) (xs : List Cell)
      → Chain s (c ∷ xs)
      → has n.at (c ∷ xs) ≡ false
      → l.last ≡ last_from c xs
      → length xs < fuel
      → Inserts s l c xs n (insert_loop fuel s l n.at c.at n.key)
  unfolding insert_loop insert_last
  insert_loop-Inserts zero c xs k out last enough = absurd (omega arith)
  insert_loop-Inserts (suc fuel) c [] (nz, e, sep, k) out last enough =
      rw (load-some s c.at _ nz e, last)
        (behind_last c (set_next s c.at n.at) (set_next-last s n ne fresh c [] (nz, e, sep, k) out))
  insert_loop-Inserts (suc fuel) c (d ∷ xs) (nz, e, sep, k) out last enough =
      let ih = insert_loop-Inserts fuel d xs k (ground arith) last (omega arith) in
      let inner : (d.at == 0) ≡ false = ground (arith, k.0) in
      rw (load-some s c.at _ nz e, inner, k.1)
        elim (Bool-cases (ltb_ℤ n.key d.key)) [
          | inl less ↦ rw less (between c d xs (nz, e, sep, k) out last less)
          | inr less ↦
              rw less
                (further c d xs (insert_loop fuel s l n.at d.at n.key) (nz, e, sep, k) out less ih)
        ]

leaves :
    (s : Store) (l : LinkedList) (c : Cell) (xs : List Cell) (n : Cell)
    (o : Option (Store × LinkedList))
    → l.first ≡ c.at
    → Inserts s l c xs n o
    → Leaves o (c ∷ insert_sorted n xs)
leaves s l c xs n none f x = x
leaves s l c xs n (some (s', l')) f (k, first, last, same) = record {
  first_is = first ∙ f;
  last_is = last;
  chain = k;
}

sorted_insert-Leaves :
    (fuel : ℕ) (s : Store) (l : LinkedList) (xs : List Cell) (n : Cell)
    → Represents s l xs
    → n.at ≢ 0
    → has n.at xs ≡ false
    → length xs ≤ fuel
    → Leaves (sorted_insert fuel s l n.at n.item n.key) (insert_sorted n xs)
unfolding sorted_insert
sorted_insert-Leaves fuel s l [] n r ne out enough =
    rw (is_empty-[] s l r)
      record { first_is = refl; last_is = refl; chain = (ne, update_self s n.at _, refl, tt) }
sorted_insert-Leaves fuel s l (c ∷ xs) n r ne out enough =
    let s1 = update s n.at (some (new_element n.item n.key)) in
    let linked = Chain-update s (c ∷ xs) n.at _ r.chain out in
    let l1 = record l { first = c.at } in
    rw (is_empty-∷ s l c xs r, r.first_is, load-some s1 c.at _ linked.0 linked.1)
      elim (Bool-cases (ltb_ℤ n.key c.key)) [
        | inl less ↦
            rw (less, set_next-some s1 n.at c.at _ ne (update_self s n.at _))
              record {
                first_is = refl;
                last_is = r.last_is;
                chain =
                    (ne, update_self s1 n.at _, out, Chain-update s1 (c ∷ xs) n.at _ linked out);
              }
        | inr less ↦ rw less (
            leaves s1 l1 c xs n (insert_loop fuel s1 l1 n.at c.at n.key) refl (
              insert_loop-Inserts s1 l1 n ne (update_self s n.at _) fuel c xs linked out r.last_is
                enough))
      ]

-- The keys ascend.
abbrev pub IsSorted : List Cell → Type 0
IsSorted [] = Unit {0}
IsSorted (c ∷ []) = Unit {0}
IsSorted (c ∷ d ∷ xs) = (c.key ≤ℤ d.key) × IsSorted (d ∷ xs)

insert_sorted-IsSorted : (n : Cell) (xs : List Cell) → IsSorted xs → IsSorted (insert_sorted n xs)
insert_sorted-IsSorted n [] h = tt
insert_sorted-IsSorted n (c ∷ []) h = ground arith
insert_sorted-IsSorted n (c ∷ d ∷ xs) (le, h) =
    let ih = insert_sorted-IsSorted n (d ∷ xs) h in ground arith

-- For a sorted list in a store, an element with a fresh address that is not NULL, and fuel for
-- each element of the list, SortedInsert goes through and leaves a list in the store that stands
-- for the old elements with the new one behind every element whose key is not greater, and that
-- is sorted.
pub sorted_insert-sorts :
    (fuel : ℕ) (s : Store) (l : LinkedList) (xs : List Cell) (n : Cell)
    → Represents s l xs
    → IsSorted xs
    → n.at ≢ 0
    → has n.at xs ≡ false
    → length xs ≤ fuel
    → Leaves (sorted_insert fuel s l n.at n.item n.key) (insert_sorted n xs)
      × IsSorted (insert_sorted n xs)
sorted_insert-sorts fuel s l xs n r h ne out enough =
    (sorted_insert-Leaves fuel s l xs n r ne out enough, insert_sorted-IsSorted n xs h)
