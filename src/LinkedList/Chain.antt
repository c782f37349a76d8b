-- ===== src/LinkedList/Chain.antt =====
-- Which list a `LinkedList` in a store stands for, and the operations at its two ends.
use jalepenos.Base.{
  ℕ, ◌≡◌, ◌≢◌, refl, ◌∙◌, Bool, true, false, ◌||◌, List, [], ◌∷◌, ◌++◌, Option, none, some, ◌==◌,
  arith, update,
}
use jalepenos.Base.Int.{ℤ}
use jalepenos.LinkedList.{ListElement, Store, LinkedList, load, set_next, is_empty}

-- An element of the list: its address, key and item.
pub record Cell : Type 0 where
  pub at : ℕ
  pub key : ℤ
  pub item : ℕ

abbrev pub head_at : List Cell → ℕ
head_at [] = 0
head_at (c ∷ xs) = c.at

abbrev pub last_from : Cell → List Cell → ℕ
last_from c [] = c.at
last_from c (d ∷ xs) = last_from d xs

abbrev pub last_at : List Cell → ℕ
last_at [] = 0
last_at (c ∷ xs) = last_from c xs

abbrev pub has : ℕ → List Cell → Bool
has a [] = false
has a (c ∷ xs) = (a == c.at) || has a xs

abbrev pub element_of : Cell → ℕ → ListElement
element_of c next = record { next = next; key = c.key; item = c.item }

-- The `next` pointers lead through the distinct elements `xs` to NULL.
abbrev pub Chain : Store → List Cell → Type 0
Chain s [] = Unit {0}
Chain s (c ∷ xs) =
    (c.at ≢ 0) × (s c.at ≡ some (element_of c (head_at xs))) × (has c.at xs ≡ false) × Chain s xs

-- The list `l` stands for the elements `xs`.
pub record Represents (s : Store) (l : LinkedList) (xs : List Cell) : Type 0 where
  pub first_is : l.first ≡ head_at xs
  pub last_is : l.last ≡ last_at xs
  pub chain : Chain s xs

-- The operation went through, and the list that it leaves stands for `xs`.
abbrev pub Leaves : Option (Store × LinkedList) → List Cell → Type 0
Leaves none xs = ⊥
Leaves (some (s, l)) xs = Represents s l xs

pub is_empty-[] : (s : Store) (l : LinkedList) → Represents s l [] → is_empty l ≡ true
unfolding is_empty
is_empty-[] s l r = ground (arith, r.first_is)

pub is_empty-∷ :
    (s : Store) (l : LinkedList) (c : Cell) (xs : List Cell)
    → Represents s l (c ∷ xs)
    → is_empty l ≡ false
unfolding is_empty
is_empty-∷ s l c xs r = ground (arith, r.first_is, r.chain.0)

pub load-some : (s : Store) (p : ℕ) (e : ListElement) → p ≢ 0 → s p ≡ some e → load s p ≡ some e
unfolding load
load-some s p e n h = ground arith

pub set_next-some :
    (s : Store) (p q : ℕ) (e : ListElement)
    → p ≢ 0
    → s p ≡ some e
    → set_next s p q ≡ some (update s p (some (record e { next = q })))
unfolding set_next
set_next-some s p q e n h = rw (load-some s p e n h) refl

pub Chain-frame :
    {s : Store} (g : Store) (xs : List Cell)
    → Chain s xs
    → ((a : ℕ) → has a xs ≡ true → g a ≡ s a)
    → Chain g xs
Chain-frame g [] k same = tt
Chain-frame g (c ∷ xs) (n, e, out, k) same =
    (n, same c.at (ground arith) ∙ e, out, Chain-frame g xs k (λ a i. same a (ground arith)))

pub Chain-update :
    (s : Store) (xs : List Cell) (a : ℕ) (e : Option ListElement)
    → Chain s xs
    → has a xs ≡ false
    → Chain (update s a e) xs
Chain-update s xs a e k out = Chain-frame _ xs k (λ b i. ground arith)

pub has-ne : (a b : ℕ) (xs : List Cell) → has a xs ≡ true → has b xs ≡ false → (b == a) ≡ false
has-ne a b xs i o = ground arith

pub last-has : (c : Cell) (xs : List Cell) → has (last_from c xs) (c ∷ xs) ≡ true
last-has c [] = ground arith
last-has c (d ∷ xs) = rw (last-has d xs) (ground arith)

-- The list goes through, and only the element at `a` has changed.
abbrev pub Extends : Store → ℕ → Option Store → List Cell → Type 0
Extends s a none xs = ⊥
Extends s a (some s') xs = Chain s' xs × ((b : ℕ) → (b == a) ≡ false → s' b ≡ s b)

pub has-snoc :
    (a : ℕ) (xs : List Cell) (n : Cell) → has a (xs ++ n ∷ []) ≡ (has a xs || (a == n.at))
has-snoc a [] n = ground arith
has-snoc a (c ∷ xs) n = rw (has-snoc a xs n) (ground arith)

module _ (s : Store) (n : Cell) (ne : n.at ≢ 0) (fresh : s n.at ≡ some (element_of n 0)) where
  extend_cons :
      (c d : Cell) (xs : List Cell) (o : Option Store)
      → Chain s (c ∷ d ∷ xs)
      → has n.at (c ∷ d ∷ xs) ≡ false
      → Extends s (last_from d xs) o ((d ∷ xs) ++ n ∷ [])
      → Extends s (last_from d xs) o ((c ∷ d ∷ xs) ++ n ∷ [])
  extend_cons c d xs none k out x = x
  extend_cons c d xs (some s') (nz, e, sep, k) out (k', same) = (
    (
      nz,
      same c.at (has-ne (last_from d xs) c.at (d ∷ xs) (last-has d xs) sep) ∙ e,
      has-snoc c.at (d ∷ xs) n ∙ rw sep (ground arith),
      k',
    ),
    same,
  )

  -- Linking `n` behind the last element.
  pub set_next-last :
      (c : Cell) (xs : List Cell)
      → Chain s (c ∷ xs)
      → has n.at (c ∷ xs) ≡ false
      → Extends s (last_from c xs) (set_next s (last_from c xs) n.at) ((c ∷ xs) ++ n ∷ [])
  unfolding set_next load
  set_next-last c [] (nz, e, sep, k) out = ground arith
  set_next-last c (d ∷ xs) (nz, e, sep, k) out =
      extend_cons c d xs (set_next s (last_from d xs) n.at) (nz, e, sep, k) out
        (set_next-last d xs k (ground arith))
