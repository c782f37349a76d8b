-- ===== src/Directory/Search.antt =====
-- The loops over the table as one search for the first index that passes a test.
use jalepenos.Base.{
  ℕ, zero, suc, ◌+◌, ◌≤◌, ◌<◌, ◌≡◌, refl, ap, ◌∙◌, inl, inr, Bool, true, false, not, List, Option,
  none, some, ◌==◌, if◌then◌else◌, arith, length, get_elem?, set, Bool-cases, get_elem?-some,
  get_elem?-set_self, get_elem?-set_ne,
}
use jalepenos.Base.Int.{ℤ, pos, negsuc}
use jalepenos.Directory.{
  Directory, DirectoryEntry, file_name_max_len, copy_name, matches, put_entry, find_index_loop,
  add_loop,
}

pub first : (ℕ → Bool) → ℕ → ℕ → Option ℕ
first f zero i = none
first f (suc n) i = if f i then some i else first f n (suc i)

pub first-ext :
    (f g : ℕ → Bool) (n i : ℕ)
    → ((j : ℕ) → i ≤ j → j < i + n → f j ≡ g j)
    → first f n i ≡ first g n i
unfolding first
first-ext f g zero i h = refl
first-ext f g (suc n) i h = rw (
  h i (omega arith) (omega arith),
  first-ext f g n (suc i) (λ j p q. h j (omega arith) (omega arith)),
)

-- What the result of the search says about the test.
pub data First (f : ℕ → Bool) (n i : ℕ) : Option ℕ → Type 0 where
  missed : ((j : ℕ) → i ≤ j → j < i + n → f j ≡ false) → First f n i none
  found_at : (k : ℕ) → i ≤ k → k < i + n → f k ≡ true → First f n i (some k)

First-suc :
    (f : ℕ → Bool) (n i : ℕ) {o : Option ℕ}
    → f i ≡ false
    → First f n (suc i) o
    → First f (suc n) i o
First-suc f n i miss (missed all) = missed λ j p q. elim (Bool-cases (j == i)) [
  | inl e ↦ let e' : j ≡ i = ground arith in ap f e' ∙ miss
  | inr ne ↦ all j (ground arith) (omega arith)
]
First-suc f n i miss (found_at k p q e) = found_at k (omega arith) (omega arith) e

pub first-First : (f : ℕ → Bool) (n i : ℕ) → First f n i (first f n i)
unfolding first
first-First f zero i = missed λ j p q. absurd (omega arith)
first-First f (suc n) i = elim (Bool-cases (f i)) [
  | inl hit ↦ rw hit (found_at i (omega arith) (omega arith) hit)
  | inr miss ↦ rw miss (First-suc f n i miss (first-First f n (suc i)))
]

-- A test that passes at one index alone.
pub first-only :
    (f : ℕ → Bool) (n i k : ℕ)
    → i ≤ k
    → k < i + n
    → ((j : ℕ) → i ≤ j → j < i + n → f j ≡ (j == k))
    → first f n i ≡ some k
unfolding first
first-only f zero i k p q h = absurd (omega arith)
first-only f (suc n) i k p q h = elim (Bool-cases (i == k)) [
  | inl e ↦ let e' : i ≡ k = ground arith in rw (h i (omega arith) (omega arith), e) (ap some e')
  | inr ne ↦
      rw (h i (omega arith) (omega arith), ne)
        (first-only f n (suc i) k (ground arith) (omega arith)
          (λ j a b. h j (omega arith) (omega arith)))
]

-- The tests of FindIndex and of Add on the entry at an index.
unfoldable pub test_entry : (DirectoryEntry → Bool) → Option DirectoryEntry → Bool
test_entry f none = false
test_entry f (some e) = f e

abbrev pub matches_at : List DirectoryEntry → List ℕ → ℕ → Bool
matches_at t name i = test_entry (matches name) (get_elem? t i)

abbrev pub is_free : DirectoryEntry → Bool
is_free e = not e.in_use

abbrev pub free_at : List DirectoryEntry → ℕ → Bool
free_at t i = test_entry is_free (get_elem? t i)

unfoldable pub index_of : Option ℕ → ℤ
index_of none = negsuc 0
index_of (some k) = pos k

pub find_index_loop_lem :
    (n i : ℕ) (d : Directory) (name : List ℕ)
    → i + n ≤ length d.table
    → find_index_loop n i d name ≡ some (index_of (first (matches_at d.table name) n i))
unfolding find_index_loop first test_entry index_of
find_index_loop_lem zero i d name h = refl
find_index_loop_lem (suc n) i d name h =
    let (e, at) = get_elem?-some d.table i (omega arith) in
    rw (find_index_loop_lem n (suc i) d name (omega arith), at)
      elim (Bool-cases (matches name e)) [ inl hit ↦ rw hit refl | inr miss ↦ rw miss refl ]

abbrev pub new_entry : List ℕ → ℤ → DirectoryEntry
new_entry name s = record { in_use = true; sector = s; name = copy_name file_name_max_len name }

unfoldable pub added : Directory → List ℕ → ℤ → Option ℕ → Bool × Directory
added d name s none = (false, d)
added d name s (some k) = (true, put_entry d k (new_entry name s))

pub add_loop_lem :
    (n i : ℕ) (d : Directory) (name : List ℕ) (s : ℤ)
    → i + n ≤ length d.table
    → add_loop n i d name s ≡ some (added d name s (first (free_at d.table) n i))
unfolding add_loop first test_entry added
add_loop_lem zero i d name s h = refl
add_loop_lem (suc n) i d name s h =
    let (e, at) = get_elem?-some d.table i (omega arith) in
    rw (add_loop_lem n (suc i) d name s (omega arith), at)
      elim (Bool-cases (is_free e)) [ inl hit ↦ rw hit refl | inr miss ↦ rw miss refl ]

-- The table after a write at one index.
pub test_entry-set :
    (f : DirectoryEntry → Bool) (t : List DirectoryEntry) (k j : ℕ) (e : DirectoryEntry)
    → k < length t
    → test_entry f (get_elem? (set t k e) j)
      ≡ (if j == k then f e else test_entry f (get_elem? t j))
unfolding test_entry
test_entry-set f t k j e h = elim (Bool-cases (j == k)) [
  | inl same ↦ let e' : j ≡ k = ground arith in rw (same, e', get_elem?-set_self t k e h)
  | inr apart ↦ rw (apart, get_elem?-set_ne t k j e (ground arith)) refl
]
