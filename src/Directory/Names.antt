-- ===== src/Directory/Names.antt =====
-- What Find gives after Add and after Remove.
use jalepenos.Base.{
  ℕ, zero, suc, ◌+◌, ◌≤◌, ◌<◌, ◌≡◌, refl, ap, sym, ◌∙◌, inl, inr, Bool, true, false, List, [], ◌∷◌,
  Option, some, ◌==◌, if◌then◌else◌, arith, length, get_elem?, Bool-cases, get_elem?-set_self,
  get_elem?-set_ne, length-set,
}
use jalepenos.Base.Int.{ℤ, pos, negsuc}
use jalepenos.Directory.{
  Directory, DirectoryEntry, file_name_max_len, same_name, matches, put_entry, find_index,
  sector_at, find, add_at, add,
}
use jalepenos.Directory.Search.{
  first, first-ext, First, missed, found_at, first-First, first-only, test_entry, matches_at,
  free_at, index_of, find_index_loop_lem, new_entry, added, add_loop_lem, test_entry-set,
}
use jalepenos.Directory.Match.{same_name-copy_name, matches-agree, free-unmatched}

-- The table has the entries that its size promises.
abbrev pub IsSized : Directory → Type 0
IsSized d = length d.table ≡ d.table_size

-- The table is complete, and no name is in it twice.
pub record IsValid (d : Directory) : Type 0 where
  pub sized : IsSized d
  pub unique :
      (name : List ℕ) (i j : ℕ)
      → matches_at d.table name i ≡ true
      → matches_at d.table name j ≡ true
      → i ≡ j

-- The index that FindIndex looks for.
abbrev pub found : Directory → List ℕ → Option ℕ
found d name = first (matches_at d.table name) d.table_size 0

pub find_index-found :
    (d : Directory) (name : List ℕ) → IsSized d → find_index d name ≡ some (index_of (found d name))
unfolding find_index
find_index-found d name v = find_index_loop_lem d.table_size 0 d name (omega (arith, v))

pub find-at :
    (d : Directory) (name : List ℕ)
    → IsSized d
    → find d name ≡ sector_at d (index_of (found d name))
unfolding find
find-at d name v = rw (find_index-found d name v) refl

module _ (d : Directory) (name : List ℕ) (s : ℤ) (v : IsSized d) (k : ℕ)
    (inside : k < d.table_size) where
  abbrev after : Directory
  after = put_entry d k (new_entry name s)

  after-IsSized : IsSized after
  after-IsSized = length-set d.table k (new_entry name s) ∙ v

  room : k < length d.table
  room = omega (arith, v)

  matches-after :
      (other : List ℕ) (j : ℕ)
      → matches_at after.table other j
        ≡ (if j == k then same_name file_name_max_len name other else matches_at d.table other j)
  matches-after other j =
      test_entry-set (matches other) d.table k j (new_entry name s) room
      ∙ ap (λ (b : Bool). if j == k then b else matches_at d.table other j)
          (same_name-copy_name file_name_max_len name other)

  -- The new entry is the only one with its name.
  find_same :
      (other : List ℕ)
      → same_name file_name_max_len name other ≡ true
      → ((j : ℕ) → 0 ≤ j → j < 0 + d.table_size → matches_at d.table name j ≡ false)
      → find after other ≡ some s
  unfolding sector_at index_of
  find_same other same absent =
      let only : found after other ≡ some k =
        first-only (matches_at after.table other) d.table_size 0 k (omega arith) (omega arith)
          (λ j p q.
            matches-after other j
            ∙ ground (arith, absent j p q, matches-agree name other (get_elem? d.table j) same)) in
      find-at after other after-IsSized
      ∙ rw (only, get_elem?-set_self d.table k (new_entry name s) room) refl

  kept :
      (other : List ℕ) {o : Option ℕ}
      → matches_at d.table other k ≡ false
      → First (matches_at d.table other) d.table_size 0 o
      → sector_at after (index_of o) ≡ sector_at d (index_of o)
  unfolding sector_at index_of
  kept other e (missed all) = refl
  kept other e (found_at j p q hit) =
      rw (get_elem?-set_ne d.table k j (new_entry name s) (λ same. cc)) refl

  find_other :
      (other : List ℕ)
      → same_name file_name_max_len name other ≡ false
      → free_at d.table k ≡ true
      → find after other ≡ find d other
  find_other other differs free =
      let unmatched = free-unmatched other (get_elem? d.table k) free in
      let agree : found after other ≡ found d other =
        first-ext (matches_at after.table other) (matches_at d.table other) d.table_size 0
          (λ j p q. matches-after other j ∙ ground (arith, unmatched)) in
      find-at after other after-IsSized
      ∙ ap (λ (o : Option ℕ). sector_at after (index_of o)) agree
      ∙ kept other unmatched (first-First _ _ _)
      ∙ sym (find-at d other v)

  after_unique :
      ((j : ℕ) → matches_at d.table name j ≡ false)
      → ((other : List ℕ) (i j : ℕ)
          → matches_at d.table other i ≡ true
          → matches_at d.table other j ≡ true
          → i ≡ j)
      → (other : List ℕ) (i j : ℕ) → matches_at after.table other i ≡ true
      → matches_at after.table other j ≡ true
      → i ≡ j
  after_unique absent unique other i j hi hj =
      let agree = λ (q : ℕ). matches-agree name other (get_elem? d.table q) in
      ground (
        arith,
        sym (matches-after other i) ∙ hi,
        sym (matches-after other j) ∙ hj,
        absent i,
        absent j,
        agree i,
        agree j,
        unique other i j,
      )

pub matches-inside :
    (t : List DirectoryEntry) (name : List ℕ) (j : ℕ) → matches_at t name j ≡ true → j < length t
unfolding test_entry
matches-inside [] name j h = absurd cc
matches-inside (e ∷ t) name zero h = omega arith
matches-inside (e ∷ t) name (suc j) h = omega (arith, matches-inside t name j h)

absent_everywhere :
    (d : Directory) (name : List ℕ)
    → IsSized d
    → ((j : ℕ) → 0 ≤ j → j < 0 + d.table_size → matches_at d.table name j ≡ false)
    → (j : ℕ) → matches_at d.table name j ≡ false
absent_everywhere d name v absent j = elim (Bool-cases (matches_at d.table name j)) [
  | inl hit ↦ absent j (omega arith) (omega (arith, matches-inside d.table name j hit, v))
  | inr miss ↦ miss
]

-- What Add returns: FALSE and the old directory, when the name is there or every entry is in use;
-- else TRUE and a directory in which the new name has the new sector and others are as before.
pub data Addition (d : Directory) (name : List ℕ) (s : ℤ) : Bool × Directory → Type 0 where
  known : (i : ℕ) → find_index d name ≡ some (pos i) → Addition d name s (false, d)
  no_room :
      find_index d name ≡ some (negsuc 0)
      → ((j : ℕ) → 0 ≤ j → j < 0 + d.table_size → free_at d.table j ≡ false)
      → Addition d name s (false, d)
  entered :
      (d' : Directory)
      → find_index d name ≡ some (negsuc 0)
      → IsValid d'
      → ((other : List ℕ)
          → find d' other
            ≡ (if same_name file_name_max_len name other then some s else find d other))
      → Addition d name s (true, d')

added-Addition :
    (d : Directory) (name : List ℕ) (s : ℤ) {o : Option ℕ}
    → IsValid d
    → find_index d name ≡ some (negsuc 0)
    → ((j : ℕ) → 0 ≤ j → j < 0 + d.table_size → matches_at d.table name j ≡ false)
    → First (free_at d.table) d.table_size 0 o
    → Addition d name s (added d name s o)
unfolding added
added-Addition d name s v new absent (missed all) = no_room new all
added-Addition d name s v new absent (found_at k p q free) =
    let inside : k < d.table_size = omega arith in
    entered (put_entry d k (new_entry name s)) new
      (record {
        sized = after-IsSized d name s v.sized k inside;
        unique =
            after_unique d name s v.sized k inside (absent_everywhere d name v.sized absent)
              v.unique;
      })
      (λ other. elim (Bool-cases (same_name file_name_max_len name other)) [
        | inl same ↦ rw same (find_same d name s v.sized k inside other same absent)
        | inr differs ↦ rw differs (find_other d name s v.sized k inside other differs free)
      ])

add_found :
    (d : Directory) (name : List ℕ) (s : ℤ) {o : Option ℕ}
    → IsValid d
    → find_index d name ≡ some (index_of o)
    → First (matches_at d.table name) d.table_size 0 o
    → (r : Bool × Directory) × (add_at d name s (index_of o) ≡ some r) × Addition d name s r
unfolding add_at index_of
add_found d name s v e (missed absent) = (
  _,
  add_loop_lem d.table_size 0 d name s (omega (arith, v.sized)),
  added-Addition d name s v e absent (first-First _ _ _),
)
add_found d name s v e (found_at k p q hit) = ((false, d), refl, known k e)

-- Add to a directory whose table is complete and has no name twice reads no entry that is not
-- there; it returns FALSE and changes nothing when the name is there already or every entry is
-- in use, and else returns TRUE and leaves such a directory again, in which Find gives the new
-- sector for every name that agrees with the new one in its first nine characters and what it
-- gave before for every other name.
pub add-Addition :
    (d : Directory) (name : List ℕ) (s : ℤ)
    → IsValid d
    → (r : Bool × Directory) × (add d name s ≡ some r) × Addition d name s r
unfolding add
add-Addition d name s v =
    let e = find_index-found d name v.sized in
    let (r, ran, a) = add_found d name s v e (first-First _ _ _) in (r, rw (e, ran) refl, a)
