-- ===== src/Directory/Removal.antt =====
-- What Find gives after Remove, and the empty directory.
use jalepenos.Base.{
  ℕ, ◌≡◌, refl, ap, sym, ◌∙◌, inl, inr, Bool, true, false, List, Option, none, some, ◌==◌,
  if◌then◌else◌, arith, get_elem?, Bool-cases, get_elem?-some, get_elem?-set_ne, length-set,
  get_elem?-lt,
}
use jalepenos.Base.Int.{pos, negsuc}
use jalepenos.Directory.{
  Directory, DirectoryEntry, file_name_max_len, same_name, matches, put_entry, find_index,
  sector_at, find, remove_at, remove,
}
use jalepenos.Directory.Search.{
  first, first-ext, First, missed, found_at, first-First, matches_at, index_of, test_entry-set,
}
use jalepenos.Directory.Names.{IsSized, IsValid, found, find_index-found, find-at}
use jalepenos.Directory.Match.{matches-agree, matches-differ}

First-none :
    (f : ℕ → Bool) (n i : ℕ) {o : Option ℕ} → ((j : ℕ) → f j ≡ false) → First f n i o → o ≡ none
First-none f n i all (missed h) = refl
First-none f n i all (found_at k p q e) = ground (arith, all k)

first-none : (f : ℕ → Bool) (n i : ℕ) → ((j : ℕ) → f j ≡ false) → first f n i ≡ none
first-none f n i all = First-none f n i all (first-First f n i)

module _ (d : Directory) (name : List ℕ) (v : IsValid d) (k : ℕ) (e : DirectoryEntry)
    (at : get_elem? d.table k ≡ some e) (hit : matches_at d.table name k ≡ true) where
  abbrev after : Directory
  after = put_entry d k (record e { in_use = false })

  after-IsSized : IsSized after
  after-IsSized = length-set d.table k (record e { in_use = false }) ∙ v.sized

  matches-after :
      (other : List ℕ) (j : ℕ)
      → matches_at after.table other j ≡ (if j == k then false else matches_at d.table other j)
  matches-after other j =
      test_entry-set (matches other) d.table k j (record e { in_use = false })
        (get_elem?-lt d.table k at)

  after-IsValid : IsValid after
  after-IsValid = record {
    sized = after-IsSized;
    unique = λ other i j hi hj. ground (
      arith,
      sym (matches-after other i) ∙ hi,
      sym (matches-after other j) ∙ hj,
      v.unique other i j,
    );
  }

  find_same :
      (other : List ℕ)
      → same_name file_name_max_len name other ≡ true
      → find after other ≡ some (negsuc 0)
  unfolding sector_at index_of
  find_same other same =
      let hit' : matches_at d.table other k ≡ true =
        sym (matches-agree name other (get_elem? d.table k) same) ∙ hit in
      let gone : found after other ≡ none =
        first-none (matches_at after.table other) d.table_size 0
          (λ j. ground (arith, matches-after other j, v.unique other j k)) in
      find-at after other after-IsSized ∙ rw gone refl

  kept :
      (other : List ℕ) {o : Option ℕ}
      → matches_at d.table other k ≡ false
      → First (matches_at d.table other) d.table_size 0 o
      → sector_at after (index_of o) ≡ sector_at d (index_of o)
  unfolding sector_at index_of
  kept other miss (missed all) = refl
  kept other miss (found_at j p q h) =
      rw (get_elem?-set_ne d.table k j (record e { in_use = false }) (λ same. cc)) refl

  find_other :
      (other : List ℕ)
      → same_name file_name_max_len name other ≡ false
      → find after other ≡ find d other
  find_other other differs =
      let miss = matches-differ name other (get_elem? d.table k) differs hit in
      let agree : found after other ≡ found d other =
        first-ext (matches_at after.table other) (matches_at d.table other) d.table_size 0
          (λ j p q. matches-after other j ∙ ground (arith, miss)) in
      find-at after other after-IsSized
      ∙ ap (λ (o : Option ℕ). sector_at after (index_of o)) agree
      ∙ kept other miss (first-First _ _ _)
      ∙ sym (find-at d other v.sized)

-- What Remove returns: FALSE and the old directory, when the name is not there; else TRUE and a
-- directory without the name.
pub data Removal (d : Directory) (name : List ℕ) : Bool × Directory → Type 0 where
  unknown : find_index d name ≡ some (negsuc 0) → Removal d name (false, d)
  removed :
      (i : ℕ) (d' : Directory)
      → find_index d name ≡ some (pos i)
      → IsValid d'
      → ((other : List ℕ)
          → find d' other
            ≡ (if same_name file_name_max_len name other then some (negsuc 0) else find d other))
      → Removal d name (true, d')

remove_found :
    (d : Directory) (name : List ℕ) {o : Option ℕ}
    → IsValid d
    → find_index d name ≡ some (index_of o)
    → First (matches_at d.table name) d.table_size 0 o
    → (r : Bool × Directory) × (remove_at d (index_of o) ≡ some r) × Removal d name r
unfolding remove_at index_of
remove_found d name v e (missed absent) = ((false, d), refl, unknown e)
remove_found d name v e (found_at k p q hit) =
    let (entry, at) = get_elem?-some d.table k (omega (arith, v.sized)) in
    (
      (true, put_entry d k (record entry { in_use = false })),
      rw at refl,
      removed k _ e (after-IsValid d name v k entry at hit) (λ other.
          elim (Bool-cases (same_name file_name_max_len name other)) [
            | inl same ↦ rw same (find_same d name v k entry at hit other same)
            | inr differs ↦ rw differs (find_other d name v k entry at hit other differs)
          ]),
    )

-- Remove from a directory whose table is complete and has no name twice reads no entry that is
-- not there; it returns FALSE and changes nothing when the name is not there, and else returns
-- TRUE and leaves such a directory again, in which Find gives -1 for every name that agrees with
-- the removed one in its first nine characters and what it gave before for every other name.
pub remove-Removal :
    (d : Directory) (name : List ℕ)
    → IsValid d
    → (r : Bool × Directory) × (remove d name ≡ some r) × Removal d name r
unfolding remove
remove-Removal d name v =
    let e = find_index-found d name v.sized in
    let (r, ran, a) = remove_found d name v e (first-First _ _ _) in (r, rw (e, ran) refl, a)
