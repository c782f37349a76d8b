-- ===== src/Directory/Match.antt =====
-- `strncmp` and `strncpy` on file names, and which entries match a name.
use jalepenos.Base.{ℕ, zero, suc, ◌≡◌, refl, true, false, List, [], ◌∷◌, Option, none, some, arith}
use jalepenos.Directory.{DirectoryEntry, file_name_max_len, same_name, copy_name, matches}
use jalepenos.Directory.Search.{test_entry, is_free}

-- Names that agree with a third name alike.
pub same_name_trans :
    (n : ℕ) (a b c : List ℕ) → same_name n a b ≡ true → same_name n c a ≡ same_name n c b
unfolding same_name
same_name_trans zero a b c h = refl
same_name_trans (suc n) [] [] c h = refl
same_name_trans (suc n) (x ∷ a) (y ∷ b) [] h = refl
same_name_trans (suc n) [] (y ∷ b) c h = ground arith
same_name_trans (suc n) (x ∷ a) [] c h = ground arith
same_name_trans (suc n) (x ∷ a) (y ∷ b) (z ∷ c) h = ground (arith, same_name_trans n a b c)

pub same_name-copy_name : (n : ℕ) (a b : List ℕ) → same_name n (copy_name n a) b ≡ same_name n a b
unfolding same_name copy_name
same_name-copy_name zero a b = refl
same_name-copy_name (suc n) [] [] = refl
same_name-copy_name (suc n) [] (y ∷ b) = refl
same_name-copy_name (suc n) (x ∷ a) [] = refl
same_name-copy_name (suc n) (x ∷ a) (y ∷ b) = rw (same_name-copy_name n a b) refl

-- An entry matches two names alike when they agree.
pub matches-agree :
    (a b : List ℕ) (o : Option DirectoryEntry)
    → same_name file_name_max_len a b ≡ true
    → test_entry (matches a) o ≡ test_entry (matches b) o
unfolding test_entry
matches-agree a b none h = refl
matches-agree a b (some e) h = rw (same_name_trans file_name_max_len a b e.name h) refl

pub free-unmatched :
    (name : List ℕ) (o : Option DirectoryEntry)
    → test_entry is_free o ≡ true
    → test_entry (matches name) o ≡ false
unfolding test_entry
free-unmatched name none h = refl
free-unmatched name (some e) h = ground arith

same_name_comm : (n : ℕ) (a b : List ℕ) → same_name n a b ≡ same_name n b a
unfolding same_name
same_name_comm zero a b = refl
same_name_comm (suc n) [] [] = refl
same_name_comm (suc n) [] (y ∷ b) = refl
same_name_comm (suc n) (x ∷ a) [] = refl
same_name_comm (suc n) (x ∷ a) (y ∷ b) = ground (arith, same_name_comm n a b)

-- Of two names that differ an entry matches at most one.
pub matches-differ :
    (a b : List ℕ) (o : Option DirectoryEntry)
    → same_name file_name_max_len a b ≡ false
    → test_entry (matches a) o ≡ true
    → test_entry (matches b) o ≡ false
unfolding test_entry
matches-differ a b none h m = refl
matches-differ a b (some e) h m =
    let agree = same_name_trans file_name_max_len e.name a b in
    ground (
      arith,
      agree,
      same_name_comm file_name_max_len b e.name,
      same_name_comm file_name_max_len a b,
    )
