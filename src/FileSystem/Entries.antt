-- ===== src/FileSystem/Entries.antt =====
-- The table of a directory comes back from its bytes.
use jalepenos.Base.{
  ℕ, zero, suc, ◌+◌, ◌-◌, ◌*◌, ◌/◌, ◌%◌, ◌≤◌, ◌<◌, ◌≡◌, refl, ◌∙◌, ap, Bool, true, false, not, List,
  [], ◌∷◌, ltb, ◌==◌, if◌then◌else◌, arith, length, get_or,
}
use jalepenos.Base.Int.{ℤ}
use jalepenos.Machine.Words.Signs.{to_int}
use jalepenos.Machine.Translate.{to_unsigned}
use jalepenos.Directory.{DirectoryEntry}
use jalepenos.FileSystem.Layout.{
  int_byte, int_of, entry_byte, table_bytes, name_of, entry_of, entries_of,
}
use jalepenos.FileSystem.Words.{int_of-bytes, Fits, to_unsigned-small}

-- The characters before a NUL.
abbrev pub HasNoNul : List ℕ → Type 0
HasNoNul [] = Unit
HasNoNul (c ∷ cs) = (0 < c) × HasNoNul cs

-- A name of nine characters at most, and a sector that fits an int.
pub record IsStorable (e : DirectoryEntry) : Type 0 where
  pub sector : Fits e.sector
  pub short : length e.name ≤ 9
  pub no_nul : HasNoNul e.name

name_of-bytes :
    (cs : List ℕ) (n p : ℕ) (b : ℕ → ℕ)
    → length cs ≤ n
    → HasNoNul cs
    → ((k : ℕ) → k < n → b (p + k) ≡ get_or cs k 0)
    → name_of n b p ≡ cs
unfolding name_of
name_of-bytes [] zero p b short no_nul h = refl
name_of-bytes [] (suc n) p b short no_nul h =
    let start : p ≡ p + 0 = omega arith in
    let ends : b p ≡ 0 = ap b start ∙ h 0 (omega arith) in rw ends refl
name_of-bytes (c ∷ cs) zero p b short no_nul h = absurd (omega (arith, short))
name_of-bytes (c ∷ cs) (suc n) p b short (some_char, no_nul) h =
    let start : p ≡ p + 0 = omega arith in
    let is : b p ≡ c = ap b start ∙ h 0 (omega arith) in
    let goes_on : (c == 0) ≡ false = ground arith in
    let rest : name_of n b (suc p) ≡ cs =
      name_of-bytes cs n (suc p) b (omega (arith, short)) no_nul (λ k lt.
        let place : suc p + k ≡ p + suc k = omega arith in
        ap b place ∙ h (suc k) (omega (arith, lt))) in
    rw (is, goes_on, rest) refl

entry_parts :
    (e : DirectoryEntry) (u : Bool) (z : ℤ) (cs : List ℕ)
    → u ≡ e.in_use
    → z ≡ e.sector
    → cs ≡ e.name
    → record { in_use = u; sector = z; name = cs } ≡ e
entry_parts e u z cs a b c = rw (a, b, c) refl

used_back : (u : Bool) → not ((if u then 1 else 0) == 0) ≡ u
used_back true = refl
used_back false = refl

entry_of-bytes :
    (e : DirectoryEntry) (b : ℕ → ℕ) (p : ℕ)
    → IsStorable e
    → ((k : ℕ) → k < 20 → b (p + k) ≡ entry_byte e k)
    → entry_of b p ≡ e
unfolding entry_of entry_byte
entry_of-bytes e b p v h =
    let start : p ≡ p + 0 = omega arith in
    let used : b p ≡ (if e.in_use then 1 else 0) = ap b start ∙ h 0 (omega arith) in
    let sector : int_of b (p + 4) ≡ to_unsigned e.sector =
      int_of-bytes b (p + 4) (to_unsigned e.sector) (to_unsigned-small e.sector) (λ k lt.
        let place : p + 4 + k ≡ p + (4 + k) = omega arith in
        let index : 4 + k - 4 ≡ k = omega arith in
        ap b place
        ∙ h (4 + k) (omega (arith, lt))
        ∙ sector_byte k lt
        ∙ ap (int_byte (to_unsigned e.sector)) index) in
    let name : name_of 9 b (p + 8) ≡ e.name =
      name_of-bytes e.name 9 (p + 8) b v.short v.no_nul (λ k lt.
        let place : p + 8 + k ≡ p + (8 + k) = omega arith in
        let index : 8 + k - 8 ≡ k = omega arith in
        ap b place
        ∙ h (8 + k) (omega (arith, lt))
        ∙ name_byte k
        ∙ ap (λ (i : ℕ). get_or e.name i 0) index) in
    entry_parts e _ _ _ (ap (λ (x : ℕ). not (x == 0)) used ∙ used_back e.in_use)
      (ap to_int sector ∙ v.sector) name
  where
    sector_byte :
        (k : ℕ) → k < 4 → entry_byte e (4 + k) ≡ int_byte (to_unsigned e.sector) (4 + k - 4)
    sector_byte k lt =
        let a : (4 + k == 0) ≡ false = ground arith in
        let c : ltb (4 + k) 4 ≡ false = ground arith in
        let d : ltb (4 + k) 8 ≡ true = ground arith in rw (a, c, d) refl

    name_byte : (k : ℕ) → entry_byte e (8 + k) ≡ get_or e.name (8 + k - 8) 0
    name_byte k =
        let a : (8 + k == 0) ≡ false = ground arith in
        let c : ltb (8 + k) 4 ≡ false = ground arith in
        let d : ltb (8 + k) 8 ≡ false = ground arith in rw (a, c, d) refl

table_bytes-head :
    (e : DirectoryEntry) (k : ℕ) (t : List DirectoryEntry)
    → k < 20
    → table_bytes (e ∷ t) k ≡ entry_byte e k
unfolding table_bytes
table_bytes-head e k t lt =
    let first : k / 20 ≡ 0 = omega arith in
    let same : k % 20 ≡ k = omega arith in rw (first, same) refl

table_bytes-tail :
    (e : DirectoryEntry) (q : ℕ) (t : List DirectoryEntry)
    → table_bytes (e ∷ t) (20 + q) ≡ table_bytes t q
unfolding table_bytes
table_bytes-tail e q t =
    let next : (20 + q) / 20 ≡ suc (q / 20) = omega arith in
    let same : (20 + q) % 20 ≡ q % 20 = omega arith in rw (next, same) refl

abbrev pub AreStorable : List DirectoryEntry → Type 0
AreStorable [] = Unit
AreStorable (e ∷ t) = IsStorable e × AreStorable t

pub entries_of-bytes :
    (t : List DirectoryEntry) (i : ℕ) (b : ℕ → ℕ)
    → AreStorable t
    → ((q : ℕ) → q < 20 * length t → b (20 * i + q) ≡ table_bytes t q)
    → entries_of (length t) i b ≡ t
unfolding entries_of
entries_of-bytes [] i b v h = refl
entries_of-bytes (e ∷ t) i b (ve, vt) h =
    let head : entry_of b (20 * i) ≡ e =
      entry_of-bytes e b (20 * i) ve
        (λ k lt. h k (omega (arith, lt)) ∙ table_bytes-head e k t lt) in
    let tail : entries_of (length t) (suc i) b ≡ t = entries_of-bytes t (suc i) b vt (λ q lt.
      let place : 20 * suc i + q ≡ 20 * i + (20 + q) = omega arith in
      ap b place ∙ h (20 + q) (omega (arith, lt)) ∙ table_bytes-tail e q t) in
    rw (head, tail) refl
