-- ===== src/OpenFile/Bytes.antt =====
-- A file as the sequence of its bytes, wherever its sectors are: what the loops over sectors do.
use jalepenos.Base.{
  ℕ, zero, suc, ◌+◌, ◌-◌, ◌*◌, ◌/◌, ◌%◌, ◌≤◌, ◌<◌, ◌≡◌, refl, ◌∙◌, ap, subst, true, false, ◌&&◌,
  Option, none, some, ltb, leb, ◌==◌, ==_iff, if◌then◌else◌, update, arith, inl, inr, Bool-cases,
  get_elem?,
}
use jalepenos.Base.Int.{pos}
use jalepenos.FileHeader.{FileHeader, sector_size, byte_to_sector}
use jalepenos.Disk.{num_sectors}
use jalepenos.OpenFile.{Sectors, read_sector, write_sector, copy_bytes, read_loop, write_loop}

-- Sector `i` of the file is sector `at i` of the disk, as far as the file goes.
pub record IsMapped (h : FileHeader) (at : ℕ → ℕ) : Type 0 where
  pub stored : (i : ℕ) → i * 128 < h.num_bytes → get_elem? h.data_sectors i ≡ some (pos (at i))
  pub on_disk : (i : ℕ) → i * 128 < h.num_bytes → at i < num_sectors
  pub apart : (i j : ℕ) → i * 128 < h.num_bytes → j * 128 < h.num_bytes → at i ≡ at j → i ≡ j

-- Byte `p` of the file.
abbrev pub byte_of : (ℕ → ℕ) → Sectors → ℕ → ℕ
byte_of at d p = d (at (p / 128)) (p % 128)

-- The loop has given a buffer that satisfies a predicate.
abbrev pub Gives {ℓ} : {A : Type ℓ} → (A → Type 0) → Option A → Type 0
Gives P none = ⊥
Gives P (some a) = P a

by_sector :
    (s first k n x y z : ℕ)
    → x ≡ (if s == first + k then y else z)
    → (if leb (first + suc k) s && ltb s (first + suc k + n) then y else x)
      ≡ (if leb (first + k) s && ltb s (first + k + suc n) then y else z)
by_sector s first k n x y z h = elim (Bool-cases (s == first + k)) [
  | inl same ↦ ground arith
  | inr other ↦ ground arith
]

module _ (h : FileHeader) (at : ℕ → ℕ) (mapped : IsMapped h at) where
  sector_there :
      (i : ℕ) → i * 128 < h.num_bytes → byte_to_sector h (i * sector_size) ≡ some (pos (at i))
  unfolding byte_to_sector
  sector_there i lt = let same : i * 128 / 128 ≡ i = omega arith in rw same (mapped.stored i lt)

  read_there :
      (d : Sectors) (i : ℕ) → i * 128 < h.num_bytes → read_sector d (pos (at i)) ≡ some (d (at i))
  unfolding read_sector
  read_there d i lt = ground (arith, mapped.on_disk i lt)

  -- Sectors `first + k` to `first + k + n` of the file are in the buffer from byte `k * 128` on.
  abbrev HasRead : Sectors → ℕ → ℕ → ℕ → (ℕ → ℕ) → (ℕ → ℕ) → Type 0
  HasRead d first k n buf buf1 =
      (q : ℕ)
      → buf1 q ≡ (
          if leb (k * 128) q && ltb q ((k + n) * 128)
          then byte_of at d (first * 128 + q)
          else buf q)

  in_sector :
      (d : Sectors) (first k q : ℕ)
      → k * 128 ≤ q
      → q < k * 128 + 128
      → d (at (first + k)) (0 + (q - k * 128)) ≡ byte_of at d (first * 128 + q)
  in_sector d first k q low high =
      let s : first + k ≡ (first * 128 + q) / 128 = omega arith in
      let o : 0 + (q - k * 128) ≡ (first * 128 + q) % 128 = omega arith in rw (s, o) refl

  pick :
      (d : Sectors) (first k n : ℕ) (buf : ℕ → ℕ) (q : ℕ)
      → (if leb (suc k * 128) q && ltb q ((suc k + n) * 128)
          then byte_of at d (first * 128 + q)
          else copy_bytes buf (k * 128) (d (at (first + k))) 0 128 q)
        ≡ (if leb (k * 128) q && ltb q ((k + suc n) * 128)
            then byte_of at d (first * 128 + q)
            else buf q)
  unfolding copy_bytes
  pick d first k n buf q = elim (Bool-cases (leb (k * 128) q && ltb q (k * 128 + 128))) [
    | inl inside ↦
        let low : k * 128 ≤ q = ground arith in
        let high : q < k * 128 + 128 = ground arith in
        let e1 : (leb (suc k * 128) q && ltb q ((suc k + n) * 128)) ≡ false = ground arith in
        let e2 : (leb (k * 128) q && ltb q ((k + suc n) * 128)) ≡ true = ground arith in
        rw (e1, e2, inside) (in_sector d first k q low high)
    | inr other ↦
        let e : (leb (suc k * 128) q && ltb q ((suc k + n) * 128))
            ≡ (leb (k * 128) q && ltb q ((k + suc n) * 128)) =
          ground arith in
        rw (e, other) refl
  ]

  one_more :
      (d : Sectors) (first k n : ℕ) (buf : ℕ → ℕ) (o : Option (ℕ → ℕ))
      → Gives (HasRead d first (suc k) n (copy_bytes buf (k * 128) (d (at (first + k))) 0 128)) o
      → Gives (HasRead d first k (suc n) buf) o
  unfolding copy_bytes
  one_more d first k n buf none g = g
  one_more d first k n buf (some buf1) g = λ q. g q ∙ pick d first k n buf q

  read_loop-HasRead :
      (n k first : ℕ) (d : Sectors) (buf : ℕ → ℕ)
      → (first + k + n) * 128 < h.num_bytes + 128
      → Gives (HasRead d first k n buf) (read_loop n (first + k) first h d buf)
  unfolding read_loop
  read_loop-HasRead zero k first d buf fits = λ q. ground arith
  read_loop-HasRead (suc n) k first d buf fits =
      let lt : (first + k) * 128 < h.num_bytes = omega arith in
      let index : first + k - first ≡ k = omega arith in
      let next : suc (first + k) ≡ first + suc k = omega arith in
      rw (sector_there (first + k) lt, read_there d (first + k) lt, index, next)
        (one_more d first k n buf _ (read_loop-HasRead n (suc k) first d _ (omega arith)))

  from_zero :
      (n first : ℕ) (d : Sectors) (buf : ℕ → ℕ) (o : Option (ℕ → ℕ))
      → Gives (HasRead d first 0 n buf) o
      → Gives
          (λ buf1.
            (q : ℕ) → buf1 q ≡ (if ltb q (n * 128) then byte_of at d (first * 128 + q) else buf q))
          o
  from_zero n first d buf none g = g
  from_zero n first d buf (some buf1) g = λ q. g q ∙ ground arith

  write_there :
      (d : Sectors) (i : ℕ) (bytes : ℕ → ℕ)
      → i * 128 < h.num_bytes
      → write_sector d (pos (at i)) bytes ≡ some (update d (at i) bytes)
  unfolding write_sector
  write_there d i bytes lt = ground (arith, mapped.on_disk i lt)

  -- Sectors `first + k` to `first + k + n` of the file are written from byte `k * 128` of the buffer on.
  abbrev HasWritten : Sectors → ℕ → ℕ → ℕ → (ℕ → ℕ) → Sectors → Type 0
  HasWritten d first k n buf d1 =
      (p : ℕ)
      → p < h.num_bytes
      → byte_of at d1 p ≡ (
          if leb (first + k) (p / 128) && ltb (p / 128) (first + k + n)
          then buf (p - first * 128)
          else byte_of at d p)

  differ_at :
      (i j : ℕ)
      → i * 128 < h.num_bytes
      → j * 128 < h.num_bytes
      → (i == j) ≡ false
      → (at i == at j) ≡ false
  differ_at i j hi hj other = elim (Bool-cases (at i == at j)) [
    | inl same ↦
        absurd (cc (other, (==_iff i j).1 (mapped.apart i j hi hj ((==_iff (at i) (at j)).0 same))))
    | inr differ ↦ differ
  ]

  written_one :
      (d : Sectors) (first k p : ℕ) (buf : ℕ → ℕ)
      → (first + k) * 128 < h.num_bytes
      → p < h.num_bytes
      → byte_of at (update d (at (first + k)) (λ o. buf (k * 128 + o))) p
        ≡ (if p / 128 == first + k then buf (p - first * 128) else byte_of at d p)
  written_one d first k p buf lt here = elim (Bool-cases (p / 128 == first + k)) [
    | inl same ↦
        let s : p / 128 ≡ first + k = (==_iff (p / 128) (first + k)).0 same in
        let o : k * 128 + p % 128 ≡ p - first * 128 = omega arith in
        let self : (at (p / 128) == at (first + k)) ≡ true =
          (==_iff (at (p / 128)) (at (first + k))).1 (ap at s) in
        rw (self, same, o) refl
    | inr other ↦
        let differ : (at (p / 128) == at (first + k)) ≡ false =
          differ_at (p / 128) (first + k) (omega arith) lt other in
        rw (differ, other) refl
  ]

  write_more :
      (d : Sectors) (first k n : ℕ) (buf : ℕ → ℕ) (o : Option Sectors)
      → (first + k) * 128 < h.num_bytes
      → Gives
          (HasWritten (update d (at (first + k)) (λ q. buf (k * 128 + q))) first (suc k) n buf)
          o
      → Gives (HasWritten d first k (suc n) buf) o
  write_more d first k n buf none lt g = g
  write_more d first k n buf (some d1) lt g = λ p here.
      let w = written_one d first k p buf lt here in
      g p here ∙ by_sector (p / 128) first k n _ (buf (p - first * 128)) (byte_of at d p) w

  write_loop-HasWritten :
      (n k first : ℕ) (buf : ℕ → ℕ) (d : Sectors)
      → (first + k + n) * 128 < h.num_bytes + 128
      → Gives (HasWritten d first k n buf) (write_loop n (first + k) first h buf d)
  unfolding write_loop
  write_loop-HasWritten zero k first buf d fits = λ p here. ground arith
  write_loop-HasWritten (suc n) k first buf d fits =
      let lt : (first + k) * 128 < h.num_bytes = omega arith in
      let index : first + k - first ≡ k = omega arith in
      let next : suc (first + k) ≡ first + suc k = omega arith in
      rw
        (
          sector_there (first + k) lt,
          write_there d (first + k) (λ o. buf ((first + k - first) * 128 + o)) lt,
          index,
          next,
        )
        (write_more d first k n buf _ lt
          (write_loop-HasWritten n (suc k) first buf _ (omega arith)))

  -- The whole loop of ReadAt, and that of WriteAt.
  pub read_sectors :
      (n first : ℕ) (d : Sectors) (buf : ℕ → ℕ)
      → (first + n) * 128 < h.num_bytes + 128
      → Gives
          (λ buf1.
            (q : ℕ) → buf1 q ≡ (if ltb q (n * 128) then byte_of at d (first * 128 + q) else buf q))
          (read_loop n first first h d buf)
  read_sectors n first d buf fits =
      let same : first + 0 ≡ first = omega arith in
      from_zero n first d buf _ (
        subst (λ i. Gives (HasRead d first 0 n buf) (read_loop n i first h d buf)) same
          (read_loop-HasRead n 0 first d buf (omega arith)))

  pub write_sectors :
      (n first : ℕ) (buf : ℕ → ℕ) (d : Sectors)
      → (first + n) * 128 < h.num_bytes + 128
      → Gives
          (λ d1.
            (p : ℕ)
            → p < h.num_bytes
            → byte_of at d1 p ≡ (
                if leb first (p / 128) && ltb (p / 128) (first + n)
                then buf (p - first * 128)
                else byte_of at d p))
          (write_loop n first first h buf d)
  write_sectors n first buf d fits =
      let same : first + 0 ≡ first = omega arith in
      subst
        (λ i.
          Gives
            (λ d1.
              (p : ℕ)
              → p < h.num_bytes
              → byte_of at d1 p ≡ (
                  if leb i (p / 128) && ltb (p / 128) (i + n)
                  then buf (p - first * 128)
                  else byte_of at d p))
            (write_loop n i first h buf d))
        same (write_loop-HasWritten n 0 first buf d (omega arith))
