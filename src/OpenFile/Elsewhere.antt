-- ===== src/OpenFile/Elsewhere.antt =====
-- `WriteAt` changes no sector but those of its file.
use jalepenos.Base.{
  ℕ, zero, suc, ◌+◌, ◌-◌, ◌*◌, ◌/◌, ◌<◌, ◌≡◌, ◌≢◌, refl, sym, ◌∙◌, ap, not, ◌&&◌, ◌||◌, Option,
  none, some, ltb, ◌==◌, ==_iff, if◌then◌else◌, ◌>>=◌, arith, inl, inr, Bool-cases, Option-cases,
  get_elem?,
}
use jalepenos.Base.Int.{ℤ, pos, negsuc}
use jalepenos.Disk.{num_sectors}
use jalepenos.FileHeader.{FileHeader, sector_size, byte_to_sector, file_length}
use jalepenos.OpenFile.{
  OpenFile, Sectors, copy_bytes, in_file, is_refused, is_too_long, read_at, write_sector,
  write_loop, write_at,
}
use jalepenos.OpenFile.Requests.{served_fits, sum_int}

-- The operation fails, or its result satisfies a predicate.
abbrev pub Whenever {ℓ} : {A : Type ℓ} → (A → Type 0) → Option A → Type 0
Whenever P none = Unit
Whenever P (some a) = P a

pub bind-Whenever {ℓ κ} :
    {A : Type ℓ} {B : Type κ} (Q : A → Type 0) (P : B → Type 0) (x : Option A) (f : A → Option B)
    → Whenever Q x
    → ((a : A) → Q a → Whenever P (f a))
    → Whenever P (x >>= f)
bind-Whenever Q P none f q h = tt
bind-Whenever Q P (some a) f q h = h a q

pub any-Whenever {ℓ κ} :
    {A : Type ℓ} {B : Type κ} (P : B → Type 0) (x : Option A) (f : A → Option B)
    → ((a : A) → Whenever P (f a))
    → Whenever P (x >>= f)
any-Whenever P none f h = tt
any-Whenever P (some a) f h = h a

-- Sector `s` is none of the file's.
abbrev pub IsApart : FileHeader → ℕ → Type 0
IsApart h s = (i : ℕ) → i * 128 < h.num_bytes → get_elem? h.data_sectors i ≢ some (pos s)

abbrev pub Untouched : ℕ → Sectors → Sectors → Type 0
Untouched s d d1 = (o : ℕ) → d1 s o ≡ d s o

write_sector-Untouched :
    (d : Sectors) (z : ℤ) (bytes : ℕ → ℕ) (s : ℕ)
    → z ≢ pos s
    → Whenever (Untouched s d) (write_sector d z bytes)
unfolding write_sector
write_sector-Untouched d (negsuc n) bytes s ne = tt
write_sector-Untouched d (pos t) bytes s ne = elim (Bool-cases (ltb t num_sectors)) [
  | inl inside ↦ rw inside λ o. elim (Bool-cases (s == t)) [
    | inl same ↦ absurd (ne (ap pos (sym ((==_iff s t).0 same))))
    | inr other ↦ rw other refl
  ]
  | inr outside ↦ rw outside tt
]

module _ (h : FileHeader) (s : ℕ) (apart : IsApart h s) where
  sector_apart :
      (i : ℕ)
      → i * 128 < h.num_bytes
      → Whenever (λ z. z ≢ pos s) (byte_to_sector h (i * sector_size))
  unfolding byte_to_sector
  sector_apart i lt =
      let same : i * 128 / 128 ≡ i = omega arith in
      elim (Option-cases (get_elem? h.data_sectors i)) [
        | inl out ↦ rw (same, out) tt
        | inr (z, at) ↦ rw (same, at) (λ e. absurd (apart i lt (at ∙ ap some e)))
      ]

  write_loop-Untouched :
      (n i first : ℕ) (buf : ℕ → ℕ) (d : Sectors)
      → (i + n) * 128 < h.num_bytes + 128
      → Whenever (Untouched s d) (write_loop n i first h buf d)
  unfolding write_loop
  write_loop-Untouched zero i first buf d fits = λ o. refl
  write_loop-Untouched (suc n) i first buf d fits =
      bind-Whenever (λ z. z ≢ pos s) (Untouched s d) _ _ (sector_apart i (omega (arith, fits)))
        (λ z ne.
          bind-Whenever (Untouched s d) (Untouched s d) _ _ (write_sector-Untouched d z _ s ne)
            (λ d1 here.
              chain d d1 _ here
                (write_loop-Untouched n (suc i) first buf d1 (omega (arith, fits)))))
    where
      chain :
          (d d1 : Sectors) (r : Option Sectors)
          → Untouched s d d1
          → Whenever (Untouched s d1) r
          → Whenever (Untouched s d) r
      chain d d1 none here later = tt
      chain d d1 (some d2) here later = λ o. later o ∙ here o

  -- The same, after two steps that give no disk.
  after_reads :
      {A : Type 0} (x : Option A) (y : A → Option A) (n i first size : ℕ) (buf : A → ℕ → ℕ)
      (d : Sectors)
      → (i + n) * 128 < h.num_bytes + 128
      → Whenever
          (λ (m, d1). Untouched s d d1)
          (x >>= λ r1. y r1 >>= λ r2. write_loop n i first h (buf r2) d >>= λ d1. some (size, d1))
  after_reads x y n i first size buf d fits =
      let P : ℕ × Sectors → Type 0 = λ (m, d1). Untouched s d d1 in
      any-Whenever P x
        (λ r1. y r1 >>= λ r2. write_loop n i first h (buf r2) d >>= λ d1. some (size, d1))
        (λ r1.
          any-Whenever P (y r1) (λ r2. write_loop n i first h (buf r2) d >>= λ d1. some (size, d1))
            (λ r2.
              bind-Whenever (Untouched s d) P (write_loop n i first h (buf r2) d)
                (λ d1. some (size, d1)) (write_loop-Untouched n i first (buf r2) d fits)
                (λ d1 u. u)))

pub write_at-Untouched :
    (f : OpenFile) (s : ℕ) (d : Sectors) (garbage from : ℕ → ℕ) (num_bytes position : ℕ)
    → IsApart f.hdr s
    → Whenever (λ (n, d1). Untouched s d d1) (write_at f d garbage from num_bytes position)
unfolding write_at file_length
write_at-Untouched f s d garbage from num_bytes position apart =
    elim (Bool-cases (is_refused f.hdr.num_bytes num_bytes position)) [
      | inl refused ↦ rw refused (λ o. refl)
      | inr go ↦
          elim (Bool-cases (is_too_long (in_file f.hdr.num_bytes num_bytes position) position)) [
            | inl long ↦ rw (go, long) tt
            | inr short ↦
                let n = in_file f.hdr.num_bytes num_bytes position in
                let (some_bytes, fits) =
                  served_fits f.hdr.num_bytes num_bytes position go
                    (sum_int f.hdr.num_bytes num_bytes position short) in
                let first = position / 128 in
                let last = (position + n - 1) / 128 in
                let first_aligned = position == first * 128 in
                let last_aligned = (position + n) == (last + 1) * 128 in
                let head = read_at f d garbage garbage 0 128 (first * 128) in
                rw (go, short)
                  (after_reads f.hdr s apart {A = ℕ × (ℕ → ℕ)}
                    (if first_aligned then some (0, garbage) else head)
                    (λ (m1, buf1).
                      if not last_aligned && (not (first == last) || first_aligned)
                      then read_at f d garbage buf1 ((last - first) * 128) 128 (last * 128)
                      else some (0, buf1))
                    (1 + last - first) first first n
                    (λ (m2, buf2). copy_bytes buf2 (position - first * 128) from 0 n) d
                    (omega (arith, some_bytes, fits)))
          ]
    ]
