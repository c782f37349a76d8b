-- ===== src/OpenFile/Requests.antt =====
-- `ReadAt` and `WriteAt` against the bytes of the file.
use jalepenos.Base.{
  ℕ, ◌+◌, ◌-◌, ◌*◌, ◌/◌, ◌^◌, ◌≤◌, ◌<◌, ◌≡◌, refl, true, false, ◌&&◌, Option, none, some, ltb, leb,
  if◌then◌else◌, ◌>>=◌, arith, inl, inr, Bool-cases,
}
use jalepenos.FileHeader.{file_length}
use jalepenos.OpenFile.{OpenFile, Sectors, copy_bytes, in_file, is_refused, is_too_long, read_at}
use jalepenos.OpenFile.Bytes.{IsMapped, byte_of, Gives, read_sectors}

-- How many bytes a request gets.
abbrev pub served : ℕ → ℕ → ℕ → ℕ
served length num_bytes position =
    if is_refused length num_bytes position then 0 else in_file length num_bytes position

-- `n` bytes of the file, from `position` on, are in memory from `base` on, and the rest is as it was.
pub record IsRead (at : ℕ → ℕ) (d : Sectors) (to : ℕ → ℕ) (base n position : ℕ)
    (result : ℕ × (ℕ → ℕ)) : Type 0 where
  pub count : result.0 ≡ n
  pub bytes :
      (q : ℕ)
      → result.1 q
        ≡ (if leb base q && ltb q (base + n) then byte_of at d (position + (q - base)) else to q)

pub served_fits :
    (len num position : ℕ)
    → is_refused len num position ≡ false
    → position + num < 2 ^ 31
    → (0 < in_file len num position) × (position + in_file len num position ≤ len)
served_fits len num position go int = (ground arith, ground arith)

pub sum_int :
    (len num position : ℕ)
    → is_too_long (in_file len num position) position ≡ false
    → position + num < 2 ^ 31
sum_int len num position short = ground arith

pub fits_int :
    (len num position : ℕ)
    → is_refused len num position ≡ false
    → position + num < 2 ^ 31
    → is_too_long (in_file len num position) position ≡ false
fits_int len num position go int = ground arith

copied :
    (at : ℕ → ℕ) (d : Sectors) (buf garbage to : ℕ → ℕ) (base n position rounds : ℕ)
    → ((q : ℕ)
        → buf q
          ≡ (if ltb q (rounds * 128) then byte_of at d (position / 128 * 128 + q) else garbage q))
    → position - position / 128 * 128 + n ≤ rounds * 128
    → (q : ℕ)
    → copy_bytes to base buf (position - position / 128 * 128) n q
      ≡ (if leb base q && ltb q (base + n) then byte_of at d (position + (q - base)) else to q)
unfolding copy_bytes
copied at d buf garbage to base n position rounds read fits q =
    elim (Bool-cases (leb base q && ltb q (base + n))) [
      | inl inside ↦
          let x = position - position / 128 * 128 + (q - base) in
          let short : ltb x (rounds * 128) ≡ true = ground arith in
          let is : position / 128 * 128 + x ≡ position + (q - base) = omega arith in
          rw (inside, read x, short, is) refl
      | inr outside ↦ rw outside refl
    ]

module _ (f : OpenFile) (at : ℕ → ℕ) (mapped : IsMapped f.hdr at) where
  copied_out :
      (d : Sectors) (garbage to : ℕ → ℕ) (base n position rounds : ℕ) (o : Option (ℕ → ℕ))
      → position - position / 128 * 128 + n ≤ rounds * 128
      → Gives
          (λ buf.
            (q : ℕ)
            → buf q ≡ (
                if ltb q (rounds * 128)
                then byte_of at d (position / 128 * 128 + q)
                else garbage q))
          o
      → Gives
          (IsRead at d to base n position)
          (o >>= λ buf. some (n, copy_bytes to base buf (position - position / 128 * 128) n))
  copied_out d garbage to base n position rounds none fits g = g
  copied_out d garbage to base n position rounds (some buf) fits g = record {
    count = refl;
    bytes = copied at d buf garbage to base n position rounds g fits;
  }

  -- For a file whose sectors are on the disk, and a request whose end is an int, if it starts in the file,
  -- ReadAt goes through, and gives as many bytes of the request
  -- as lie in the file: they are in memory in their order, and the rest of memory is as it was.
  pub read_at-IsRead :
      (d : Sectors) (garbage to : ℕ → ℕ) (base num_bytes position : ℕ)
      → (position < f.hdr.num_bytes → position + num_bytes < 2 ^ 31)
      → Gives
          (IsRead at d to base (served f.hdr.num_bytes num_bytes position) position)
          (read_at f d garbage to base num_bytes position)
  unfolding read_at file_length
  read_at-IsRead d garbage to base num_bytes position int =
      elim (Bool-cases (is_refused f.hdr.num_bytes num_bytes position)) [
        | inl refused ↦ rw refused record { count = refl; bytes = λ q. ground arith }
        | inr go ↦
            let n = in_file f.hdr.num_bytes num_bytes position in
            let short : position + num_bytes < 2 ^ 31 = int (ground arith) in
            let (some_bytes, fits) = served_fits f.hdr.num_bytes num_bytes position go short in
            let not_long = fits_int f.hdr.num_bytes num_bytes position go short in
            let rounds = 1 + (position + n - 1) / 128 - position / 128 in
            rw (go, not_long)
              (copied_out d garbage to base n position rounds _ (omega arith)
                (read_sectors f.hdr at mapped rounds (position / 128) d garbage (omega arith)))
      ]
