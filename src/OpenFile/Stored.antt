-- ===== src/OpenFile/Stored.antt =====
-- What `WriteAt` stores, and that `ReadAt` gives it back.
use jalepenos.Base.{
  ℕ, ◌+◌, ◌-◌, ◌*◌, ◌/◌, ◌^◌, ◌≤◌, ◌<◌, ◌≡◌, refl, ◌∙◌, true, ◌&&◌, some, ltb, leb, if◌then◌else◌,
  arith, inl, inr, Bool-cases,
}
use jalepenos.FileHeader.{file_length}
use jalepenos.OpenFile.{OpenFile, Sectors, copy_bytes, in_file, is_refused, read_at, write_at}
use jalepenos.OpenFile.Bytes.{IsMapped, byte_of, Gives, write_sectors}
use jalepenos.OpenFile.Size.{file_small}
use jalepenos.OpenFile.Requests.{served, served_fits, fits_int, IsRead, read_at-IsRead}
use jalepenos.OpenFile.Writes.{
  bind-Gives, map-Gives, HeadRead, KeepsByte, written, head_step, tail_step,
}

-- Byte `p` of the file after `n` bytes have been written from `position` on.
abbrev pub IsStored : (ℕ → ℕ) → Sectors → (ℕ → ℕ) → ℕ → ℕ → ℕ → ℕ × Sectors → Type 0
IsStored at d from n position p (m, d1) =
    (m ≡ n)
    × (byte_of at d1 p
        ≡ (if leb position p && ltb p (position + n) then from (p - position) else byte_of at d p))

back :
    {at : ℕ → ℕ} (d d1 : Sectors) (from to : ℕ → ℕ) (base n num_bytes position p : ℕ)
    (r : ℕ × (ℕ → ℕ))
    → n ≡ num_bytes
    → p < num_bytes
    → byte_of at d1 (position + p) ≡ (
        if leb position (position + p) && ltb (position + p) (position + n)
        then from (position + p - position)
        else byte_of at d (position + p))
    → IsRead at d1 to base n position r
    → r.1 (base + p) ≡ from p
back d d1 from to base n num_bytes position p r all here byte i =
    let inside : (leb base (base + p) && ltb (base + p) (base + n)) ≡ true = ground arith in
    let stored : (leb position (position + p) && ltb (position + p) (position + n)) ≡ true =
      ground arith in
    let offset : base + p - base ≡ p = omega arith in
    let index : position + p - position ≡ p = omega arith in
    i.bytes (base + p) ∙ rw (inside, offset, byte, stored, index) refl

module _ (f : OpenFile) (at : ℕ → ℕ) (mapped : IsMapped f.hdr at) where
  -- For a file whose sectors are on the disk, and a request whose end, position + numBytes, is
  -- below 2 ^ 31, WriteAt goes through, and takes as many bytes of the request as lie in the
  -- file: each byte of the file in their range is the one that was given for it, and each other
  -- byte of the file is as it was.
  pub write_at-IsStored :
      (d : Sectors) (garbage from : ℕ → ℕ) (num_bytes position p : ℕ)
      → position + num_bytes < 2 ^ 31
      → p < f.hdr.num_bytes
      → Gives
          (IsStored at d from (served f.hdr.num_bytes num_bytes position) position p)
          (write_at f d garbage from num_bytes position)
  unfolding write_at file_length
  write_at-IsStored d garbage from num_bytes position p int here =
      elim (Bool-cases (is_refused f.hdr.num_bytes num_bytes position)) [
        | inl refused ↦ rw refused (refl, ground arith)
        | inr go ↦
            let n = in_file f.hdr.num_bytes num_bytes position in
            let (some_bytes, fits) = served_fits f.hdr.num_bytes num_bytes position go int in
            let not_long = fits_int f.hdr.num_bytes num_bytes position go int in
            rw (go, not_long)
              (bind-Gives (HeadRead f at mapped d garbage from n position p some_bytes fits here)
                (IsStored at d from n position p) _ _
                (head_step f at mapped d garbage from n position p some_bytes fits here)
                (λ (m1, buf1) head.
                  bind-Gives
                    (KeepsByte f at mapped d garbage from n position p some_bytes fits here)
                    (IsStored at d from n position p) _ _
                    (tail_step f at mapped d garbage from n position p some_bytes fits here m1 buf1
                      head)
                    (λ (m2, buf2) kept.
                      bind-Gives _ (IsStored at d from n position p) _ (λ d1. some (n, d1))
                        (write_sectors f.hdr at mapped
                          (1 + (position + n - 1) / 128 - position / 128) (position / 128)
                          (copy_bytes buf2 (position - position / 128 * 128) from 0 n) d
                          (omega arith))
                        (λ d1 w. (
                          refl,
                          written f at mapped d garbage from n position p some_bytes fits here buf2
                              d1 kept (w p here),
                        )))))
      ]

  -- `n` bytes have been read, and byte `p` of them is in memory.
  abbrev pub IsBack : (ℕ → ℕ) → ℕ → ℕ → ℕ → ℕ × (ℕ → ℕ) → Type 0
  IsBack from base num_bytes p (n, to1) = (n ≡ num_bytes) × (to1 (base + p) ≡ from p)

  -- As many bytes have been written, and ReadAt of them goes through and gives byte `p` back.
  abbrev pub ReadsBack : (ℕ → ℕ) → (ℕ → ℕ) → (ℕ → ℕ) → ℕ → ℕ → ℕ → ℕ → ℕ × Sectors → Type 0
  ReadsBack garbage from to base num_bytes position p (m, d1) =
      (m ≡ num_bytes)
      × Gives (IsBack from base num_bytes p) (read_at f d1 garbage to base num_bytes position)

  -- For a request that lies in a file whose sectors are on the disk, WriteAt goes through and
  -- ReadAt of the same part goes through after it, and byte p of the request is in memory again.
  pub read_at-write_at :
      (d : Sectors) (garbage from to : ℕ → ℕ) (base num_bytes position p : ℕ)
      → position + num_bytes ≤ f.hdr.num_bytes
      → p < num_bytes
      → Gives
          (ReadsBack garbage from to base num_bytes position p)
          (write_at f d garbage from num_bytes position)
  read_at-write_at d garbage from to base num_bytes position p fits here =
      let n = served f.hdr.num_bytes num_bytes position in
      let int : position + num_bytes < 2 ^ 31 = omega (arith, fits, file_small f.hdr at mapped) in
      let all : n ≡ num_bytes = ground arith in
      map-Gives (IsStored at d from n position (position + p))
        (ReadsBack garbage from to base num_bytes position p) _
        (write_at-IsStored d garbage from num_bytes position (position + p) int (omega arith))
        (λ (m, d1) (count, byte). (
          count ∙ all,
          map-Gives (IsRead at d1 to base n position) (IsBack from base num_bytes p) _
              (read_at-IsRead f at mapped d1 garbage to base num_bytes position (λ _. int))
              (λ r i.
                (i.count ∙ all, back d d1 from to base n num_bytes position p r all here byte i)),
        ))
