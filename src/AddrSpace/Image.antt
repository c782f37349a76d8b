-- ===== src/AddrSpace/Image.antt =====
-- What a page holds after its first load.
use jalepenos.Base.{
  ℕ, ◌+◌, ◌-◌, ◌%◌, ◌^◌, ◌<◌, ◌≤◌, ◌≡◌, refl, sym, ◌∙◌, Bool, true, false, ◌&&◌, Option, none, some,
  ltb, leb, if◌then◌else◌, arith, inl, inr, Bool-cases,
}
use jalepenos.Base.Int.{pos}
use jalepenos.Machine.Words.Signs.{to_int}
use jalepenos.OpenFile.{OpenFile, Sectors}
use jalepenos.OpenFile.Bytes.{IsMapped, byte_of, Gives}
use jalepenos.OpenFile.Size.{file_small}
use jalepenos.OpenFile.Requests.{served, IsRead, read_at-IsRead}
use jalepenos.OpenFile.Writes.{bind-Gives}
use jalepenos.AddrSpace.Program.{
  Segment, NoffHeader, holds_page, read_segment, zero_page, fill_page,
}

-- The ends of a segment, in the address space and in the file, are ints.
pub record IsSane (s : Segment) : Type 0 where
  pub addresses : s.virtual_addr + s.size < 2 ^ 31
  pub places : s.in_file_addr + s.size < 2 ^ 31

abbrev pub within : Segment → ℕ → Bool
within s a = leb s.virtual_addr a && ltb a (s.virtual_addr + s.size)

-- Byte `position` of the program file, or what stood there where the file has ended.
abbrev pub file_byte : (ℕ → ℕ) → Sectors → ℕ → ℕ → ℕ → ℕ
file_byte at d length position old = if ltb position length then byte_of at d position else old

-- Byte `o` of the page at `a`, loaded from a segment that holds the page's first byte.
abbrev pub segment_byte : (ℕ → ℕ) → Sectors → ℕ → Segment → ℕ → ℕ → ℕ → ℕ
segment_byte at d length s a o old =
    file_byte at d length (s.in_file_addr + (a - s.virtual_addr) + o) old

-- Byte `o` of the page at `a`: of the code, of the initialised data, or zero.
abbrev pub image_byte : (ℕ → ℕ) → Sectors → ℕ → NoffHeader → ℕ → ℕ → ℕ → ℕ
image_byte at d length h a o old =
    if within h.code a
    then segment_byte at d length h.code a o old
    else if within h.init_data a
    then segment_byte at d length h.init_data a o old
    else 0

-- The bytes of one frame have been given, and no other byte has changed.
pub record Filled (byte : ℕ → ℕ → ℕ) (memory : ℕ → ℕ) (to : ℕ) (mem : ℕ → ℕ) : Type 0 where
  pub bytes : (o : ℕ) → o < 128 → mem (to + o) ≡ byte o (memory (to + o))
  pub rest : (q : ℕ) → (leb to q && ltb q (to + 128)) ≡ false → mem q ≡ memory q

to_int-small : (w : ℕ) → w < 2 ^ 31 → to_int w ≡ pos w
to_int-small w h = ground arith

holds_page-within : (s : Segment) (a : ℕ) → IsSane s → holds_page s a ≡ within s a
unfolding holds_page
holds_page-within s a k =
    let small : s.virtual_addr < 2 ^ 31 = omega (arith, k.addresses) in
    let whole : (s.virtual_addr + s.size) % 2 ^ 32 ≡ s.virtual_addr + s.size =
      omega (arith, k.addresses) in
    rw
      (to_int-small s.virtual_addr small, whole, to_int-small (s.virtual_addr + s.size) k.addresses)
      (ground arith)

as_image :
    (byte image : ℕ → ℕ → ℕ) (memory : ℕ → ℕ) (to : ℕ) (o : Option (ℕ → ℕ))
    → ((x old : ℕ) → image x old ≡ byte x old)
    → Gives (Filled byte memory to) o
    → Gives (Filled image memory to) o
as_image byte image memory to none same g = g
as_image byte image memory to (some mem) same g = record {
  bytes = λ x lt. g.bytes x lt ∙ sym (same x (memory (to + x)));
  rest = g.rest;
}

module _ (f : OpenFile) (at : ℕ → ℕ) (mapped : IsMapped f.hdr at) (d : Sectors) where
  read-Filled :
      (memory mem : ℕ → ℕ) (to position n : ℕ)
      → IsRead at d memory to (served f.hdr.num_bytes 128 position) position (n, mem)
      → Filled (λ o old. file_byte at d f.hdr.num_bytes (position + o) old) memory to mem
  read-Filled memory mem to position n r = record {
    bytes = λ o lt.
        let offset : to + o - to ≡ o = omega arith in
        r.bytes (to + o) ∙ rw offset (ground (arith, file_small f.hdr at mapped));
    rest = λ q out. r.bytes q ∙ ground arith;
  }

  read_segment-Filled :
      (garbage memory : ℕ → ℕ) (to : ℕ) (s : Segment) (a : ℕ)
      → IsSane s
      → within s a ≡ true
      → Gives
          (Filled (λ o old. segment_byte at d f.hdr.num_bytes s a o old) memory to)
          (read_segment f d garbage memory to s a)
  unfolding read_segment
  read_segment-Filled garbage memory to s a k h =
      let place = s.in_file_addr + (a - s.virtual_addr) in
      let low : s.virtual_addr ≤ a = ground arith in
      let high : a < s.virtual_addr + s.size = ground arith in
      let small : place < 2 ^ 31 = omega (arith, k.places) in
      let position : (s.in_file_addr + (a + 2 ^ 32 - s.virtual_addr)) % 2 ^ 32 ≡ place =
        omega (arith, k.places) in
      rw (position, to_int-small place small)
        (bind-Gives (IsRead at d memory to (served f.hdr.num_bytes 128 place) place)
          (Filled (λ o old. segment_byte at d f.hdr.num_bytes s a o old) memory to) _
          (λ (n, mem). some mem)
          (read_at-IsRead f at mapped d garbage memory to 128 place
            (λ lt. omega (arith, lt, file_small f.hdr at mapped)))
          (λ (n, mem) r. read-Filled memory mem to place n r))

  zero-Filled : (memory : ℕ → ℕ) (to : ℕ) → Filled (λ o old. 0) memory to (zero_page memory to)
  unfolding zero_page
  zero-Filled memory to = record { bytes = λ o lt. ground arith; rest = λ q out. ground arith }

  -- The first load of a page.
  pub fill_page-Filled :
      (garbage memory : ℕ → ℕ) (h : NoffHeader) (to a : ℕ)
      → IsSane h.code
      → IsSane h.init_data
      → Gives
          (Filled (image_byte at d f.hdr.num_bytes h a) memory to)
          (fill_page f d garbage h memory to a)
  unfolding fill_page
  fill_page-Filled garbage memory h to a code data_ok =
      let len = f.hdr.num_bytes in
      let image = image_byte at d len h a in
      let c = holds_page-within h.code a code in
      let i = holds_page-within h.init_data a data_ok in
      elim (Bool-cases (within h.code a)) [
        | inl in_code ↦
            rw (c, in_code)
              (as_image (λ o old. segment_byte at d len h.code a o old) image memory to _
                (λ o old. rw in_code refl)
                (read_segment-Filled garbage memory to h.code a code in_code))
        | inr no_code ↦ elim (Bool-cases (within h.init_data a)) [
          | inl in_data ↦
              rw (c, no_code, i, in_data)
                (as_image (λ o old. segment_byte at d len h.init_data a o old) image memory to _
                  (λ o old. rw (no_code, in_data) refl)
                  (read_segment-Filled garbage memory to h.init_data a data_ok in_data))
          | inr neither ↦
              rw (c, no_code, i, neither)
                (as_image (λ o old. 0) image memory to (some (zero_page memory to))
                  (λ o old. rw (no_code, neither) refl) (zero-Filled memory to))
        ]
      ]
