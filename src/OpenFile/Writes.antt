-- ===== src/OpenFile/Writes.antt =====
-- `WriteAt` against the bytes of the file.
use jalepenos.Base.{
  ℕ, ◌+◌, ◌-◌, ◌*◌, ◌/◌, ◌≤◌, ◌<◌, ◌≡◌, ◌↔◌, ◌⊎◌, refl, sym, ◌∙◌, subst, Bool, true, false, not,
  ◌&&◌, ◌||◌, Option, none, some, ltb, leb, ◌==◌, ==_iff, if◌then◌else◌, ◌>>=◌, arith, inl, inr,
  Bool-cases,
}
use jalepenos.OpenFile.{OpenFile, Sectors, copy_bytes, read_at}
use jalepenos.OpenFile.Bytes.{IsMapped, byte_of, Gives}
use jalepenos.OpenFile.Size.{file_small}
use jalepenos.OpenFile.Requests.{served, IsRead, read_at-IsRead}

pub bind-Gives {ℓ κ} :
    {A : Type ℓ} {B : Type κ} (Q : A → Type 0) (P : B → Type 0) (x : Option A) (f : A → Option B)
    → Gives Q x
    → ((a : A) → Q a → Gives P (f a))
    → Gives P (x >>= f)
bind-Gives Q P none f q h = q
bind-Gives Q P (some a) f q h = h a q

pub map-Gives {ℓ} :
    {A : Type ℓ} (P Q : A → Type 0) (o : Option A) → Gives P o → ((a : A) → P a → Q a) → Gives Q o
map-Gives P Q none g h = g
map-Gives P Q (some a) g h = h a g

-- What a read of one sector of the file has put at the place of byte `p`, and before the buffer.
sector_read :
    (at : ℕ → ℕ) (d : Sectors) (to : ℕ → ℕ) (len base start p : ℕ) (r : ℕ × (ℕ → ℕ))
    → IsRead at d to base (served len 128 start) start r
    → start ≤ p
    → p < len
    → p < start + 128
    → r.1 (base + (p - start)) ≡ byte_of at d p
sector_read at d to len base start p r i low high near =
    let inside : (leb base (base + (p - start))
          && ltb (base + (p - start)) (base + served len 128 start))
        ≡ true =
      ground arith in
    let is : start + (base + (p - start) - base) ≡ p = omega arith in
    i.bytes (base + (p - start)) ∙ rw (inside, is) refl

before_read :
    (at : ℕ → ℕ) (d : Sectors) (to : ℕ → ℕ) (base n start q : ℕ) (r : ℕ × (ℕ → ℕ))
    → IsRead at d to base n start r
    → q < base
    → r.1 q ≡ to q
before_read at d to base n start q r i low = i.bytes q ∙ ground arith

between_iff : (a b c : ℕ) → ((leb a b && ltb b c) ≡ true) ↔ ((a ≤ b) × (b < c))
between_iff a b c = ground arith

-- The same offset taken from both.
shifted :
    (start position p n : ℕ)
    → start ≤ position
    → start ≤ p
    → (leb position p && ltb p (position + n)) ≡ false
    → (leb (position - start) (p - start) && ltb (p - start) (position - start + n)) ≡ false
shifted start position p n low here outside = ground arith

from_sector :
    (first s p top : ℕ) → (leb first s && ltb s top) ≡ true → s ≡ p / 128 → first * 128 ≤ p
from_sector first s p top inside is = omega (arith, (between_iff first s top).0 inside)

both_false : (a b c : Bool) → a ≡ false → (not a && (not b || c)) ≡ false → (b ≡ true) × (c ≡ false)
both_false a b c e h = ground arith

module _ (f : OpenFile) (at : ℕ → ℕ) (mapped : IsMapped f.hdr at) (d : Sectors)
    (garbage from : ℕ → ℕ) (n position p : ℕ) (some_bytes : 0 < n)
    (fits : position + n ≤ f.hdr.num_bytes) (here : p < f.hdr.num_bytes) where
  abbrev pub first : ℕ
  first = position / 128

  abbrev pub last : ℕ
  last = (position + n - 1) / 128

  abbrev pub rounds : ℕ
  rounds = 1 + last - first

  -- A byte of the sectors that are written which the request does not change.
  abbrev pub IsKept : Type 0
  IsKept =
      ((leb first (p / 128) && ltb (p / 128) (first + rounds)) ≡ true)
      × ((leb position p && ltb p (position + n)) ≡ false)

  -- What it is after the request.
  abbrev pub target : ℕ
  target = if leb position p && ltb p (position + n) then from (p - position) else byte_of at d p

  pub written :
      (buf : ℕ → ℕ) (d1 : Sectors)
      → (IsKept → buf (p - first * 128) ≡ byte_of at d p)
      → byte_of at d1 p ≡ (
          if leb first (p / 128) && ltb (p / 128) (first + rounds)
          then copy_bytes buf (position - first * 128) from 0 n (p - first * 128)
          else byte_of at d p)
      → byte_of at d1 p ≡ target
  unfolding copy_bytes
  written buf d1 kept w = elim (Bool-cases (leb position p && ltb p (position + n))) [
    | inl inside ↦
        let (low, high) = (between_iff position p (position + n)).0 inside in
        let sectors : (leb first (p / 128) && ltb (p / 128) (first + rounds)) ≡ true =
          (between_iff first (p / 128) (first + rounds)).1 (omega arith, omega arith) in
        let copied : (leb (position - first * 128) (p - first * 128)
              && ltb (p - first * 128) (position - first * 128 + n))
            ≡ true =
          (between_iff (position - first * 128) (p - first * 128) (position - first * 128 + n)).1
            (omega arith, omega arith) in
        let index : 0 + (p - first * 128 - (position - first * 128)) ≡ p - position = omega arith in
        w ∙ rw (sectors, copied, index, inside) refl
    | inr outside ↦ elim (Bool-cases (leb first (p / 128) && ltb (p / 128) (first + rounds))) [
      | inl sectors ↦
          let uncopied : (leb (position - first * 128) (p - first * 128)
                && ltb (p - first * 128) (position - first * 128 + n))
              ≡ false =
            shifted (first * 128) position p n (omega arith)
              (from_sector first (p / 128) p (first + rounds) sectors refl) outside in
          w ∙ rw (sectors, uncopied, outside) (kept (sectors, outside))
      | inr others ↦ w ∙ rw (others, outside) refl
    ]
  ]

  abbrev pub first_aligned : Bool
  first_aligned = position == first * 128

  abbrev pub last_aligned : Bool
  last_aligned = (position + n) == (last + 1) * 128

  -- The byte comes before the request, in its first sector, or behind it, in its last.
  kept_where :
      IsKept
      → ((p < position) × (p / 128 ≡ first) × (first_aligned ≡ false))
        ⊎ ((position + n ≤ p) × (p / 128 ≡ last) × (last_aligned ≡ false))
  kept_where (sectors, outside) =
      let (low, high) = (between_iff first (p / 128) (first + rounds)).0 sectors in
      elim (Bool-cases (leb position p)) [
        | inl behind ↦
            let past : position + n ≤ p = ground arith in inr (past, omega arith, ground arith)
        | inr before ↦
            let short : p < position = ground arith in inl (short, omega arith, ground arith)
      ]

  -- The byte is in the buffer, when it is in the first sector and that is read.
  abbrev pub HeadRead : ℕ × (ℕ → ℕ) → Type 0
  HeadRead r = first_aligned ≡ false → p / 128 ≡ first → r.1 (p - first * 128) ≡ byte_of at d p

  abbrev pub KeepsByte : ℕ × (ℕ → ℕ) → Type 0
  KeepsByte r = IsKept → r.1 (p - first * 128) ≡ byte_of at d p

  pub head_step :
      Gives HeadRead (
        if first_aligned
        then some (0, garbage)
        else read_at f d garbage garbage 0 128 (first * 128))
  head_step = elim (Bool-cases first_aligned) [
    | inl aligned ↦ rw aligned (λ ne same. absurd cc)
    | inr unaligned ↦ rw unaligned (
        map-Gives _ HeadRead _
          (read_at-IsRead f at mapped d garbage garbage 0 128 (first * 128)
            (λ lt. omega (arith, lt, file_small f.hdr at mapped)))
          (λ r i ne same.
            let start : 0 + (p - first * 128) ≡ p - first * 128 = omega arith in
            subst (λ q. r.1 q ≡ byte_of at d p) start
              (sector_read at d garbage f.hdr.num_bytes 0 (first * 128) p r i (omega arith) here
                (omega arith))))
  ]

  -- The last sector has been read to its place in the buffer.
  in_last :
      (buf : ℕ → ℕ) (r : ℕ × (ℕ → ℕ))
      → IsRead at d buf
          ((last - first) * 128)
          (served f.hdr.num_bytes 128 (last * 128))
          (last * 128)
          r
      → p / 128 ≡ last
      → r.1 (p - first * 128) ≡ byte_of at d p
  in_last buf r i s =
      let order : first ≤ last = omega arith in
      let place : (last - first) * 128 + (p - last * 128) ≡ p - first * 128 = omega arith in
      subst (λ q. r.1 q ≡ byte_of at d p) place
        (sector_read at d buf f.hdr.num_bytes ((last - first) * 128) (last * 128) p r i
          (omega arith) here (omega arith))

  before_last :
      p < position
      → p / 128 ≡ first
      → (first == last) ≡ false
      → p - first * 128 < (last - first) * 128
  before_last short s differ = let order : first < last = ground arith in omega arith

  only_sector :
      last_aligned ≡ false
      → (not last_aligned && (not (first == last) || first_aligned)) ≡ false
      → ((first == last) ≡ true) × (first_aligned ≡ false)
  only_sector la skips = both_false last_aligned (first == last) first_aligned la skips

  pub tail_step :
      (m : ℕ) (buf : ℕ → ℕ)
      → HeadRead (m, buf)
      → Gives KeepsByte (
          if not last_aligned && (not (first == last) || first_aligned)
          then read_at f d garbage buf ((last - first) * 128) 128 (last * 128)
          else some (0, buf))
  tail_step m buf head =
      elim (Bool-cases (not last_aligned && (not (first == last) || first_aligned))) [
        | inl reads ↦ rw reads (
            map-Gives _ KeepsByte _
              (read_at-IsRead f at mapped d garbage buf ((last - first) * 128) 128 (last * 128)
                (λ lt. omega (arith, lt, file_small f.hdr at mapped)))
              (λ r i kept. elim (kept_where kept) [
                | inl (short, s, un) ↦ elim (Bool-cases (first == last)) [
                  | inl same ↦ in_last buf r i (s ∙ (==_iff first last).0 same)
                  | inr differ ↦
                      before_read at d buf ((last - first) * 128) _ (last * 128) (p - first * 128) r
                        i (before_last short s differ)
                      ∙ head un s
                ]
                | inr (past, s, la) ↦ in_last buf r i s
              ]))
        | inr skips ↦ rw skips (λ kept. elim (kept_where kept) [
          | inl (short, s, un) ↦ head un s
          | inr (past, s, la) ↦
              let (same, un) = only_sector la skips in
              head un (s ∙ sym ((==_iff first last).0 same))
        ])
      ]
