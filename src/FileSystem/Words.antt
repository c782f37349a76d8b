-- ===== src/FileSystem/Words.antt =====
-- The structures come back from their bytes.
use jalepenos.Base.{
  ℕ, suc, ◌+◌, ◌*◌, ◌/◌, ◌%◌, ◌^◌, ◌<◌, ◌≡◌, refl, sym, ◌∙◌, ap, List, [], ◌∷◌, some, arith, length,
  map,
}
use jalepenos.Base.Int.{ℤ, pos, negsuc}
use jalepenos.Machine.Words.Signs.{to_int}
use jalepenos.Machine.Translate.{to_unsigned}
use jalepenos.FileHeader.{FileHeader}
use jalepenos.FileSystem.Layout.{int_byte, words_bytes, int_of, words_of, header_words, header_of}

pub int_of-bytes :
    (b : ℕ → ℕ) (p w : ℕ)
    → w < 2 ^ 32
    → ((k : ℕ) → k < 4 → b (p + k) ≡ int_byte w k)
    → int_of b p ≡ w
unfolding int_of int_byte
int_of-bytes b p w small h =
    let start : p ≡ p + 0 = omega arith in
    let e0 : b p ≡ w % 256 = ap b start ∙ h 0 (omega arith) in
    omega (arith, e0, h 1 (omega arith), h 2 (omega arith), h 3 (omega arith))

abbrev pub AreInts : List ℕ → Type 0
AreInts [] = Unit
AreInts (w ∷ ws) = (w < 2 ^ 32) × AreInts ws

words_bytes-head : (w k : ℕ) (ws : List ℕ) → k < 4 → words_bytes (w ∷ ws) k ≡ int_byte w k
unfolding words_bytes
words_bytes-head w k ws lt =
    let first : k / 4 ≡ 0 = omega arith in
    let same : k % 4 ≡ k = omega arith in rw (first, same) refl

words_bytes-tail : (w q : ℕ) (ws : List ℕ) → words_bytes (w ∷ ws) (4 + q) ≡ words_bytes ws q
unfolding words_bytes
words_bytes-tail w q ws =
    let next : (4 + q) / 4 ≡ suc (q / 4) = omega arith in
    let same : (4 + q) % 4 ≡ q % 4 = omega arith in rw (next, same) refl

pub words_of-bytes :
    (ws : List ℕ) (i : ℕ) (b : ℕ → ℕ)
    → AreInts ws
    → ((q : ℕ) → q < 4 * length ws → b (4 * i + q) ≡ words_bytes ws q)
    → words_of (length ws) i b ≡ ws
unfolding words_of
words_of-bytes [] i b ints h = refl
words_of-bytes (w ∷ ws) i b (small, ints) h =
    let head : int_of b (4 * i) ≡ w =
      int_of-bytes b (4 * i) w small
        (λ k lt. h k (omega (arith, lt)) ∙ words_bytes-head w k ws lt) in
    let tail : words_of (length ws) (suc i) b ≡ ws = words_of-bytes ws (suc i) b ints (λ q lt.
      let place : 4 * suc i + q ≡ 4 * i + (4 + q) = omega arith in
      ap b place ∙ h (4 + q) (omega (arith, lt)) ∙ words_bytes-tail w q ws) in
    rw (head, tail) refl

-- The int that a pattern stands for fits an int.
abbrev pub Fits : ℤ → Type 0
Fits z = to_int (to_unsigned z) ≡ z

abbrev pub AllFit : List ℤ → Type 0
AllFit [] = Unit
AllFit (z ∷ zs) = Fits z × AllFit zs

pub to_unsigned-small : (z : ℤ) → to_unsigned z < 2 ^ 32
unfolding to_unsigned
to_unsigned-small (pos n) = omega arith
to_unsigned-small (negsuc n) = omega arith

pub to_int-Fits : (n : ℕ) → n < 2 ^ 31 → Fits (pos n)
unfolding to_unsigned
to_int-Fits n lt = let same : n % 2 ^ 32 ≡ n = omega arith in rw same (ground arith)

ints_of : (zs : List ℤ) → AreInts (map to_unsigned zs)
ints_of [] = tt
ints_of (z ∷ zs) = (to_unsigned-small z, ints_of zs)

fit_back : (zs : List ℤ) → AllFit zs → map to_int (map to_unsigned zs) ≡ zs
fit_back [] h = refl
fit_back (z ∷ zs) (f, h) = rw (f, fit_back zs h) refl

length-map-to_unsigned : (zs : List ℤ) → length (map to_unsigned zs) ≡ length zs
length-map-to_unsigned [] = refl
length-map-to_unsigned (z ∷ zs) = ap suc (length-map-to_unsigned zs)

-- A header of thirty ints that fits a sector.
pub record IsWhole (h : FileHeader) : Type 0 where
  pub bytes : h.num_bytes < 2 ^ 32
  pub sectors : h.num_sectors < 2 ^ 32
  pub slots : length h.data_sectors ≡ 30
  pub fit : AllFit h.data_sectors

pub header_of-bytes :
    (h : FileHeader) (b : ℕ → ℕ)
    → IsWhole h
    → ((q : ℕ) → q < 128 → b q ≡ words_bytes (header_words h) q)
    → header_of (words_of 32 0 b) ≡ some h
header_of-bytes h b w same =
    let ws = header_words h in
    let count : length ws ≡ 32 = omega (arith, length-map-to_unsigned h.data_sectors, w.slots) in
    let back : words_of 32 0 b ≡ ws =
      ap (λ n. words_of n 0 b) (sym count)
      ∙ words_of-bytes ws 0 b (w.bytes, (w.sectors, ints_of h.data_sectors))
          (λ q lt.
            let place : 4 * 0 + q ≡ q = omega arith in
            ap b place ∙ same q (omega (arith, lt, count))) in
    rw back (rw (fit_back h.data_sectors w.fit) refl)
