-- ===== src/OpenFile/Size.antt =====
-- A file whose sectors are distinct and on the disk is no longer than the disk.
use jalepenos.Base.{
  ℕ, zero, suc, ◌*◌, ◌≤◌, ◌<◌, ◌≡◌, sym, ◌∙◌, ◌==◌, ==_iff, if◌then◌else◌, arith, inl, inr,
  Bool-cases, ltb,
}
use jalepenos.Disk.{num_sectors}
use jalepenos.FileHeader.{FileHeader, sector_size}
use jalepenos.OpenFile.Bytes.{IsMapped}

module _ (k n : ℕ) (f : ℕ → ℕ) (below : (i : ℕ) → i < suc n → f i < suc k)
    (apart : (i j : ℕ) → i < suc n → j < suc n → f i ≡ f j → i ≡ j) where
  -- The last one takes the place of the greatest.
  abbrev g : ℕ → ℕ
  g i = if f i == k then f n else f i

  not_last : (i : ℕ) → i < n → f i ≡ f n → ⊥
  not_last i lt e = omega (arith, lt, apart i n (omega arith) (omega arith) e)

  g_below : (i : ℕ) → i < n → g i < k
  g_below i lt = elim (Bool-cases (f i == k)) [
    | inl top ↦ elim (Bool-cases (f n == k)) [
      | inl last ↦ absurd (not_last i lt ((==_iff (f i) k).0 top ∙ sym ((==_iff (f n) k).0 last)))
      | inr other ↦ rw top (ground (arith, below n (omega arith)))
    ]
    | inr other ↦ rw other (ground (arith, below i (omega arith)))
  ]

  g_apart : (i j : ℕ) → i < n → j < n → g i ≡ g j → i ≡ j
  g_apart i j hi hj e = elim (Bool-cases (f i == k)) [
    | inl a ↦ elim (Bool-cases (f j == k)) [
      | inl b ↦
          apart i j (omega arith) (omega arith) ((==_iff (f i) k).0 a ∙ sym ((==_iff (f j) k).0 b))
      | inr b ↦ absurd (not_last j hj (sym (rw (a, b) at e)))
    ]
    | inr a ↦ elim (Bool-cases (f j == k)) [
      | inl b ↦ absurd (not_last i hi (rw (a, b) at e))
      | inr b ↦ apart i j (omega arith) (omega arith) (rw (a, b) at e)
    ]
  ]

-- Distinct numbers below `k`: there are at most `k` of them.
at_most :
    (k n : ℕ) (f : ℕ → ℕ)
    → ((i : ℕ) → i < n → f i < k)
    → ((i j : ℕ) → i < n → j < n → f i ≡ f j → i ≡ j)
    → n ≤ k
at_most zero zero f below apart = omega arith
at_most zero (suc n) f below apart = absurd (omega (arith, below n (omega arith)))
at_most (suc k) zero f below apart = omega arith
at_most (suc k) (suc n) f below apart = omega (
  arith,
  at_most k n (g k n f below apart) (g_below k n f below apart) (g_apart k n f below apart),
)

pub file_small :
    (h : FileHeader) (at : ℕ → ℕ) → IsMapped h at → h.num_bytes ≤ num_sectors * sector_size
file_small h at mapped = elim (Bool-cases (ltb (1024 * 128) h.num_bytes)) [
  | inl more ↦
      let long : 1024 * 128 < h.num_bytes = ground arith in
      absurd (
        omega (
          arith,
          at_most 1024 1025 at (λ i lt. mapped.on_disk i (omega (arith, lt, long)))
              (λ i j hi hj e.
                mapped.apart i j (omega (arith, hi, long)) (omega (arith, hj, long)) e),
        ))
  | inr fits ↦ ground arith
]
