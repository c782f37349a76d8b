-- ===== src/AddrSpace/Paging.antt =====
-- A page that was written out comes back.
use jalepenos.Base.{
  ℕ, ◌+◌, ◌*◌, ◌^◌, ◌<◌, ◌≡◌, refl, ap, ◌∙◌, inl, inr, Bool-cases, true, false, some, ltb, leb,
  if◌then◌else◌, arith,
}
use jalepenos.Base.Int.{pos}
use jalepenos.Machine.{TranslationEntry}
use jalepenos.MemManage.{MemoryManager, free_page}
use jalepenos.AddrSpace.{BackingStore, copy_page, write_page, page_out, page_in}

copy_page-inside :
    (target source : ℕ → ℕ) (to from i : ℕ)
    → i < 128
    → copy_page target to source from (to + i) ≡ source (from + i)
copy_page-inside target source to from i h =
    let low : leb to (to + i) ≡ true = ground arith in
    let high : ltb (to + i) (to + 128) ≡ true = ground arith in
    rw (low, high) (ap source (omega arith))

-- PageOut of a dirty page whose place in the file is an int and whose frame can be freed goes through and marks it absent; PageIn of
-- an entry for the same virtual page into any frame then brings back every byte of the page into
-- that frame, and marks the entry valid and clean.
pub page_in-page_out :
    (b : BackingStore) (memory later : ℕ → ℕ) (m m' : MemoryManager) (e e1 : TranslationEntry)
    (virtual physical frame : ℕ)
    → e.dirty ≡ true
    → virtual * 128 < 2 ^ 31
    → free_page m (pos physical) ≡ some m'
    → (b' : BackingStore) × (memory' : ℕ → ℕ) × (page_out b memory m e (pos virtual) (pos physical)
        ≡ some (b', m', record e { valid = false }))
      × (page_in b' later e1 (pos virtual) (pos frame)
          ≡ some (memory', record e1 { valid = true; dirty = false }))
      × ((i : ℕ)
          → (if ltb i 128 then memory' (frame * 128 + i) else 0)
            ≡ (if ltb i 128 then memory (physical * 128 + i) else 0))
unfolding page_out page_in write_page
page_in-page_out b memory later m m' e e1 virtual physical frame dirty int freed =
    let inside : ltb (virtual * 128) (2 ^ 31) ≡ true = ground arith in
    let file = copy_page b.file (virtual * 128) memory (physical * 128) in
    (
      record { file = file },
      copy_page later (frame * 128) file (virtual * 128),
      rw (freed, dirty, inside) refl,
      rw inside refl,
      λ i. elim (Bool-cases (ltb i 128)) [
        | inl inside ↦ rw inside (
            copy_page-inside later file (frame * 128) (virtual * 128) i (ground arith)
            ∙ copy_page-inside b.file memory (virtual * 128) (physical * 128) i (ground arith))
        | inr outside ↦ rw outside refl
      ],
    )
