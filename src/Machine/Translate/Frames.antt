-- ===== src/Machine/Translate/Frames.antt =====
-- Translation through a linear page table.
use jalepenos.Base.{
  ℕ, ◌+◌, ◌*◌, ◌/◌, ◌%◌, ◌≤◌, ◌<◌, ◌≡◌, refl, ◌∙◌, ◌⊎◌, inl, inr, Bool, true, false, not, ◌&&◌,
  ◌||◌, List, none, some, leb, ◌==◌, if◌then◌else◌, arith, get_elem?, length, Bool-cases,
  get_elem?-some,
}
use jalepenos.Base.Bits.{bit_and_mask}
use jalepenos.Base.Int.{pos}
use jalepenos.Machine.{
  Machine, TranslationEntry, ExceptionType, page_fault_exception, read_only_exception,
  bus_error_exception, address_error_exception,
}
use jalepenos.Machine.Translate.{
  to_unsigned, misaligned, page_entry, find_entry, write_entry, Translation, fault, translated,
  use_entry, use_lookup, translate, done, char_to_int, load_bytes, read_mem,
}

-- The sizes that the CPU uses.
abbrev pub IsSize : ℕ → Type 0
IsSize n = (n ≡ 1) ⊎ (n ≡ 2) ⊎ (n ≡ 4)

-- The machine uses a page table whose entry for page `vpn` is `e`.
pub record Maps (m : Machine) (vpn : ℕ) (e : TranslationEntry) : Type 0 where
  pub table : List TranslationEntry
  pub no_tlb : m.tlb ≡ none
  pub in_use : m.page_table ≡ some table
  pub in_size : vpn < m.page_table_size
  pub entry : get_elem? table vpn ≡ some e

-- A page table that has all the entries that its size promises.
pub record HasTable (m : Machine) : Type 0 where
  pub table : List TranslationEntry
  pub no_tlb : m.tlb ≡ none
  pub in_use : m.page_table ≡ some table
  pub complete : m.page_table_size ≤ length table

pub misaligned_lem : (va size : ℕ) → IsSize size → misaligned va size ≡ not (va % size == 0)
unfolding misaligned
misaligned_lem va size (inl one) = ground (arith, bit_and_mask 2 va, bit_and_mask 1 va)
misaligned_lem va size (inr (inl two)) =
    rw two (ground (arith, bit_and_mask 2 va, bit_and_mask 1 va))
misaligned_lem va size (inr (inr four)) =
    rw four (ground (arith, bit_and_mask 2 va, bit_and_mask 1 va))

-- An aligned access does not leave its page.
pub in_page : (va size : ℕ) → IsSize size → va % size ≡ 0 → va % 128 + size ≤ 128
in_page va size (inl one) h = omega arith
in_page va size (inr (inl two)) h = omega (arith, rw two at h)
in_page va size (inr (inr four)) h = omega (arith, rw four at h)

-- What the checks on an entry come to when the access stays in its page: the last ASSERT holds.
pub use_entry_lem :
    (m : Machine) (i : ℕ) (e : TranslationEntry) (offset size : ℕ) (writing : Bool)
    → offset + size ≤ 128
    → use_entry m i e offset size writing
      ≡ some (
          if e.read_only && writing
          then fault read_only_exception
          else if leb 4 (to_unsigned e.physical_page)
          then fault bus_error_exception
          else translated
              (to_unsigned e.physical_page * 128 + offset)
              (write_entry m i (record e { used = true; dirty = e.dirty || writing })))
unfolding use_entry
use_entry_lem m i e offset size writing h = ground arith

pub translate-Maps :
    (m : Machine) (va size : ℕ) (writing : Bool) {e : TranslationEntry}
    → Maps m (va / 128) e
    → e.valid ≡ true
    → misaligned va size ≡ false
    → translate m va size writing ≡ use_entry m (va / 128) e (va % 128) size writing
unfolding translate find_entry page_entry use_lookup
translate-Maps m va size writing k v a =
    let inside : leb m.page_table_size (va / 128) ≡ false = ground (arith, k.in_size) in
    rw (a, k.no_tlb, k.in_use, inside, k.entry, v)

-- A page that is not valid faults.
pub translate-absent :
    (m : Machine) (va size : ℕ) (writing : Bool) {e : TranslationEntry}
    → Maps m (va / 128) e
    → e.valid ≡ false
    → misaligned va size ≡ false
    → translate m va size writing ≡ some (fault page_fault_exception)
unfolding translate find_entry page_entry use_lookup
translate-absent m va size writing k v a =
    let inside : leb m.page_table_size (va / 128) ≡ false = ground (arith, k.in_size) in
    rw (a, k.no_tlb, k.in_use, inside, k.entry, v)

-- A valid page is read in its frame.
pub translate-frame :
    (m : Machine) (va size p : ℕ) {e : TranslationEntry}
    → Maps m (va / 128) e
    → e.valid ≡ true
    → e.physical_page ≡ pos p
    → p < 4
    → misaligned va size ≡ false
    → va % 128 + size ≤ 128
    → translate m va size false
      ≡ some (
          translated
            (p * 128 + va % 128)
            (write_entry m (va / 128) (record e { used = true; dirty = e.dirty || false })))
unfolding to_unsigned
translate-frame m va size p {e} k v physical low a fits =
    let number : to_unsigned e.physical_page ≡ p = rw physical (omega arith) in
    let inside : leb 4 p ≡ false = ground arith in
    let reading : (e.read_only && false) ≡ false = ground arith in
    translate-Maps m va size false k v a
    ∙ use_entry_lem m (va / 128) e (va % 128) size false fits
    ∙ rw (number, inside, reading) refl

-- A load of one byte from a valid page.
pub read_byte-frame :
    (m : Machine) (va p : ℕ) {e : TranslationEntry}
    → Maps m (va / 128) e
    → e.valid ≡ true
    → e.physical_page ≡ pos p
    → p < 4
    → read_mem m va 1
      ≡ some (
          done
            (char_to_int (m.main_memory (p * 128 + va % 128)))
            (write_entry m (va / 128) (record e { used = true; dirty = e.dirty || false })))
unfolding read_mem load_bytes write_entry
read_byte-frame m va p {e} k valid physical low =
    let aligned : misaligned va 1 ≡ false = misaligned_lem va 1 (inl refl) ∙ ground arith in
    rw (translate-frame m va 1 p k valid physical low aligned (omega arith)) refl

-- A translation that faults, or one that stays in memory at the same place in its page and changes
-- neither registers nor memory.
pub data Lands (m : Machine) (va size : ℕ) : Translation → Type 0 where
  faults : (e : ExceptionType) → Lands m va size (fault e)
  lands :
      (p : ℕ) (m' : Machine)
      → p + size ≤ 512
      → p % 128 ≡ va % 128
      → m'.main_memory ≡ m.main_memory
      → m'.registers ≡ m.registers
      → Lands m va size (translated p m')

use_entry-Lands :
    (m : Machine) (i : ℕ) (e : TranslationEntry) (va size : ℕ) (writing : Bool)
    → va % 128 + size ≤ 128
    → (r : Translation) × (use_entry m i e (va % 128) size writing ≡ some r) × Lands m va size r
use_entry-Lands m i e va size writing h = elim (Bool-cases (e.read_only && writing)) [
  | inl ro ↦
      (fault read_only_exception, rw (use_entry_lem m i e (va % 128) size writing h, ro), faults _)
  | inr w ↦ elim (Bool-cases (leb 4 (to_unsigned e.physical_page))) [
    | inl far ↦ (
      fault bus_error_exception,
      rw (use_entry_lem m i e (va % 128) size writing h, w, far),
      faults _,
    )
    | inr near ↦ (
      translated (to_unsigned e.physical_page * 128 + va % 128)
          (write_entry m i (record e { used = true; dirty = e.dirty || writing })),
      rw (use_entry_lem m i e (va % 128) size writing h, w, near),
      unfold write_entry in
          lands (to_unsigned e.physical_page * 128 + va % 128) _ (ground arith) (omega arith) refl
            refl,
    )
  ]
]

-- With a page table that has all the entries that its size promises, Translate of 1, 2 or 4
-- bytes passes every ASSERT: it faults, or it gives a place in memory where the whole access
-- fits, at the same offset in its page.
pub translate-Lands :
    (m : Machine) (va size : ℕ) (writing : Bool)
    → HasTable m
    → IsSize size
    → (r : Translation) × (translate m va size writing ≡ some r) × Lands m va size r
unfolding translate find_entry use_lookup page_entry
translate-Lands m va size writing t s = elim (Bool-cases (misaligned va size)) [
  | inl bad ↦ (fault address_error_exception, rw bad, faults _)
  | inr good ↦
      let fits = in_page va size s (ground (arith, misaligned_lem va size s)) in
      elim (Bool-cases (leb m.page_table_size (va / 128))) [
        | inl over ↦ (fault address_error_exception, rw (good, t.no_tlb, t.in_use, over), faults _)
        | inr under ↦
            let (e, found) = get_elem?-some t.table (va / 128) (ground (arith, t.complete)) in
            elim (Bool-cases e.valid) [
              | inl valid ↦
                  let (r, ran, l) = use_entry-Lands m (va / 128) e va size writing fits in
                  let k : Maps m (va / 128) e = record {
                    table = t.table;
                    no_tlb = t.no_tlb;
                    in_use = t.in_use;
                    in_size = ground arith;
                    entry = found;
                  } in
                  (r, translate-Maps m va size writing k valid good ∙ ran, l)
              | inr absent ↦ (
                fault page_fault_exception,
                rw (good, t.no_tlb, t.in_use, under, found, page_entry, absent),
                faults _,
              )
            ]
      ]
]
