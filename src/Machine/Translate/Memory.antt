-- ===== src/Machine/Translate/Memory.antt =====
-- Memory as the CPU reads and writes it.
use jalepenos.Base.{
  ℕ, ◌+◌, ◌*◌, ◌/◌, ◌%◌, ◌^◌, ◌≤◌, ◌<◌, ◌≡◌, refl, ap, ◌∙◌, inl, inr, Bool, true, false, ◌&&◌, ◌||◌,
  List, Option, none, some, ltb, leb, ◌==◌, if◌then◌else◌, arith, set, get_elem?-set_self,
  get_elem?-lt, set-set, update,
}
use jalepenos.Machine.{Machine, TranslationEntry}
use jalepenos.Machine.Translate.{
  to_unsigned, misaligned, write_entry, write_table, translated, translate, done, char_to_int,
  load_bytes, store_bytes, read_mem, write_mem,
}
use jalepenos.Machine.Translate.Frames.{
  IsSize, Maps, use_entry_lem, translate-Maps, misaligned_lem, in_page,
}

-- The value that a load of `size` bytes gives after `v` was stored there.
abbrev pub truncated : ℕ → ℕ → ℕ
truncated size v =
    if size == 1 then char_to_int (v % 2 ^ 8) else if size == 2 then v % 2 ^ 16 else v % 2 ^ 32

-- Bytes that were stored are loaded again, and no other byte changes.
load_bytes-store_bytes :
    (mem : ℕ → ℕ) (p size v : ℕ)
    → IsSize size
    → (mem' : ℕ → ℕ) × (store_bytes mem p size v ≡ some mem')
      × (load_bytes mem' p size ≡ some (truncated size v))
      × ((q : ℕ)
          → (if leb p q && ltb q (p + size) then 0 else mem' q)
            ≡ (if leb p q && ltb q (p + size) then 0 else mem q))
unfolding store_bytes load_bytes
load_bytes-store_bytes mem p size v (inl one) =
    rw one (update mem p (v % 256), refl, ground arith, λ q. ground arith)
load_bytes-store_bytes mem p size v (inr (inl two)) =
    rw two (_, refl, ground arith, λ q. ground arith)
load_bytes-store_bytes mem p size v (inr (inr four)) =
    rw four (_, refl, ground arith, λ q. ground arith)

write_table-again :
    (i : ℕ) (e : TranslationEntry) (t : Option (List TranslationEntry))
    → write_table i e (write_table i e t) ≡ write_table i e t
unfolding write_table
write_table-again i e none = refl
write_table-again i e (some es) = ap some (set-set es i e e)

-- The machine after a store: the entry's bits and the memory.
abbrev stored : Machine → ℕ → TranslationEntry → (ℕ → ℕ) → Machine
stored m i e mem = record m {
  tlb = write_table i e m.tlb;
  page_table = write_table i e m.page_table;
  main_memory = mem;
}

write_entry-stored :
    (m : Machine) (i : ℕ) (e : TranslationEntry) (mem : ℕ → ℕ)
    → write_entry (stored m i e mem) i e ≡ stored m i e mem
unfolding write_entry
write_entry-stored m i e mem = λ j. record (stored m i e mem) {
  tlb = write_table-again i e m.tlb j;
  page_table = write_table-again i e m.page_table j;
}

stored-Maps :
    (m : Machine) (i : ℕ) {e : TranslationEntry} (e' : TranslationEntry) (mem : ℕ → ℕ)
    → Maps m i e
    → Maps (stored m i e' mem) i e'
unfolding write_table
stored-Maps m i e' mem k = record {
  table = set k.table i e';
  no_tlb = rw k.no_tlb;
  in_use = rw k.in_use;
  in_size = k.in_size;
  entry = get_elem?-set_self k.table i e' (get_elem?-lt k.table i k.entry);
}

or-true : (b : Bool) → (b || true) ≡ true
or-true true = refl
or-true false = refl

-- An access that the page table allows, to a frame that exists.
pub record Writable (m : Machine) (va size : ℕ) : Type 0 where
  pub entry : TranslationEntry
  pub maps : Maps m (va / 128) entry
  pub valid : entry.valid ≡ true
  pub writable : entry.read_only ≡ false
  pub frame : to_unsigned entry.physical_page < 4
  pub is_size : IsSize size
  pub aligned : va % size ≡ 0

-- The entry after a write through it.
abbrev pub touched : TranslationEntry → TranslationEntry
touched e = record e { used = true; dirty = true }

abbrev pub phys_addr : TranslationEntry → ℕ → ℕ
phys_addr e va = to_unsigned e.physical_page * 128 + va % 128

module _ (m : Machine) (va size : ℕ) (w : Writable m va size) where
  fits : va % 128 + size ≤ 128
  fits = in_page va size w.is_size w.aligned

  not_misaligned : misaligned va size ≡ false
  not_misaligned = ground (arith, misaligned_lem va size w.is_size, w.aligned)

  translate-write :
      translate m va size true
      ≡ some (translated (phys_addr w.entry va) (write_entry m (va / 128) (touched w.entry)))
  translate-write =
      let near : leb 4 (to_unsigned w.entry.physical_page) ≡ false = ground (arith, w.frame) in
      translate-Maps m va size true w.maps w.valid not_misaligned
      ∙ use_entry_lem m (va / 128) w.entry (va % 128) size true fits
      ∙ rw (w.writable, near, or-true w.entry.dirty)

  translate-reread :
      (mem : ℕ → ℕ)
      → let m' = stored m (va / 128) (touched w.entry) mem in
        translate m' va size false ≡ some (translated (phys_addr w.entry va) m')
  translate-reread mem =
      let m' = stored m (va / 128) (touched w.entry) mem in
      let near : leb 4 (to_unsigned w.entry.physical_page) ≡ false = ground (arith, w.frame) in
      translate-Maps m' va size false (stored-Maps m (va / 128) (touched w.entry) mem w.maps)
        w.valid not_misaligned
      ∙ use_entry_lem m' (va / 128) (touched w.entry) (va % 128) size false fits
      ∙ rw (near, write_entry-stored m (va / 128) (touched w.entry) mem, w.writable)

  -- On a page that the page table lets the program write, an aligned WriteMem of 1, 2 or 4 bytes
  -- succeeds, the same ReadMem then gives the value cut to that size and changes nothing, no
  -- other byte of memory and no register changes, and the page's entry is marked used and dirty.
  pub read_mem-write_mem :
      (v : ℕ)
      → (m' : Machine) × (write_mem m va size v ≡ some (done tt m'))
        × (read_mem m' va size ≡ some (done (truncated size v) m'))
        × ((q : ℕ)
            → (if leb (phys_addr w.entry va) q && ltb q (phys_addr w.entry va + size)
                then 0
                else m'.main_memory q)
              ≡ (if leb (phys_addr w.entry va) q && ltb q (phys_addr w.entry va + size)
                  then 0
                  else m.main_memory q))
        × (m'.registers ≡ m.registers)
        × Maps m' (va / 128) (touched w.entry)
  unfolding write_mem read_mem write_entry
  read_mem-write_mem v =
      let (mem, put_bytes, got_bytes, others) =
        load_bytes-store_bytes m.main_memory (phys_addr w.entry va) size v w.is_size in
      (
        stored m (va / 128) (touched w.entry) mem,
        rw (translate-write, put_bytes),
        rw (translate-reread mem, got_bytes),
        others,
        refl,
        stored-Maps m (va / 128) (touched w.entry) mem w.maps,
      )
