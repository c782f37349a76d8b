-- ===== src/AddrSpace/Clock.antt =====
-- The clock stops.
use jalepenos.Base.{
  ℕ, zero, suc, ◌+◌, ◌-◌, ◌*◌, ◌%◌, ◌<◌, ◌≡◌, refl, ap, sym, ◌∙◌, inl, inr, Bool, true, false, List,
  some, ◌==◌, leb, if◌then◌else◌, arith, get_elem?, length, Bool-cases, get_elem?-some,
  get_elem?-set_self, get_elem?-set_ne, length-set, get_elem?-lt,
}
use mathlib.Core.Option.{some-injective}
use native.Mathlib.Nat.{mod-eq_of_lt, mod_self}
use jalepenos.Machine.{TranslationEntry}
use jalepenos.AddrSpace.{AddrSpace, is_resident, is_victim, pass_over, clock_loop}

-- The table is complete, and the hand points into it.
pub record IsReady (a : AddrSpace) : Type 0 where
  pub sized : length a.page_table ≡ a.num_pages
  pub hand : a.clock_hand < a.num_pages

next_hand : (h n : ℕ) → h < n → suc h % n ≡ (if suc h == n then 0 else suc h)
next_hand h n lt = elim (Bool-cases (suc h == n)) [
  | inl e ↦ let e' : suc h ≡ n = ground arith in rw (e, e') (mod_self n)
  | inr ne ↦ rw ne (mod-eq_of_lt (ground arith))
]

-- The steps of the hand to page `v`.
abbrev steps : ℕ → ℕ → ℕ → ℕ
steps h v n = if leb h v then v - h else v + n - h

-- Page `v` is in memory; `fresh` if its use bit is clear.
pub record Candidate (a : AddrSpace) (v : ℕ) : Type 0 where
  pub entry : TranslationEntry
  pub at : get_elem? a.page_table v ≡ some entry
  pub valid : entry.valid ≡ true
  pub resident : is_resident entry.physical_page ≡ true

-- The clock stopped at an entry that it may take.
pub record Stopped (use_fifo : Bool) (r : TranslationEntry × AddrSpace) : Type 0 where
  pub ready : IsReady r.1
  pub at_hand : get_elem? r.1.page_table r.1.clock_hand ≡ some r.0
  pub victim : is_victim use_fifo r.0 ≡ true

abbrev Stops : ℕ → Bool → AddrSpace → Type 0
Stops fuel use_fifo a =
    (r : TranslationEntry × AddrSpace) × (clock_loop fuel use_fifo a ≡ some r) × Stopped use_fifo r

IsReady-pass_over : (a : AddrSpace) (e : TranslationEntry) → IsReady a → IsReady (pass_over a e)
IsReady-pass_over a e r = record {
  sized = length-set a.page_table a.clock_hand (record e { used = false }) ∙ r.sized;
  hand = rw (next_hand a.clock_hand a.num_pages r.hand) (ground (arith, r.hand));
}

-- A step that finds no victim, or stops.
step :
    (fuel : ℕ) (use_fifo : Bool) (a : AddrSpace)
    → IsReady a
    → ((e : TranslationEntry)
        → get_elem? a.page_table a.clock_hand ≡ some e
        → is_victim use_fifo e ≡ false
        → Stops fuel use_fifo (pass_over a e))
    → Stops (suc fuel) use_fifo a
unfolding clock_loop
step fuel use_fifo a r next =
    let (e, at) = get_elem?-some a.page_table a.clock_hand (omega (arith, r.sized, r.hand)) in
    elim (Bool-cases (is_victim use_fifo e)) [
      | inl yes_it_is ↦
          ((e, a), rw (at, yes_it_is) refl, record { ready = r; at_hand = at; victim = yes_it_is })
      | inr not_it ↦
          let (res, ran, stopped) = next e at not_it in (res, rw (at, not_it, ran) refl, stopped)
    ]

same_entry :
    (t : List TranslationEntry) (i : ℕ) (e e' : TranslationEntry)
    → get_elem? t i ≡ some e
    → get_elem? t i ≡ some e'
    → e ≡ e'
same_entry t i e e' h h' = some-injective e e' (sym h ∙ h')

unused_victim :
    (use_fifo : Bool) (e : TranslationEntry)
    → e.valid ≡ true
    → e.used ≡ false
    → is_resident e.physical_page ≡ true
    → is_victim use_fifo e ≡ true
unfolding is_victim
unused_victim use_fifo e valid unused resident = rw (valid, unused, resident) refl

-- Another entry than that under the hand is passed over unchanged.
Candidate-pass_over :
    (a : AddrSpace) (e : TranslationEntry) (v : ℕ)
    → (a.clock_hand == v) ≡ false
    → Candidate a v
    → Candidate (pass_over a e) v
Candidate-pass_over a e v apart c = record {
  entry = c.entry;
  at =
      get_elem?-set_ne a.page_table a.clock_hand v (record e { used = false }) (ground arith)
      ∙ c.at;
  valid = c.valid;
  resident = c.resident;
}

steps-pass_over :
    (h v n : ℕ) → h < n → v < n → (h == v) ≡ false → suc (steps (suc h % n) v n) ≡ steps h v n
steps-pass_over h v n hn vn apart = rw (next_hand h n hn) (ground arith)

steps_self : (v n : ℕ) → v < n → suc (steps (suc v % n) v n) ≡ n
steps_self v n vn = rw (next_hand v n vn) (ground arith)

-- A candidate whose use bit is clear stops the clock when the hand comes to it.
fresh-Stops :
    (fuel : ℕ) (use_fifo : Bool) (a : AddrSpace) (v : ℕ) (c : Candidate a v)
    → IsReady a
    → c.entry.used ≡ false
    → v < a.num_pages
    → steps a.clock_hand v a.num_pages < fuel
    → Stops fuel use_fifo a
unfolding Candidate-pass_over
fresh-Stops zero use_fifo a v c r unused vn enough = absurd (omega arith)
fresh-Stops (suc fuel) use_fifo a v c r unused vn enough = step fuel use_fifo a r λ e at not_it.
    elim (Bool-cases (a.clock_hand == v)) [
      | inl here ↦
          let arrived : a.clock_hand ≡ v = ground arith in
          let same =
            same_entry a.page_table v e c.entry (ap (get_elem? a.page_table) (sym arrived) ∙ at)
              c.at in
          let clash : true ≡ false =
            sym (unused_victim use_fifo c.entry c.valid unused c.resident)
            ∙ ap (is_victim use_fifo) (sym same)
            ∙ not_it in
          absurd cc
      | inr apart ↦
          fresh-Stops fuel use_fifo (pass_over a e) v (Candidate-pass_over a e v apart c)
            (IsReady-pass_over a e r) unused vn
            (omega (arith, steps-pass_over a.clock_hand v a.num_pages r.hand vn apart))
    ]

candidate-Stops :
    (fuel : ℕ) (use_fifo : Bool) (a : AddrSpace) (v : ℕ)
    → Candidate a v
    → IsReady a
    → v < a.num_pages
    → steps a.clock_hand v a.num_pages + a.num_pages < fuel
    → Stops fuel use_fifo a
candidate-Stops zero use_fifo a v c r vn enough = absurd (omega arith)
candidate-Stops (suc fuel) use_fifo a v c r vn enough = step fuel use_fifo a r λ e at not_it.
    elim (Bool-cases (a.clock_hand == v)) [
      | inl here ↦
          let arrived : a.clock_hand ≡ v = ground arith in
          let same =
            same_entry a.page_table v e c.entry (ap (get_elem? a.page_table) (sym arrived) ∙ at)
              c.at in
          let a' = pass_over a e in
          let fresh : Candidate a' v = record {
            entry = record e { used = false };
            at =
                ap (get_elem? a'.page_table) (sym arrived)
                ∙ get_elem?-set_self a.page_table a.clock_hand (record e { used = false })
                    (get_elem?-lt a.page_table a.clock_hand at);
            valid = ap (λ (x : TranslationEntry). x.valid) same ∙ c.valid;
            resident = ap (λ (x : TranslationEntry). is_resident x.physical_page) same ∙ c.resident;
          } in
          let turn : suc (steps (suc a.clock_hand % a.num_pages) v a.num_pages) ≡ a.num_pages =
            ap (λ (h : ℕ). suc (steps (suc h % a.num_pages) v a.num_pages)) arrived
            ∙ steps_self v a.num_pages vn in
          fresh-Stops fuel use_fifo a' v fresh (IsReady-pass_over a e r) refl vn
            (omega (arith, turn))
      | inr apart ↦
          candidate-Stops fuel use_fifo (pass_over a e) v (Candidate-pass_over a e v apart c)
            (IsReady-pass_over a e r) vn
            (omega (arith, steps-pass_over a.clock_hand v a.num_pages r.hand vn apart))
    ]

-- For an address space with a complete table, a hand that points into it and some page that is
-- valid and in memory, two turns of the clock of ClearPage are enough: it stops with the table
-- complete at the entry under the hand, which is valid, in memory, and either has its use bit
-- clear or is taken under FIFO.
pub clock_loop-Stopped :
    (use_fifo : Bool) (a : AddrSpace) (v : ℕ)
    → IsReady a
    → Candidate a v
    → (r : TranslationEntry × AddrSpace) × (clock_loop (2 * a.num_pages) use_fifo a ≡ some r)
      × Stopped use_fifo r
clock_loop-Stopped use_fifo a v r c =
    let vn : v < a.num_pages = omega (arith, get_elem?-lt a.page_table v c.at, r.sized) in
    candidate-Stops (2 * a.num_pages) use_fifo a v c r vn (ground (arith, r.hand))
