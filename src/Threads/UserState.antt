-- ===== src/Threads/UserState.antt =====
-- The registers of user programs across context switches: `SaveUserState` and `RestoreUserState` of
-- code/threads/thread.cc, and `InitRegisters` and `RestoreState` of code/userprog/addrspace.cc. A failed
-- ASSERT of the machine is `none`.
use jalepenos.Base.{
  ℕ, zero, suc, ◌+◌, ◌-◌, ◌*◌, ◌%◌, ◌^◌, ◌≤◌, ◌<◌, ◌≡◌, refl, sym, ◌∙◌, ap, true, List, Option,
  none, some, ◌==◌, ltb, leb, ◌&&◌, ==_iff, if◌then◌else◌, update, ◌>>=◌, arith, Bool-cases, inl,
  inr,
}
use jalepenos.Machine.{
  Machine, TranslationEntry, num_total_regs, page_size, pc_reg, next_pc_reg, stack_reg, word_size,
  read_register, write_register, put,
}

-- The loop of SaveUserState, `n` rounds from register `i` on, into `userRegisters`.
unfoldable pub save_loop : ℕ → ℕ → Machine → (ℕ → ℕ) → Option (ℕ → ℕ)
save_loop zero i m user = some user
save_loop (suc n) i m user =
    read_register m i >>= λ value. save_loop n (suc i) m (update user i value)

-- Thread::SaveUserState
unfoldable pub save_user_state : Machine → (ℕ → ℕ) → Option (ℕ → ℕ)
save_user_state m user = save_loop num_total_regs 0 m user

-- The loop of RestoreUserState.
unfoldable pub restore_loop : ℕ → ℕ → (ℕ → ℕ) → Machine → Option Machine
restore_loop zero i user m = some m
restore_loop (suc n) i user m = write_register m i (user i) >>= λ m1. restore_loop n (suc i) user m1

-- Thread::RestoreUserState
unfoldable pub restore_user_state : (ℕ → ℕ) → Machine → Option Machine
restore_user_state user m = restore_loop num_total_regs 0 user m

-- AddrSpace::InitRegisters
unfoldable pub init_registers : ℕ → Machine → Option Machine
init_registers num_pages m = do
  m1 ← restore_loop num_total_regs 0 (λ _. 0) m
  m2 ← write_register m1 pc_reg 0
  m3 ← write_register m2 next_pc_reg 4
  write_register m3 stack_reg ((num_pages * page_size + (word_size - 16)) % word_size)

-- AddrSpace::RestoreState
unfoldable pub restore_state : List TranslationEntry → ℕ → Machine → Machine
restore_state table num_pages m = record m { page_table = some table; page_table_size = num_pages }

-- A save of registers has given `user` on the registers below `n`.
abbrev Saves : Machine → ℕ → Option (ℕ → ℕ) → Type 0
Saves m n none = ⊥
Saves m n (some user) = (r : ℕ) → r < n → user r ≡ m.registers r

save_loop-Saves :
    (n i top : ℕ) (m : Machine) (user : ℕ → ℕ)
    → i + n ≡ top
    → top ≤ num_total_regs
    → ((r : ℕ) → r < i → user r ≡ m.registers r)
    → Saves m top (save_loop n i m user)
unfolding save_loop read_register
save_loop-Saves zero i top m user end fits below = λ r lt. below r (omega arith)
save_loop-Saves (suc n) i top m user end fits below =
    let ok : ltb i num_total_regs ≡ true = ground arith in
    rw ok (
      save_loop-Saves n (suc i) top m (update user i (m.registers i)) (omega arith) fits (λ r lt.
        elim (Bool-cases (r == i)) [
          | inl same ↦ rw same (ap m.registers (sym ((==_iff r i).0 same)))
          | inr other ↦ rw other (below r (ground arith))
        ]))

-- The machine is as before, but for the registers from `low` up to `top`, which are those of `user`.
pub record IsRestored (user : ℕ → ℕ) (low top : ℕ) (m m1 : Machine) : Type 0 where
  pub registers :
      (r : ℕ) → m1.registers r ≡ (if leb low r && ltb r top then user r else m.registers r)
  pub main_memory : m1.main_memory ≡ m.main_memory
  pub tlb : m1.tlb ≡ m.tlb
  pub page_table : m1.page_table ≡ m.page_table
  pub page_table_size : m1.page_table_size ≡ m.page_table_size

abbrev pub Restores : (ℕ → ℕ) → ℕ → ℕ → Machine → Option Machine → Type 0
Restores user low top m none = ⊥
Restores user low top m (some m1) = IsRestored user low top m m1

next_register :
    (user : ℕ → ℕ) (i top r : ℕ) (m : Machine)
    → i < top
    → (if leb (suc i) r && ltb r top then user r else update m.registers i (user i) r)
      ≡ (if leb i r && ltb r top then user r else m.registers r)
next_register user i top r m lt = elim (Bool-cases (r == i)) [
  | inl same ↦ rw ((==_iff r i).0 same) (ground arith)
  | inr other ↦ ground arith
]

from_next :
    (user : ℕ → ℕ) (i top : ℕ) (m : Machine) (o : Option Machine)
    → i < top
    → Restores user (suc i) top (put m i (user i)) o
    → Restores user i top m o
from_next user i top m none lt h = h
from_next user i top m (some m1) lt h = record {
  registers = λ r. h.registers r ∙ next_register user i top r m lt;
  main_memory = h.main_memory;
  tlb = h.tlb;
  page_table = h.page_table;
  page_table_size = h.page_table_size;
}

restore_loop-Restores :
    (n i top : ℕ) (user : ℕ → ℕ) (m : Machine)
    → i + n ≡ top
    → top ≤ num_total_regs
    → Restores user i top m (restore_loop n i user m)
unfolding restore_loop write_register
restore_loop-Restores zero i top user m end fits = record {
  registers = λ r. ground arith;
  main_memory = refl;
  tlb = refl;
  page_table = refl;
  page_table_size = refl;
}
restore_loop-Restores (suc n) i top user m end fits =
    let ok : ltb i num_total_regs ≡ true = ground arith in
    rw ok (
      from_next user i top m (restore_loop n (suc i) user (put m i (user i))) (omega arith)
        (restore_loop-Restores n (suc i) top user (put m i (user i)) (omega arith) fits))

none_below : (m : Machine) (user : ℕ → ℕ) (r : ℕ) → r < 0 → user r ≡ m.registers r
none_below m user r lt = absurd (omega arith)

below_top : (r a b : ℕ) → r < 40 → (if leb 0 r && ltb r 40 then a else b) ≡ a
below_top r a b lt = ground arith

saved :
    (m : Machine) (o : Option (ℕ → ℕ))
    → Saves m 40 o
    → (user : ℕ → ℕ) × (o ≡ some user) × ((r : ℕ) → r < 40 → user r ≡ m.registers r)
saved m none h = absurd h
saved m (some user) h = (user, refl, h)

restored :
    (user : ℕ → ℕ) (m : Machine) (o : Option Machine)
    → Restores user 0 40 m o
    → (m1 : Machine) × (o ≡ some m1) × IsRestored user 0 40 m m1
restored user m none h = absurd h
restored user m (some m1) h = (m1, refl, h)

-- Saving the registers of one machine and restoring them to another goes through and gives the
-- other the value of each register of the first; its memory and its table stay.
pub restore-save :
    (m other : Machine) (garbage : ℕ → ℕ) (r : ℕ)
    → r < num_total_regs
    → (user : ℕ → ℕ) × (restored : Machine) × (save_user_state m garbage ≡ some user)
      × (restore_user_state user other ≡ some restored)
      × (restored.registers r ≡ m.registers r)
      × (restored.main_memory ≡ other.main_memory)
      × (restored.page_table ≡ other.page_table)
unfolding save_user_state restore_user_state
restore-save m other garbage r lt =
    let (user, s, saves) =
      saved m _ (save_loop-Saves 40 0 40 m garbage refl (omega arith) (none_below m garbage)) in
    let (m1, e, i) =
      restored user other _ (restore_loop-Restores 40 0 40 user other refl (omega arith)) in
    (
      user,
      m1,
      s,
      e,
      i.registers r ∙ below_top r (user r) (other.registers r) lt ∙ saves r lt,
      i.main_memory,
      i.page_table,
    )

-- For an address space of at least one page that is smaller than 2 ^ 32 bytes, InitRegisters goes through
-- and leaves 0 in every register but NextPC, which is 4, and the stack register, which is 16 bytes
-- below the end of the address space; memory and the tables stay.
pub init_registers-lem :
    (num_pages : ℕ) (m : Machine) (r : ℕ)
    → r < num_total_regs
    → 0 < num_pages
    → num_pages * page_size < 2 ^ 32
    → (m1 : Machine) × (init_registers num_pages m ≡ some m1)
      × (m1.registers r ≡ (
          if r == stack_reg then num_pages * page_size - 16 else if r == next_pc_reg then 4 else 0))
      × (m1.main_memory ≡ m.main_memory)
      × (m1.tlb ≡ m.tlb)
      × (m1.page_table ≡ m.page_table)
      × (m1.page_table_size ≡ m.page_table_size)
unfolding init_registers write_register
init_registers-lem num_pages m r lt some_page fits =
    let (m1, e, i) =
      restored (λ _. 0) m _ (restore_loop-Restores 40 0 40 (λ _. 0) m refl (omega arith)) in
    rw e (
      _,
      refl,
      ground (arith, i.registers r, below_top r 0 (m.registers r) lt),
      i.main_memory,
      i.tlb,
      i.page_table,
      i.page_table_size,
    )
