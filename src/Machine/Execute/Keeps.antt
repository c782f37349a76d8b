-- ===== src/Machine/Execute/Keeps.antt =====
-- The registers that the simulator itself uses, in each way that a case of the switch ends.
use jalepenos.Base.{
  ℕ, ◌<◌, ◌≡◌, refl, ap, subst, Bool, true, false, not, Option, none, some, ◌==◌, if◌then◌else◌,
  arith, bit_and,
}
use jalepenos.Machine.{Machine, ExceptionType, reg, put, load_reg, pc_reg, next_pc_reg}
use jalepenos.Machine.Translate.{Access, raised, done, write_mem}
use jalepenos.Machine.Translate.Registers.{
  IsTrapState, raise_exception-IsTrapState, AccessKeeps, read_mem-AccessKeeps,
  write_mem-AccessKeeps,
}
use jalepenos.Machine.Words.{add}
use jalepenos.Machine.Mult.{Double}
use jalepenos.Machine.Execute.{
  Effect, complete, trap, abort, advance, raise, branch, link, checked, after_access, load_byte,
  load_half, load_word, load_partial, store, store_partial, divide, multiply,
}
use jalepenos.Machine.Instruction.{Instruction}

-- Relative to the registers before: an instruction that completes has not touched the pending
-- load or the program counters, and records a load into a general register; one that traps leaves
-- register 0 zero and no load pending.
abbrev pub Keeps : (ℕ → ℕ) → Effect → Type 0
Keeps r (complete m lr lv pc) =
    (reg m load_reg ≡ r load_reg)
    × (reg m pc_reg ≡ r pc_reg)
    × (reg m next_pc_reg ≡ r next_pc_reg)
    × (lr < 32)
Keeps r (trap e m) = IsTrapState m
Keeps r abort = Unit

pub if-Keeps :
    (r : ℕ → ℕ) (b : Bool) (x y : Effect) → Keeps r x → Keeps r y → Keeps r (if b then x else y)
if-Keeps r true x y hx hy = hx
if-Keeps r false x y hx hy = hy

module _ (m : Machine) where
  pub complete-Keeps :
      (m' : Machine) (lr lv pc : ℕ)
      → lr < 32
      → m'.registers ≡ m.registers
      → Keeps m.registers (complete m' lr lv pc)
  complete-Keeps m' lr lv pc h same = (
    ap (λ (f : ℕ → ℕ). f load_reg) same,
    ap (λ (f : ℕ → ℕ). f pc_reg) same,
    ap (λ (f : ℕ → ℕ). f next_pc_reg) same,
    h,
  )

  pub put-Keeps : (r v lv pc : ℕ) → r < 34 → Keeps m.registers (complete (put m r v) 0 lv pc)
  put-Keeps r v lv pc h = ground arith

  pub advance-Keeps : (r v : ℕ) → r < 34 → Keeps m.registers (advance (put m r v))
  unfolding advance
  advance-Keeps r v h = put-Keeps r v 0 0 h

  advance_same-Keeps : (m' : Machine) → m'.registers ≡ m.registers → Keeps m.registers (advance m')
  unfolding advance
  advance_same-Keeps m' same = complete-Keeps m' 0 0 0 (omega arith) same

  raise-Keeps : (e : ExceptionType) (v : ℕ) → Keeps m.registers (raise m e v)
  unfolding raise
  raise-Keeps e v = raise_exception-IsTrapState m v

  pub checked-Keeps : (r v : ℕ) (o : Bool) → r < 34 → Keeps m.registers (checked m r o v)
  unfolding checked
  checked-Keeps r v true h = raise_exception-IsTrapState m 0
  checked-Keeps r v false h = advance-Keeps r v h

  pub branch-Keeps : (i : Instruction) (taken : Bool) → Keeps m.registers (branch m i taken)
  unfolding branch
  branch-Keeps i taken = complete-Keeps m 0 0 0 (omega arith) refl

  pub branch-link-Keeps :
      (i : Instruction) (taken : Bool) → Keeps m.registers (branch (link m) i taken)
  unfolding branch
  branch-link-Keeps i taken = put-Keeps 31 0 0 0 (omega arith)

  pub divide-Keeps : (q : Option (ℕ × ℕ)) → Keeps m.registers (divide m q)
  unfolding divide advance
  divide-Keeps none = tt
  divide-Keeps (some (q, r)) = ground arith

  pub multiply-Keeps : (d : Double) → Keeps m.registers (multiply m d)
  unfolding multiply advance
  multiply-Keeps d = ground arith

  after_access-Keeps :
      {A : Type 0} (a : Option (Access A)) (next : A → Machine → Effect)
      → AccessKeeps m a
      → ((v : A) (m' : Machine) → m'.registers ≡ m.registers → Keeps m.registers (next v m'))
      → Keeps m.registers (after_access a next)
  unfolding after_access
  after_access-Keeps none next k n = tt
  after_access-Keeps (some (raised e m')) next k n = k
  after_access-Keeps (some (done v m')) next k n = n v m' k

  written :
      (va size v : ℕ)
      → Keeps m.registers (after_access (write_mem m va size v) (λ _ m'. advance m'))
  written va size v =
      after_access-Keeps _ _ (write_mem-AccessKeeps m va size v)
        λ _ m' same. advance_same-Keeps m' same

-- The fields of a decoded instruction name general registers.
module _ (m : Machine) (i : Instruction) (hs : i.rs < 32) (ht : i.rt < 32) (hd : i.rd < 32) where
  load-Keeps :
      (a : Option (Access ℕ)) (f : ℕ → Machine → ℕ)
      → AccessKeeps m a
      → Keeps m.registers
          (after_access a (λ v m'. complete m' i.rt (f v m') (add (reg m' next_pc_reg) 4)))
  load-Keeps a f k = after_access-Keeps m a _ k (λ v m' same. complete-Keeps m m' i.rt 0 0 ht same)

  pub load_byte-Keeps : (s : Bool) → Keeps m.registers (load_byte m i s)
  unfolding load_byte
  load_byte-Keeps s = load-Keeps _ _ (read_mem-AccessKeeps m _ 1)

  pub load_half-Keeps : (s : Bool) → Keeps m.registers (load_half m i s)
  unfolding load_half
  load_half-Keeps s =
      if-Keeps m.registers (not (bit_and (add (reg m i.rs) i.extra) 1 == 0)) _ _
        (raise_exception-IsTrapState m (add (reg m i.rs) i.extra))
        (load-Keeps _ _ (read_mem-AccessKeeps m _ 2))

  pub load_word-Keeps : Keeps m.registers (load_word m i)
  unfolding load_word
  load_word-Keeps =
      if-Keeps m.registers (not (bit_and (add (reg m i.rs) i.extra) 3 == 0)) _ _
        (raise_exception-IsTrapState m (add (reg m i.rs) i.extra))
        (load-Keeps _ _ (read_mem-AccessKeeps m _ 4))

  pub load_partial-Keeps : (merge : ℕ → ℕ → ℕ → ℕ) → Keeps m.registers (load_partial m i merge)
  unfolding load_partial
  load_partial-Keeps merge =
      if-Keeps m.registers (not (bit_and (add (reg m i.rs) i.extra) 3 == 0)) abort _ tt
        (load-Keeps _ _ (read_mem-AccessKeeps m _ 4))

  write-Keeps :
      (m' : Machine) (va size v : ℕ)
      → m'.registers ≡ m.registers
      → Keeps m.registers (after_access (write_mem m' va size v) (λ _ m''. advance m''))
  write-Keeps m' va size v same =
      subst (λ r. Keeps r (after_access (write_mem m' va size v) (λ _ m''. advance m''))) same
        (written m' va size v)

  pub store-Keeps : (size : ℕ) → Keeps m.registers (store m i size)
  unfolding store
  store-Keeps size = write-Keeps m _ size _ refl

  pub store_partial-Keeps : (merge : ℕ → ℕ → ℕ → ℕ) → Keeps m.registers (store_partial m i merge)
  unfolding store_partial
  store_partial-Keeps merge =
      if-Keeps m.registers (not (bit_and (add (reg m i.rs) i.extra) 3 == 0)) abort _ tt (
        after_access-Keeps m _ _ (read_mem-AccessKeeps m _ 4)
          λ v m' same. write-Keeps m' _ 4 _ same)
