-- ===== src/Machine/Translate/Registers.antt =====
-- What memory accesses do to the registers: nothing, unless they enter the kernel.
use jalepenos.Base.{
  ℕ, ◌≡◌, inl, inr, Bool, true, false, Option, none, some, arith, Bool-cases, Option-cases,
}
use jalepenos.Machine.{Machine, reg, load_reg, raise_exception}
use jalepenos.Machine.Translate.{
  Lookup, missing, entry_at, Translation, fault, translated, use_entry, use_lookup, misaligned,
  translate, write_entry, Access, raised, done, access, read_mem, write_mem, load_bytes,
  store_bytes,
}

-- A translation leaves the registers alone.
abbrev SameRegisters : Machine → Option Translation → Type 0
SameRegisters m none = Unit
SameRegisters m (some (fault e)) = Unit
SameRegisters m (some (translated p m')) = m'.registers ≡ m.registers

use_lookup-SameRegisters :
    (m : Machine) (l : Option Lookup) (offset size : ℕ) (writing : Bool)
    → SameRegisters m (use_lookup m l offset size writing)
unfolding use_lookup use_entry write_entry
use_lookup-SameRegisters m none offset size writing = tt
use_lookup-SameRegisters m (some (missing e)) offset size writing = tt
use_lookup-SameRegisters m (some (entry_at i e)) offset size writing = ground arith

translate-SameRegisters :
    (m : Machine) (va size : ℕ) (writing : Bool) → SameRegisters m (translate m va size writing)
unfolding translate
translate-SameRegisters m va size writing = elim (Bool-cases (misaligned va size)) [
  | inl bad ↦ rw bad tt
  | inr good ↦ rw good (use_lookup-SameRegisters m _ _ size writing)
]

-- Register 0 is zero, and no delayed load is pending.
pub record IsTrapState (m : Machine) : Type 0 where
  pub zero_reg : reg m 0 ≡ 0
  pub no_load : reg m load_reg ≡ 0

pub raise_exception-IsTrapState : (m : Machine) (v : ℕ) → IsTrapState (raise_exception m v)
unfolding raise_exception
raise_exception-IsTrapState m v = ground arith

-- An access that goes through leaves the registers alone; one that does not enters the kernel.
abbrev pub AccessKeeps : {A : Type 0} → Machine → Option (Access A) → Type 0
AccessKeeps m none = Unit
AccessKeeps m (some (raised e m')) = IsTrapState m'
AccessKeeps m (some (done a m')) = m'.registers ≡ m.registers

access-AccessKeeps :
    {A : Type 0} (m : Machine) (va : ℕ) (t : Option Translation)
    (next : ℕ → Machine → Option (Access A))
    → SameRegisters m t
    → ((p : ℕ) (m' : Machine) → m'.registers ≡ m.registers → AccessKeeps m (next p m'))
    → AccessKeeps m (access m va t next)
unfolding access
access-AccessKeeps m va none next s n = tt
access-AccessKeeps m va (some (fault e)) next s n = raise_exception-IsTrapState m va
access-AccessKeeps m va (some (translated p m')) next s n = n p m' s

pub read_mem-AccessKeeps : (m : Machine) (va size : ℕ) → AccessKeeps m (read_mem m va size)
unfolding read_mem
read_mem-AccessKeeps m va size =
    access-AccessKeeps m va _ _ (translate-SameRegisters m va size false) λ p m' same.
      elim (Option-cases (load_bytes m'.main_memory p size)) [
        | inl e ↦ rw e tt
        | inr (v, e) ↦ rw e same
      ]

pub write_mem-AccessKeeps :
    (m : Machine) (va size value : ℕ) → AccessKeeps m (write_mem m va size value)
unfolding write_mem
write_mem-AccessKeeps m va size value =
    access-AccessKeeps m va _ _ (translate-SameRegisters m va size true) λ p m' same.
      elim (Option-cases (store_bytes m'.main_memory p size value)) [
        | inl e ↦ rw e tt
        | inr (mem, e) ↦ rw e same
      ]
