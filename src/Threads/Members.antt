-- ===== src/Threads/Members.antt =====
-- Which threads a queue of threads holds.
use jalepenos.Base.{ℕ, ◌≡◌, refl, Bool, false, ◌||◌, List, [], ◌∷◌, ◌==◌, arith}
use jalepenos.LinkedList.Queue.{Entry, enqueue}

abbrev pub mem : ℕ → List (Entry ℕ) → Bool
mem t [] = false
mem t (e ∷ q) = (t == e.item) || mem t q

-- No thread is in the queue twice.
abbrev pub Distinct : List (Entry ℕ) → Type 0
Distinct [] = Unit {0}
Distinct (e ∷ q) = (mem e.item q ≡ false) × Distinct q

pub mem-enqueue :
    (t : ℕ) (e : Entry ℕ) (q : List (Entry ℕ)) → mem t (enqueue e q) ≡ ((t == e.item) || mem t q)
mem-enqueue t e [] = refl
mem-enqueue t e (x ∷ q) = ground (arith, mem-enqueue t e q)

pub enqueue-Distinct :
    (e : Entry ℕ) (q : List (Entry ℕ)) → mem e.item q ≡ false → Distinct q → Distinct (enqueue e q)
enqueue-Distinct e [] out d = (refl, tt)
enqueue-Distinct e (x ∷ q) out (n, d) =
    let ih = enqueue-Distinct e q (ground arith) d in ground (arith, mem-enqueue x.item e q)
