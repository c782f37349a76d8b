-- ===== src/Examples/Lists.antt =====
-- The linked list on concrete inputs.
use jalepenos.Base.{refl, List, [], ◌∷◌, none, some, arith, update}
use jalepenos.Base.Int.{pos, negsuc}
use jalepenos.LinkedList.{Store, LinkedList}
use jalepenos.LinkedList.Chain.{Cell, element_of, Represents}

abbrev low : Cell
low = record { at = 16; key = negsuc 3; item = 100 }

abbrev high : Cell
high = record { at = 8; key = pos 7; item = 200 }

abbrev middle : Cell
middle = record { at = 24; key = pos 2; item = 300 }

abbrev two_cells : List Cell
two_cells = low ∷ high ∷ []

abbrev two_store : Store
two_store = update (update (λ _. none) 16 (some (element_of low 8))) 8 (some (element_of high 0))

abbrev two_list : LinkedList
two_list = record { first = 16; last = 8 }

two-Represents : Represents two_store two_list two_cells
two-Represents = record {
  first_is = refl;
  last_is = refl;
  chain = (omega arith, refl, refl, (omega arith, refl, refl, tt));
}
