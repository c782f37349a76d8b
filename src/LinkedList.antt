-- ===== src/LinkedList.antt =====
-- The singly linked lists of code/threads/list.cc, class `List`, over a store of `ListElement`s.
-- A pointer is a number and NULL is 0. `new` is a parameter: an operation that allocates takes the
-- address that `new` has returned. A result `none` is the use of a pointer that refers to no
-- element.
pub mod Chain
pub mod Ends
pub mod Insert
pub mod Queue
use jalepenos.Base.{
  ℕ, zero, suc, Bool, true, false, Option, none, some, ◌==◌, if◌then◌else◌, update, ◌>>=◌,
}
use jalepenos.Base.Int.{ℤ, pos, ltb_ℤ}

pub record ListElement : Type 0 where
  pub next : ℕ
  pub key : ℤ
  pub item : ℕ

-- The elements that `new` has returned and `delete` has not been given.
abbrev pub Store : Type 0
Store = ℕ → Option ListElement

pub record LinkedList : Type 0 where
  pub first : ℕ
  pub last : ℕ

-- ListElement::ListElement
abbrev pub new_element : ℕ → ℤ → ListElement
new_element item sort_key = record { next = 0; key = sort_key; item = item }

-- List::List
abbrev pub init : LinkedList
init = record { first = 0; last = 0 }

unfoldable pub load : Store → ℕ → Option ListElement
load s p = if p == 0 then none else s p

-- p->next = q;
unfoldable pub set_next : Store → ℕ → ℕ → Option Store
unfolding load
set_next s p q = load s p >>= λ e. some (update s p (some (record e { next = q })))

unfoldable pub is_empty : LinkedList → Bool
is_empty l = if l.first == 0 then true else false

unfoldable pub append : Store → LinkedList → ℕ → ℕ → Option (Store × LinkedList)
unfolding is_empty set_next
append s l element item =
    let s1 = update s element (some (new_element item (pos 0))) in
    if is_empty l
    then some (s1, record { first = element; last = element })
    else set_next s1 l.last element >>= λ s2. some (s2, record l { last = element })

unfoldable pub prepend : Store → LinkedList → ℕ → ℕ → Option (Store × LinkedList)
unfolding is_empty set_next
prepend s l element item =
    let s1 = update s element (some (new_element item (pos 0))) in
    if is_empty l
    then some (s1, record { first = element; last = element })
    else set_next s1 element l.first >>= λ s2. some (s2, record l { first = element })

-- last->next = element; last = element;
unfoldable pub insert_last : Store → LinkedList → ℕ → Option (Store × LinkedList)
unfolding set_next
insert_last s l element = set_next s l.last element >>= λ s1. some (s1, record l { last = element })

-- element->next = ptr->next; ptr->next = element;
unfoldable pub insert_after : Store → LinkedList → ℕ → ℕ → ℕ → Option (Store × LinkedList)
unfolding set_next
insert_after s l element ptr next =
    set_next s element next >>= λ s1. set_next s1 ptr element >>= λ s2. some (s2, l)

-- The `for` loop of SortedInsert and what follows it, on fuel.
pub insert_loop : ℕ → Store → LinkedList → ℕ → ℕ → ℤ → Option (Store × LinkedList)
insert_loop zero s l element ptr sort_key = none
insert_loop (suc fuel) s l element ptr sort_key = load s ptr >>= λ e.
    let rest = insert_loop fuel s l element e.next sort_key in
    if e.next == 0
    then insert_last s l element
    else load s e.next >>= λ f.
        if ltb_ℤ sort_key f.key then insert_after s l element ptr e.next else rest

unfoldable pub sorted_insert : ℕ → Store → LinkedList → ℕ → ℕ → ℤ → Option (Store × LinkedList)
unfolding is_empty load set_next
sorted_insert fuel s l element item sort_key =
    let s1 = update s element (some (new_element item sort_key)) in
    if is_empty l
    then some (s1, record { first = element; last = element })
    else load s1 l.first >>= λ e.
        if ltb_ℤ sort_key e.key
        then (set_next s1 element l.first >>= λ s2. some (s2, record l { first = element }))
        else insert_loop fuel s1 l element l.first sort_key

-- What SortedRemove gives back: NULL, or the item, with the key that it stores in `*keyPtr`.
unfoldable pub sorted_remove : Store → LinkedList → Option (Option (ℕ × ℤ) × Store × LinkedList)
unfolding is_empty load
sorted_remove s l =
    if is_empty l
    then some (none, s, l)
    else load s l.first >>= λ e. some (
      some (e.item, e.key),
      update s l.first none,
      if l.first == l.last then init else record l { first = e.next },
    )

-- List::Remove, which ignores the key.
abbrev item_of : Option (ℕ × ℤ) → Option ℕ
item_of none = none
item_of (some (item, key)) = some item

unfoldable pub remove : Store → LinkedList → Option (Option ℕ × Store × LinkedList)
unfolding sorted_remove
remove s l = sorted_remove s l >>= λ (thing, s1, l1). some (item_of thing, s1, l1)
