-- ===== src/Queue/LinkedList.antt =====
-- header/actor-zeta/detail/queue/linked_list.hpp: a singly linked list between two sentinel nodes
-- that the list object holds. An operation takes the heap and the list and returns both.
pub mod Laws
pub mod Ends
pub mod Iterators
pub mod Moves
use actor_zeta.Base.{
  ℕ, zero, suc, ◌+◌, ◌-◌, ◌≡◌, Bool, List, [], ◌∷◌, Option, none, some, ◌==◌, if◌then◌else◌,
}
use actor_zeta.Queue.Links.{Ptr, null, Heap, write}

-- `head` and `tail` are the addresses of `head_` and `tail_`; the heap holds their `next`.
pub record LinkedList : Type 0 where
  pub head : Ptr
  pub tail : Ptr
  pub size : ℕ

-- A heap and a list in it.
pub record At : Type 0 where
  pub heap : Heap
  pub list : LinkedList

-- `init`; also the members' initial values
unfoldable pub init : At → At
init s = record {
  heap = write (write s.heap s.list.head s.list.tail) s.list.tail s.list.head;
  list = record (s.list) { size = 0 };
}

unfoldable pub empty : LinkedList → Bool
empty l = l.size == 0

unfoldable pub push_back : At → Ptr → At
push_back s p =
    let h1 = write s.heap (s.heap s.list.tail) p in
    let h2 = write h1 s.list.tail p in
    let h3 = write h2 p s.list.tail in
    record { heap = h3; list = record (s.list) { size = s.list.size + 1 } }

unfoldable pub push_front : At → Ptr → At
unfolding empty push_back
push_front s p =
    if empty s.list
    then push_back s p
    else (let h1 = write s.heap p (s.heap s.list.head) in
        let h2 = write h1 s.list.head p in
        record { heap = h2; list = record (s.list) { size = s.list.size + 1 } })

-- The popped node, if any.
unfoldable pub pop_front : At → Option Ptr × At
unfolding empty
pop_front s =
    if empty s.list
    then (none, s)
    else (let p = s.heap s.list.head in
        let h1 = write s.heap s.list.head (s.heap p) in
        let size = s.list.size - 1 in
        let h2 = if size == 0 then write h1 s.list.tail s.list.head else h1 in
        (some p, record { heap = h2; list = record (s.list) { size = size } }))

unfoldable pub before_end : At → Ptr
before_end s = s.heap s.list.tail

unfoldable pub insert_after : At → Ptr → Ptr → At
insert_after s pos p =
    let next = s.heap pos in
    let h1 = write s.heap p next in
    let h2 = write h1 pos p in
    let h3 = if next == s.list.tail then write h2 s.list.tail p else h2 in
    record { heap = h3; list = record (s.list) { size = s.list.size + 1 } }

-- The loop of `drain`: the nodes that it visits, in order, with `i` where it stands.
unfoldable pub visit : ℕ → Heap → Ptr → Ptr → Option (List Ptr)
visit zero h stop i = none
visit (suc fuel) h stop i =
    let rest = visit fuel h stop (h i) in
    if i == stop then some [] else elim rest [ none ↦ none | some ps ↦ some (i ∷ ps) ]

-- `drain`: the nodes handed to the function, and the list after `init`. The function frees a node
-- only after its `next` was read, so the heap is not changed under the loop.
unfoldable pub drain : ℕ → At → Option (List Ptr × At)
unfolding visit init
drain fuel s = elim (visit fuel s.heap s.list.tail (s.heap s.list.head)) [
  | none ↦ none
  | some ps ↦ some (ps, init s)
]
