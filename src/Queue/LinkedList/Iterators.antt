-- ===== src/Queue/LinkedList/Iterators.antt =====
-- header/actor-zeta/detail/queue/linked_list.hpp, with header/actor-zeta/detail/queue/forward_iterator.hpp:
-- the members of a list that only read it. An iterator is the address of a node.
use actor_zeta.Base.{
  ℕ, zero, suc, ◌<◌, ◌≡◌, refl, ap, true, false, List, [], ◌∷◌, ◌++◌, Option, none, some, length,
  ◌==◌, if◌then◌else◌, arith,
}
use actor_zeta.Queue.Links.{Ptr, null, Heap, Trail, last_or, Off, Off-end}
use actor_zeta.Queue.LinkedList.{At}
use actor_zeta.Queue.LinkedList.Laws.{Holds}

abbrev pub Iterator : Type 0
Iterator = Ptr

-- `next` and `operator++`; the postfix form returns the iterator as it was, and leaves it advanced.
unfoldable pub next : Heap → Iterator → Iterator
next h it = h it

unfoldable pub post_increment : Heap → Iterator → Iterator × Iterator
unfolding next
post_increment h it = (it, next h it)

unfoldable pub begin : At → Iterator
begin s = s.heap s.list.head

unfoldable pub end : At → Iterator
end s = s.list.tail

unfoldable pub before_begin : At → Iterator
before_begin s = s.list.head

unfoldable pub front : At → Ptr
front s = s.heap s.list.head

-- `none` is the assertion.
unfoldable pub back : At → Option Ptr
back s = if s.heap s.list.head == s.list.tail then none else some (s.heap s.list.tail)

unfoldable pub peek : At → Ptr
unfolding front
peek s = if s.list.size == 0 then null else front s

-- The nodes that a loop meets from an iterator to another, moving on with the postfix form.
unfoldable pub range : ℕ → Heap → Iterator → Iterator → Option (List Ptr)
unfolding post_increment
range zero h it stop = none
range (suc fuel) h it stop =
    let rest = range fuel h (post_increment h it).1 stop in
    if it == stop
    then some []
    else elim rest [ none ↦ none | some ps ↦ some ((post_increment h it).0 ∷ ps) ]

abbrev pub first_or : Ptr → List Ptr → Ptr
first_or p [] = p
first_or p (x ∷ xs) = x

-- The last node, if there is one.
abbrev pub last : List Ptr → Option Ptr
last [] = none
last (x ∷ xs) = some (last_or x xs)

range-Trail :
    (h : Heap) (t a : Ptr) (xs : List Ptr) (fuel : ℕ)
    → length xs < fuel
    → Off t xs
    → Trail h a (xs ++ (t ∷ []))
    → range fuel h (h a) t ≡ some xs
unfolding range post_increment next
range-Trail h t a xs zero few off w = absurd (omega (arith, few))
range-Trail h t a [] (suc fuel) few off w = let e : (h a == t) ≡ true = ground arith in rw e refl
range-Trail h t a (x ∷ xs) (suc fuel) few off w =
    let e : (x == t) ≡ false = ground arith in
    let ih = range-Trail h t x xs fuel (omega (arith, few)) off.1 w.1 in
    let first = w.0 in rw (first, e, ih) (ap (λ b. some (b ∷ xs)) first)

-- On a list that holds the nodes xs: a loop from begin to end, or from behind before_begin to end,
-- meets just these nodes, front to back, with fuel for one more than they are; peek gives the first
-- node, or null for an empty list, and front the first node or the sentinel behind the list; back
-- gives the last node, and fails exactly on an empty list.
pub range-Holds :
    (s : At) (xs : List Ptr) (fuel : ℕ)
    → Holds s xs
    → length xs < fuel
    → (range fuel s.heap (begin s) (end s) ≡ some xs)
      × (range fuel s.heap (next s.heap (before_begin s)) (end s) ≡ some xs)
      × (peek s ≡ first_or null xs)
      × (front s ≡ first_or (end s) xs)
      × (back s ≡ last xs)
unfolding begin end before_begin next peek front back
range-Holds s [] fuel v few =
    let all = range-Trail s.heap s.list.tail s.list.head [] fuel few tt v.path in
    (all, all, ground (arith, v.sized), v.path.0, ground (arith, v.path.0))
range-Holds s (x ∷ xs) fuel v few =
    let off = Off-end s.list.tail (x ∷ xs) [] v.distinct.1 in
    let all = range-Trail s.heap s.list.tail s.list.head (x ∷ xs) fuel few off v.path in
    (all, all, ground (arith, v.sized, v.path.0), v.path.0, ground (arith, v.path.0, off.0, v.back))
