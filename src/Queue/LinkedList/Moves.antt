-- ===== src/Queue/LinkedList/Moves.antt =====
-- The move constructor and the move assignment of header/actor-zeta/detail/queue/linked_list.hpp:
-- the nodes change hands, and the last of them has to point to the new sentinel.
use mathlib.Core.List.{append-nil}
use actor_zeta.Base.{
  ℕ, ◌<◌, ◌≡◌, ◌≢◌, refl, sym, subst, true, false, List, [], ◌∷◌, ◌++◌, Option, some, ◌==◌,
  if◌then◌else◌, arith, length, ◌>>=◌,
}
use actor_zeta.Queue.Links.{
  Ptr, Heap, write, Trail, last_or, Off, Distinct, OffAll, Off-left, Off-right, Off-last,
  Trail-left, Trail-append, Trail-write, Trail-write_last, Distinct-left, Distinct-insert, Off-end,
}
use actor_zeta.Queue.LinkedList.{LinkedList, init, empty, drain}
use actor_zeta.Queue.LinkedList.Laws.{Holds, init-Holds}
use actor_zeta.Queue.LinkedList.Ends.{drain-Holds}
use actor_zeta.Queue.Frames.{nodes, Holds-Agree, init-Agree, OffAll-right}

-- What the two have in common: the heap, this list, which is empty, and the other.
unfoldable pub take_over : Heap → LinkedList → LinkedList → Heap × LinkedList × LinkedList
unfolding empty init
take_over h l other =
    let h1 = write h l.head (h other.head) in
    let h2 = write h1 l.tail (h1 other.tail) in
    let h3 = write h2 (h2 l.tail) l.tail in
    let left = init (record { heap = h3; list = other }) in
    if empty other then (h, l, other) else (left.heap, record l { size = other.size }, left.list)

-- The move constructor, with the members' initial values.
unfoldable pub move_from : Heap → LinkedList → LinkedList → Heap × LinkedList × LinkedList
unfolding take_over init
move_from h l other = let s = init (record { heap = h; list = l }) in take_over s.heap s.list other

-- The move assignment between two lists: the nodes that `clear` deletes first, and what is left.
unfoldable pub assign :
    ℕ → Heap → LinkedList → LinkedList → Option (List Ptr × Heap × LinkedList × LinkedList)
unfolding take_over drain
assign fuel h l other = do
  (deleted, s) ← drain fuel (record { heap = h; list = l })
  let (h', l', other') = take_over s.heap s.list other
  some (deleted, h', l', other')

-- The other list's sentinels are `oh` and `ot`, and its nodes `x` and `xs`.
module _ (h : Heap) (a t oh ot x : Ptr) (xs : List Ptr) where
  abbrev moved : Heap
  moved = write (write (write (write (write h a (h oh)) t (h ot)) (h ot) t) oh ot) ot oh

  moved-Trail :
      a ≢ t
      → Off a (oh ∷ x ∷ (xs ++ (ot ∷ [])))
      → Off t (oh ∷ x ∷ (xs ++ (ot ∷ [])))
      → Distinct (oh ∷ x ∷ (xs ++ (ot ∷ [])))
      → Trail h oh (x ∷ (xs ++ (ot ∷ [])))
      → h ot ≡ last_or x xs
      → Trail moved a (x ∷ (xs ++ (t ∷ []))) × (moved t ≡ last_or x xs)
  moved-Trail apart oa ob d w b =
      let end : List Ptr = ot ∷ [] in
      let last = last_or x xs in
      let h1 = write h a (h oh) in
      let h2 = write h1 t (h ot) in
      let h3 = write h2 (h ot) t in
      let h4 = write h3 oh ot in
      let a_xs = Off-left a xs end oa.1.1 in
      let t_xs = Off-left t xs end ob.1.1 in
      let oh_xs = Off-left oh xs end d.0.1 in
      let ot_xs = Off-end ot (x ∷ xs) [] d.1 in
      let n1 = Off-last a x xs oa.1.0 a_xs in
      let n2 = Off-last t x xs ob.1.0 t_xs in
      let n3 = Off-last oh x xs d.0.0 oh_xs in
      let n4 = Off-last ot x xs ot_xs.0 ot_xs.1 in
      let a_ot = (Off-right a xs end oa.1.1).0 in
      let t_ot = (Off-right t xs end ob.1.1).0 in
      let a_oh = oa.0 in
      let t_oh = ob.0 in
      let first = w.0 in
      let w2 =
        Trail-write h1 t (h ot) x xs ob.1.0 t_xs
          (Trail-write h a (h oh) x xs oa.1.0 a_xs (Trail-left h x xs end w.1)) in
      let w3 : Trail h3 x xs =
        subst (λ r. Trail (write h2 r t) x xs) (sym b)
          (Trail-write_last h2 t x xs (Off-left x xs end d.1.0, Distinct-left xs end d.1.1) w2) in
      let w5 =
        Trail-write h4 ot oh x xs ot_xs.0 ot_xs.1 (Trail-write h3 oh ot x xs d.0.0 oh_xs w3) in
      ((ground arith, Trail-append moved x xs (t ∷ []) w5 (ground arith, tt)), ground arith)

Distinct-end : (t : Ptr) (xs : List Ptr) → Off t xs → Distinct xs → Distinct (xs ++ (t ∷ []))
Distinct-end t xs o d = Distinct-insert t xs [] (rw (append-nil xs) o) (rw (append-nil xs) d)

-- An empty list takes over the nodes of the other, in order, and leaves it empty; both are sound.
pub take_over-Holds :
    (h : Heap) (l other : LinkedList) (xs : List Ptr)
    → Holds (record { heap = h; list = l }) []
    → Holds (record { heap = h; list = other }) xs
    → OffAll (nodes l []) (nodes other xs)
    → let (h', l', other') = take_over h l other in
      Holds (record { heap = h'; list = l' }) xs × Holds (record { heap = h'; list = other' }) []
unfolding take_over
take_over-Holds h l other [] v w o =
    let size = w.sized in let e : (other.size == 0) ≡ true = ground arith in rw e (v, w)
take_over-Holds h l other (x ∷ xs) v w o =
    let end : List Ptr = other.tail ∷ [] in
    let a_xs = Off-left l.head xs end o.0.1.1 in
    let t_xs = Off-left l.tail xs end o.1.0.1.1 in
    let size = w.sized in
    let full : (other.size == 0) ≡ false = ground arith in
    let apart = v.distinct.0.0 in
    let a_ot = (Off-right l.head xs (other.tail ∷ []) o.0.1.1).0 in
    let oh_ot = (Off-right other.head xs (other.tail ∷ []) w.distinct.0.1).0 in
    let e1 : (other.tail == l.head) ≡ false = ground arith in
    let e2 : (l.tail == l.tail) ≡ true = ground arith in
    let there =
      moved-Trail h l.head l.tail other.head other.tail x xs apart o.0 o.1.0 w.distinct w.path
        w.back in
    rw (full, e1, e2)
      (
        record {
          path = there.0;
          back = there.1;
          sized = w.sized;
          distinct =
              Distinct-end l.tail (l.head ∷ x ∷ xs) ((λ q. apart (sym q)), (o.1.0.1.0, t_xs))
                (
                  (o.0.1.0, a_xs),
                  (Off-left x xs end w.distinct.1.0, Distinct-left xs end w.distinct.1.1),
                );
        },
        init-Holds
            (record {
              heap =
                  write (write (write h l.head (h other.head)) l.tail (h other.tail)) (h other.tail)
                    l.tail;
              list = other;
            })
            oh_ot,
      )

-- The two lists stay apart when one of them is initialised.
init-apart :
    (h : Heap) (l other : LinkedList) (xs ys : List Ptr)
    → Holds (record { heap = h; list = other }) xs
    → OffAll (nodes l ys) (nodes other xs)
    → Holds (record { heap = (init (record { heap = h; list = l })).heap; list = other }) xs
      × OffAll (nodes l []) (nodes other xs)
init-apart h l other xs ys w o = (
  Holds-Agree h (init (record { heap = h; list = l })).heap other xs
      (init-Agree (record { heap = h; list = l }) ys (nodes other xs) o) w,
  (o.0, OffAll-right (l.head ∷ ys) (l.tail ∷ []) (nodes other xs) o),
)

-- A list that is made from another, at addresses of its own, has its nodes, and leaves it empty.
pub move_from-Holds :
    (h : Heap) (l other : LinkedList) (xs : List Ptr)
    → l.head ≢ l.tail
    → Holds (record { heap = h; list = other }) xs
    → OffAll (nodes l []) (nodes other xs)
    → let (h', l', other') = move_from h l other in
      Holds (record { heap = h'; list = l' }) xs × Holds (record { heap = h'; list = other' }) []
unfolding move_from init
move_from-Holds h l other xs apart w o =
    let s = init (record { heap = h; list = l }) in
    let (w', o') = init-apart h l other xs [] w o in
    take_over-Holds s.heap s.list other xs (init-Holds (record { heap = h; list = l }) apart) w' o'

-- The move assignment between two sound lists that share no node returns, with fuel for one more
-- than the nodes of the target: each of these is deleted, once and in order; the target then holds
-- the nodes of the source, in order, the source is empty, and both are sound.
pub assign-Holds :
    (h : Heap) (l other : LinkedList) (xs ys : List Ptr) (fuel : ℕ)
    → Holds (record { heap = h; list = l }) ys
    → Holds (record { heap = h; list = other }) xs
    → OffAll (nodes l ys) (nodes other xs)
    → length ys < fuel
    → (h' : Heap) × (l' : LinkedList) × (other' : LinkedList) × (assign fuel h l other
        ≡ some (ys, h', l', other'))
      × Holds (record { heap = h'; list = l' }) xs
      × Holds (record { heap = h'; list = other' }) []
unfolding assign init
assign-Holds h l other xs ys fuel v w o few =
    let s = init (record { heap = h; list = l }) in
    let (drained, cleared) = drain-Holds (record { heap = h; list = l }) ys fuel v few in
    let (w', o') = init-apart h l other xs ys w o in
    let r = take_over s.heap s.list other in
    let both = take_over-Holds s.heap s.list other xs cleared w' o' in
    (r.0, r.1, r.2, rw drained refl, both.0, both.1)
