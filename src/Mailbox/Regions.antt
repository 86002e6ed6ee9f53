-- ===== src/Mailbox/Regions.antt =====
-- The memory of a mailbox: two lists and the messages still in the inbox, which share no node.
use mathlib.Core.List.{append_assoc}
use actor_zeta.Base.{◌≡◌, sym, subst, List, [], ◌∷◌, ◌++◌, Option, some}
use actor_zeta.Queue.Links.{Ptr, Heap, last_or, Off, Off-right, OffAll, Distinct}
use actor_zeta.Queue.LinkedList.{LinkedList, At, init, insert_after, pop_front}
use actor_zeta.Queue.LinkedList.Ends.{pop_front-Holds}
use actor_zeta.Queue.LinkedList.Laws.{Holds, insert_after-Holds, init-Holds}
use actor_zeta.Queue.Frames.{
  nodes, Agree, Holds-Agree, OffAll-insert, OffAll-tail, OffAll-head, OffAll-symm, OffAll-right,
  insert_after-Agree, pop_front-Agree, nodes-pop_front, init-Agree,
}

-- One list holds `xs` and the other `ys`, and the nodes `zs` stand in neither.
pub record Apart (h : Heap) (l : LinkedList) (xs : List Ptr) (k : LinkedList) (ys : List Ptr)
    (zs : List Ptr) : Type 0 where
  pub one : Holds (record { heap = h; list = l }) xs
  pub two : Holds (record { heap = h; list = k }) ys
  pub lists : OffAll (nodes l xs) (nodes k ys)
  pub off_one : OffAll (nodes l xs) zs
  pub off_two : OffAll (nodes k ys) zs
  pub distinct : Distinct zs

pub Apart-symm :
    {h : Heap} {l k : LinkedList} {xs ys zs : List Ptr}
    → Apart h l xs k ys zs
    → Apart h k ys l xs zs
Apart-symm {l} {k} {xs} {ys} v = record {
  one = v.two;
  two = v.one;
  lists = OffAll-symm (nodes l xs) (nodes k ys) v.lists;
  off_one = v.off_two;
  off_two = v.off_one;
  distinct = v.distinct;
}

nodes-insert :
    (l : LinkedList) (xs ys r : List Ptr) (p : Ptr)
    → Off p r
    → OffAll (nodes l (xs ++ ys)) r
    → OffAll (nodes l (xs ++ (p ∷ ys))) r
nodes-insert l xs ys r p o all =
    let end : List Ptr = l.tail ∷ [] in
    rw (append_assoc xs (p ∷ ys) end)
      (OffAll-insert (l.head ∷ xs) (ys ++ end) r p o (rw (append_assoc xs ys end) at all))

-- The first of the nodes outside moves into the first list.
pub Apart-insert :
    (h : Heap) (l : LinkedList) (xs ys : List Ptr) (k : LinkedList) (cs : List Ptr) (p : Ptr)
    (zs : List Ptr)
    → Apart h l (xs ++ ys) k cs (p ∷ zs)
    → (s : At) (e : s ≡ insert_after (record { heap = h; list = l }) (last_or l.head xs) p)
    → Apart s.heap s.list (xs ++ (p ∷ ys)) k cs zs × Agree h s.heap zs
unfolding insert_after
Apart-insert h l xs ys k cs p zs v s e =
    let s0 : At = record { heap = h; list = l } in
    let new = OffAll-head (nodes l (xs ++ ys)) zs p v.off_one in
    let far = OffAll-head (nodes k cs) zs p v.off_two in
    let here = OffAll-tail (nodes l (xs ++ ys)) zs p v.off_one in
    let there = OffAll-tail (nodes k cs) zs p v.off_two in
    let s1 = insert_after s0 (last_or l.head xs) p in
    subst (λ (t : At). Apart t.heap t.list (xs ++ (p ∷ ys)) k cs zs × Agree h t.heap zs) (sym e)
      (
        record {
          one = insert_after-Holds s0 xs ys p v.one new;
          two =
              Holds-Agree h s1.heap k cs (insert_after-Agree s0 xs ys p (nodes k cs) v.lists far)
                v.two;
          lists = nodes-insert l xs ys (nodes k cs) p far v.lists;
          off_one = nodes-insert l xs ys zs p v.distinct.0 here;
          off_two = there;
          distinct = v.distinct.1;
        },
        insert_after-Agree s0 xs ys p zs here v.distinct.0,
      )

-- A list is emptied, while the other and the nodes outside stay.
pub Apart-init :
    (h : Heap) (l k : LinkedList) (xs ys zs : List Ptr)
    → Apart h l xs k ys zs
    → let s = init (record { heap = h; list = l }) in
      Apart s.heap s.list [] k ys zs × Agree h s.heap zs
unfolding init
Apart-init h l k xs ys zs v =
    let s : At = record { heap = h; list = l } in
    let ends = Off-right l.head xs (l.tail ∷ []) v.one.distinct.0 in
    (
      record {
        one = init-Holds s ends.0;
        two = Holds-Agree h (init s).heap k ys (init-Agree s xs (nodes k ys) v.lists) v.two;
        lists = (v.lists.0, (OffAll-right (l.head ∷ xs) (l.tail ∷ []) (nodes k ys) v.lists));
        off_one = (v.off_one.0, (OffAll-right (l.head ∷ xs) (l.tail ∷ []) zs v.off_one));
        off_two = v.off_two;
        distinct = v.distinct;
      },
      init-Agree s xs zs v.off_one,
    )

-- The first node of a list leaves it.
pub Apart-pop :
    (h : Heap) (l k : LinkedList) (x : Ptr) (xs ys zs : List Ptr)
    → Apart h l (x ∷ xs) k ys zs
    → (r : Option Ptr × At) → r ≡ pop_front (record { heap = h; list = l })
    → (r.0 ≡ some x) × Apart r.1.heap r.1.list xs k ys zs × Agree h r.1.heap zs
Apart-pop h l k x xs ys zs v r e =
    let s : At = record { heap = h; list = l } in
    let (got, held) = pop_front-Holds s x xs v.one in
    subst
      (λ (q : Option Ptr × At).
        (q.0 ≡ some x) × Apart q.1.heap q.1.list xs k ys zs × Agree h q.1.heap zs)
      (sym e)
      (
        got,
        record {
          one = held;
          two =
              Holds-Agree h (pop_front s).1.heap k ys
                (pop_front-Agree s (x ∷ xs) (nodes k ys) v.lists) v.two;
          lists =
              subst (λ ns. OffAll ns (nodes k ys)) (sym (nodes-pop_front s xs))
                (v.lists.0, v.lists.1.1);
          off_one =
              subst (λ ns. OffAll ns zs) (sym (nodes-pop_front s xs)) (v.off_one.0, v.off_one.1.1);
          off_two = v.off_two;
          distinct = v.distinct;
        },
        pop_front-Agree s (x ∷ xs) zs v.off_one,
      )
