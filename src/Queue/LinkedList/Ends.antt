-- ===== src/Queue/LinkedList/Ends.antt =====
-- The operations at the ends of a linked list, and `drain`.
use mathlib.Core.List.{append-nil}
use mathlib.Core.Path.{fun_ext}
use actor_zeta.Base.{
  ℕ, zero, suc, ◌-◌, ◌<◌, ◌≡◌, ◌≢◌, refl, ap, true, false, List, [], ◌∷◌, ◌++◌, none, some, ◌==◌,
  arith, length,
}
use actor_zeta.Queue.Links.{
  Ptr, Heap, Trail, last_or, Off, Off-left, Off-right, Off-last, Trail-right, Trail-write, Off-end,
}
use actor_zeta.Queue.LinkedList.{
  At, init, push_back, push_front, pop_front, before_end, insert_after, visit, drain,
}
use actor_zeta.Queue.LinkedList.Laws.{Holds, IsNew, insert_after-Holds, init-Holds}

heap-path : {s t : At} → s.heap ≡ t.heap → s.list ≡ t.list → s ≡ t
heap-path p q = λ i. record { heap = p i; list = q i }

-- Where the list ends, and where an empty list begins.
end_lem : (s : At) (xs : List Ptr) → Holds s xs → s.heap (before_end s) ≡ s.list.tail
unfolding before_end
end_lem s xs v =
    let w = Trail-right s.heap s.list.head xs (s.list.tail ∷ []) v.path in rw v.back w.0

new-parts :
    (s : At) (xs : List Ptr) (p : Ptr)
    → IsNew s xs p
    → (p ≢ s.list.head) × (p ≢ s.list.tail) × (p ≢ last_or s.list.head xs)
new-parts s xs p new = (
  new.0,
  (Off-right p xs (s.list.tail ∷ []) new.1).0,
  Off-last p s.list.head xs new.0 (Off-left p xs (s.list.tail ∷ []) new.1),
)

push_back-insert_after :
    (s : At) (xs : List Ptr) (p : Ptr)
    → Holds s xs
    → IsNew s xs p
    → push_back s p ≡ insert_after s (last_or s.list.head xs) p
unfolding push_back insert_after before_end
push_back-insert_after s xs p v new =
    let (n1, n2, n3) = new-parts s xs p new in
    let e = end_lem s xs v in let b = v.back in heap-path (fun_ext λ a. ground arith) refl

-- push_back appends a new node and keeps the list sound.
pub push_back-Holds :
    (s : At) (xs : List Ptr) (p : Ptr)
    → Holds s xs
    → IsNew s xs p
    → Holds (push_back s p) (xs ++ (p ∷ []))
push_back-Holds s xs p v new =
    rw (push_back-insert_after s xs p v new)
      (insert_after-Holds s xs [] p (rw (append-nil xs) v) (rw (append-nil xs) new))

push_front-insert_after :
    (s : At) (x : Ptr) (xs : List Ptr) (p : Ptr)
    → Holds s (x ∷ xs)
    → IsNew s (x ∷ xs) p
    → push_front s p ≡ insert_after s s.list.head p
unfolding push_front insert_after
push_front-insert_after s x xs p v new =
    let far = Off-right x xs (s.list.tail ∷ []) v.distinct.1.0 in
    let first = v.path.0 in
    let size = v.sized in
    let full : (s.list.size == 0) ≡ false = ground arith in
    let inner : (s.heap s.list.head == s.list.tail) ≡ false = ground arith in rw (full, inner)

push_front-empty : (s : At) (p : Ptr) → s.list.size ≡ 0 → push_front s p ≡ push_back s p
unfolding push_front
push_front-empty s p e = rw e

-- push_front prepends a new node, to an empty list too, and keeps the list sound.
pub push_front-Holds :
    (s : At) (xs : List Ptr) (p : Ptr) → Holds s xs → IsNew s xs p → Holds (push_front s p) (p ∷ xs)
push_front-Holds s [] p v new = rw (push_front-empty s p v.sized) (push_back-Holds s [] p v new)
push_front-Holds s (x ∷ xs) p v new =
    rw (push_front-insert_after s x xs p v new) (insert_after-Holds s [] (x ∷ xs) p v new)

-- An empty list gives nothing and stays; any other gives its first node and keeps the rest.
pub pop_front-nil : (s : At) → Holds s [] → pop_front s ≡ (none, s)
unfolding pop_front
pop_front-nil s v = let size = v.sized in ground arith

-- pop_front of a list with nodes returns the first and leaves a sound list of the rest.
pub pop_front-Holds :
    (s : At) (x : Ptr) (xs : List Ptr)
    → Holds s (x ∷ xs)
    → ((pop_front s).0 ≡ some x) × Holds (pop_front s).1 xs
unfolding pop_front
pop_front-Holds s x [] v =
    let size = v.sized in
    let full : (s.list.size == 0) ≡ false = ground arith in
    let only : (s.list.size - 1 == 0) ≡ true = ground arith in
    let first = v.path.0 in
    let apart = v.distinct.0.1.0 in
    rw (full, only)
      (
        ap some first,
        record {
          path = (ground arith, tt);
          back = ground arith;
          sized = ground arith;
          distinct = ((apart, tt), (tt, tt));
        },
      )
pop_front-Holds s x (y ∷ ys) v =
    let size = v.sized in
    let full : (s.list.size == 0) ≡ false = ground arith in
    let more : (s.list.size - 1 == 0) ≡ false = ground arith in
    let first = v.path.0 in
    let off = v.distinct.0.1 in
    let end = Off-right s.list.head ys (s.list.tail ∷ []) off.1 in
    rw (full, more)
      (
        ap some first,
        record {
          path = (
            ground arith,
            Trail-write s.heap s.list.head (s.heap (s.heap s.list.head)) y
                (ys ++ (s.list.tail ∷ [])) off.0 off.1 v.path.1.1,
          );
          back = ground (arith, v.back);
          sized = ground arith;
          distinct = (off, v.distinct.1.1);
        },
      )

-- The loop of `drain` visits the nodes in order, and fuel for one more than they are suffices.
visit-Trail :
    (h : Heap) (t a : Ptr) (xs : List Ptr) (fuel : ℕ)
    → length xs < fuel
    → Off t xs
    → Trail h a (xs ++ (t ∷ []))
    → visit fuel h t (h a) ≡ some xs
unfolding visit
visit-Trail h t a xs zero few off w = absurd (omega arith)
visit-Trail h t a [] (suc fuel) few off w = let e : (h a == t) ≡ true = ground arith in rw e
visit-Trail h t a (x ∷ xs) (suc fuel) few off w =
    let e : (x == t) ≡ false = ground arith in
    let ih = visit-Trail h t x xs fuel (omega arith) off.1 w.1 in
    let first = w.0 in rw (first, e, ih) (ap (λ b. some (b ∷ xs)) first)

-- drain, with fuel for one more than the nodes, hands over every node once, front to back, and
-- leaves a sound empty list.
pub drain-Holds :
    (s : At) (xs : List Ptr) (fuel : ℕ)
    → Holds s xs
    → length xs < fuel
    → (drain fuel s ≡ some (xs, init s)) × Holds (init s) []
unfolding drain
drain-Holds s xs fuel v few =
    let off = Off-end s.list.tail xs [] v.distinct.1 in
    let apart = (Off-right s.list.head xs (s.list.tail ∷ []) v.distinct.0).0 in
    (
      rw (visit-Trail s.heap s.list.tail s.list.head xs fuel few off v.path, drain),
      init-Holds s apart,
    )
