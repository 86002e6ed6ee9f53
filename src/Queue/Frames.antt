-- ===== src/Queue/Frames.antt =====
-- What a change of the heap leaves alone: regions on which two heaps agree, and nodes kept apart.
use mathlib.Core.List.{append_assoc}
use actor_zeta.Base.{
  ◌-◌, ◌≡◌, refl, sym, subst, ◌∙◌, List, [], ◌∷◌, ◌++◌, ◌==◌, arith, Bool-cases, inl, inr,
}
use actor_zeta.Queue.Links.{Ptr, Heap, write, Trail, last_or, Off, OffAll}
use actor_zeta.Queue.LinkedList.{LinkedList, At, empty, init, insert_after, pop_front}
use actor_zeta.Queue.LinkedList.Laws.{Holds}
use actor_zeta.Queue.LifoInbox.Views.{Chain}

-- The sentinels and the nodes of a list.
abbrev pub nodes : LinkedList → List Ptr → List Ptr
nodes l xs = l.head ∷ (xs ++ (l.tail ∷ []))

-- The heaps agree on the region.
abbrev pub Agree : Heap → Heap → List Ptr → Type 0
Agree h g [] = Unit {0}
Agree h g (x ∷ xs) = (g x ≡ h x) × Agree h g xs

Agree-left : (h g : Heap) (xs ys : List Ptr) → Agree h g (xs ++ ys) → Agree h g xs
Agree-left h g [] ys a = tt
Agree-left h g (x ∷ xs) ys a = (a.0, Agree-left h g xs ys a.1)

Agree-right : (h g : Heap) (xs ys : List Ptr) → Agree h g (xs ++ ys) → Agree h g ys
Agree-right h g [] ys a = a
Agree-right h g (x ∷ xs) ys a = Agree-right h g xs ys a.1

pub Agree-write :
    (h g : Heap) (p q : Ptr) (xs : List Ptr) → Off p xs → Agree h g xs → Agree h (write g p q) xs
Agree-write h g p q [] o a = tt
Agree-write h g p q (x ∷ xs) o a =
    let n = o.0 in let e = a.0 in (ground arith, Agree-write h g p q xs o.1 a.1)

pub Agree-refl : (h : Heap) (xs : List Ptr) → Agree h h xs
Agree-refl h [] = tt
Agree-refl h (x ∷ xs) = (refl, Agree-refl h xs)

Trail-Agree :
    (h g : Heap) (p : Ptr) (xs : List Ptr) (t : Ptr)
    → g p ≡ h p
    → Agree h g xs
    → Trail h p (xs ++ (t ∷ []))
    → Trail g p (xs ++ (t ∷ []))
Trail-Agree h g p [] t e a w = (e ∙ w.0, tt)
Trail-Agree h g p (x ∷ xs) t e a w = (e ∙ w.0, Trail-Agree h g x xs t a.0 a.1 w.1)

-- A list, and a chain, depend on the heap at their own nodes only.
pub Holds-Agree :
    (h g : Heap) (l : LinkedList) (xs : List Ptr)
    → Agree h g (nodes l xs)
    → Holds (record { heap = h; list = l }) xs
    → Holds (record { heap = g; list = l }) xs
Holds-Agree h g l xs a v = record {
  path = Trail-Agree h g l.head xs l.tail a.0 (Agree-left h g xs (l.tail ∷ []) a.1) v.path;
  back = (Agree-right h g xs (l.tail ∷ []) a.1).0 ∙ v.back;
  sized = v.sized;
  distinct = v.distinct;
}

pub Chain-Agree :
    (h g : Heap) (p : Ptr) (xs : List Ptr) → Agree h g xs → Chain h p xs → Chain g p xs
Chain-Agree h g p [] a w = w
Chain-Agree h g p (x ∷ xs) a w =
    (w.0, subst (λ r. Chain g r xs) (sym a.0) (Chain-Agree h g (h x) xs a.1 w.1))

pub OffAll-last : (p : Ptr) (xs ys r : List Ptr) → OffAll (p ∷ (xs ++ ys)) r → Off (last_or p xs) r
OffAll-last p [] ys r o = o.0
OffAll-last p (x ∷ xs) ys r o = OffAll-last x xs ys r o.1

pub OffAll-right : (xs ys r : List Ptr) → OffAll (xs ++ ys) r → OffAll ys r
OffAll-right [] ys r o = o
OffAll-right (x ∷ xs) ys r o = OffAll-right xs ys r o.1

pub OffAll-insert :
    (xs ys r : List Ptr) (a : Ptr) → Off a r → OffAll (xs ++ ys) r → OffAll (xs ++ (a ∷ ys)) r
OffAll-insert [] ys r a o all = (o, all)
OffAll-insert (x ∷ xs) ys r a o all = (all.0, OffAll-insert xs ys r a o all.1)

pub OffAll-tail : (xs r : List Ptr) (a : Ptr) → OffAll xs (a ∷ r) → OffAll xs r
OffAll-tail [] r a o = tt
OffAll-tail (x ∷ xs) r a o = (o.0.1, OffAll-tail xs r a o.1)

pub OffAll-head : (xs r : List Ptr) (a : Ptr) → OffAll xs (a ∷ r) → Off a xs
OffAll-head [] r a o = tt
OffAll-head (x ∷ xs) r a o = ((λ e. o.0.0 (sym e)), OffAll-head xs r a o.1)

pub OffAll-cons : (xs r : List Ptr) (a : Ptr) → Off a xs → OffAll xs r → OffAll xs (a ∷ r)
OffAll-cons [] r a o all = tt
OffAll-cons (x ∷ xs) r a o all = (((λ e. o.0 (sym e)), all.0), OffAll-cons xs r a o.1 all.1)

pub OffAll-nil : (xs : List Ptr) → OffAll xs []
OffAll-nil [] = tt
OffAll-nil (x ∷ xs) = (tt, OffAll-nil xs)

pub OffAll-symm : (xs ys : List Ptr) → OffAll xs ys → OffAll ys xs
OffAll-symm [] ys o = OffAll-nil ys
OffAll-symm (x ∷ xs) ys o = OffAll-cons ys xs x o.0 (OffAll-symm xs ys o.1)

-- `insert_after` changes the heap at the new node, at the node before it, and at the end.
pub insert_after-Agree :
    (s : At) (xs ys : List Ptr) (p : Ptr) (r : List Ptr)
    → OffAll (nodes s.list (xs ++ ys)) r
    → Off p r
    → Agree s.heap (insert_after s (last_or s.list.head xs) p).heap r
unfolding insert_after
insert_after-Agree s xs ys p r apart o =
    let pos = last_or s.list.head xs in
    let all = rw (append_assoc xs ys (s.list.tail ∷ [])) at apart in
    let at_pos : Off pos r = OffAll-last s.list.head xs (ys ++ (s.list.tail ∷ [])) r all in
    let at_end : Off s.list.tail r =
      (OffAll-right (s.list.head ∷ (xs ++ ys)) (s.list.tail ∷ []) r apart).0 in
    let h1 = write s.heap p (s.heap pos) in
    let h2 = write h1 pos p in
    let a1 = Agree-write s.heap s.heap p (s.heap pos) r o (Agree-refl s.heap r) in
    let a2 = Agree-write s.heap h1 pos p r at_pos a1 in
    let a3 = Agree-write s.heap h2 s.list.tail p r at_end a2 in
    elim (Bool-cases (s.heap pos == s.list.tail)) [ inl e ↦ rw e a3 | inr e ↦ rw e a2 ]

-- `pop_front` and `init` change it at the sentinels only.
pub pop_front-Agree :
    (s : At) (xs r : List Ptr) → OffAll (nodes s.list xs) r → Agree s.heap (pop_front s).1.heap r
unfolding pop_front
pop_front-Agree s xs r apart =
    let at_end : Off s.list.tail r =
      (OffAll-right (s.list.head ∷ xs) (s.list.tail ∷ []) r apart).0 in
    let h1 = write s.heap s.list.head (s.heap (s.heap s.list.head)) in
    let a0 = Agree-refl s.heap r in
    let a1 = Agree-write s.heap s.heap s.list.head (s.heap (s.heap s.list.head)) r apart.0 a0 in
    let a2 = Agree-write s.heap h1 s.list.tail s.list.head r at_end a1 in
    elim (Bool-cases (empty s.list)) [
      | inl e ↦ rw e a0
      | inr e ↦ elim (Bool-cases (s.list.size - 1 == 0)) [
        | inl f ↦ rw (e, f) a2
        | inr f ↦ rw (e, f) a1
      ]
    ]

pub init-Agree :
    (s : At) (xs r : List Ptr) → OffAll (nodes s.list xs) r → Agree s.heap (init s).heap r
unfolding init
init-Agree s xs r apart =
    let at_end : Off s.list.tail r =
      (OffAll-right (s.list.head ∷ xs) (s.list.tail ∷ []) r apart).0 in
    Agree-write s.heap (write s.heap s.list.head s.list.tail) s.list.tail s.list.head r at_end
      (Agree-write s.heap s.heap s.list.head s.list.tail r apart.0 (Agree-refl s.heap r))

pub nodes-pop_front : (s : At) (xs : List Ptr) → nodes (pop_front s).1.list xs ≡ nodes s.list xs
unfolding pop_front
nodes-pop_front s xs = elim (Bool-cases (empty s.list)) [ inl e ↦ rw e refl | inr e ↦ rw e refl ]
