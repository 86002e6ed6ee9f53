-- ===== src/Queue/Links.antt =====
-- header/actor-zeta/detail/queue/singly_linked.hpp: nodes with a `next` pointer. A pointer is an
-- address, and a heap gives the `next` field at each address.
use actor_zeta.Base.{ℕ, ◌≡◌, ◌≢◌, refl, sym, List, [], ◌∷◌, ◌++◌, arith, ◌==◌, if◌then◌else◌}

abbrev pub Ptr : Type 0
Ptr = ℕ

abbrev pub null : Ptr
null = 0

-- `singly_linked::next`, by address
abbrev pub Heap : Type 0
Heap = Ptr → Ptr

-- `p->next = q`
abbrev pub write : Heap → Ptr → Ptr → Heap
write h p q a = if a == p then q else h a

-- Following `next` from `p` one meets the nodes of the list, in order.
abbrev pub Trail : Heap → Ptr → List Ptr → Type 0
Trail h p [] = Unit {0}
Trail h p (x ∷ xs) = (h p ≡ x) × Trail h x xs

-- The last node, or `p` itself.
abbrev pub last_or : Ptr → List Ptr → Ptr
last_or p [] = p
last_or p (x ∷ xs) = last_or x xs

-- `a` is none of the nodes.
abbrev pub Off : Ptr → List Ptr → Type 0
Off a [] = Unit {0}
Off a (x ∷ xs) = (a ≢ x) × Off a xs

-- The nodes differ.
abbrev pub Distinct : List Ptr → Type 0
Distinct [] = Unit {0}
Distinct (x ∷ xs) = Off x xs × Distinct xs

abbrev pub OffAll : List Ptr → List Ptr → Type 0
OffAll [] xs = Unit {0}
OffAll (a ∷ rest) xs = Off a xs × OffAll rest xs

pub Off-append : (a : Ptr) (xs ys : List Ptr) → Off a xs → Off a ys → Off a (xs ++ ys)
Off-append a [] ys hx hy = hy
Off-append a (x ∷ xs) ys hx hy = (hx.0, Off-append a xs ys hx.1 hy)

pub Off-left : (a : Ptr) (xs ys : List Ptr) → Off a (xs ++ ys) → Off a xs
Off-left a [] ys h = tt
Off-left a (x ∷ xs) ys h = (h.0, Off-left a xs ys h.1)

pub Off-right : (a : Ptr) (xs ys : List Ptr) → Off a (xs ++ ys) → Off a ys
Off-right a [] ys h = h
Off-right a (x ∷ xs) ys h = Off-right a xs ys h.1

pub Off-last : (a p : Ptr) (xs : List Ptr) → a ≢ p → Off a xs → a ≢ last_or p xs
Off-last a p [] h o = h
Off-last a p (x ∷ xs) h o = Off-last a x xs o.0 o.1

pub last_or-append : (p : Ptr) (xs ys : List Ptr) → last_or p (xs ++ ys) ≡ last_or (last_or p xs) ys
last_or-append p [] ys = refl
last_or-append p (x ∷ xs) ys = last_or-append x xs ys

pub Trail-left : (h : Heap) (p : Ptr) (xs ys : List Ptr) → Trail h p (xs ++ ys) → Trail h p xs
Trail-left h p [] ys w = tt
Trail-left h p (x ∷ xs) ys w = (w.0, Trail-left h x xs ys w.1)

pub Trail-right :
    (h : Heap) (p : Ptr) (xs ys : List Ptr) → Trail h p (xs ++ ys) → Trail h (last_or p xs) ys
Trail-right h p [] ys w = w
Trail-right h p (x ∷ xs) ys w = Trail-right h x xs ys w.1

pub Trail-append :
    (h : Heap) (p : Ptr) (xs ys : List Ptr)
    → Trail h p xs
    → Trail h (last_or p xs) ys
    → Trail h p (xs ++ ys)
Trail-append h p [] ys v w = w
Trail-append h p (x ∷ xs) ys v w = (v.0, Trail-append h x xs ys v.1 w)

-- A write elsewhere keeps a path.
pub Trail-write :
    (h : Heap) (a q p : Ptr) (xs : List Ptr)
    → a ≢ p
    → Off a xs
    → Trail h p xs
    → Trail (write h a q) p xs
Trail-write h a q p [] n o w = tt
Trail-write h a q p (x ∷ xs) n o w = (ground arith, Trail-write h a q x xs o.0 o.1 w.1)

-- So does a write at the last node, whose `next` the path does not follow.
pub Trail-write_last :
    (h : Heap) (q p : Ptr) (xs : List Ptr)
    → Distinct (p ∷ xs)
    → Trail h p xs
    → Trail (write h (last_or p xs) q) p xs
Trail-write_last h q p [] d w = tt
Trail-write_last h q p (x ∷ xs) d w =
    let off = Off-last p x xs d.0.0 d.0.1 in (ground arith, Trail-write_last h q x xs d.1 w.1)

pub Distinct-left : (xs ys : List Ptr) → Distinct (xs ++ ys) → Distinct xs
Distinct-left [] ys d = tt
Distinct-left (x ∷ xs) ys d = (Off-left x xs ys d.0, Distinct-left xs ys d.1)

pub Distinct-right : (xs ys : List Ptr) → Distinct (xs ++ ys) → Distinct ys
Distinct-right [] ys d = d
Distinct-right (x ∷ xs) ys d = Distinct-right xs ys d.1

-- A new node may be put anywhere into a list of distinct nodes.
pub Distinct-insert :
    (a : Ptr) (xs ys : List Ptr)
    → Off a (xs ++ ys)
    → Distinct (xs ++ ys)
    → Distinct (xs ++ (a ∷ ys))
Distinct-insert a [] ys o d = (o, d)
Distinct-insert a (x ∷ xs) ys o d = (
  Off-append x xs (a ∷ ys) (Off-left x xs ys d.0) ((λ e. o.0 (sym e)), Off-right x xs ys d.0),
  Distinct-insert a xs ys o.1 d.1,
)

-- The last node of the first part is none of the second.
pub Off-last_or : (p : Ptr) (xs ys : List Ptr) → Distinct (p ∷ (xs ++ ys)) → Off (last_or p xs) ys
Off-last_or p [] ys d = d.0
Off-last_or p (x ∷ xs) ys d = Off-last_or x xs ys d.1

-- A write at the end of a path that ends in `t`.
pub Trail-write_end :
    (h : Heap) (t q p : Ptr) (xs : List Ptr)
    → Distinct (p ∷ (xs ++ (t ∷ [])))
    → Trail h p (xs ++ (t ∷ []))
    → Trail (write h t q) p (xs ++ (t ∷ []))
Trail-write_end h t q p [] d w = (ground arith, tt)
Trail-write_end h t q p (x ∷ xs) d w =
    let off = Off-right p xs (t ∷ []) d.0.1 in (ground arith, Trail-write_end h t q x xs d.1 w.1)

-- The last of distinct nodes is none of the first ones.
pub Off-end : (t : Ptr) (xs zs : List Ptr) → Distinct (xs ++ (zs ++ (t ∷ []))) → Off t xs
Off-end t [] zs d = tt
Off-end t (x ∷ xs) zs d =
    let far = Off-right x zs (t ∷ []) (Off-right x xs (zs ++ (t ∷ [])) d.0) in
    ((λ e. far.0 (sym e)), Off-end t xs zs d.1)
