-- ===== src/Queue/LinkedList/Laws.antt =====
-- The linked list against the sequence of its nodes.
use mathlib.Core.List.{append_assoc}
use actor_zeta.Base.{
  ◌≡◌, ◌≢◌, refl, sym, subst, ◌∙◌, false, List, [], ◌∷◌, ◌++◌, ◌==◌, if◌then◌else◌, arith, length,
  length-append, Bool-cases, inl, inr,
}
use actor_zeta.Queue.Links.{
  Ptr, Heap, write, Trail, last_or, Off, Distinct, Off-append, Off-left, Off-right, Off-last,
  last_or-append, Trail-left, Trail-right, Trail-append, Trail-write, Trail-write_last,
  Distinct-left, Distinct-right, Distinct-insert, Off-last_or, Off-end,
}
use actor_zeta.Queue.LinkedList.{At, init, insert_after}

-- The nodes of the list, from front to back, are `xs`.
pub record Holds (s : At) (xs : List Ptr) : Type 0 where
  pub path : Trail s.heap s.list.head (xs ++ (s.list.tail ∷ []))
  pub back : s.heap s.list.tail ≡ last_or s.list.head xs
  pub sized : s.list.size ≡ length xs
  pub distinct : Distinct (s.list.head ∷ (xs ++ (s.list.tail ∷ [])))

-- A node that is not in the list, nor one of its sentinels.
abbrev pub IsNew : At → List Ptr → Ptr → Type 0
IsNew s xs p = Off p (s.list.head ∷ (xs ++ (s.list.tail ∷ [])))

pub init-Holds : (s : At) → s.list.head ≢ s.list.tail → Holds (init s) []
unfolding init
init-Holds s apart = record {
  path = (ground arith, tt);
  back = ground arith;
  sized = refl;
  distinct = ((apart, tt), (tt, tt));
}

module _ (h : Heap) (p pos t : Ptr) where
  -- The heap that `insert_after` leaves.
  abbrev spliced : Heap
  spliced = let h2 = write (write h p (h pos)) pos p in if h pos == t then write h2 t p else h2

  spliced-old :
      (a : Ptr) (xs : List Ptr)
      → pos ≡ last_or a xs
      → Distinct (a ∷ xs)
      → Off p (a ∷ xs)
      → Off t (a ∷ xs)
      → Trail h a xs
      → Trail spliced a xs
  spliced-old a xs e d op ot w =
      let w1 = Trail-write h p (h pos) a xs op.0 op.1 w in
      let w2 =
        subst (λ r. Trail (write (write h p (h pos)) r p) a xs) (sym e)
          (Trail-write_last (write h p (h pos)) p a xs d w1) in
      if_Path w2 (Trail-write (write (write h p (h pos)) pos p) t p a xs ot.0 ot.1 w2)
    where
      if_Path :
          Trail (write (write h p (h pos)) pos p) a xs
          → Trail (write (write (write h p (h pos)) pos p) t p) a xs
          → Trail spliced a xs
      if_Path u v = elim (Bool-cases (h pos == t)) [ inl e ↦ rw e v | inr e ↦ rw e u ]

  spliced-new :
      (ys : List Ptr)
      → p ≢ pos
      → p ≢ t
      → pos ≢ t
      → Off p ys
      → Off pos ys
      → Distinct (ys ++ (t ∷ []))
      → Trail h pos (ys ++ (t ∷ []))
      → Trail spliced pos (p ∷ (ys ++ (t ∷ [])))
  spliced-new [] n1 n2 n3 op os d w = (ground arith, (ground arith, tt))
  spliced-new (y ∷ ys) n1 n2 n3 op os d w =
      let w1 =
        Trail-write h p (h pos) y (ys ++ (t ∷ [])) op.0 (Off-append p ys (t ∷ []) op.1 (n2, tt))
          w.1 in
      let w2 =
        Trail-write (write h p (h pos)) pos p y (ys ++ (t ∷ [])) os.0
          (Off-append pos ys (t ∷ []) os.1 (n3, tt)) w1 in
      let far = Off-right y ys (t ∷ []) d.0 in
      let e : (h pos == t) ≡ false = ground arith in
      let same : spliced ≡ write (write h p (h pos)) pos p = rw e in
      subst (λ g. Trail g pos (p ∷ y ∷ (ys ++ (t ∷ [])))) (sym same)
        (ground arith, (ground arith, w2))

-- Nodes `xs`, then `ys`, then the end `t`, behind `a`; `p` is new.
module _ (h : Heap) (a t p : Ptr) (xs ys : List Ptr) (all : Distinct (a ∷ (xs ++ (ys ++ (t ∷ [])))))
    (fresh : Off p (a ∷ (xs ++ (ys ++ (t ∷ []))))) where
  abbrev pos : Ptr
  pos = last_or a xs

  p-ne-pos : p ≢ pos
  p-ne-pos = Off-last p a xs fresh.0 (Off-left p xs (ys ++ (t ∷ [])) fresh.1)

  p-ne-end : p ≢ t
  p-ne-end = (Off-right p ys (t ∷ []) (Off-right p xs (ys ++ (t ∷ [])) fresh.1)).0

  pos-Off : Off pos (ys ++ (t ∷ []))
  pos-Off = Off-last_or a xs (ys ++ (t ∷ [])) all

  pos-ne-end : pos ≢ t
  pos-ne-end = (Off-right pos ys (t ∷ []) pos-Off).0

  rest : Distinct (ys ++ (t ∷ []))
  rest = Distinct-right xs (ys ++ (t ∷ [])) all.1

  spliced-Trail :
      Trail h a (xs ++ (ys ++ (t ∷ [])))
      → Trail (spliced h p pos t) a (xs ++ (p ∷ (ys ++ (t ∷ []))))
  spliced-Trail w =
      Trail-append (spliced h p pos t) a xs (p ∷ (ys ++ (t ∷ [])))
        (spliced-old h p pos t a xs refl (all-left)
          (fresh.0, Off-left p xs (ys ++ (t ∷ [])) fresh.1) (Off-end t (a ∷ xs) ys all)
          (Trail-left h a xs (ys ++ (t ∷ [])) w))
        (spliced-new h p pos t ys p-ne-pos p-ne-end pos-ne-end
          (Off-left p ys (t ∷ []) (Off-right p xs (ys ++ (t ∷ [])) fresh.1))
          (Off-left pos ys (t ∷ []) pos-Off) rest (Trail-right h a xs (ys ++ (t ∷ [])) w))
    where
      all-left : Distinct (a ∷ xs)
      all-left = (Off-left a xs (ys ++ (t ∷ [])) all.0, Distinct-left xs (ys ++ (t ∷ [])) all.1)

  spliced-back :
      Trail h pos (ys ++ (t ∷ [])) → h t ≡ last_or pos ys → spliced h p pos t t ≡ last_or p ys
  spliced-back w b = at_end ys w b rest
    where
      at_end :
          (zs : List Ptr)
          → Trail h pos (zs ++ (t ∷ []))
          → h t ≡ last_or pos zs
          → Distinct (zs ++ (t ∷ []))
          → spliced h p pos t t ≡ last_or p zs
      at_end [] w b d = ground arith
      at_end (z ∷ zs) w b d =
          let far = Off-right z zs (t ∷ []) d.0 in ground (arith, p-ne-end, pos-ne-end)

-- insert_after puts a new node right behind the given position of the list, the head sentinel
-- included, and keeps the list sound: links, last node, size.
pub insert_after-Holds :
    (s : At) (xs ys : List Ptr) (p : Ptr)
    → Holds s (xs ++ ys)
    → IsNew s (xs ++ ys) p
    → Holds (insert_after s (last_or s.list.head xs) p) (xs ++ (p ∷ ys))
unfolding insert_after
insert_after-Holds s xs ys p v new =
    let end : List Ptr = s.list.tail ∷ [] in
    let assoc = append_assoc xs ys end in
    let all = rw assoc at v.distinct in
    let fresh = rw assoc at new in
    let nodes = rw assoc at v.path in
    record {
      path =
          rw (append_assoc xs (p ∷ ys) end)
            (spliced-Trail s.heap s.list.head s.list.tail p xs ys all fresh nodes);
      back =
          spliced-back s.heap s.list.head s.list.tail p xs ys all fresh
            (Trail-right s.heap s.list.head xs (ys ++ end) nodes)
            (v.back ∙ last_or-append s.list.head xs ys)
          ∙ sym (last_or-append s.list.head xs (p ∷ ys));
      sized = omega (arith, v.sized, length-append xs ys, length-append xs (p ∷ ys));
      distinct =
          rw (append_assoc xs (p ∷ ys) end)
            (Distinct-insert p (s.list.head ∷ xs) (ys ++ end) fresh all);
    }
