-- ===== src/Counted/Shares.antt =====
-- Counts of objects against the pointers that share them.
use actor_zeta.Base.{ℕ, suc, ◌≤◌, ◌≡◌, ◌≢◌, ◌⊎◌, true, List, [], ◌∷◌, ◌==◌, if◌then◌else◌, arith}
use actor_zeta.Queue.Links.{Ptr, null}
use actor_zeta.Counted.{Store, copy, destroy, detach, reset, assign, make_counted}

-- The pointers among these that point to the object.
abbrev pub shares : Ptr → List Ptr → ℕ
shares p [] = 0
shares p (q ∷ qs) = let rest = shares p qs in if p == q then suc rest else rest

-- No pointer points to the object, or their number is its count and it is not deleted.
abbrev pub IsBalanced : Ptr → Store → List Ptr → Type 0
IsBalanced p s ps = (shares p ps ≡ 0) ⊎ ((s.count p ≡ shares p ps) × (s.deleted p ≡ 0))

-- A pointer that may be copied: null, or one of these.
abbrev pub IsHeld : Ptr → List Ptr → Type 0
IsHeld q ps = (q ≡ null) ⊎ (1 ≤ shares q ps)

-- Copying a held pointer, and detaching, destroying, resetting and assigning one, keep the count
-- of each object equal to the number of pointers to it as long as there are any, with the object
-- not deleted.
pub operations-IsBalanced :
    (s : Store) (ps : List Ptr) (old other p : Ptr)
    → p ≢ null
    → IsBalanced p s (old ∷ ps)
    → IsHeld other (old ∷ ps)
    → IsBalanced p (copy s other) (other ∷ old ∷ ps)
      × IsBalanced p s ((detach old).0 ∷ (detach old).1 ∷ ps)
      × IsBalanced p (destroy s old) ps
      × IsBalanced p (reset s old other true) (other ∷ ps)
      × IsBalanced p (assign s old other) (other ∷ ps)
unfolding copy detach destroy reset assign
operations-IsBalanced s ps old other p live balanced held =
    (copied, ground arith, ground arith, replaced, replaced)
  where
    copied : IsBalanced p (copy s other) (other ∷ old ∷ ps)
    copied = ground arith

    replaced : IsBalanced p (reset s old other true) (other ∷ ps)
    replaced = ground arith

-- Destroying the last pointer to an object deletes it, once, and destroying any other deletes
-- nothing.
pub destroy_deletes :
    (s : Store) (ps : List Ptr) (p : Ptr)
    → p ≢ null
    → IsBalanced p s (p ∷ ps)
    → (destroy s p).deleted p ≡ (if shares p ps == 0 then 1 else 0)
unfolding destroy
destroy_deletes s ps p live balanced = ground arith

-- A new object at an address that no pointer holds starts with a count of its one pointer, and the
-- other counts stay in step.
pub make_counted-IsBalanced :
    (s : Store) (ps : List Ptr) (q p : Ptr)
    → q ≢ null
    → shares q ps ≡ 0
    → IsBalanced p s ps
    → IsBalanced p (make_counted s q) (q ∷ ps)
unfolding make_counted
make_counted-IsBalanced s ps q p live unused balanced = ground arith
