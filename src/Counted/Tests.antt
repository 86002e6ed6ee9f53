-- ===== src/Counted/Tests.antt =====
-- An object at 7 that two pointers share.
use actor_zeta.Base.{inr, refl, true, [], ◌∷◌, arith, ◌==◌, if◌then◌else◌}
use actor_zeta.Counted.{Store, copy, destroy, detach, reset, assign}
use actor_zeta.Counted.Shares.{IsBalanced, operations-IsBalanced}

abbrev shared : Store
shared = record { count = λ p. if p == 7 then 2 else 0; deleted = λ _. 0 }

operations-IsBalanced_example :
    IsBalanced 7 (copy shared 7) (7 ∷ 7 ∷ 7 ∷ [])
    × IsBalanced 7 shared ((detach 7).0 ∷ (detach 7).1 ∷ 7 ∷ [])
    × IsBalanced 7 (destroy shared 7) (7 ∷ [])
    × IsBalanced 7 (reset shared 7 7 true) (7 ∷ 7 ∷ [])
    × IsBalanced 7 (assign shared 7 7) (7 ∷ 7 ∷ [])
operations-IsBalanced_example =
    operations-IsBalanced shared (7 ∷ []) 7 7 7 (ground arith) (inr (refl, refl))
      (inr (ground arith))
