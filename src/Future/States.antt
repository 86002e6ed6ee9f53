-- ===== src/Future/States.antt =====
-- The shared states of a program, by their addresses.
use actor_zeta.Base.{◌==◌, if◌then◌else◌}
use actor_zeta.Queue.Links.{Ptr}
use actor_zeta.Future.SharedState.{SharedState}

abbrev pub States : Type 0 → Type 0 → Type 0
States V X = Ptr → SharedState V X

abbrev pub store : {V X : Type 0} → States V X → Ptr → SharedState V X → States V X
store states p s q = if q == p then s else states q
