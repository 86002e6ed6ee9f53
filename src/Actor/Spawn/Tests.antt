-- ===== src/Actor/Spawn/Tests.antt =====
-- Two actors, of the types 1 and 2, from the resource 64; the first to be made is destroyed.
use actor_zeta.Base.{ℕ, ◌*◌, ◌≡◌, refl, [], ◌∷◌, some, arith}
use actor_zeta.Actor.Spawn.{Block, Owner, allocate_ptr, deallocate_ptr, spawn, destroy}
use actor_zeta.Actor.Spawn.Owners.{
  Actors, Reach, start, later, spawned, destroyed, destroy_all, destroy_all-Reach,
}

abbrev size_of : ℕ → ℕ
size_of type = 100 * type

abbrev align_of : ℕ → ℕ
align_of type = 16

abbrev block : ℕ → ℕ → Block
block address type = record { resource = 64; address = address; size = 100 * type; alignment = 16 }

abbrev owner : ℕ → ℕ → Owner
owner target type = record { target = target; type = type; resource = 64 }

abbrev one : Actors size_of align_of
one = record { given = block 4096 1 ∷ []; owners = owner 4096 1 ∷ [] }

abbrev two : Actors size_of align_of
two = record { given = block 8192 2 ∷ block 4096 1 ∷ []; owners = owner 8192 2 ∷ owner 4096 1 ∷ [] }

abbrev left : Actors size_of align_of
left = record { given = block 8192 2 ∷ []; owners = owner 8192 2 ∷ [] }

left-Reach : Reach size_of align_of left
unfolding spawn allocate_ptr destroy deallocate_ptr
left-Reach =
    later two left
      (later one two
        (later (record { given = []; owners = [] }) one start
          (spawned 64 4096 1 (block 4096 1 ∷ []) (owner 4096 1) (omega arith) refl))
        (spawned 64 8192 2 (block 8192 2 ∷ block 4096 1 ∷ []) (owner 8192 2) (omega arith) refl))
      (destroyed (owner 8192 2 ∷ []) [] (owner 4096 1) (block 8192 2 ∷ []) refl refl)

destroy_all-Reach_example :
    destroy_all size_of align_of (block 8192 2 ∷ []) (owner 8192 2 ∷ []) ≡ some []
destroy_all-Reach_example = destroy_all-Reach size_of align_of left left-Reach
