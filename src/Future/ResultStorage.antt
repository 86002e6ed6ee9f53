-- ===== src/Future/ResultStorage.antt =====
-- header/actor-zeta/detail/result_storage.hpp: the slot that holds the value of a future. `none` as
-- a result stands for the abort of `refuse_valueless_extraction`. The debug-only flag
-- `was_moved_from_` is left out.
use mathlib.Core.Option
use actor_zeta.Base.{◌≡◌, refl, Bool, true, false, Option, none, some, if◌then◌else◌}

-- The union and `has_value_`; `slot` is the object that lives in the union.
pub record ResultStorage {ℓ} (V : Type ℓ) : Type ℓ where
  pub slot : Option V
  pub has_value : Bool

module _ {ℓ} {V : Type ℓ} where
  abbrev pub empty_storage : ResultStorage V
  empty_storage = record { slot = none; has_value = false }

  unfoldable pub emplace : ResultStorage V → V → ResultStorage V
  emplace s v = record { slot = some v; has_value = true }

  unfoldable pub take : ResultStorage V → Option (V × ResultStorage V)
  take s =
      if s.has_value
      then Option.map (λ v. (v, record { slot = none; has_value = false })) s.slot
      else none

  unfoldable pub get : ResultStorage V → Option V
  get s = if s.has_value then s.slot else none

  -- The move constructor: the new storage, and the one that is moved from.
  pub move_from : ResultStorage V → ResultStorage V × ResultStorage V
  move_from other =
      if other.has_value
      then (
        record { slot = other.slot; has_value = true },
        record { slot = none; has_value = false },
      )
      else (empty_storage, other)

  -- The move assignment, between two different storages.
  pub assign : ResultStorage V → ResultStorage V → ResultStorage V × ResultStorage V
  unfolding move_from
  assign self other =
      let cleared : ResultStorage V =
        if self.has_value then record { slot = none; has_value = false } else self in
      if other.has_value
      then (
        record { slot = other.slot; has_value = true },
        record { slot = none; has_value = false },
      )
      else (cleared, other)

  -- `has_value_` says whether an object lives in the union.
  pub data IsSound : ResultStorage V → Type ℓ where
    vacant : IsSound (record { slot = none; has_value = false })
    occupied : (v : V) → IsSound (record { slot = some v; has_value = true })

  pub take-emplace :
      (s : ResultStorage V) (v : V)
      → (take (emplace s v) ≡ some (v, empty_storage)) × (get (emplace s v) ≡ some v)
  unfolding take emplace get
  take-emplace s v = (refl, refl)

  abbrev pub TakenSound : Option (V × ResultStorage V) → Type ℓ
  TakenSound none = Unit
  TakenSound (some (v, s)) = IsSound s

  abbrev pub BothSound : ResultStorage V × ResultStorage V → Type ℓ
  BothSound p = IsSound p.0 × IsSound p.1

  -- emplace, take, the move constructor and the move assignment keep has_value_ in step with the
  -- object in the union.
  pub operations-IsSound :
      (s o : ResultStorage V) (v : V)
      → IsSound s
      → IsSound o
      → IsSound (emplace s v)
        × TakenSound (take s)
        × BothSound (move_from o)
        × BothSound (assign s o)
  unfolding take emplace move_from assign
  operations-IsSound _ _ v vacant vacant = (occupied v, tt, (vacant, vacant), (vacant, vacant))
  operations-IsSound _ _ v vacant (occupied w) =
      (occupied v, tt, (occupied w, vacant), (occupied w, vacant))
  operations-IsSound _ _ v (occupied u) vacant =
      (occupied v, vacant, (vacant, vacant), (vacant, vacant))
  operations-IsSound _ _ v (occupied u) (occupied w) =
      (occupied v, vacant, (occupied w, vacant), (occupied w, vacant))

  -- A move hands the value on: what the source held can be taken from the target and no more from
  -- the source, and what the target held before is gone.
  pub assign_moves :
      (s o : ResultStorage V)
      → IsSound o
      → IsSound s
      → (get (assign s o).0 ≡ get o) × (get (assign s o).1 ≡ none)
  unfolding get assign
  assign_moves s _ vacant vacant = (refl, refl)
  assign_moves s _ vacant (occupied u) = (refl, refl)
  assign_moves s _ (occupied v) h = (refl, refl)
