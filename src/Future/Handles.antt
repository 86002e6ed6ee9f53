-- ===== src/Future/Handles.antt =====
-- header/actor-zeta/detail/future.hpp: `promise` and `unique_future` as objects that point to a shared
-- state in memory, how they are made, moved, assigned and destroyed, and what becomes of the state.
pub mod Owners
pub mod Accounts
mod Tests
use actor_zeta.Base.{ℕ, Bool, true, false, Option, none, some, ◌==◌, if◌then◌else◌}
use actor_zeta.Queue.Links.{Ptr, null}
use actor_zeta.Future.SharedState.{
  SharedState, ErrorCode, new_state, broken_pipe, set_error, release_future,
}
use actor_zeta.Future.States.{States, store}
use actor_zeta.Future.Promise.{
  Extraction, value, settle, promise_set_value, promise_error, promise_exception, take_ready,
}

-- `promise`: its state, or null.
abbrev pub Promise : Type 0
Promise = Ptr

-- `unique_future`: its state, or null, and the frame of its coroutine, or null.
pub record UniqueFuture : Type 0 where
  pub state : Ptr
  pub handle : Ptr

abbrev pub no_future : UniqueFuture
no_future = record { state = null; handle = null }

unfoldable pub promise_valid : Promise → Bool
promise_valid p = if p == null then false else true

-- The move constructors: the new object, and what the other becomes.
unfoldable pub promise_move : Promise → Promise × Promise
promise_move other = (other, null)

unfoldable pub future_move : UniqueFuture → UniqueFuture × UniqueFuture
future_move other = (record { state = other.state; handle = other.handle }, no_future)

-- `none` is the assertion on a moved-from promise.
unfoldable pub get_future : Promise → Option UniqueFuture
get_future p = if p == null then none else some (record { state = p; handle = null })

module _ {V X : Type 0} where
  -- The constructor from a memory resource, at the address where the state is allocated.
  unfoldable pub make_promise : States V X → Ptr → States V X × Promise
  make_promise states at = (store states at new_state, at)

  -- `release_if_needed`, which is also the destructor.
  unfoldable pub promise_release : States V X → Promise → States V X
  unfolding set_error settle
  promise_release states p =
      if p == null then states else store states p (settle (set_error (states p) broken_pipe))

  -- The move assignment between two promises.
  unfoldable pub promise_assign : States V X → Promise → Promise → States V X × Promise × Promise
  unfolding promise_release
  promise_assign states p other = (promise_release states p, other, null)

  -- `set_value`, `error` and `exception`, with the promise that is left; `none` is their assertion.
  unfoldable pub fulfil_value : States V X → Promise → V → Option (States V X × Promise)
  unfolding promise_set_value
  fulfil_value states p v =
      if p == null then none else some (store states p (promise_set_value (states p) v), null)

  unfoldable pub fulfil_error : States V X → Promise → ErrorCode → Option (States V X × Promise)
  unfolding promise_error
  fulfil_error states p ec =
      if p == null then none else some (store states p (promise_error (states p) ec), null)

  unfoldable pub fulfil_exception : States V X → Promise → X → Option (States V X × Promise)
  unfolding promise_exception
  fulfil_exception states p ep =
      if p == null then none else some (store states p (promise_exception (states p) ep), null)

  -- `release`, also `detach` and the destructor: the frame that is destroyed, or null, the states,
  -- and the future. `done` says which frames are at their final suspend point.
  unfoldable pub future_release :
      (Ptr → Bool) → States V X → UniqueFuture → Ptr × States V X × UniqueFuture
  unfolding release_future
  future_release done states f = (
    if f.handle == null then null else if done f.handle then f.handle else null,
    if f.state == null then states else store states f.state (release_future (states f.state)),
    no_future,
  )

  -- The move assignment between two futures: the frame that is destroyed, the states, this future
  -- and the other.
  unfoldable pub future_assign :
      (Ptr → Bool)
      → States V X
      → UniqueFuture
      → UniqueFuture
      → Ptr × States V X × UniqueFuture × UniqueFuture
  unfolding future_release
  future_assign done states f other =
      let (frame, states', gone) = future_release done states f in
      (frame, states', record { state = other.state; handle = other.handle }, no_future)

  -- `take_ready` of a future with a state: what comes out, the frame that is destroyed, the states,
  -- and the future, which has let go only if a value came out.
  unfoldable pub extract :
      (Ptr → Bool) → States V X → UniqueFuture → Extraction V X × Ptr × States V X × UniqueFuture
  unfolding take_ready future_release
  extract done states f =
      let (e, s) = take_ready (states f.state) in
      let reclaimed = (future_release done states f).0 in
      (
        e,
        elim e [ value v ↦ reclaimed | _ ↦ null ],
        store states f.state s,
        elim e [ value v ↦ no_future | _ ↦ f ],
      )
