-- ===== src/Future/Promise/Outcomes.antt =====
-- What reaches the consumer, for each way in which a promise can end.
use actor_zeta.Base.{suc, ◌≡◌, true, false, none, some, arith}
use actor_zeta.Future.SharedState.{
  ErrorCode, broken_pipe, interrupted, state_not_recoverable, SharedState, release_future,
}
use actor_zeta.Future.Promise.{
  value, thrown, refused, settle, promise_set_value, promise_error, promise_exception,
  release_if_needed, failed, future_is_ready, error, take_ready,
}

-- A state on which the promise has done nothing yet; the future may be gone.
pub record IsPending {V X : Type 0} (s : SharedState V X) : Type 0 where
  pub no_value : s.flags.value_set ≡ false
  pub no_error_yet : s.flags.error_set ≡ false
  pub not_consumed : s.flags.consumed ≡ false
  pub promised : s.flags.promise_released ≡ false
  pub not_finalizing : s.flags.promise_finalizing ≡ false
  pub no_exception : s.exception ≡ none

module _ {V X : Type 0} (s : SharedState V X) (pending : IsPending s) where
  -- On a pending state whose future is held, a value that is set is the value that take_ready
  -- returns, the future is ready and not failed, and taking it deallocates the state, once.
  pub take_ready-set_value :
      (v : V)
      → s.flags.future_released ≡ false
      → ((take_ready (promise_set_value s v)).0 ≡ value v)
        × ((take_ready (promise_set_value s v)).1.deallocated ≡ suc s.deallocated)
        × (future_is_ready (some (promise_set_value s v)) ≡ true)
        × (failed (some (promise_set_value s v)) ≡ false)
  unfolding take_ready promise_set_value future_is_ready failed
  take_ready-set_value v held = ground arith

  -- On a pending state whose future is held, an error makes the future ready and failed with that
  -- code, refuses the extraction, and leaves one deallocation to the release of the future.
  pub take_ready-error :
      (ec : ErrorCode)
      → s.flags.future_released ≡ false
      → ((take_ready (promise_error s ec)).0 ≡ refused)
        × (error (some (promise_error s ec)) ≡ ec)
        × (future_is_ready (some (promise_error s ec)) ≡ true)
        × (failed (some (promise_error s ec)) ≡ true)
        × ((release_future (promise_error s ec)).deallocated ≡ suc s.deallocated)
  unfolding take_ready promise_error future_is_ready failed error release_future
  take_ready-error ec held = ground arith

  -- On a pending state whose future is held, an exception is thrown again where the value would
  -- be, and polling sees a failure with the code interrupted.
  pub take_ready-exception :
      (ep : X)
      → s.flags.future_released ≡ false
      → ((take_ready (promise_exception s ep)).0 ≡ thrown ep)
        × (error (some (promise_exception s ep)) ≡ interrupted)
        × (future_is_ready (some (promise_exception s ep)) ≡ true)
        × (failed (some (promise_exception s ep)) ≡ true)
  unfolding take_ready promise_exception future_is_ready failed error
  take_ready-exception ep held = ground arith

  -- A pending state whose future is held gives the future what its promise was given: a value is
  -- taken as it was set, deallocates the state, once, and counts as no failure; an error refuses
  -- the extraction, is read back as its code, and leaves one deallocation to the release of the
  -- future; an exception is thrown again, and is read as `interrupted`.
  pub take_ready-settled :
      (v : V) (ec : ErrorCode) (ep : X)
      → s.flags.future_released ≡ false
      → ((take_ready (promise_set_value s v)).0 ≡ value v)
        × ((take_ready (promise_set_value s v)).1.deallocated ≡ suc s.deallocated)
        × (failed (some (promise_set_value s v)) ≡ false)
        × ((take_ready (promise_error s ec)).0 ≡ refused)
        × (error (some (promise_error s ec)) ≡ ec)
        × ((release_future (promise_error s ec)).deallocated ≡ suc s.deallocated)
        × ((take_ready (promise_exception s ep)).0 ≡ thrown ep)
        × (error (some (promise_exception s ep)) ≡ interrupted)
  take_ready-settled v ec ep held =
      let (taken, freed, ready, fine) = take_ready-set_value v held in
      let (refusal, code, ready_too, bad, left) = take_ready-error ec held in
      let (rethrown, cut, ready_three, worse) = take_ready-exception ep held in
      (taken, freed, fine, refusal, code, left, rethrown, cut)

  -- On a pending state whose future is dropped first, the drop does not deallocate it and each
  -- outcome of the promise does, once.
  pub settle_after_drop :
      (v : V) (ec : ErrorCode) (ep : X)
      → s.flags.future_released ≡ false
      → ((release_future s).deallocated ≡ s.deallocated)
        × ((promise_set_value (release_future s) v).deallocated ≡ suc s.deallocated)
        × ((promise_error (release_future s) ec).deallocated ≡ suc s.deallocated)
        × ((promise_exception (release_future s) ep).deallocated ≡ suc s.deallocated)
  unfolding release_future promise_set_value promise_error promise_exception
  settle_after_drop v ec ep held = ground arith

  -- On a pending state whose future is held, a promise that dies leaves broken_pipe as
  -- promise::error would, and settling without an outcome leaves a ready, failed future with
  -- state_not_recoverable.
  pub broken_promise :
      s.flags.future_released ≡ false
      → (release_if_needed (some s) ≡ some (promise_error s broken_pipe))
        × (error (release_if_needed (some s)) ≡ broken_pipe)
        × (failed (release_if_needed (some s)) ≡ true)
        × (failed (some (settle s)) ≡ true)
        × (future_is_ready (some (settle s)) ≡ true)
        × (error (some (settle s)) ≡ state_not_recoverable)
  unfolding release_if_needed promise_error settle failed future_is_ready error
  broken_promise held = ground arith
