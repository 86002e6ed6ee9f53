-- ===== src/Future/Promise.antt =====
-- header/actor-zeta/detail/future.hpp: `promise<T>` and `unique_future<T>`, and the two functions
-- that make a finished future. Each member acts on the shared state that the object points to; a
-- moved-from object points to none. Members run here without interference (see Future/Release.antt
-- for the interleavings). The frame of a producing coroutine is not modelled.
pub mod Outcomes
use actor_zeta.Base.{Bool, false, not, ◌||◌, Option, none, some, if◌then◌else◌}
use actor_zeta.Future.Flags.{or_flags, mask_promise_finalizing}
use actor_zeta.Future.SharedState.{
  ErrorCode, no_error, broken_pipe, SharedState, new_state, set_value, set_error, set_exception,
  rethrow_if_exception, is_ready, has_result, has_error, take_value, release_promise,
  release_future, try_complete_finalize,
}

-- What an extraction comes to: a value, a rethrown exception, or the abort of
-- `refuse_valueless_extraction`.
pub data Extraction (V X : Type 0) : Type 0 where
  value : V → Extraction V X
  thrown : X → Extraction V X
  refused : Extraction V X

module _ {V X : Type 0} where
  unfoldable pub settle : SharedState V X → SharedState V X
  unfolding or_flags release_promise try_complete_finalize
  settle s =
      let s1 = record s { flags = or_flags s.flags mask_promise_finalizing } in
      let (s2, deallocated) = release_promise s1 in
      if deallocated then s2 else (try_complete_finalize s2).0

  -- The members of `promise`.
  unfoldable pub promise_set_value : SharedState V X → V → SharedState V X
  unfolding set_value settle
  promise_set_value s v = settle (set_value s v)

  unfoldable pub promise_error : SharedState V X → ErrorCode → SharedState V X
  unfolding set_error settle
  promise_error s ec = settle (set_error s ec)

  unfoldable pub promise_exception : SharedState V X → X → SharedState V X
  unfolding set_exception settle
  promise_exception s ep = settle (set_exception s ep)

  -- The destructor, and the move assignment's farewell to its old state.
  unfoldable pub release_if_needed : Option (SharedState V X) → Option (SharedState V X)
  unfolding set_error settle
  release_if_needed none = none
  release_if_needed (some s) = some (settle (set_error s broken_pipe))

  -- The members of `unique_future`.
  unfoldable pub failed : Option (SharedState V X) → Bool
  unfolding has_error
  failed none = false
  failed (some s) = has_error s

  unfoldable pub future_is_ready : Option (SharedState V X) → Bool
  unfolding is_ready
  future_is_ready none = false
  future_is_ready (some s) = is_ready s

  unfoldable pub error : Option (SharedState V X) → ErrorCode
  error none = no_error
  error (some s) = s.error

  unfoldable pub check_extractable : SharedState V X → Option (Extraction V X)
  unfolding rethrow_if_exception has_result has_error
  check_extractable s = elim (rethrow_if_exception s) [
    | some ep ↦ some (thrown ep)
    | none ↦ if not (has_result s) || has_error s then some refused else none
  ]

  -- The extraction, and the state after it; the future has let go of it only if a value came out.
  unfoldable pub take_ready : SharedState V X → Extraction V X × SharedState V X
  unfolding check_extractable take_value release_future
  take_ready s = elim (check_extractable s) [
    | some e ↦ (e, s)
    | none ↦ elim (take_value s) [
      | none ↦ (refused, s)
      | some (v, s1) ↦ (value v, release_future s1)
    ]
  ]

  unfoldable pub make_error : ErrorCode → SharedState V X
  unfolding promise_error
  make_error ec = promise_error new_state ec

  unfoldable pub make_ready_future : V → SharedState V X
  unfolding promise_set_value
  make_ready_future v = promise_set_value new_state v
