-- ===== src/Future/SharedState.antt =====
-- header/actor-zeta/detail/shared_state.hpp: the state that a promise and its future share. Each
-- function is a member run without interference; Future/Release.antt interleaves the parts.
use mathlib.Core.Option
use actor_zeta.Base.{ℕ, suc, Bool, true, false, not, ◌&&◌, Option, none, some, if◌then◌else◌}
use actor_zeta.Future.Flags.{
  Flags, empty, result_set, or_flags, clear_flags, mask_value_set, mask_error_set, mask_consumed,
  same_flags, mask_future_released, mask_promise_finalizing,
}
use actor_zeta.Future.ResultStorage.{ResultStorage, empty_storage, emplace, take}

-- `std::error_code`: the values of `std::errc` that the library stores, and any other.
pub data ErrorCode : Type 0 where
  no_error operation_canceled state_not_recoverable broken_pipe interrupted : ErrorCode
  other : ℕ → ErrorCode

-- `X` stands for what a `std::exception_ptr` holds. `continuation` names a coroutine; the pointer to
-- the memory resource is left out, and `deallocated` counts the calls of `deallocate`.
pub record SharedState (V X : Type 0) : Type 0 where
  pub flags : Flags
  pub value : ResultStorage V
  pub continuation : Option ℕ
  pub error : ErrorCode
  pub exception : Option X
  pub deallocated : ℕ

module _ {V X : Type 0} where
  abbrev pub new_state : SharedState V X
  new_state = record {
    flags = empty;
    value = empty_storage;
    continuation = none;
    error = no_error;
    exception = none;
    deallocated = 0;
  }

  abbrev fetch_or : SharedState V X → Flags → SharedState V X
  fetch_or s m = record s { flags = or_flags s.flags m }

  unfoldable pub set_value : SharedState V X → V → SharedState V X
  unfolding or_flags emplace
  set_value s v = fetch_or (record s { value = emplace s.value v }) mask_value_set

  unfoldable pub set_error : SharedState V X → ErrorCode → SharedState V X
  unfolding or_flags
  set_error s ec = fetch_or (record s { error = ec }) mask_error_set

  unfoldable pub set_exception : SharedState V X → X → SharedState V X
  unfolding or_flags
  set_exception s ep =
      fetch_or (record s { exception = some ep; error = interrupted }) mask_error_set

  -- What `rethrow_if_exception` throws.
  unfoldable pub rethrow_if_exception : SharedState V X → Option X
  rethrow_if_exception s = if s.flags.error_set then s.exception else none

  unfoldable pub is_ready : SharedState V X → Bool
  is_ready s = s.flags.promise_released

  unfoldable pub has_result : SharedState V X → Bool
  unfolding result_set
  has_result s = result_set s.flags

  unfoldable pub has_error : SharedState V X → Bool
  has_error s = s.flags.error_set

  unfoldable pub holds_value : SharedState V X → Bool
  holds_value s = s.flags.value_set && not s.flags.error_set && not s.flags.consumed

  -- `none` is the abort of an extraction from an empty storage.
  unfoldable pub take_value : SharedState V X → Option (V × SharedState V X)
  unfolding or_flags take
  take_value s =
      let s1 = fetch_or s mask_consumed in
      Option.map (λ (r : V × ResultStorage V). (r.0, record s1 { value = r.1 })) (take s1.value)

  unfoldable pub deallocate : SharedState V X → SharedState V X
  deallocate s = record s { deallocated = suc s.deallocated }

  -- The state after it, and whether it deallocated.
  unfoldable pub release_promise : SharedState V X → SharedState V X × Bool
  unfolding or_flags result_set deallocate
  release_promise s =
      let failing = not (result_set s.flags) in
      let bits : Flags = record empty { promise_released = true; error_set = failing } in
      let s1 = if failing then record s { error = state_not_recoverable } else s in
      let s2 = fetch_or s1 bits in
      if s1.flags.future_released then (deallocate s2, true) else (s2, false)

  unfoldable pub release_future : SharedState V X → SharedState V X
  unfolding or_flags deallocate
  release_future s =
      let s1 = fetch_or s mask_future_released in
      if s.flags.promise_released && not s.flags.promise_finalizing then deallocate s1 else s1

  -- From the first load of `try_complete_finalize` on: `current` is what it read.
  unfoldable pub complete_finalize : Flags → SharedState V X → SharedState V X × Bool
  unfolding clear_flags deallocate same_flags
  complete_finalize current s =
      let expected = clear_flags current mask_future_released in
      let desired = clear_flags expected mask_promise_finalizing in
      if same_flags s.flags expected
      then (record s { flags = desired }, true)
      else if s.flags.future_released
      then (deallocate s, false)
      else (record s { flags = clear_flags s.flags mask_promise_finalizing }, true)

  unfoldable pub try_complete_finalize : SharedState V X → SharedState V X × Bool
  unfolding complete_finalize
  try_complete_finalize s = complete_finalize s.flags s
