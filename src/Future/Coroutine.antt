-- ===== src/Future/Coroutine.antt =====
-- header/actor-zeta/detail/future.hpp: how a coroutine method ends, and how a future lets go of it.
-- A coroutine frame is named by a number, and `done` says whether it is at its final suspend point.
use actor_zeta.Base.{ℕ, suc, ◌≡◌, Bool, true, false, Option, none, some, if◌then◌else◌, arith}
use actor_zeta.Future.Flags.{or_flags, mask_promise_finalizing}
use actor_zeta.Future.SharedState.{
  SharedState, set_exception, is_ready, release_promise, release_future, try_complete_finalize,
}

-- What `await_suspend` leaves: the state, whether it destroyed the coroutine's frame, and the
-- coroutine that runs next, if not the no-op one.
pub record Suspended (V X : Type 0) : Type 0 where
  pub state : SharedState V X
  pub destroyed : Bool
  pub next : Option ℕ

-- `unique_future`, of a coroutine or of a promise.
pub record UniqueFuture (V X : Type 0) : Type 0 where
  pub state : Option (SharedState V X)
  pub handle : Option ℕ

module _ {V X : Type 0} where
  -- `final_awaiter::await_suspend`
  unfoldable pub await_suspend : SharedState V X → Suspended V X
  unfolding or_flags release_promise try_complete_finalize
  await_suspend s =
      let cont = s.continuation in
      let s1 = record s { continuation = none; flags = or_flags s.flags mask_promise_finalizing } in
      let (s2, cancelled) = release_promise s1 in
      let (s3, alive) = try_complete_finalize s2 in
      if cancelled
      then record { state = s2; destroyed = true; next = none }
      else if alive
      then record { state = s3; destroyed = false; next = cont }
      else record { state = s3; destroyed = true; next = none }

  -- With exceptions enabled.
  unfoldable pub unhandled_exception : Option (SharedState V X) → X → Option (SharedState V X)
  unfolding set_exception
  unhandled_exception none ep = none
  unhandled_exception (some s) ep = some (set_exception s ep)

  -- The handle to which an outside driver may resume, none once the state is ready.
  unfoldable pub coroutine_handle : UniqueFuture V X → Option ℕ
  unfolding is_ready
  coroutine_handle f = elim f.state [ none ↦ none | some s ↦ if is_ready s then none else f.handle ]

  -- What the future was when it let go: the frame that was destroyed, and the state.
  unfoldable pub release :
      (ℕ → Bool) → UniqueFuture V X → Option ℕ × Option (SharedState V X) × UniqueFuture V X
  unfolding release_future
  release done f = (
    elim f.handle [ none ↦ none | some h ↦ if done h then some h else none ],
    elim f.state [ none ↦ none | some s ↦ some (release_future s) ],
    record { state = none; handle = none },
  )

  -- A coroutine whose promise is not released yet and that ends with its future alive leaves the
  -- frame and the state to it, ready and not finalizing, and runs the continuation; one whose
  -- future is gone destroys its frame, deallocates the state, once, and runs nothing; both take
  -- the continuation.
  pub await_suspend-ends :
      (s : SharedState V X)
      → s.flags.promise_released ≡ false
      → ((await_suspend s).destroyed ≡ s.flags.future_released)
        × ((await_suspend s).next ≡ (if s.flags.future_released then none else s.continuation))
        × ((await_suspend s).state.deallocated
            ≡ (if s.flags.future_released then suc s.deallocated else s.deallocated))
        × (is_ready (await_suspend s).state ≡ true)
        × ((await_suspend s).state.flags.promise_finalizing ≡ s.flags.future_released)
        × ((await_suspend s).state.continuation ≡ none)
  unfolding await_suspend is_ready
  await_suspend-ends s pending = ground arith

  -- A future that is alive when its coroutine ends, and whose frame is done, then reclaims the
  -- frame, deallocates the state, once, and no longer hands out the handle.
  pub release-await_suspend :
      (s : SharedState V X) (done : ℕ → Bool) (h : ℕ)
      → s.flags.promise_released ≡ false
      → s.flags.future_released ≡ false
      → done h ≡ true
      → ((release done (record { state = some (await_suspend s).state; handle = some h })).0
          ≡ some h)
        × ((release_future (await_suspend s).state).deallocated ≡ suc s.deallocated)
        × (coroutine_handle (record { state = some (await_suspend s).state; handle = some h })
            ≡ none)
  unfolding await_suspend release release_future coroutine_handle
  release-await_suspend s done h pending held ended = ground arith
