-- ===== src/Future/Method.antt =====
-- header/actor-zeta/detail/future.hpp: `promise_type`, what a coroutine method does with its frame, its
-- state and its future from the call to the end of the future. The body runs to its end at once, as
-- it does unless it awaits; what the compiler generates around it is written out in `call`.
pub mod Resource
pub mod Call
mod Tests
use actor_zeta.Base.{ℕ, Bool, Option, none, some, ◌==◌, if◌then◌else◌, ◌>>=◌, List}
use actor_zeta.Queue.Links.{Ptr, null}
use actor_zeta.Future.SharedState.{SharedState, ErrorCode, new_state, set_value, set_error}
use actor_zeta.Future.States.{States, store}
use actor_zeta.Future.Handles.{UniqueFuture}
use actor_zeta.Future.Coroutine.{await_suspend, unhandled_exception}
use actor_zeta.Future.Frames.{
  Frames, Request, allocate_coro_frame, deallocate_coro_frame, deallocate_coro_frame_unsized,
}
use actor_zeta.Future.Method.Resource.{Argument, extract_resource_or_abort}

-- `promise_type_base`, its data members.
pub record PromiseType : Type 0 where
  pub resource : Ptr
  pub state : Ptr

-- The constructor from the arguments of the coroutine.
unfoldable pub construct : List Argument → Option PromiseType
unfolding extract_resource_or_abort
construct args = do
  resource ← extract_resource_or_abort args
  some (record { resource = resource; state = null })

-- How a body ends: `co_return` of a value or of an error code, or an exception that escapes.
pub data Completion (V X : Type 0) : Type 0 where
  returned : V → Completion V X
  failed_with : ErrorCode → Completion V X
  threw : X → Completion V X

module _ {V X : Type 0} where
  -- The state is allocated at `at`; `none` is the abort.
  unfoldable pub get_return_object :
      States V X → PromiseType → Ptr → Ptr → Option (States V X × PromiseType × UniqueFuture)
  get_return_object states promise at frame =
      if promise.resource == null
      then none
      else some (
        store states at new_state,
        record promise { state = at },
        record { state = at; handle = frame },
      )

  -- `return_value` in its two forms, `return_void`, `unhandled_exception`
  unfoldable pub complete : Completion V X → SharedState V X → SharedState V X
  unfolding set_value set_error
  complete (returned v) s = set_value s v
  complete (failed_with ec) s = set_error s ec
  complete (threw ep) s = elim (unhandled_exception (some s) ep) [ none ↦ s | some s' ↦ s' ]

-- What a call leaves: the request for its frame, the headers, the states, the future, and whether
-- the coroutine has destroyed its own frame.
pub record Called (V X : Type 0) : Type 0 where
  pub request : Request
  pub frames : Frames
  pub states : States V X
  pub future : UniqueFuture
  pub destroyed : Bool

module _ (header_size align : ℕ) where
  -- The class's `operator new` and `operator delete`, with and without a size.
  unfoldable pub operator_new : Frames → List Argument → ℕ → Ptr → Option (Request × Frames × Ptr)
  unfolding extract_resource_or_abort allocate_coro_frame
  operator_new headers args size raw = do
    res ← extract_resource_or_abort args
    allocate_coro_frame header_size align headers res size raw

  unfoldable pub operator_delete_sized : Frames → Ptr → ℕ → Option Request
  unfolding deallocate_coro_frame
  operator_delete_sized = deallocate_coro_frame header_size align

  unfoldable pub operator_delete : Frames → Ptr → Option Request
  unfolding deallocate_coro_frame_unsized
  operator_delete = deallocate_coro_frame_unsized header_size align

  -- The frame is allocated, with `raw` for the resource's answer, the promise is constructed in it,
  -- the future is made, the body runs, and `final_suspend` follows.
  unfoldable pub call :
      {V X : Type 0}
      → Frames
      → List Argument
      → ℕ
      → Ptr
      → States V X
      → Ptr
      → Completion V X
      → Option (Called V X)
  unfolding operator_new construct get_return_object complete await_suspend
  call headers args size raw states at completion = do
    (request, frames, frame) ← operator_new headers args size raw
    promise ← construct args
    (states1, promise1, future) ← get_return_object states promise at frame
    let ended = await_suspend (complete completion (states1 promise1.state))
    some (record {
      request = request;
      frames = frames;
      states = store states1 promise1.state ended.state;
      future = future;
      destroyed = ended.destroyed;
    })
