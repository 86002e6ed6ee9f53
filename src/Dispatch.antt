-- ===== src/Dispatch.antt =====
-- header/actor-zeta/actor/dispatch.hpp: how a message that has reached its actor becomes a call of
-- a method, and the method's outcome the caller's. A method is a function from the body of the
-- message to the state of its future; its result type is that of the caller's future.
pub mod Outcome
pub mod Methods
pub mod Ids
pub mod Send
pub mod Address
pub mod Arguments
pub mod TypeList
pub mod Validation
pub mod Route
mod Tests
use actor_zeta.Base.{
  ℕ, Bool, true, false, not, ◌&&◌, Option, none, some, length, ltb, ◌==◌, if◌then◌else◌, ◌>>=◌,
}
use actor_zeta.Queue.Links.{Ptr}
use actor_zeta.Rtt.{Rtt}
use actor_zeta.Future.SharedState.{SharedState, release_future}
use actor_zeta.Future.Promise.{value, thrown, refused, promise_set_value, promise_exception}
use actor_zeta.Awaiting.{await_resume}
use actor_zeta.Message.{
  States, store, Message, has_result_slot, get_result_promise, transfer_ownership,
}

-- `invoke_actor_method`
unfoldable pub invoke_actor_method :
    {V X : Type 0} → ℕ → (Option Rtt → SharedState V X) → Message → SharedState V X
invoke_actor_method args_size method msg =
    if args_size == 0 then method none else method (some msg.body)

-- `dispatch` up to the call of the method: the promise that it holds, and the message. `none`
-- stands for its assertions.
unfoldable pub begin : ℕ → Message → Option (Ptr × Message)
unfolding has_result_slot get_result_promise transfer_ownership
begin args_size msg =
    if ltb 0 args_size && not (length msg.body.objects == args_size)
    then none
    else if has_result_slot msg
    then some (get_result_promise msg, transfer_ownership msg)
    else none

module _ {V X : Type 0} where
  -- From the resumption after the co_await on: the method's state, which the awaiter lets go of,
  -- and the caller's. `none` is the abort on an error without an exception.
  unfoldable pub finish :
      SharedState V X → SharedState V X → Option (SharedState V X × SharedState V X)
  unfolding await_resume release_future promise_set_value promise_exception
  finish method_state result =
      let (outcome, s) = await_resume method_state in
      elim outcome [
        | value v ↦ some (release_future s, promise_set_value result v)
        | thrown ep ↦ some (release_future s, promise_exception result ep)
        | refused ↦ none
      ]

  -- `dispatch` of a method whose future is complete: the shared states, the method's state, and
  -- the message.
  unfoldable pub dispatch :
      ℕ
      → (Option Rtt → SharedState V X)
      → States V X
      → Message
      → Option (States V X × SharedState V X × Message)
  unfolding begin invoke_actor_method finish
  dispatch args_size method states msg = do
    (promise, msg') ← begin args_size msg
    (method_state, result) ← finish (invoke_actor_method args_size method msg') (states promise)
    some (store states promise result, method_state, msg')
