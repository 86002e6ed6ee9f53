-- ===== src/Awaiting.antt =====
-- header/actor-zeta/detail/future_awaiters.hpp and header/actor-zeta/detail/behavior_t.hpp: what a
-- coroutine does around a co_await, and what its actor's driver sees of it. A coroutine is named by
-- the address of its promise object, and a shared state by its address; `awaited_flags` and
-- `awaited_continuation` point into a state, and are its address.
pub mod Chain
pub mod Propagate
pub mod Suspend
pub mod Driver
pub mod Root
mod Tests
use actor_zeta.Base.{
  ℕ, zero, suc, Bool, true, false, not, ◌&&◌, Option, none, some, ◌==◌, if◌then◌else◌,
}
use actor_zeta.Queue.Links.{Ptr, null}
use actor_zeta.Future.SharedState.{
  SharedState, has_error, has_result, is_ready, rethrow_if_exception, take_value, release_future,
}
use actor_zeta.Future.Promise.{Extraction, value, thrown, refused}
use actor_zeta.Message.{States, store}

-- `future_awaiter_mixin`. `propagated_to_flags` and `propagated_to_cont` point to fields of another
-- promise, and are its address; `outer_update_fn` says whether the pointer is set.
pub record Awaiter : Type 0 where
  pub awaited_flags : Ptr
  pub awaited_continuation : Ptr
  pub propagated_to_flags : Ptr
  pub propagated_to_cont : Ptr
  pub outer_promise_raw : Ptr
  pub outer_update_fn : Bool

abbrev pub idle_awaiter : Awaiter
idle_awaiter = record {
  awaited_flags = null;
  awaited_continuation = null;
  propagated_to_flags = null;
  propagated_to_cont = null;
  outer_promise_raw = null;
  outer_update_fn = false;
}

-- The promise objects, by address.
abbrev pub Awaiters : Type 0
Awaiters = Ptr → Awaiter

abbrev pub put : Awaiters → Ptr → Awaiter → Awaiters
put h p a q = if q == p then a else h q

-- `*propagated_to_flags_ = flags` and `*propagated_to_cont_ = cont`
unfoldable pub write_flags : Awaiters → Ptr → Ptr → Awaiters
write_flags h to flags = put h to (record (h to) { awaited_flags = flags })

unfoldable pub write_cont : Awaiters → Ptr → Ptr → Awaiters
write_cont h to cont = put h to (record (h to) { awaited_continuation = cont })

-- The call goes from promise to promise outwards; `none` is out of fuel.
unfoldable pub update_propagated_outer : ℕ → Awaiters → Ptr → Option Awaiters
unfolding write_flags write_cont
update_propagated_outer zero h p = none
update_propagated_outer (suc fuel) h p =
    let to_flags = (h p).propagated_to_flags in
    let h1 = if to_flags == null then h else write_flags h to_flags (h p).awaited_flags in
    let to_cont = (h1 p).propagated_to_cont in
    let h2 = if to_cont == null then h1 else write_cont h1 to_cont (h1 p).awaited_continuation in
    let outer = update_propagated_outer fuel h2 (h2 p).outer_promise_raw in
    if (h2 p).outer_update_fn && not ((h2 p).outer_promise_raw == null) then outer else some h2

unfoldable pub clear_awaited_chain : ℕ → Awaiters → Ptr → Option Awaiters
unfolding update_propagated_outer
clear_awaited_chain fuel h p =
    update_propagated_outer fuel
      (put h p (record (h p) { awaited_flags = null; awaited_continuation = null })) p

-- A future that is awaited: its state, whether that has a result, and the coroutine behind it, or
-- null.
pub record Awaited : Type 0 where
  pub state : Ptr
  pub has_result : Bool
  pub coroutine : Ptr

unfoldable pub propagate_awaited_state : ℕ → Awaiters → Ptr → Awaited → Option Awaiters
unfolding update_propagated_outer
propagate_awaited_state fuel h p future =
    let await : Awaiters → Ptr → Ptr → Awaiters = λ (h' : Awaiters) (flags cont : Ptr).
      put h' p (record (h' p) { awaited_flags = flags; awaited_continuation = cont }) in
    let inner = future.coroutine in
    let linked = put h inner (record (h inner) {
      propagated_to_flags = p;
      propagated_to_cont = p;
      outer_promise_raw = p;
      outer_update_fn = true;
    }) in
    let awaiting =
      if future.has_result
      then await h null null
      else if inner == null
      then await h future.state future.state
      else if (linked inner).awaited_flags == null
      then await linked future.state future.state
      else await linked (linked inner).awaited_flags (linked inner).awaited_continuation in
    update_propagated_outer fuel awaiting p

module _ {V X : Type 0} where
  -- `owning_awaiter::await_ready`
  unfoldable pub await_ready : SharedState V X → Bool
  unfolding has_result
  await_ready s = has_result s

  -- `owning_awaiter::await_resume`, of the state that it owns, with its abort as `refused`.
  unfoldable pub await_resume : SharedState V X → Extraction V X × SharedState V X
  unfolding rethrow_if_exception has_error take_value
  await_resume s = elim (rethrow_if_exception s) [
    | some ep ↦ (thrown ep, s)
    | none ↦
        if has_error s
        then (refused, s)
        else elim (take_value s) [ none ↦ (refused, s) | some (v, s1) ↦ (value v, s1) ]
  ]

-- `behavior_t`: its coroutine, or null; with the coroutines that are done.
pub record Behavior : Type 0 where
  pub handle : Ptr

unfoldable pub done : (Ptr → Bool) → Behavior → Bool
done ended b = if b.handle == null then true else ended b.handle

unfoldable pub is_busy : (Ptr → Bool) → Awaiters → Behavior → Bool
is_busy ended h b =
    not (b.handle == null) && not (ended b.handle) && not ((h b.handle).awaited_flags == null)

module _ {V X : Type 0} where
  unfoldable pub is_awaited_ready : (Ptr → Bool) → Awaiters → States V X → Behavior → Bool
  unfolding is_ready
  is_awaited_ready ended h states b =
      if b.handle == null
      then false
      else if ended b.handle
      then false
      else if (h b.handle).awaited_flags == null
      then false
      else is_ready (states (h b.handle).awaited_flags)

  -- The continuation that it took, and the states.
  unfoldable pub take_awaited_continuation :
      (Ptr → Bool) → Awaiters → States V X → Behavior → Option ℕ × States V X
  take_awaited_continuation ended h states b =
      let cont = (h b.handle).awaited_continuation in
      if b.handle == null
      then (none, states)
      else if ended b.handle
      then (none, states)
      else if cont == null
      then (none, states)
      else (
        (states cont).continuation,
        store states cont (record (states cont) { continuation = none }),
      )

-- The move constructor and the move assignment between two: the frame that is destroyed, or null,
-- the behavior, and the other.
unfoldable pub move_from : Behavior → Behavior × Behavior
move_from o = (o, record { handle = null })

unfoldable pub assign : Behavior → Behavior → Ptr × Behavior × Behavior
assign b o = (b.handle, record { handle = o.handle }, record { handle = null })
