-- ===== src/Message.antt =====
-- header/actor-zeta/mailbox/message.hpp, header/actor-zeta/impl/mailbox/message.ipp and
-- header/actor-zeta/mailbox/make_message.hpp: a message and the slot that ties it to a future. The
-- hooks of the queues are left out. `cleanup_fn` says whether the pointer is set: it is always the
-- function of `init_future_slot`.
pub mod Slot
pub mod Block
pub mod Pool
mod Tests
use actor_zeta.Base.{
  ℕ, Bool, true, false, not, ◌&&◌, ◌||◌, List, [], ◌∷◌, length, ◌==◌, if◌then◌else◌,
}
use actor_zeta.MessageId.{normal, make_message_id}
use actor_zeta.Queue.Links.{Ptr, null}
use actor_zeta.Future.SharedState.{
  SharedState, new_state, operation_canceled, set_error, release_promise,
}
pub use actor_zeta.Future.States.{States, store}
use actor_zeta.Rtt.{Rtt, nothing}
use actor_zeta.Rtt

pub record Message : Type 0 where
  pub command : ℕ
  pub body : Rtt
  pub result_slot : Ptr
  pub cleanup_fn : Bool
  pub ownership_transferred : Bool

-- The constructors from a message id, with a body and without.
unfoldable pub construct : ℕ → Rtt → Message
unfolding Rtt.move_from
construct name body = record {
  command = name;
  body = (Rtt.move_from body).0;
  result_slot = null;
  cleanup_fn = false;
  ownership_transferred = false;
}

-- `operator bool`
unfoldable pub is_set : Message → Bool
is_set m = not (m.command == 0) || not (length m.body.objects == 0)

unfoldable pub set_command : Message → ℕ → Message
set_command m id = record m { command = id }

unfoldable pub has_result_slot : Message → Bool
has_result_slot m = not (m.result_slot == null)

unfoldable pub transfer_ownership : Message → Message
transfer_ownership m = record m { ownership_transferred = true }

-- `get_result_promise`: the state that the promise points to.
unfoldable pub get_result_promise : Message → Ptr
get_result_promise m = m.result_slot

unfoldable pub init_future_slot : Message → Ptr → Message
init_future_slot m state = record m { result_slot = state; cleanup_fn = true }

-- The move constructors: the new message, and what the other becomes.
unfoldable pub move_from : Message → Message × Message
unfolding Rtt.move_from
move_from other = (
  record {
    command = other.command;
    body = (Rtt.move_from other.body).0;
    result_slot = other.result_slot;
    cleanup_fn = other.cleanup_fn;
    ownership_transferred = other.ownership_transferred;
  },
  record other {
    body = (Rtt.move_from other.body).1;
    result_slot = null;
    cleanup_fn = false;
    ownership_transferred = false;
  },
)

unfoldable pub swap : Message → Message → Message × Message
swap m other = (
  record {
    command = other.command;
    body = other.body;
    result_slot = other.result_slot;
    cleanup_fn = other.cleanup_fn;
    ownership_transferred = other.ownership_transferred;
  },
  record {
    command = m.command;
    body = m.body;
    result_slot = m.result_slot;
    cleanup_fn = m.cleanup_fn;
    ownership_transferred = m.ownership_transferred;
  },
)

-- `to_message_id`: of a message id, and of a number or an enumerator.
pub data Name : Type 0 where
  message_id number : ℕ → Name

unfoldable pub to_message_id : Name → ℕ
to_message_id (message_id id) = id
to_message_id (number n) = make_message_id normal n

module _ {V X : Type 0} where
  -- What `cleanup_fn_` points to.
  unfoldable pub cleanup : States V X → Ptr → States V X
  unfolding set_error release_promise
  cleanup states p = store states p (release_promise (set_error (states p) operation_canceled)).0

  -- The destructor.
  unfoldable pub destroy : States V X → Message → States V X
  unfolding cleanup
  destroy states m =
      if not m.ownership_transferred && m.cleanup_fn && not (m.result_slot == null)
      then cleanup states m.result_slot
      else states

  -- The move assignment between two messages: the states, the message, and what the other becomes.
  unfoldable pub assign : States V X → Message → Message → States V X × Message × Message
  unfolding cleanup Rtt.assign
  assign states m other =
      let settled =
        if not m.ownership_transferred && m.cleanup_fn && not (m.result_slot == null)
        then cleanup states m.result_slot
        else states in
      let (destroyed, body, left) = Rtt.assign m.body other.body in
      (
        settled,
        record {
          command = other.command;
          body = body;
          result_slot = other.result_slot;
          cleanup_fn = other.cleanup_fn;
          ownership_transferred = other.ownership_transferred;
        },
        record other {
          body = left;
          result_slot = null;
          cleanup_fn = false;
          ownership_transferred = false;
        },
      )

  -- `make_message`, with the address at which the new state is allocated: the states, the message,
  -- and the state that the future points to. Without arguments the body is empty.
  unfoldable pub make_message : States V X → Ptr → Name → Rtt → States V X × Message × Ptr
  unfolding construct init_future_slot to_message_id
  make_message states state name body =
      let msg = construct (to_message_id name) body in
      (store states state new_state, init_future_slot msg state, state)
