-- ===== src/Dispatch/Tests.antt =====
-- Three methods of an actor and its contract, one of them overloaded; an actor with two messages in
-- its inbox; and a message for a method without arguments.
use mathlib.Core.List.Memᴰ.{head}
use actor_zeta.Dispatch.Route.{send, send_address, behavior, send-behavior, send_address-send}
use actor_zeta.Base.{
  ◌⊎◌, reverse, none, ℕ, ◌^◌, ◌≡◌, refl, true, false, not, ◌&&◌, List, [], ◌∷◌, some, arith, inl,
}
use actor_zeta.Actor.StateWord.{is_destroying, sender_count}
use actor_zeta.Actor.StateWord.Laws.{parts}
use actor_zeta.Queue.LifoInbox.Views.{open_view}
use actor_zeta.Mailbox.Tests.{box, box-Contents}
use actor_zeta.Mailbox.Fetch.{Contents}
use actor_zeta.Rtt.{nothing}
use actor_zeta.Future.SharedState.{SharedState, new_state, operation_canceled}
use actor_zeta.Future.Promise.{failed, error}
use actor_zeta.Future.Promise.Outcomes.{IsPending}
use actor_zeta.Message.{States, Message}
use actor_zeta.Dispatch.Methods.{
  MethodPtr, find_method_index, msg_id, signatures_match, is_same_ptr,
}
use actor_zeta.Dispatch.Ids.{get, implements-msg_id}
use actor_zeta.Dispatch.Send.{Actor, Sent, dispatch_method}
use actor_zeta.Dispatch.Address.{
  Actors, Address, empty_address, address_of, is_set, swap, copy, move_assign, Made, nowhere, taken,
  copied, assigned,
}
use actor_zeta.Dispatch.Send.Answers.{IsNew, send_refused}

abbrev no_states : States ℕ ℕ
no_states p = new_state

abbrev letter : Message
letter = record {
  command = 2 ^ 60;
  body = nothing;
  result_slot = 100;
  cleanup_fn = true;
  ownership_transferred = false;
}

abbrev method_of : ℕ → ℕ → List ℕ → ℕ → MethodPtr
method_of class_type result_type args_types pointer = record {
  class_type = class_type;
  result_type = result_type;
  args_types = args_types;
  pointer = pointer;
}

abbrev contract : List MethodPtr
contract = method_of 1 7 [] 40 ∷ method_of 1 8 (3 ∷ []) 41 ∷ method_of 1 8 (3 ∷ []) 42 ∷ []

abbrev actor : List MethodPtr
actor = method_of 2 7 [] 50 ∷ method_of 2 8 (3 ∷ []) 51 ∷ method_of 2 8 (3 ∷ []) 52 ∷ []

-- The third method has the number 2.
third : find_method_index (method_of 1 8 (3 ∷ []) 42) contract ≡ some 2
unfolding find_method_index is_same_ptr
third = refl

implements-msg_id_example :
    (a : MethodPtr) × (get 2 actor ≡ some a)
    × (a.result_type ≡ 8)
    × (a.args_types ≡ 3 ∷ [])
    × (msg_id a actor ≡ msg_id (method_of 1 8 (3 ∷ []) 42) contract)
unfolding signatures_match
implements-msg_id_example =
    implements-msg_id contract actor 2 (method_of 1 8 (3 ∷ []) 42) refl (ground arith)
      (ground arith) refl

-- Idle, and being destroyed.
abbrev living : Actor
living = record { word = 0; box = box; resource = 300 }

abbrev dying : Actor
dying = record { word = 4; box = box; resource = 300 }

living-IsNew : IsNew living [] [] (open_view (20 ∷ 21 ∷ [])) 22
living-IsNew = record {
  node = ground arith;
  off_urgent = ground arith;
  off_normal = ground arith;
  off_inbox = ground arith;
}

dying-IsNew : IsNew dying [] [] (open_view (20 ∷ 21 ∷ [])) 22
dying-IsNew = record {
  node = ground arith;
  off_urgent = ground arith;
  off_normal = ground arith;
  off_inbox = ground arith;
}

-- The third method of the contract, whose behavior has its cases in another order.
send-behavior_example :
    ((msg_id (method_of 1 8 (3 ∷ []) 42) contract ≡ none)
      × (send contract living no_states (method_of 1 8 (3 ∷ []) 42) nothing 100 22 ≡ none))
    ⊎ ((r : Sent ℕ ℕ) × (send contract living no_states (method_of 1 8 (3 ∷ []) 42) nothing 100 22
          ≡ some r)
        × Contents r.actor.box [] [] (open_view (22 ∷ 20 ∷ 21 ∷ []))
        × (behavior contract (reverse contract) (r.actor.box.command 22)
            ≡ some (method_of 1 8 (3 ∷ []) 42))
        × (r.future ≡ 100)
        × IsPending (r.states r.future)
        × (r.needs_sched ≡ (false && not (parts 0).scheduled && not (parts 0).running)))
unfolding is_destroying sender_count
send-behavior_example =
    send-behavior living no_states [] [] (open_view (20 ∷ 21 ∷ [])) box-Contents contract
      (reverse contract) (method_of 1 8 (3 ∷ []) 42) nothing 100 22 (omega arith) living-IsNew
      (omega arith) (head refl) (omega arith) (ground arith) refl refl

send_refused_example :
    (r : Sent ℕ ℕ) × (dispatch_method dying no_states 2 nothing 100 22 ≡ some r)
    × Contents r.actor.box [] [] (open_view (20 ∷ 21 ∷ []))
    × (failed (some (r.states r.future)) ≡ true)
    × (error (some (r.states r.future)) ≡ operation_canceled)
    × (r.needs_sched ≡ false)
unfolding is_destroying
send_refused_example =
    send_refused dying no_states [] [] (open_view (20 ∷ 21 ∷ [])) box-Contents 2 nothing 100 22
      (omega arith) dying-IsNew (inl refl)

-- An actor of type 5 at the address 200, with the memory resource 300; and an address that was
-- assigned from a copy of its address.
abbrev actors : Actors
actors = record { actor = λ q. living; type_of = λ q. 5 }

abbrev its_address : Address
its_address = record { resource = 300; ptr = 200; enqueue_fn = some 5 }

assigned_address : Made actors (move_assign empty_address (copy its_address)).0
unfolding address_of
assigned_address =
    assigned empty_address (copy its_address) nowhere
      (copied its_address (taken 200 its_address refl))

send_address-send_example :
    send_address contract actors
      (move_assign empty_address (copy its_address)).0
      no_states
      (method_of 1 8 (3 ∷ []) 41)
      nothing
      100
      22
    ≡ send contract living no_states (method_of 1 8 (3 ∷ []) 41) nothing 100 22
unfolding is_set move_assign copy swap empty_address
send_address-send_example =
    send_address-send contract actors (move_assign empty_address (copy its_address)).0 no_states
      (method_of 1 8 (3 ∷ []) 41) nothing 100 22 assigned_address
