-- ===== src/Dispatch/Send.antt =====
-- header/actor-zeta/send.hpp and `enqueue_impl` of header/actor-zeta/actor/cooperative_actor.hpp, run
-- by one thread while no other is in the actor: a message is made, pushed, and refused by an actor
-- that is being destroyed or whose mailbox is closed.
pub mod Answers
use mathlib.Core.Option
use actor_zeta.Base.{
  ℕ, ◌+◌, ◌<◌, ◌≡◌, ◌≢◌, refl, ◌⊎◌, inl, inr, Bool-cases, sym, ap, subst, ◌∙◌, Bool, true, false,
  not, ◌&&◌, List, [], ◌∷◌, Option, none, some, arith, ◌==◌, if◌then◌else◌, ◌>>=◌,
}
use actor_zeta.MessageId.{normal, make_message_id}
use actor_zeta.Actor.StateWord.{ActorState, is_destroying, add_sender, u32_mod, sender_count}
use actor_zeta.Actor.StateWord.Laws.{parts, max_senders, add_sender_lem, flags_refine_parts}
use actor_zeta.Actor.Protocol.{leave, owes_enqueue}
use actor_zeta.Actor.Protocol.Writes.{owes_enqueue_lem}
use actor_zeta.Queue.Links.{Ptr, null, Off}
use actor_zeta.Queue.LifoInbox.{EnqueueResult, success, unblocked_reader, queue_closed}
use actor_zeta.Queue.LifoInbox.Views.{
  View, closed_view, blocked_view, open_view, IsNode, pushed_view, push_result,
}
use actor_zeta.Queue.LifoInbox.Reader.{taken, is_blocked_view, is_closed_view}
use actor_zeta.Queue.Frames.{nodes}
use actor_zeta.Mailbox.{Mailbox, inbox_of, push_back}
use actor_zeta.Mailbox.Fetch.{Contents}
use actor_zeta.Mailbox.Push.{push_back-Contents}
use actor_zeta.Rtt.{Rtt}
use actor_zeta.Future.SharedState.{SharedState, new_state, operation_canceled}
use actor_zeta.Future.Promise.{failed, future_is_ready, error}
use actor_zeta.Future.Promise.Outcomes.{IsPending}
use actor_zeta.Message.{States, store, Message, message_id, make_message, destroy}
use actor_zeta.Message.Slot.{make_message-future}

-- The word and the mailbox of an actor, and what its `resource()` returns.
pub record Actor : Type 0 where
  pub word : ActorState
  pub box : Mailbox
  pub resource : Ptr

abbrev pub is_closed : EnqueueResult → Bool
is_closed queue_closed = true
is_closed _ = false

abbrev pub is_unblocked : EnqueueResult → Bool
is_unblocked unblocked_reader = true
is_unblocked _ = false

-- `enqueue_impl`: the actor, whether it has to be scheduled, and the result. The refused message is
-- deleted with its last owner, here by the caller.
unfoldable pub enqueue : Actor → Ptr → Option (Actor × Bool × EnqueueResult)
unfolding leave owes_enqueue is_destroying push_back add_sender
enqueue a p =
    let entered = add_sender a.word in
    let pushed : Option (Actor × Bool × EnqueueResult) = (do
      (box, result) ← push_back a.box p
      some (
        record a { word = leave entered (is_unblocked result); box = box },
        owes_enqueue entered (is_unblocked result),
        result,
      )) in
    if is_destroying a.word then some (a, false, queue_closed) else pushed

-- The message stands at `p` when it is pushed, with its id.
abbrev pub with_message : Actor → Ptr → Message → Actor
with_message a p msg = record a {
  box = record a.box { command = λ q. if q == p then msg.command else a.box.command q };
}

-- What `send` leaves; `resource` is where the message and the state of its future were allocated.
pub record Sent (V X : Type 0) : Type 0 where
  pub resource : Ptr
  pub actor : Actor
  pub states : States V X
  pub needs_sched : Bool
  pub future : Ptr

-- `dispatch_method_impl`, with the addresses of the new state and of the new message. The other form,
-- on an address, differs in how it reaches the actor.
unfoldable pub dispatch_method :
    {V X : Type 0} → Actor → States V X → ℕ → Rtt → Ptr → Ptr → Option (Sent V X)
unfolding enqueue make_message destroy
dispatch_method a states action_id body state p = do
  let cmd = make_message_id normal action_id
  let (states1, msg, future) = make_message states state (message_id cmd) body
  (a', needs_sched, result) ← enqueue (with_message a p msg) p
  some (record {
    resource = a.resource;
    actor = a';
    states = if is_closed result then destroy states1 msg else states1;
    needs_sched = needs_sched;
    future = future;
  })
