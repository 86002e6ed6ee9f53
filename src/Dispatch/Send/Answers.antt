-- ===== src/Dispatch/Send/Answers.antt =====
-- What a sender gets from an actor that takes the message, and from one that refuses it.
use actor_zeta.Base.{
  ℕ, ◌<◌, ◌≡◌, ◌≢◌, refl, ◌⊎◌, inl, inr, Bool-cases, ap, subst, ◌∙◌, Bool, true, false, not, ◌&&◌,
  List, some, arith, ◌==◌, if◌then◌else◌,
}
use actor_zeta.MessageId.{normal, make_message_id}
use actor_zeta.Actor.StateWord.{ActorState, is_destroying, add_sender, u32_mod, sender_count}
use actor_zeta.Actor.StateWord.Laws.{parts, max_senders, add_sender_lem, flags_refine_parts}
use actor_zeta.Actor.Protocol.{leave, owes_enqueue}
use actor_zeta.Actor.Protocol.Writes.{owes_enqueue_lem}
use actor_zeta.Queue.Links.{Ptr, null, Off}
use actor_zeta.Queue.LifoInbox.{EnqueueResult, queue_closed}
use actor_zeta.Queue.LifoInbox.Views.{
  View, closed_view, blocked_view, open_view, IsNode, pushed_view, push_result,
}
use actor_zeta.Queue.LifoInbox.Reader.{taken, is_blocked_view, is_closed_view}
use actor_zeta.Queue.Frames.{nodes}
use actor_zeta.Mailbox.{Mailbox, inbox_of}
use actor_zeta.Mailbox.Fetch.{Contents}
use actor_zeta.Mailbox.Push.{push_back-Contents}
use actor_zeta.Rtt.{Rtt}
use actor_zeta.Future.SharedState.{operation_canceled}
use actor_zeta.Future.Promise.{failed, error}
use actor_zeta.Future.Promise.Outcomes.{IsPending}
use actor_zeta.Message.{States, Message, message_id, make_message, destroy}
use actor_zeta.Message.Slot.{make_message-future}
use actor_zeta.Dispatch.Send.{
  Actor, is_closed, is_unblocked, enqueue, with_message, Sent, dispatch_method,
}

-- A message whose node is new to the mailbox.
pub record IsNew (a : Actor) (us ns : List Ptr) (v : View) (p : Ptr) : Type 0 where
  pub node : IsNode (inbox_of a.box) p
  pub off_urgent : Off p (nodes a.box.urgent us)
  pub off_normal : Off p (nodes a.box.normal ns)
  pub off_inbox : Off p (taken v)

enqueue_open :
    (a : Actor) (us ns : List Ptr) (v : View) (p : Ptr)
    → Contents a.box us ns v
    → IsNew a us ns v p
    → is_destroying a.word ≡ false
    → (box : Mailbox) × (enqueue a p
        ≡ some (
          record a { word = leave (add_sender a.word) (is_unblocked (push_result v)); box = box },
          owes_enqueue (add_sender a.word) (is_unblocked (push_result v)),
          push_result v,
        ))
      × Contents box us ns (pushed_view p v)
      × (box.command ≡ a.box.command)
unfolding enqueue
enqueue_open a us ns v p c new alive =
    let (box, run, after, same) =
      push_back-Contents a.box us ns v p c new.node new.off_urgent new.off_normal new.off_inbox in
    (box, rw (enqueue, alive, run) refl, after, same)

push_result-closed : (v : View) → is_closed (push_result v) ≡ is_closed_view v
push_result-closed closed_view = refl
push_result-closed blocked_view = refl
push_result-closed (open_view xs) = refl

closed_push :
    (p : Ptr) (v : View)
    → is_closed_view v ≡ true
    → (pushed_view p v ≡ v)
      × (is_closed (push_result v) ≡ true)
      × (is_unblocked (push_result v) ≡ false)
closed_push p closed_view h = (refl, refl, refl)
closed_push p blocked_view h = absurd (ground arith)
closed_push p (open_view xs) h = absurd (ground arith)

push_result-unblocked : (v : View) → is_unblocked (push_result v) ≡ is_blocked_view v
push_result-unblocked closed_view = refl
push_result-unblocked blocked_view = refl
push_result-unblocked (open_view xs) = refl

enqueue_destroying :
    (a : Actor) (p : Ptr)
    → is_destroying a.word ≡ true
    → enqueue a p ≡ some (a, false, queue_closed)
unfolding enqueue
enqueue_destroying a p dying = rw (enqueue, dying) refl

-- The message itself changes nothing but the id at its address.
with_message-Contents :
    (a : Actor) (us ns : List Ptr) (v : View) (p : Ptr) (msg : Message)
    → Contents a.box us ns v
    → Contents (with_message a p msg).box us ns v
with_message-Contents a us ns v p msg c = record { memory = c.memory; shown = c.shown }

with_message-IsNew :
    (a : Actor) (us ns : List Ptr) (v : View) (p : Ptr) (msg : Message)
    → IsNew a us ns v p
    → IsNew (with_message a p msg) us ns v p
with_message-IsNew a us ns v p msg new = record {
  node = new.node;
  off_urgent = new.off_urgent;
  off_normal = new.off_normal;
  off_inbox = new.off_inbox;
}

owes_lem :
    (word : ActorState) (u : Bool)
    → word < u32_mod
    → sender_count word < max_senders
    → is_destroying word ≡ false
    → owes_enqueue (add_sender word) u
      ≡ (u && not (parts word).scheduled && not (parts word).running)
owes_lem word u fits few alive =
    let entered = add_sender_lem word fits few in
    let reads = (flags_refine_parts word u fits).0 in
    let owes = owes_enqueue_lem (add_sender word) entered.1 u in
    ground (arith, entered.0, reads.2, owes)

module _ {V X : Type 0} (a : Actor) (states : States V X) (us ns : List Ptr) (v : View)
    (contents : Contents a.box us ns v) (action_id : ℕ) (body : Rtt) (state p : Ptr)
    (set : state ≢ null) (new : IsNew a us ns v p) where
  made : States V X × Message × Ptr
  made = make_message states state (message_id (make_message_id normal action_id)) body

  -- What is left when the actor has answered.
  abbrev outcome : Actor → Bool → EnqueueResult → Sent V X
  outcome a' needs_sched result = record {
    resource = a.resource;
    actor = a';
    states = if is_closed result then destroy made.0 made.1 else made.0;
    needs_sched = needs_sched;
    future = made.2;
  }

  dispatch_run :
      (a' : Actor) (needs_sched : Bool) (result : EnqueueResult)
      → enqueue (with_message a p made.1) p ≡ some (a', needs_sched, result)
      → dispatch_method a states action_id body state p ≡ some (outcome a' needs_sched result)
  unfolding dispatch_method made
  dispatch_run a' needs_sched result e = rw (dispatch_method, e) refl

  -- A message sent to an actor that lives, with room for one more sender, and whose mailbox is not
  -- closed is pushed on what its inbox shows, under the id of the method; the caller gets a future
  -- with a pending promise, and has to schedule the actor exactly if the mailbox was blocked and
  -- the actor neither runs nor is scheduled.
  pub send_delivers :
      a.word < u32_mod
      → sender_count a.word < max_senders
      → is_destroying a.word ≡ false
      → is_closed_view v ≡ false
      → (r : Sent V X) × (dispatch_method a states action_id body state p ≡ some r)
        × Contents r.actor.box us ns (pushed_view p v)
        × (r.actor.box.command p ≡ make_message_id normal action_id)
        × (r.future ≡ state)
        × IsPending (r.states r.future)
        × (r.needs_sched
            ≡ (is_blocked_view v && not (parts a.word).scheduled && not (parts a.word).running))
  unfolding made make_message
  send_delivers fits few alive opened =
      let b = with_message a p made.1 in
      let c = with_message-Contents a us ns v p made.1 contents in
      let n = with_message-IsNew a us ns v p made.1 new in
      let (box, run, after, same) = enqueue_open b us ns v p c n alive in
      let kept : is_closed (push_result v) ≡ false = push_result-closed v ∙ opened in
      let unblocked = is_unblocked (push_result v) in
      let name = message_id (make_message_id normal action_id) in
      let facts = make_message-future states state name body set in
      let here : (p == p) ≡ true = ground arith in
      let a' : Actor = record a { word = leave (add_sender a.word) unblocked; box = box } in
      let owes = owes_enqueue (add_sender a.word) unblocked in
      (
        outcome a' owes (push_result v),
        dispatch_run a' owes (push_result v) run,
        after,
        ap (λ (f : Ptr → ℕ). f p) same ∙ rw here refl,
        refl,
        rw kept facts.4,
        owes_lem a.word unblocked fits few alive
            ∙ ap (λ (u : Bool). u && not (parts a.word).scheduled && not (parts a.word).running)
                (push_result-unblocked v),
      )

  -- What a refusal leaves.
  abbrev Refused : Type 0
  Refused =
      (r : Sent V X) × (dispatch_method a states action_id body state p ≡ some r)
      × Contents r.actor.box us ns v
      × (failed (some (r.states r.future)) ≡ true)
      × (error (some (r.states r.future)) ≡ operation_canceled)
      × (r.needs_sched ≡ false)

  refused_destroying : is_destroying a.word ≡ true → Refused
  unfolding made make_message
  refused_destroying dying =
      let b = with_message a p made.1 in
      let name = message_id (make_message_id normal action_id) in
      let facts = make_message-future states state name body set in
      (
        outcome b false queue_closed,
        dispatch_run b false queue_closed (enqueue_destroying b p dying),
        with_message-Contents a us ns v p made.1 contents,
        facts.5,
        facts.6,
        refl,
      )

  refused_closed : is_destroying a.word ≡ false → is_closed_view v ≡ true → Refused
  unfolding made make_message owes_enqueue
  refused_closed alive shut =
      let b = with_message a p made.1 in
      let c = with_message-Contents a us ns v p made.1 contents in
      let n = with_message-IsNew a us ns v p made.1 new in
      let (box, run, after, same) = enqueue_open b us ns v p c n alive in
      let (same_view, closed, quiet) = closed_push p v shut in
      let unblocked = is_unblocked (push_result v) in
      let name = message_id (make_message_id normal action_id) in
      let facts = make_message-future states state name body set in
      let a' : Actor = record a { word = leave (add_sender a.word) unblocked; box = box } in
      let owes = owes_enqueue (add_sender a.word) unblocked in
      (
        outcome a' owes (push_result v),
        dispatch_run a' owes (push_result v) run,
        subst (λ (w : View). Contents box us ns w) same_view after,
        rw closed facts.5,
        rw closed facts.6,
        rw quiet refl,
      )

  -- A message that is refused, by an actor that is being destroyed or by a closed mailbox, is not
  -- pushed; the caller's future is failed with operation_canceled, and nobody is to be scheduled.
  pub send_refused :
      (is_destroying a.word ≡ true) ⊎ (is_closed_view v ≡ true)
      → (r : Sent V X) × (dispatch_method a states action_id body state p ≡ some r)
        × Contents r.actor.box us ns v
        × (failed (some (r.states r.future)) ≡ true)
        × (error (some (r.states r.future)) ≡ operation_canceled)
        × (r.needs_sched ≡ false)
  send_refused (inl dying) = refused_destroying dying
  send_refused (inr shut) = elim (Bool-cases (is_destroying a.word)) [
    | inl dying ↦ refused_destroying dying
    | inr alive ↦ refused_closed alive shut
  ]
