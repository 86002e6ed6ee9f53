-- ===== src/Message/Slot.antt =====
-- What a message leaves on the state of its slot, and what the caller's future sees of it.
use actor_zeta.Base.{suc, ◌≡◌, ◌≢◌, refl, true, false, some, arith, ◌==◌, if◌then◌else◌}
use actor_zeta.Rtt.{Rtt}
use actor_zeta.Queue.Links.{Ptr, null}
use actor_zeta.Future.SharedState.{operation_canceled, release_future}
use actor_zeta.Future.Promise.{refused, failed, future_is_ready, error, take_ready}
use actor_zeta.Future.Promise.Outcomes.{IsPending}
use actor_zeta.Message.{
  States, Message, Name, has_result_slot, get_result_promise, transfer_ownership, to_message_id,
  cleanup, destroy, make_message,
}

-- A message that settles the promise at `p` when it dies.
pub record Owes (m : Message) (p : Ptr) : Type 0 where
  pub slot : m.result_slot ≡ p
  pub cleans : m.cleanup_fn ≡ true
  pub kept : m.ownership_transferred ≡ false
  pub there : p ≢ null

module _ {V X : Type 0} (states : States V X) where
  -- The states after the death of a message that owes, of one that was moved from, and of one whose
  -- slot a dispatch has taken over.
  pub destroy-owing : (m : Message) (p : Ptr) → Owes m p → destroy states m ≡ cleanup states p
  unfolding destroy
  destroy-owing m p o =
      let set : (m.result_slot == null) ≡ false = ground arith in
      rw (o.cleans, o.kept, set, o.slot) refl

  -- A message that dies with a pending promise makes the future ready and failed with
  -- operation_canceled and refuses an extraction; the state is deallocated once, by this death if
  -- the future is gone and otherwise by the release of the future; and no other state changes.
  pub destroy-cancels :
      (m : Message) (p : Ptr)
      → Owes m p
      → IsPending (states p)
      → (q : Ptr)
      → (future_is_ready (some (destroy states m p)) ≡ true)
        × (failed (some (destroy states m p)) ≡ true)
        × (error (some (destroy states m p)) ≡ operation_canceled)
        × ((take_ready (destroy states m p)).0 ≡ refused)
        × ((if (states p).flags.future_released
              then destroy states m p
              else release_future (destroy states m p)).deallocated
            ≡ suc (states p).deallocated)
        × (destroy states m q ≡ (if q == p then destroy states m p else states q))
  unfolding cleanup future_is_ready failed error take_ready release_future
  destroy-cancels m p o pending q =
      let same : (p == p) ≡ true = ground arith in
      rw (destroy-owing m p o, same)
        (ground arith, ground arith, ground arith, ground arith, ground arith, ground arith)

  -- A message that make_message returns has a slot with the state of the future it is paired with,
  -- on which the promise has done nothing; get_result_promise points to it; and if the message dies
  -- undispatched, the future fails with operation_canceled, while after transfer_ownership the
  -- death changes nothing.
  pub make_message-future :
      (p : Ptr) (name : Name) (body : Rtt)
      → p ≢ null
      → let (after, msg, future) = make_message states p name body in
        (future ≡ p)
        × (has_result_slot msg ≡ true)
        × (get_result_promise msg ≡ future)
        × (msg.command ≡ to_message_id name)
        × IsPending (after future)
        × (failed (some (destroy after msg future)) ≡ true)
        × (error (some (destroy after msg future)) ≡ operation_canceled)
        × (destroy after (transfer_ownership msg) ≡ after)
  unfolding make_message has_result_slot get_result_promise transfer_ownership destroy cleanup
      failed error
  make_message-future p name body there =
      let set : (p == null) ≡ false = ground arith in
      rw set (refl, refl, refl, refl, ground arith, ground arith, ground arith, refl)
