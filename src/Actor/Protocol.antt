-- ===== src/Actor/Protocol.antt =====
-- header/actor-zeta/actor/cooperative_actor.hpp: `enqueue_impl`, `resume`, `park`, the destructor
-- and `leave_and_maybe_schedule` as steps of threads that share one actor, one atomic access at a
-- time; with the driver of scheduler/worker.hpp, which enqueues the actor again on `resume`.
-- The memory is sequentially consistent. A failed compare-exchange (also a spurious one) loads the
-- word again. The abort after 1000 failures and the time limit of the destructor end the process:
-- they are no steps. The mailbox is never closed while its actor lives, so `closed()` is false.
pub mod Steps
pub mod Tally
pub mod Writes
pub mod Invariant
pub mod SingleJob
pub mod Safety
mod Tests
use actor_zeta.Base.{
  ℕ, zero, suc, ◌+◌, ◌≡◌, Bool, true, false, not, ◌&&◌, ◌||◌, List, ◌∷◌, ◌++◌, if◌then◌else◌,
}
use actor_zeta.Actor.StateWord.{
  ActorState, idle, is_scheduled, is_running, is_destroying, set_scheduled, set_running,
  set_destroying, sender_count, add_sender, sub_sender, make_state,
}

-- What the protocol sees of the mailbox: blocked, or open with so many messages in the inbox and
-- in the two queues behind it.
pub data Box : Type 0 where
  blocked : Box
  opened : ℕ → Box

abbrev pub is_blocked : Box → Bool
is_blocked blocked = true
is_blocked (opened n) = false

-- `push_back`: the mailbox after it, and whether the reader was unblocked.
abbrev pub push_back : Box → Box
push_back blocked = opened 1
push_back (opened n) = opened (suc n)

-- `try_unblock`
abbrev pub unblock : Box → Box
unblock blocked = opened 0
unblock (opened n) = opened n

-- `scheduler::resume_result`, without `shutdown`, which no actor returns.
pub data Verdict : Type 0 where
  resume awaiting done : Verdict

-- The word, the mailbox, and the job nodes for this actor in the scheduler's queue.
pub record Shared : Type 0 where
  pub state : ActorState
  pub box : Box
  pub jobs : ℕ

-- Where a thread stands, with the variables that are live there.
pub data Pc : Type 0 where
  outside : Pc
  -- enqueue_impl
  entering : (current : ActorState) → Pc
  pushing : Pc
  pushed : (unblocked_us : Bool) → Pc
  leaving : (unblocked_us : Bool) (current : ActorState) → Pc
  -- the actor has to be put into the scheduler's queue: `needs_sched`, or a verdict `resume`
  owing : Pc
  -- a worker with a job node, before `resume`
  holding : Pc
  -- resume
  acquiring : (current : ActorState) → Pc
  started : Pc
  opening : Pc
  working : Pc
  parked : Pc
  checking : Pc
  finished : (result : Verdict) (keep_scheduled : Bool) → Pc
  releasing :
      (result : Verdict) (keep_scheduled scheduled_while_running : Bool) (current : ActorState) → Pc
  -- ~cooperative_actor
  publishing : (current : ActorState) → Pc
  draining : Pc
  drained : Pc
  finishing : (current : ActorState) → Pc
  destroyed : Pc

-- The value that `try_acquire_running` writes: where the actor runs already, and where not.
pub contend : ActorState → ActorState
contend current = set_scheduled current true

pub acquire : ActorState → ActorState
acquire current = set_scheduled (set_running current true) false

-- The value that `~resume_guard` writes.
pub release : ActorState → Bool → ActorState
release current keep_scheduled =
    let desired = set_running current false in
    set_scheduled desired (keep_scheduled || is_scheduled current)

-- `leave_and_maybe_schedule`: the value that it writes, and whether it owes an enqueue.
unfoldable pub claims : ActorState → Bool → Bool
claims current unblocked_us =
    unblocked_us && not (is_destroying current) && not (is_scheduled current)

unfoldable pub leave : ActorState → Bool → ActorState
unfolding claims
leave current unblocked_us =
    let desired = sub_sender current in
    if claims current unblocked_us then set_scheduled desired true else desired

unfoldable pub owes_enqueue : ActorState → Bool → Bool
unfolding claims
owes_enqueue current unblocked_us = claims current unblocked_us && not (is_running current)

-- Where a thread goes that owes the scheduler an enqueue, or owes it none.
abbrev pub owing_if : Bool → Pc
owing_if true = owing
owing_if false = outside

-- The end of `resume` and the switch of `worker::run`.
abbrev pub after_resume : Verdict → Bool → Pc
after_resume resume swr = owing
after_resume awaiting swr = owing_if swr
after_resume done swr = outside
