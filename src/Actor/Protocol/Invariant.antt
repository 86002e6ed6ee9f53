-- ===== src/Actor/Protocol/Invariant.antt =====
-- The invariant of the protocol, true at the start and kept by every step.
use actor_zeta.Base.{ℕ, ◌+◌, ◌≤◌, ◌<◌, ◌≡◌, Bool, true, false, arith}
use actor_zeta.Actor.StateWord.{ActorState, u32_mod}
use actor_zeta.Actor.StateWord.Laws.{
  Parts, parts, bit, flags_refine_parts, max_senders, add_sender_lem, sender_count_lem,
}
use actor_zeta.Actor.Protocol.{Box, is_blocked, Shared, Pc}
use actor_zeta.Actor.Protocol.Steps.{
  Move, register, leave_win, dequeue, acquire_lose, acquire_win, see_destroying, see_blocked,
  stop_destroying, handle, block, block_fails, still_blocked, unblocked, race_empty, race_message,
  release_win, destroy, publish_retry, publish, published, drain, finish,
}
use actor_zeta.Actor.Protocol.Tally.{Tally, Moved}
use actor_zeta.Actor.Protocol.Writes.{
  contend_lem, acquire_lem, release_lem, owes_enqueue_lem, leave_lem, publish_lem, finish_lem,
}

-- Over the parts of the word, the mailbox, the job nodes and the counts of the threads.
pub record Inv (w : Parts) (box : Box) (jobs : ℕ) (t : Tally) : Type 0 where
  -- the word counts the senders, and has `running` exactly while one thread holds it
  pub counted : w.senders ≡ t.senders
  pub exclusive : bit w.running ≡ t.runners
  -- `scheduled` without `running` is backed by somebody who will run the actor
  pub backed : w.destroying ≡ false → bit w.scheduled ≤ bit w.running + jobs + t.pendings
  -- so is a mailbox that is not blocked, or its wake-up is on the way
  pub woken :
      w.destroying ≡ false
      → is_blocked box ≡ false
      → 1 ≤ bit w.running + jobs + t.pendings + t.wakers
  pub parking :
      w.destroying ≡ false → is_blocked box ≡ false → t.awaiters ≤ bit w.scheduled + t.wakers
  -- the verdict `done` is for a dying actor, and no sender is left behind the destructor's wait
  pub quitting : w.destroying ≡ false → t.quitters ≡ 0
  pub sound : t.faulty ≡ 0
  pub doomed : w.destroying ≡ false → t.dyings ≡ 0
  pub emptied : 1 ≤ t.past → (w.destroying ≡ true) × (w.senders ≡ 0)

abbrev pub InvAt : Shared → Tally → Type 0
InvAt s t = (s.state < u32_mod) × Inv (parts s.state) s.box s.jobs t

pub fits_of : {s : Shared} {t : Tally} {c : ActorState} → s.state ≡ c → InvAt s t → c < u32_mod
fits_of e i = rw (← e) i.0

module _ {external : Bool} {s : Shared} {t t' : Tally} (few : t.threads ≤ max_senders) where
  pub Move-Inv :
      {s' : Shared} {p q : Pc} → Move external s p s' q → Moved p q t t' → InvAt s t → InvAt s' t'
  Move-Inv (register {c} x e) m i =
      let fits = fits_of e i in
      ground (arith, flags_refine_parts c true fits, add_sender_lem c fits, sender_count_lem c)
  Move-Inv (leave_win {u} {c} e) m i =
      let fits = fits_of e i in
      ground (arith, leave_lem c fits u, owes_enqueue_lem c fits u, sender_count_lem c)
  Move-Inv (acquire_lose {c} r e) m i =
      let fits = fits_of e i in ground (arith, flags_refine_parts c true fits, contend_lem c fits)
  Move-Inv (acquire_win {c} r e) m i =
      let fits = fits_of e i in ground (arith, flags_refine_parts c true fits, acquire_lem c fits)
  Move-Inv (see_destroying e) m i = ground (arith, flags_refine_parts s.state true i.0)
  Move-Inv (stop_destroying e) m i = ground (arith, flags_refine_parts s.state true i.0)
  Move-Inv (release_win {v} {k} {w} {c} e) m i =
      let fits = fits_of e i in ground (arith, flags_refine_parts c true fits, release_lem c fits k)
  Move-Inv (publish {c} d e) m i =
      let fits = fits_of e i in ground (arith, flags_refine_parts c true fits, publish_lem c fits)
  Move-Inv (drain r e) m i =
      ground (arith, flags_refine_parts s.state true i.0, sender_count_lem s.state)
  Move-Inv destroy m i = ground (arith, flags_refine_parts s.state true i.0)
  Move-Inv (publish_retry x) m i = ground (arith, flags_refine_parts s.state true i.0)
  Move-Inv (published x) m i = ground arith
  Move-Inv (see_blocked x) m i = ground arith
  Move-Inv (handle x) m i = ground arith
  Move-Inv (block x) m i = ground arith
  Move-Inv (block_fails x) m i = ground arith
  Move-Inv (still_blocked x) m i = ground arith
  Move-Inv (unblocked x) m i = ground arith
  Move-Inv (race_empty x) m i = ground arith
  Move-Inv (race_message x) m i = ground arith
  Move-Inv (dequeue x) m i = ground arith
  Move-Inv (finish {c} r z e) m i =
      let fits = fits_of e i in
      ground (arith, flags_refine_parts c true fits, finish_lem, sender_count_lem c)
  Move-Inv mv m i = ground arith
