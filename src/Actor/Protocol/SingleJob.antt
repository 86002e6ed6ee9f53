-- ===== src/Actor/Protocol/SingleJob.antt =====
-- Job nodes, where only the workers of the scheduler call `resume`.
use actor_zeta.Base.{ℕ, ◌+◌, ◌≤◌, ◌≡◌, true, false, arith}
use actor_zeta.Actor.StateWord.Laws.{
  Parts, parts, bit, flags_refine_parts, max_senders, add_sender_lem, sender_count_lem,
}
use actor_zeta.Actor.Protocol.{Shared, Pc}
use actor_zeta.Actor.Protocol.Steps.{
  Move, register, leave_win, dequeue, drive, acquire_lose, acquire_win, release_load, release_retry,
  release_win, publish, finish,
}
use actor_zeta.Actor.Protocol.Tally.{Tally, Moved}
use actor_zeta.Actor.Protocol.Writes.{
  contend_lem, acquire_lem, release_lem, owes_enqueue_lem, leave_lem, publish_lem, finish_lem,
}
use actor_zeta.Actor.Protocol.Invariant.{InvAt, fits_of}

pub record Single (w : Parts) (jobs : ℕ) (t : Tally) : Type 0 where
  -- one node at most: queued, carried by a worker, owed, or turned into `running`
  pub one : jobs + t.pendings + t.runners ≤ 1
  -- while the actor lives, `scheduled` without `running` is that node
  pub exact : w.destroying ≡ false → w.running ≡ false → bit w.scheduled ≡ jobs + t.pendings
  pub remembered : t.seen ≤ bit w.scheduled

module _ {s : Shared} {t t' : Tally} (few : t.threads ≤ max_senders) where
  pub Move-Single :
      {s' : Shared} {p q : Pc}
      → Move false s p s' q
      → Moved p q t t'
      → InvAt s t
      → Single (parts s.state) s.jobs t
      → Single (parts s'.state) s'.jobs t'
  Move-Single (register {c} x e) m i j =
      let fits = fits_of e i in
      ground (arith, flags_refine_parts c true fits, add_sender_lem c fits, sender_count_lem c)
  Move-Single (leave_win {u} {c} e) m i j =
      let fits = fits_of e i in
      ground (arith, leave_lem c fits u, owes_enqueue_lem c fits u, sender_count_lem c)
  Move-Single (acquire_lose {c} r e) m i j =
      let fits = fits_of e i in ground (arith, flags_refine_parts c true fits, contend_lem c fits)
  Move-Single (acquire_win {c} r e) m i j =
      let fits = fits_of e i in ground (arith, flags_refine_parts c true fits, acquire_lem c fits)
  Move-Single (release_win {v} {k} {w} {c} e) m i j =
      let fits = fits_of e i in ground (arith, flags_refine_parts c true fits, release_lem c fits k)
  Move-Single (publish {c} d e) m i j =
      let fits = fits_of e i in ground (arith, flags_refine_parts c true fits, publish_lem c fits)
  Move-Single (finish {c} r z e) m i j =
      let fits = fits_of e i in
      ground (arith, flags_refine_parts c true fits, finish_lem, sender_count_lem c)
  Move-Single release_load m i j = ground (arith, flags_refine_parts s.state true i.0)
  Move-Single release_retry m i j = ground (arith, flags_refine_parts s.state true i.0)
  Move-Single (drive e) m i j = cc
  Move-Single (dequeue x) m i j = ground arith
  Move-Single mv m i j = ground arith
