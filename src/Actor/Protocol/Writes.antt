-- ===== src/Actor/Protocol/Writes.antt =====
-- What the compare-exchanges of the protocol write, part by part of the word.
use actor_zeta.Base.{◌-◌, ◌<◌, ◌≡◌, Bool, true, false, not, ◌&&◌, ◌||◌, arith, ◌∙◌, ap}
use actor_zeta.Actor.StateWord.{
  ActorState, u32_mod, is_scheduled, set_running, set_destroying, sender_count, sub_sender,
  make_state,
}
use actor_zeta.Actor.StateWord.Laws.{
  Parts, parts, flags_refine_parts, sub_sender_lem, parts-make_state, make_state-fits,
}
use actor_zeta.Actor.Protocol.{contend, acquire, release, claims, leave, owes_enqueue}

module _ (s : ActorState) (fits : s < u32_mod) where
  pub contend_lem :
      (parts (contend s) ≡ record (parts s) { scheduled = true }) × (contend s < u32_mod)
  unfolding contend
  contend_lem = ((flags_refine_parts s true fits).1.0, (flags_refine_parts s true fits).2.0)

  pub acquire_lem :
      (parts (acquire s) ≡ record (parts s) { running = true; scheduled = false })
      × (acquire s < u32_mod)
  unfolding acquire
  acquire_lem =
      let run = flags_refine_parts s true fits in
      let sched = flags_refine_parts (set_running s true) false run.2.1 in
      (sched.1.0 ∙ ap (λ (p : Parts). record p { scheduled = false }) run.1.1, sched.2.0)

  pub release_lem :
      (keep : Bool)
      → (parts (release s keep)
          ≡ record (parts s) { running = false; scheduled = keep || (parts s).scheduled })
        × (release s keep < u32_mod)
  unfolding release
  release_lem keep =
      let run = flags_refine_parts s false fits in
      let sched = flags_refine_parts (set_running s false) (keep || is_scheduled s) run.2.1 in
      (sched.1.0 ∙ (λ i. record (run.1.1 i) { scheduled = keep || run.0.0 i }), sched.2.0)

  -- A sender that leaves claims `scheduled` if it unblocked the mailbox and the actor lives.
  pub claims_lem :
      (u : Bool) → claims s u ≡ (u && not (parts s).destroying && not (parts s).scheduled)
  unfolding claims
  claims_lem u =
      let reads = (flags_refine_parts s u fits).0 in λ i. u && not (reads.2 i) && not (reads.0 i)

  pub owes_enqueue_lem :
      (u : Bool)
      → owes_enqueue s u
        ≡ (u && not (parts s).destroying && not (parts s).scheduled && not (parts s).running)
  unfolding owes_enqueue
  owes_enqueue_lem u =
      let reads = (flags_refine_parts s u fits).0 in ground (arith, claims_lem u, reads.1)

  pub leave_lem :
      (u : Bool)
      → 0 < sender_count s
      → (parts (leave s u) ≡ record (parts s) {
        senders = (parts s).senders - 1;
        scheduled = (parts s).scheduled || u && not (parts s).destroying;
      })
        × (leave s u < u32_mod)
  unfolding leave
  leave_lem u registered =
      let sub = sub_sender_lem s fits registered in
      let flags = flags_refine_parts (sub_sender s) true sub.1 in
      let claim = claims_lem u in
      let set = flags.1.0 in
      let within = flags.2.0 in (ground (arith, sub, set, claim), ground (arith, sub, within))

  pub publish_lem :
      (parts (set_destroying s) ≡ record (parts s) { destroying = true })
      × (set_destroying s < u32_mod)
  publish_lem = ((flags_refine_parts s true fits).1.2, (flags_refine_parts s true fits).2.2)

-- The terminal word.
pub finish_lem :
    (parts (make_state false false true)
      ≡ record { scheduled = false; running = false; destroying = true; senders = 0 })
    × (make_state false false true < u32_mod)
finish_lem = (parts-make_state false false true, make_state-fits false false true)
