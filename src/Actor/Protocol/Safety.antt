-- ===== src/Actor/Protocol/Safety.antt =====
-- What holds in every reachable state of the protocol.
use actor_zeta.Base.{
  ℕ, zero, suc, ◌+◌, ◌≤◌, ◌≡◌, refl, ap, Bool, true, false, arith, List, ◌∷◌, ◌++◌, length,
}
use actor_zeta.Actor.StateWord.{ActorState, idle, is_running, is_destroying, sender_count}
use actor_zeta.Actor.StateWord.Laws.{parts, bit, flags_refine_parts, max_senders, sender_count_lem}
use actor_zeta.Actor.Protocol.{is_blocked, Pc, acquiring}
use actor_zeta.Actor.Protocol.Steps.{System, Step, pick, Reach, start, later, init, idle_threads}
use actor_zeta.Actor.Protocol.Tally.{
  Tally, Moved, tally, tally-Moved, total, registered, wakes, runs, pending, awaits, gives_up,
  faults, past_drain, dying, sees_scheduled, total-idle_threads, total-member,
}
use actor_zeta.Actor.Protocol.Invariant.{InvAt, Move-Inv}
use actor_zeta.Actor.Protocol.SingleJob.{Single, Move-Single}

length-idle_threads : (n : ℕ) → length (idle_threads n) ≡ n
length-idle_threads zero = refl
length-idle_threads (suc n) = ap suc (length-idle_threads n)

-- No count but that of the threads is above zero while all threads are outside.
pub record IsQuiet (t : Tally) : Type 0 where
  pub senders : t.senders ≡ 0
  pub wakers : t.wakers ≡ 0
  pub runners : t.runners ≡ 0
  pub pendings : t.pendings ≡ 0
  pub awaiters : t.awaiters ≡ 0
  pub quitters : t.quitters ≡ 0
  pub faulty : t.faulty ≡ 0
  pub past : t.past ≡ 0
  pub dyings : t.dyings ≡ 0
  pub seen : t.seen ≡ 0

idle-IsQuiet : (n : ℕ) → IsQuiet (tally (idle_threads n))
unfolding tally
idle-IsQuiet n = record {
  senders = total-idle_threads registered refl n;
  wakers = total-idle_threads wakes refl n;
  runners = total-idle_threads runs refl n;
  pendings = total-idle_threads pending refl n;
  awaiters = total-idle_threads awaits refl n;
  quitters = total-idle_threads gives_up refl n;
  faulty = total-idle_threads faults refl n;
  past = total-idle_threads past_drain refl n;
  dyings = total-idle_threads dying refl n;
  seen = total-idle_threads sees_scheduled refl n;
}

abbrev Holds : ℕ → System → Type 0
Holds n s = (length s.threads ≡ n) × InvAt s.shared (tally s.threads)

init-Holds : (n : ℕ) → Holds n (init n)
unfolding parts
init-Holds n = (length-idle_threads n, (omega arith, ground (arith, idle-IsQuiet n)))

init-Single : (n : ℕ) → Single (parts idle) 0 (tally (idle_threads n))
unfolding parts
init-Single n = ground (arith, idle-IsQuiet n)

tally-threads : (ps : List Pc) → (tally ps).threads ≡ length ps
unfolding tally
tally-threads ps = refl

moved :
    {a b : List Pc} (before after : List Pc) {p q : Pc}
    → a ≡ before ++ (p ∷ after)
    → b ≡ before ++ (q ∷ after)
    → Moved p q (tally a) (tally b)
moved before after {p} {q} ea eb = rw (ea, eb) (tally-Moved before after p q)

Step-Holds :
    {external : Bool} {n : ℕ} {s t : System}
    → n ≤ max_senders
    → Step external s t
    → Holds n s
    → Holds n t
Step-Holds {s} {t} few (pick before after {p} {q} es et mv) (len, i) =
    let m = moved before after es et in
    (
      omega (arith, tally-threads s.threads, tally-threads t.threads, m.threads),
      Move-Inv (omega (arith, tally-threads s.threads)) mv m i,
    )

Reach-Holds :
    {external : Bool} {n : ℕ} {s : System} → n ≤ max_senders → Reach external n s → Holds n s
Reach-Holds {n} few start = init-Holds n
Reach-Holds few (later r st) = Step-Holds few st (Reach-Holds few r)

Reach-Single :
    {n : ℕ} {s : System}
    → n ≤ max_senders
    → Reach false n s
    → Single (parts s.shared.state) s.shared.jobs (tally s.threads)
Reach-Single {n} few start = init-Single n
Reach-Single few (later {s} r (pick before after es et mv)) =
    let h = Reach-Holds few r in
    Move-Single (omega (arith, tally-threads s.threads, h.0)) mv (moved before after es et) h.1
      (Reach-Single few r)

module _ {external : Bool} {n : ℕ} {s : System} (few : n ≤ max_senders)
    (r : Reach external n s) where
  -- For at most 2^29 - 1 threads, in every reachable state in which the actor lives and its
  -- mailbox is not blocked, a job node is queued, or a thread runs the actor, is about to run or
  -- enqueue it, or has unblocked it and not yet left enqueue_impl: no wake-up is lost.
  pub open_mailbox_served :
      is_destroying s.shared.state ≡ false
      → is_blocked s.shared.box ≡ false
      → 1 ≤ s.shared.jobs + total runs s.threads + total pending s.threads + total wakes s.threads
  unfolding tally
  open_mailbox_served alive open_box =
      let (fits, inv) = (Reach-Holds few r).1 in
      ground (arith, inv, flags_refine_parts s.shared.state true fits)

  -- For at most 2^29 - 1 threads, in every reachable state at most one thread runs the actor, the
  -- word has `running` exactly while one does, and it counts exactly the registered senders.
  pub word_tracks_threads :
      (bit (is_running s.shared.state) ≡ total runs s.threads)
      × (total runs s.threads ≤ 1)
      × (sender_count s.shared.state ≡ total registered s.threads)
  unfolding tally
  word_tracks_threads =
      let (fits, inv) = (Reach-Holds few r).1 in
      ground
        (arith, inv, flags_refine_parts s.shared.state true fits, sender_count_lem s.shared.state)

  -- For at most 2^29 - 1 threads, in every reachable state in which a destructor has waited out
  -- the activity, no sender is registered and `destroying` is set.
  pub drained_no_senders :
      1 ≤ total past_drain s.threads
      → (total registered s.threads ≡ 0) × (is_destroying s.shared.state ≡ true)
  unfolding tally
  drained_no_senders past =
      let (fits, inv) = (Reach-Holds few r).1 in
      ground (arith, inv, flags_refine_parts s.shared.state true fits)

module _ {n : ℕ} {s : System} (few : n ≤ max_senders) (r : Reach false n s) where
  -- Where only workers call resume, for at most 2^29 - 1 threads, at most one job node stands for
  -- the actor, in the queue, with a worker, or owed to the queue, and none while the actor runs.
  pub one_job : s.shared.jobs + total pending s.threads + total runs s.threads ≤ 1
  unfolding tally
  one_job = (Reach-Single few r).one

  -- Where only workers call resume, for at most 2^29 - 1 threads, a worker about to take `running`
  -- finds it free.
  pub workers_never_contend :
      (before after : List Pc) (c : ActorState)
      → s.threads ≡ before ++ (acquiring c ∷ after)
      → is_running s.shared.state ≡ false
  unfolding tally
  workers_never_contend before after c e =
      let (fits, inv) = (Reach-Holds few r).1 in
      let single = Reach-Single few r in
      let mine : 1 ≤ total pending s.threads =
        rw e (total-member pending before after (acquiring c)) in
      ground (arith, inv, single, mine, flags_refine_parts s.shared.state true fits)
