-- ===== src/Actor/Protocol/Tally.antt =====
-- How many threads stand where: the counts in which the invariant of the protocol is stated.
use actor_zeta.Base.{
  ℕ, zero, suc, ◌+◌, ◌≤◌, ◌≡◌, refl, Bool, not, ◌&&◌, List, [], ◌∷◌, ◌++◌, length, arith,
}
use actor_zeta.Actor.StateWord.{is_scheduled, is_destroying}
use actor_zeta.Actor.StateWord.Laws.{bit}
use actor_zeta.Actor.Protocol.{
  Verdict, Pc, outside, pushing, pushed, leaving, owing, holding, acquiring, started, opening,
  working, parked, checking, finished, releasing, publishing, draining, drained, finishing,
  destroyed,
}
use actor_zeta.Actor.Protocol.Steps.{idle_threads}

-- Registered as a sender in the word.
abbrev pub registered : Pc → ℕ
registered pushing = 1
registered (pushed u) = 1
registered (leaving u c) = 1
registered _ = 0

-- A sender that unblocked the mailbox and has not yet left.
abbrev pub wakes : Pc → ℕ
wakes (pushed u) = bit u
wakes (leaving u c) = bit u
wakes _ = 0

-- Holds `running`.
abbrev pub runs : Pc → ℕ
runs started = 1
runs opening = 1
runs working = 1
runs parked = 1
runs checking = 1
runs (finished v k) = 1
runs (releasing v k w c) = 1
runs _ = 0

-- Is about to acquire `running`, carries a job node, or owes one to the scheduler.
abbrev pub pending : Pc → ℕ
pending owing = 1
pending holding = 1
pending (acquiring c) = 1
pending _ = 0

abbrev pub awaits_verdict : Verdict → ℕ
awaits_verdict Verdict.awaiting = 1
awaits_verdict _ = 0

abbrev pub done_verdict : Verdict → ℕ
done_verdict Verdict.done = 1
done_verdict _ = 0

-- On the way to the verdict `awaiting`.
abbrev pub awaits : Pc → ℕ
awaits parked = 1
awaits checking = 1
awaits (finished v k) = awaits_verdict v
awaits (releasing v k w c) = awaits_verdict v
awaits _ = 0

-- On the way to the verdict `done`.
abbrev pub gives_up : Pc → ℕ
gives_up (finished v k) = done_verdict v
gives_up (releasing v k w c) = done_verdict v
gives_up _ = 0

-- `keep_scheduled` that does not fit the verdict.
abbrev pub misfit : Verdict → Bool → ℕ
misfit Verdict.resume k = bit (not k)
misfit _ k = bit k

-- Locals that cannot occur: such a verdict, or a `scheduled` bit that `~resume_guard` has
-- overlooked.
abbrev pub faults : Pc → ℕ
faults (finished v k) = misfit v k
faults (releasing v k w c) = misfit v k + bit (is_scheduled c && not w)
faults _ = 0

-- In `~resume_guard`, having seen `scheduled` set.
abbrev pub sees_scheduled : Pc → ℕ
sees_scheduled (releasing v k w c) = bit w
sees_scheduled _ = 0

-- In the destructor, past the wait for activity to drain.
abbrev pub past_drain : Pc → ℕ
past_drain drained = 1
past_drain (finishing c) = 1
past_drain destroyed = 1
past_drain _ = 0

-- In the destructor, and has seen `destroying` set.
abbrev pub dying : Pc → ℕ
dying (publishing c) = bit (is_destroying c)
dying draining = 1
dying drained = 1
dying (finishing c) = 1
dying destroyed = 1
dying _ = 0

unfoldable pub total : (Pc → ℕ) → List Pc → ℕ
total w [] = 0
total w (p ∷ ps) = w p + total w ps

total-append : (w : Pc → ℕ) (xs ys : List Pc) → total w (xs ++ ys) ≡ total w xs + total w ys
unfolding total
total-append w [] ys = omega arith
total-append w (x ∷ xs) ys = omega (arith, total-append w xs ys)

-- A move of one thread changes a count by that thread's share.
pub total-move :
    (w : Pc → ℕ) (xs ys : List Pc) (p q : Pc)
    → total w (xs ++ (q ∷ ys)) + w p ≡ total w (xs ++ (p ∷ ys)) + w q
unfolding total
total-move w xs ys p q = omega (arith, total-append w xs (p ∷ ys), total-append w xs (q ∷ ys))

pub total-le-length : (w : Pc → ℕ) → ((p : Pc) → w p ≤ 1) → (ps : List Pc) → total w ps ≤ length ps
unfolding total
total-le-length w small [] = omega arith
total-le-length w small (p ∷ ps) = omega (arith, small p, total-le-length w small ps)

pub total-member : (w : Pc → ℕ) (xs ys : List Pc) (p : Pc) → w p ≤ total w (xs ++ (p ∷ ys))
unfolding total
total-member w xs ys p = omega (arith, total-append w xs (p ∷ ys))

pub total-idle_threads : (w : Pc → ℕ) → w outside ≡ 0 → (n : ℕ) → total w (idle_threads n) ≡ 0
unfolding total
total-idle_threads w h zero = refl
total-idle_threads w h (suc n) = omega (arith, h, total-idle_threads w h n)

pub length-move :
    {A : Type 0} (xs ys : List A) (p q : A) → length (xs ++ (q ∷ ys)) ≡ length (xs ++ (p ∷ ys))
length-move [] ys p q = refl
length-move (x ∷ xs) ys p q = omega (arith, length-move xs ys p q)

-- The counts.
pub record Tally : Type 0 where
  pub threads : ℕ
  pub senders : ℕ
  pub wakers : ℕ
  pub runners : ℕ
  pub pendings : ℕ
  pub awaiters : ℕ
  pub quitters : ℕ
  pub faulty : ℕ
  pub past : ℕ
  pub dyings : ℕ
  pub seen : ℕ

unfoldable pub tally : List Pc → Tally
tally ps = record {
  threads = length ps;
  senders = total registered ps;
  wakers = total wakes ps;
  runners = total runs ps;
  pendings = total pending ps;
  awaiters = total awaits ps;
  quitters = total gives_up ps;
  faulty = total faults ps;
  past = total past_drain ps;
  dyings = total dying ps;
  seen = total sees_scheduled ps;
}

-- Two tallies of which the second has `q` where the first has `p`.
pub record Moved (p q : Pc) (a b : Tally) : Type 0 where
  pub threads : b.threads ≡ a.threads
  pub senders : b.senders + registered p ≡ a.senders + registered q
  pub wakers : b.wakers + wakes p ≡ a.wakers + wakes q
  pub runners : b.runners + runs p ≡ a.runners + runs q
  pub pendings : b.pendings + pending p ≡ a.pendings + pending q
  pub awaiters : b.awaiters + awaits p ≡ a.awaiters + awaits q
  pub quitters : b.quitters + gives_up p ≡ a.quitters + gives_up q
  pub faulty : b.faulty + faults p ≡ a.faulty + faults q
  pub past : b.past + past_drain p ≡ a.past + past_drain q
  pub dyings : b.dyings + dying p ≡ a.dyings + dying q
  pub seen : b.seen + sees_scheduled p ≡ a.seen + sees_scheduled q
  -- what the mover alone accounts for
  pub own_sender : registered p ≤ a.senders
  pub own_waker : wakes p ≤ a.wakers
  pub own_runner : runs p ≤ a.runners
  pub own_pending : pending p ≤ a.pendings
  pub own_awaiter : awaits p ≤ a.awaiters
  pub own_quitter : gives_up p ≤ a.quitters
  pub own_fault : faults p ≤ a.faulty
  pub own_past : past_drain p ≤ a.past
  pub own_dying : dying p ≤ a.dyings
  pub own_sight : sees_scheduled p ≤ a.seen
  pub room : b.senders ≤ b.threads
  -- of the others, who awaits or has seen `scheduled` also runs
  pub others : a.awaiters + runs p ≤ a.runners + awaits p
  pub others_saw : a.seen + runs p ≤ a.runners + sees_scheduled p

total_mono : (v w : Pc → ℕ) → ((p : Pc) → v p ≤ w p) → (ps : List Pc) → total v ps ≤ total w ps
unfolding total
total_mono v w h [] = omega arith
total_mono v w h (p ∷ ps) = omega (arith, h p, total_mono v w h ps)

others-le-runs :
    (w : Pc → ℕ)
    → ((p : Pc) → w p ≤ runs p)
    → (xs ys : List Pc) (p : Pc)
    → total w (xs ++ (p ∷ ys)) + runs p ≤ total runs (xs ++ (p ∷ ys)) + w p
unfolding total
others-le-runs w h xs ys p = omega (
  arith,
  total-append w xs (p ∷ ys),
  total-append runs xs (p ∷ ys),
  total_mono w runs h xs,
  total_mono w runs h ys,
)

registered-le : (p : Pc) → registered p ≤ 1
registered-le p = ground arith

pub tally-Moved :
    (xs ys : List Pc) (p q : Pc) → Moved p q (tally (xs ++ (p ∷ ys))) (tally (xs ++ (q ∷ ys)))
unfolding tally
tally-Moved xs ys p q = record {
  threads = length-move xs ys p q;
  senders = total-move registered xs ys p q;
  wakers = total-move wakes xs ys p q;
  runners = total-move runs xs ys p q;
  pendings = total-move pending xs ys p q;
  awaiters = total-move awaits xs ys p q;
  quitters = total-move gives_up xs ys p q;
  faulty = total-move faults xs ys p q;
  past = total-move past_drain xs ys p q;
  dyings = total-move dying xs ys p q;
  seen = total-move sees_scheduled xs ys p q;
  own_sender = total-member registered xs ys p;
  own_waker = total-member wakes xs ys p;
  own_runner = total-member runs xs ys p;
  own_pending = total-member pending xs ys p;
  own_awaiter = total-member awaits xs ys p;
  own_quitter = total-member gives_up xs ys p;
  own_fault = total-member faults xs ys p;
  own_past = total-member past_drain xs ys p;
  own_dying = total-member dying xs ys p;
  own_sight = total-member sees_scheduled xs ys p;
  room = total-le-length registered registered-le (xs ++ (q ∷ ys));
  others = others-le-runs awaits (λ x. ground arith) xs ys p;
  others_saw = others-le-runs sees_scheduled (λ x. ground arith) xs ys p;
}
