-- ===== src/Scheduler/Waiting.antt =====
-- The queue is fair: a job waits for those before it and for no other.
use mathlib.Core.List.{append_assoc, append-nil}
use actor_zeta.Base.{
  ℕ, suc, ◌+◌, ◌≡◌, refl, sym, ap, subst, ◌∙◌, Bool, true, false, List, [], ◌∷◌, ◌++◌, length, none,
  some, arith,
}
use actor_zeta.Scheduler.{
  ResumeResult, resume, awaiting, done, shutdown, ResumeInfo, shutdown_info, Job, actor,
  shutdown_helper, enqueue, dequeue, after_resume, Scheduler, Step, submit, take, finish, complete,
  exit, begin_stop, ask, wait_for_completion, join, clear_jobs,
}

-- How many jobs a step takes from the front of the queue, and whether it empties it.
abbrev pub dequeues : {s t : Scheduler} → Step s t → ℕ
dequeues (take xs ys node rest e d) = 1
dequeues _ = 0

abbrev pub clears : {s t : Scheduler} → Step s t → Bool
clears (clear_jobs e) = true
clears _ = false

-- Any steps but the end of `stop`, with the number of jobs that they take.
pub data Run (s : Scheduler) : ℕ → Scheduler → Type 0 where
  at_once : Run s 0 s
  then_step :
      {d : ℕ} {t u : Scheduler}
      → Run s d t
      → (st : Step t u) → clears st ≡ false
      → Run s (dequeues st + d) u

-- A step takes the first job, or adds some at the back.
data Moves (before after : List Job) : ℕ → Type 0 where
  takes : (j : Job) → before ≡ j ∷ after → Moves before after 1
  adds : (more : List Job) → after ≡ before ++ more → Moves before after 0

dequeue_lem : (q : List Job) (j : Job) (rest : List Job) → dequeue q ≡ some (j, rest) → q ≡ j ∷ rest
unfolding dequeue
dequeue_lem [] j rest e = absurd (ground arith)
dequeue_lem (x ∷ q) j rest e = ap (λ o. elim o [ none ↦ x ∷ q | some (k, r) ↦ k ∷ r ]) e

adds-nothing : (q : List Job) → Moves q q 0
adds-nothing q = adds [] (sym (append-nil q))

after_resume-Moves :
    (res : ResumeInfo) (j : Job) (q : List Job) → Moves q (after_resume res j q).0 0
unfolding after_resume enqueue
after_resume-Moves res j q = go res.result refl
  where
    go : (r : ResumeResult) → res.result ≡ r → Moves q (after_resume res j q).0 0
    go resume e = rw e (adds (j ∷ []) refl)
    go awaiting e = rw e (adds-nothing q)
    go done e = rw e (adds-nothing q)
    go shutdown e = rw e (adds-nothing q)

Step-Moves :
    {s t : Scheduler} (st : Step s t) → clears st ≡ false → Moves s.queue t.queue (dequeues st)
unfolding enqueue
Step-Moves (submit a) c = adds (actor a ∷ []) refl
Step-Moves {s} (take xs ys node rest e d) c = takes node (dequeue_lem s.queue node rest d)
Step-Moves {s} (finish xs ys a res e other) c = after_resume-Moves res (actor a) s.queue
Step-Moves {s} (complete xs ys e) c = after_resume-Moves shutdown_info shutdown_helper s.queue
Step-Moves {s} (exit xs ys e) c = adds-nothing s.queue
Step-Moves {s} (begin_stop e) c = adds-nothing s.queue
Step-Moves (ask n e) c = adds (shutdown_helper ∷ []) refl
Step-Moves {s} (wait_for_completion n k e d) c = adds-nothing s.queue
Step-Moves {s} (join e all) c = adds-nothing s.queue
Step-Moves (clear_jobs e) c = absurd (ground arith)

-- Where the job stands after some steps.
record Stands (j : Job) (ahead : ℕ) (q : List Job) : Type 0 where
  front : List Job
  back : List Job
  place : q ≡ front ++ (j ∷ back)
  count : length front ≡ ahead

Stands-takes :
    (j x : Job) (ahead : ℕ) (q r : List Job) → q ≡ x ∷ r → Stands j (suc ahead) q → Stands j ahead r
Stands-takes j x ahead q r e st = go st.front st.count st.place
  where
    go :
        (front : List Job)
        → length front ≡ suc ahead
        → q ≡ front ++ (j ∷ st.back)
        → Stands j ahead r
    go [] n p = absurd (omega arith)
    go (y ∷ ys) n p = record {
      front = ys;
      back = st.back;
      place = ap (λ (z : List Job). elim z [ [] ↦ r | k ∷ ks ↦ ks ]) (sym e ∙ p);
      count = omega arith;
    }

Stands-adds :
    (j : Job) (ahead : ℕ) (q more r : List Job)
    → r ≡ q ++ more
    → Stands j ahead q
    → Stands j ahead r
Stands-adds j ahead q more r e st = record {
  front = st.front;
  back = st.back ++ more;
  place = e ∙ ap (λ (z : List Job). z ++ more) st.place ∙ append_assoc st.front (j ∷ st.back) more;
  count = st.count;
}

Moves-Stands :
    (j : Job) (ahead n : ℕ) (q r : List Job)
    → Moves q r n
    → Stands j (n + ahead) q
    → Stands j ahead r
Moves-Stands j ahead _ q r (takes x e) st =
    Stands-takes j x ahead q r e (subst (λ (k : ℕ). Stands j k q) (omega arith) st)
Moves-Stands j ahead _ q r (adds more e) st =
    Stands-adds j ahead q more r e (subst (λ (k : ℕ). Stands j k q) (omega arith) st)

Run-Stands :
    (j : Job) {s t : Scheduler} {d : ℕ}
    → Run s d t
    → (ahead : ℕ) → Stands j (d + ahead) s.queue
    → Stands j ahead t.queue
Run-Stands j {s} at_once ahead st = subst (λ (k : ℕ). Stands j k s.queue) (omega arith) st
Run-Stands j {s} (then_step {d} {t} r step kept) ahead st =
    Moves-Stands j ahead (dequeues step) _ _ (Step-Moves step kept) (
      Run-Stands j r (dequeues step + ahead)
        (subst (λ (k : ℕ). Stands j k s.queue) (omega arith) st))

first-dequeue :
    (j : Job) (q front back : List Job)
    → length front ≡ 0
    → q ≡ front ++ (j ∷ back)
    → (rest : List Job) × (dequeue q ≡ some (j, rest))
unfolding dequeue
first-dequeue j q [] back n p = (back, rw p refl)
first-dequeue j q (y ∷ ys) back n p = absurd (omega arith)

-- A job is served in its turn, whatever is enqueued in the meantime and whichever jobs come back:
-- once the workers have taken as many jobs as stood before it, the next that any worker takes is
-- this one.
pub served_in_turn :
    {s t : Scheduler} {d : ℕ} (front back : List Job) (j : Job)
    → s.queue ≡ front ++ (j ∷ back)
    → length front ≡ d
    → Run s d t
    → (rest : List Job) × (dequeue t.queue ≡ some (j, rest))
served_in_turn {s} {t} {d} front back j place count run =
    let st =
      Run-Stands j run 0
        (record { front = front; back = back; place = place; count = omega arith }) in
    first-dequeue j t.queue st.front st.back st.count st.place
