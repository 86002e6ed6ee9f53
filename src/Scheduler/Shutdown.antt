-- ===== src/Scheduler/Shutdown.antt =====
-- `stop`: it never waits in vain, and when it has joined the threads nothing runs.
use actor_zeta.Base.{ℕ, zero, suc, ◌+◌, ◌≤◌, ◌≡◌, refl, ap, List, [], ◌∷◌, ◌++◌, some, arith}
use actor_zeta.Scheduler.{
  Job, dequeue, Worker, waiting, running, leaving, stopped, awaiting_one, joined, Scheduler, Reach,
}
use actor_zeta.Scheduler.Accounts.{
  total, total-append, helper, helping, out, one, expected, alive, Reach-Inv,
}

-- Why a thread of the scheduler can go on: `stop` has been answered, or a worker runs a job, or one
-- waits for a job that is there.
pub data CanGoOn (s : Scheduler) : Type 0 where
  answered : (c : ℕ) → s.completed_count ≡ suc c → CanGoOn s
  works : (xs ys : List Worker) (j : Job) → s.workers ≡ xs ++ (running j ∷ ys) → CanGoOn s
  takes :
      (xs ys : List Worker) (j : Job) (rest : List Job)
      → s.workers ≡ xs ++ (waiting ∷ ys)
      → dequeue s.queue ≡ some (j, rest)
      → CanGoOn s

-- A worker that is still in its loop.
record InLoop (ws : List Worker) : Type 0 where
  before : List Worker
  after : List Worker
  worker : Worker
  place : ws ≡ before ++ (worker ∷ after)
  inside : out worker ≡ 0

InLoop-cons : (w : Worker) (ws : List Worker) → InLoop ws → InLoop (w ∷ ws)
InLoop-cons w ws l = record {
  before = w ∷ l.before;
  after = l.after;
  worker = l.worker;
  place = ap (λ (z : List Worker). w ∷ z) l.place;
  inside = l.inside;
}

InLoop-here : (w : Worker) (ws : List Worker) → out w ≡ 0 → InLoop (w ∷ ws)
InLoop-here w ws e = record { before = []; after = ws; worker = w; place = refl; inside = e }

find_loop : (ws : List Worker) (k : ℕ) → total out ws + suc k ≡ total one ws → InLoop ws
find_loop [] k e = absurd (omega arith)
find_loop (waiting ∷ ws) k e = InLoop-here waiting ws refl
find_loop (running j ∷ ws) k e = InLoop-here (running j) ws refl
find_loop (leaving ∷ ws) k e = InLoop-cons leaving ws (find_loop ws k (omega arith))
find_loop (stopped ∷ ws) k e = InLoop-cons stopped ws (find_loop ws k (omega arith))

out-one : (w : Worker) → out w ≤ one w
out-one waiting = omega arith
out-one (running j) = omega arith
out-one leaving = omega arith
out-one stopped = omega arith

total-le : (ws : List Worker) → total out ws ≤ total one ws
total-le [] = omega arith
total-le (w ∷ ws) = omega (arith, out-one w, total-le ws)

-- A worker that has a helper.
record HasJob (ws : List Worker) : Type 0 where
  before : List Worker
  after : List Worker
  job : Job
  place : ws ≡ before ++ (running job ∷ after)

HasJob-cons : (w : Worker) (ws : List Worker) → HasJob ws → HasJob (w ∷ ws)
HasJob-cons w ws h = record {
  before = w ∷ h.before;
  after = h.after;
  job = h.job;
  place = ap (λ (z : List Worker). w ∷ z) h.place;
}

find_helper : (ws : List Worker) (k : ℕ) → total helping ws ≡ suc k → HasJob ws
find_helper [] k h = absurd (omega arith)
find_helper (running j ∷ ws) k h = record { before = []; after = ws; job = j; place = refl }
find_helper (waiting ∷ ws) k h = HasJob-cons waiting ws (find_helper ws k (omega arith))
find_helper (leaving ∷ ws) k h = HasJob-cons leaving ws (find_helper ws k (omega arith))
find_helper (stopped ∷ ws) k h = HasJob-cons stopped ws (find_helper ws k (omega arith))

-- Nobody has answered yet: the helper is in the queue, or with a worker.
unanswered :
    (s : Scheduler) (q : List Job)
    → s.queue ≡ q
    → total helper q + total helping s.workers ≡ 1
    → InLoop s.workers
    → CanGoOn s
unfolding dequeue
unanswered s [] e h l =
    let busy = find_helper s.workers 0 (omega arith) in
    works busy.before busy.after busy.job busy.place
unanswered s (j ∷ rest) e h l = go l.worker l.place l.inside
  where
    go : (w : Worker) → s.workers ≡ l.before ++ (w ∷ l.after) → out w ≡ 0 → CanGoOn s
    go waiting p inside = takes l.before l.after j rest p (rw e refl)
    go (running k) p inside = works l.before l.after k p
    go leaving p inside = absurd (omega arith)
    go stopped p inside = absurd (omega arith)

-- While `stop` waits for an answer it is not stuck: it has been answered, or a worker runs a job,
-- or a worker waits and there is a job for it.
pub stop_not_in_vain :
    (num : ℕ) {s : Scheduler} (n : ℕ) → Reach num s → s.controller ≡ awaiting_one n → CanGoOn s
stop_not_in_vain num {s} n r e = go s.completed_count refl
  where
    go : (c : ℕ) → s.completed_count ≡ c → CanGoOn s
    go zero none_yet =
        let i = Reach-Inv num r in
        let left = ap (alive num) e in
        let asked = ap expected e in
        unanswered s s.queue refl (omega (arith, i.helpers, asked, none_yet))
          (find_loop s.workers n (omega (arith, i.loops, i.size, left, none_yet)))
    go (suc c) some_one = answered c some_one

all_out :
    (xs ys : List Worker) (w : Worker)
    → total out (xs ++ (w ∷ ys)) ≡ total one (xs ++ (w ∷ ys))
    → out w ≡ 1
all_out xs ys w e = omega (
  arith,
  total-append out xs (w ∷ ys),
  total-append one xs (w ∷ ys),
  total-le xs,
  total-le ys,
  out-one w,
)

-- Once `stop` has joined its threads, every worker has left its loop, no helper is left over in
-- the queue and every answer has been counted.
pub joined_at_rest :
    (num : ℕ) {s : Scheduler} (xs ys : List Worker) (w : Worker)
    → Reach num s
    → s.controller ≡ joined
    → s.workers ≡ xs ++ (w ∷ ys)
    → (out w ≡ 1) × (total helper s.queue ≡ 0) × (s.completed_count ≡ 0)
joined_at_rest num {s} xs ys w r e place =
    let i = Reach-Inv num r in
    let left = ap (alive num) e in
    let asked = ap expected e in
    let outs = ap (total out) place in
    let ones = ap (total one) place in
    (
      all_out xs ys w (omega (arith, i.helpers, i.loops, i.size, left, asked, outs, ones)),
      omega (arith, i.helpers, asked),
      omega (arith, i.helpers, asked),
    )
