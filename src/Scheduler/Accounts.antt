-- ===== src/Scheduler/Accounts.antt =====
-- What the workers and the queue add up to, and the invariant of `stop`.
use actor_zeta.Base.{
  ℕ, zero, suc, ◌+◌, ◌≡◌, ◌≢◌, refl, ap, List, [], ◌∷◌, ◌++◌, length, none, some, arith,
}
use actor_zeta.Scheduler.{
  ResumeResult, resume, awaiting, done, shutdown, ResumeInfo, shutdown_info, Job, actor,
  shutdown_helper, enqueue, dequeue, foreach_central_resumable, Worker, waiting, running, leaving,
  stopped, after_resume, Controller, at_work, asking, awaiting_one, joined, returned, Scheduler,
  launch, start, Step, Reach, started, later, submit, take, finish, complete, exit, begin_stop, ask,
  wait_for_completion, join, clear_jobs,
}

abbrev pub total {ℓ} : {A : Type ℓ} → (A → ℕ) → List A → ℕ
total f [] = 0
total f (x ∷ xs) = f x + total f xs

pub total-append {ℓ} :
    {A : Type ℓ} (f : A → ℕ) (xs ys : List A) → total f (xs ++ ys) ≡ total f xs + total f ys
total-append f [] ys = omega arith
total-append f (x ∷ xs) ys = omega (arith, total-append f xs ys)

-- One element of a list is replaced.
pub total-replace {ℓ} :
    {A : Type ℓ} (f : A → ℕ) (all xs ys : List A) (x y : A)
    → all ≡ xs ++ (x ∷ ys)
    → total f (xs ++ (y ∷ ys)) + f x ≡ total f all + f y
total-replace f all xs ys x y e =
    let before = ap (total f) e in
    omega (arith, before, total-append f xs (x ∷ ys), total-append f xs (y ∷ ys))

-- Helpers in the queue, with workers, and the workers that have seen one.
abbrev pub helper : Job → ℕ
helper shutdown_helper = 1
helper (actor a) = 0

abbrev pub helping : Worker → ℕ
helping (running shutdown_helper) = 1
helping _ = 0

abbrev pub out : Worker → ℕ
out leaving = 1
out stopped = 1
out _ = 0

abbrev pub one : Worker → ℕ
one w = 1

-- The helpers that are under way, and the workers still to be asked.
abbrev pub expected : Controller → ℕ
expected (awaiting_one n) = 1
expected _ = 0

abbrev pub alive : ℕ → Controller → ℕ
alive num at_work = num
alive num (asking n) = n
alive num (awaiting_one n) = suc n
alive num joined = 0
alive num returned = 0

-- Everything is asked for once: as many helpers are in the queue, with workers or completed as
-- `stop` waits for, and as many workers are still in their loop as it has not heard from.
pub record Inv (num : ℕ) (s : Scheduler) : Type 0 where
  pub helpers :
      total helper s.queue + total helping s.workers + s.completed_count ≡ expected s.controller
  pub loops : total out s.workers + alive num s.controller ≡ num + s.completed_count
  pub size : total one s.workers ≡ num

length-total : (ws : List Worker) → length ws ≡ total one ws
length-total [] = refl
length-total (w ∷ ws) = omega (arith, length-total ws)

enqueue_total : (f : Job → ℕ) (q : List Job) (j : Job) → total f (enqueue q j) ≡ total f q + f j
unfolding enqueue
enqueue_total f q j = omega (arith, total-append f q (j ∷ []))

dequeue_total :
    (f : Job → ℕ) (q : List Job) (j : Job) (rest : List Job)
    → dequeue q ≡ some (j, rest)
    → total f q ≡ f j + total f rest
unfolding dequeue
dequeue_total f [] j rest e = ground arith
dequeue_total f (x ∷ q) j rest e =
    let node = ap (λ o. elim o [ none ↦ f x | some (k, r) ↦ f k ]) e in
    let queue = ap (λ o. elim o [ none ↦ total f q | some (k, r) ↦ total f r ]) e in
    omega (arith, node, queue)

helping-running : (j : Job) → helping (running j) ≡ helper j
helping-running (actor a) = refl
helping-running shutdown_helper = refl

-- An actor's job goes back into the queue or away, and its worker to the queue.
finish_lem :
    (res : ResumeInfo) (a : ℕ) (q : List Job)
    → res.result ≢ shutdown
    → (total helper (after_resume res (actor a) q).0 ≡ total helper q)
      × ((after_resume res (actor a) q).1 ≡ waiting)
unfolding after_resume
finish_lem res a q other = go res.result refl
  where
    go :
        (r : ResumeResult)
        → res.result ≡ r
        → (total helper (after_resume res (actor a) q).0 ≡ total helper q)
          × ((after_resume res (actor a) q).1 ≡ waiting)
    go resume e = rw e (omega (arith, enqueue_total helper q (actor a)), refl)
    go awaiting e = rw e (refl, refl)
    go done e = rw e (refl, refl)
    go shutdown e = absurd (other e)

-- One worker changes: the three sums.
workers_lem :
    (all xs ys : List Worker) (w w' : Worker)
    → all ≡ xs ++ (w ∷ ys)
    → (total helping (xs ++ (w' ∷ ys)) + helping w ≡ total helping all + helping w')
      × (total out (xs ++ (w' ∷ ys)) + out w ≡ total out all + out w')
      × (total one (xs ++ (w' ∷ ys)) ≡ total one all)
workers_lem all xs ys w w' e =
    let same = total-replace one all xs ys w w' e in
    (
      total-replace helping all xs ys w w' e,
      total-replace out all xs ys w w' e,
      omega (arith, same),
    )

complete_lem : (q : List Job) → after_resume shutdown_info shutdown_helper q ≡ (q, leaving)
unfolding after_resume
complete_lem q = refl

Step-Inv : (num : ℕ) {s t : Scheduler} → Step s t → Inv num s → Inv num t
unfolding foreach_central_resumable
Step-Inv num {s} (submit a) i =
    let more = enqueue_total helper s.queue (actor a) in
    record { helpers = omega (arith, more, i.helpers); loops = i.loops; size = i.size }
Step-Inv num {s} (take xs ys node rest e d) i =
    let (h, o, n) = workers_lem s.workers xs ys waiting (running node) e in
    let less = dequeue_total helper s.queue node rest d in
    record {
      helpers = omega (arith, less, h, helping-running node, i.helpers);
      loops = omega (arith, o, i.loops);
      size = omega (arith, n, i.size);
    }
Step-Inv num {s} (finish xs ys a res e other) i =
    let (q, w) = finish_lem res a s.queue other in
    let (h, o, n) = workers_lem s.workers xs ys (running (actor a)) waiting e in
    rw w (record {
      helpers = omega (arith, q, h, i.helpers);
      loops = omega (arith, o, i.loops);
      size = omega (arith, n, i.size);
    })
Step-Inv num {s} (complete xs ys e) i =
    let (h, o, n) = workers_lem s.workers xs ys (running shutdown_helper) leaving e in
    rw (complete_lem s.queue) (record {
      helpers = omega (arith, h, i.helpers);
      loops = omega (arith, o, i.loops);
      size = omega (arith, n, i.size);
    })
Step-Inv num {s} (exit xs ys e) i =
    let (h, o, n) = workers_lem s.workers xs ys leaving stopped e in
    record {
      helpers = omega (arith, h, i.helpers);
      loops = omega (arith, o, i.loops);
      size = omega (arith, n, i.size);
    }
Step-Inv num {s} (begin_stop e) i =
    let n = length-total s.workers in
    let before = ap (alive num) e in
    let idle = ap expected e in
    record {
      helpers = omega (arith, idle, i.helpers);
      loops = omega (arith, before, n, i.size, i.loops);
      size = i.size;
    }
Step-Inv num {s} (ask n e) i =
    let more = enqueue_total helper s.queue shutdown_helper in
    let before = ap (alive num) e in
    let idle = ap expected e in
    record {
      helpers = omega (arith, more, idle, i.helpers);
      loops = omega (arith, before, i.loops);
      size = i.size;
    }
Step-Inv num {s} (wait_for_completion n c e d) i =
    let before = ap (alive num) e in
    let idle = ap expected e in
    record {
      helpers = omega (arith, idle, d, i.helpers);
      loops = omega (arith, before, d, i.loops);
      size = i.size;
    }
Step-Inv num {s} (join e all) i =
    let before = ap (alive num) e in
    let idle = ap expected e in
    record {
      helpers = omega (arith, idle, i.helpers);
      loops = omega (arith, before, i.loops);
      size = i.size;
    }
Step-Inv num {s} (clear_jobs e) i =
    let before = ap (alive num) e in
    let idle = ap expected e in
    record {
      helpers = omega (arith, idle, i.helpers);
      loops = omega (arith, before, i.loops);
      size = i.size;
    }

launch_total :
    (n : ℕ)
    → (total one (launch n) ≡ n) × (total out (launch n) ≡ 0) × (total helping (launch n) ≡ 0)
launch_total zero = (refl, refl, refl)
launch_total (suc n) =
    let ih = launch_total n in (omega (arith, ih.0), omega (arith, ih.1), omega (arith, ih.2))

pub Reach-Inv : (num : ℕ) {s : Scheduler} → Reach num s → Inv num s
unfolding start
Reach-Inv num started =
    let (n, o, h) = launch_total num in
    record { helpers = omega (arith, h); loops = omega (arith, o); size = n }
Reach-Inv num (later r st) = Step-Inv num st (Reach-Inv num r)
