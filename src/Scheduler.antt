-- ===== src/Scheduler.antt =====
-- header/actor-zeta/scheduler: the central queue of policy/work_sharing.hpp, the loop of worker.hpp
-- and `stop` of scheduler.hpp, as steps of the threads that share the queue, which its lock makes
-- atomic. The queue is the list of its nodes, front to back; Queue.LinkedList models the linked list
-- of the code. An actor's job may come back with any verdict but `shutdown`.
pub mod Accounts
pub mod Shutdown
pub mod Waiting
mod Tests
use actor_zeta.Base.{
  ℕ, zero, suc, ◌+◌, ◌≡◌, ◌≢◌, Bool, true, false, ◌&&◌, List, [], ◌∷◌, ◌++◌, length, Option, none,
  some, ◌==◌, if◌then◌else◌,
}

-- `resume_result`
pub data ResumeResult : Type 0 where
  resume awaiting done shutdown : ResumeResult

-- `resume_info`
pub record ResumeInfo : Type 0 where
  pub result : ResumeResult
  pub messages_processed : ℕ

-- What `shutdown_helper::resume` returns.
abbrev pub shutdown_info : ResumeInfo
shutdown_info = record { result = shutdown; messages_processed = 0 }

-- `job_ptr`: the node of an actor, or of the helper with which `stop` ends one worker.
pub data Job : Type 0 where
  actor : ℕ → Job
  shutdown_helper : Job

-- `work_sharing::enqueue`, by `central_enqueue`, `external_enqueue` and `resume_job_later`
unfoldable pub enqueue : List Job → Job → List Job
enqueue queue node = queue ++ (node ∷ [])

-- `dequeue`, which waits, here with `none`, while the queue is empty
unfoldable pub dequeue : List Job → Option (Job × List Job)
dequeue [] = none
dequeue (node ∷ queue) = some (node, queue)

-- `foreach_central_resumable`: the nodes that it visits, and the queue.
unfoldable pub foreach_central_resumable : List Job → List Job × List Job
foreach_central_resumable queue = (queue, [])

-- A worker's thread in `run`; `leaving` has seen `shutdown`, `stopped` can be joined.
pub data Worker : Type 0 where
  waiting : Worker
  running : Job → Worker
  leaving stopped : Worker

-- The switch of `run`: the queue, and the worker behind it.
unfoldable pub after_resume : ResumeInfo → Job → List Job → List Job × Worker
unfolding enqueue
after_resume res node queue = elim res.result [
  | resume ↦ (enqueue queue node, waiting)
  | done ↦ (queue, waiting)
  | awaiting ↦ (queue, waiting)
  | shutdown ↦ (queue, leaving)
]

-- Whether it gives up the processor before it enqueues the job again.
unfoldable pub yields : ResumeInfo → Bool
yields res = elim res.result [ resume ↦ res.messages_processed == 0 | _ ↦ false ]

-- The thread in `stop`: `asking n` has n workers in `alive_workers`, `awaiting_one n` has enqueued the
-- helper for one of n + 1; `joined` has joined all threads.
pub data Controller : Type 0 where
  at_work : Controller
  asking awaiting_one : ℕ → Controller
  joined returned : Controller

pub record Scheduler : Type 0 where
  pub queue : List Job
  pub workers : List Worker
  pub completed_count : ℕ
  pub controller : Controller

-- The threads that `start` launches.
abbrev pub launch : ℕ → List Worker
launch zero = []
launch (suc n) = waiting ∷ launch n

-- `start`
unfoldable pub start : ℕ → Scheduler
start num = record { queue = []; workers = launch num; completed_count = 0; controller = at_work }

abbrev pub all_stopped : List Worker → Bool
all_stopped [] = true
all_stopped (stopped ∷ ws) = all_stopped ws
all_stopped (_ ∷ ws) = false

pub data Step (s : Scheduler) : Scheduler → Type 0 where
  -- scheduler_t::enqueue, from outside or from an actor that runs
  submit : (a : ℕ) → Step s (record s { queue = enqueue s.queue (actor a) })
  -- a worker
  take :
      (xs ys : List Worker) (node : Job) (rest : List Job)
      → s.workers ≡ xs ++ (waiting ∷ ys)
      → dequeue s.queue ≡ some (node, rest)
      → Step s (record s { queue = rest; workers = xs ++ (running node ∷ ys) })
  -- an actor's `resume` has returned
  finish :
      (xs ys : List Worker) (a : ℕ) (res : ResumeInfo)
      → s.workers ≡ xs ++ (running (actor a) ∷ ys)
      → res.result ≢ shutdown
      → Step s (record s {
        queue = (after_resume res (actor a) s.queue).0;
        workers = xs ++ ((after_resume res (actor a) s.queue).1 ∷ ys);
      })
  -- shutdown_helper::resume
  complete :
      (xs ys : List Worker)
      → s.workers ≡ xs ++ (running shutdown_helper ∷ ys)
      → Step s (record s {
        queue = (after_resume shutdown_info shutdown_helper s.queue).0;
        workers = xs ++ ((after_resume shutdown_info shutdown_helper s.queue).1 ∷ ys);
        completed_count = suc s.completed_count;
      })
  exit :
      (xs ys : List Worker)
      → s.workers ≡ xs ++ (leaving ∷ ys)
      → Step s (record s { workers = xs ++ (stopped ∷ ys) })
  -- stop
  begin_stop : s.controller ≡ at_work → Step s (record s { controller = asking (length s.workers) })
  ask :
      (n : ℕ)
      → s.controller ≡ asking (suc n)
      → Step s (record s { queue = enqueue s.queue shutdown_helper; controller = awaiting_one n })
  wait_for_completion :
      (n c : ℕ)
      → s.controller ≡ awaiting_one n
      → s.completed_count ≡ suc c
      → Step s (record s { completed_count = c; controller = asking n })
  join :
      s.controller ≡ asking 0
      → all_stopped s.workers ≡ true
      → Step s (record s { controller = joined })
  clear_jobs :
      s.controller ≡ joined
      → Step s (record s { queue = (foreach_central_resumable s.queue).1; controller = returned })

pub data Reach (num : ℕ) : Scheduler → Type 0 where
  started : Reach num (start num)
  later : {s t : Scheduler} → Reach num s → Step s t → Reach num t
