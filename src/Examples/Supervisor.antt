-- ===== src/Examples/Supervisor.antt =====
-- examples/supervisor/main.cpp: a supervisor that creates workers and hands its tasks to them in turn.
-- Names and tasks are numbers. A worker's requests are kept in the order in which they were sent.
pub mod Turns
use actor_zeta.Base.{
  ℕ, suc, ◌+◌, ◌%◌, List, [], ◌∷◌, ◌++◌, map, length, Option, none, some, get_elem?, modify, ◌>>=◌,
}

pub data WorkerRequest : Type 0 where
  process_task : ℕ → WorkerRequest
  get_status : WorkerRequest

-- `worker_actor`, its data members, and the messages that wait for it.
pub record Worker : Type 0 where
  pub name : ℕ
  pub tasks_processed : ℕ
  pub inbox : List WorkerRequest

-- The behavior of a worker, on its next message.
unfoldable pub work : Worker → Worker
work w = elim w.inbox [
  | [] ↦ w
  | request ∷ rest ↦ elim request [
    | process_task task ↦ record w { tasks_processed = suc w.tasks_processed; inbox = rest }
    | get_status ↦ record w { inbox = rest }
  ]
]

abbrev pub send : WorkerRequest → Worker → Worker
send request w = record w { inbox = w.inbox ++ (request ∷ []) }

-- `supervisor_actor`, its data members.
pub record Supervisor : Type 0 where
  pub workers : List Worker
  pub next_worker : ℕ

abbrev pub no_workers : Supervisor
no_workers = record { workers = []; next_worker = 0 }

unfoldable pub create_worker : Supervisor → ℕ → Supervisor
create_worker s name = record s {
  workers = s.workers ++ (record { name = name; tasks_processed = 0; inbox = [] } ∷ []);
}

-- `none` stands for an index out of range.
unfoldable pub assign_task : Supervisor → ℕ → Option Supervisor
assign_task s task = elim s.workers [
  | [] ↦ some s
  | w ∷ ws ↦ do
    worker ← get_elem? s.workers s.next_worker
    some (record {
      workers = modify (send (process_task task)) s.workers s.next_worker;
      next_worker = (s.next_worker + 1) % length s.workers;
    })
]

unfoldable pub stop_workers : Supervisor → Supervisor
stop_workers s = s

unfoldable pub check_status : Supervisor → Supervisor
check_status s = record s { workers = map (send get_status) s.workers }

pub data Request : Type 0 where
  to_create to_assign : ℕ → Request
  to_stop to_check : Request

-- The behavior of the supervisor.
unfoldable pub behavior : Supervisor → Request → Option Supervisor
unfolding create_worker assign_task stop_workers check_status
behavior s (to_create name) = some (create_worker s name)
behavior s (to_assign task) = assign_task s task
behavior s to_stop = some (stop_workers s)
behavior s to_check = some (check_status s)

unfoldable pub handle_all : Supervisor → List Request → Option Supervisor
unfolding behavior
handle_all s [] = some s
handle_all s (r ∷ rs) = do s' ← behavior s r; handle_all s' rs
