-- ===== src/Examples/Tests.antt =====
-- Three parts and three workers.
use actor_zeta.Base.{
  ◌≤◌, ◌≡◌, ◌⊎◌, refl, List, [], ◌∷◌, ◌++◌, map, length, none, some, get_elem?, arith,
}
use actor_zeta.Examples.Balancer.{
  Collection, CollectionPart, to_insert, to_update, to_remove, to_find, found, forward, forward_all,
  reply,
}
use actor_zeta.Examples.Balancer.Rounds.{reply-forward_all}
use actor_zeta.Examples.Supervisor.{
  Worker, process_task, Supervisor, no_workers, Request, to_create, to_assign, to_check, handle_all,
  work, get_status,
}
use actor_zeta.Examples.Supervisor.Turns.{turn, handle_all-turn}

abbrev empty_part : CollectionPart
empty_part = record { entries = λ k. none }

abbrev collection : Collection
collection = record {
  actors = empty_part ∷ empty_part ∷ empty_part ∷ [];
  cursor = 4;
  counts = record { balancer = 4; inserts = 0; removes = 4; updates = 0; finds = 0 };
}

-- Between the update and the find, the key is removed and inserted, in other parts.
reply-forward_all_example :
    reply
      (forward_all (forward collection (to_update 11 5)) (to_remove 11 ∷ to_insert 11 6 ∷ []))
      (to_find 11)
    ≡ some (found 5)
reply-forward_all_example =
    reply-forward_all collection 11 5 (to_remove 11 ∷ to_insert 11 6 ∷ []) 3 refl refl (omega arith)

-- Three workers are created, one of them is given a task, and four more tasks follow.
abbrev first_requests : List Request
first_requests = to_create 1 ∷ to_create 2 ∷ to_create 3 ∷ to_assign 20 ∷ to_check ∷ []

handle_all-turn_example :
    (s : Supervisor) × (handle_all no_workers first_requests ≡ some s)
    × ((s.workers ≡ [])
        ⊎ ((s' : Supervisor) × (handle_all s (map to_assign (21 ∷ 22 ∷ 23 ∷ 24 ∷ [])) ≡ some s')
            × (length s'.workers ≡ length s.workers)
            × ((length s.workers ≤ 1)
                ⊎ ((w : Worker) × (w' : Worker) × (get_elem? s.workers 1 ≡ some w)
                    × (get_elem? s'.workers 1 ≡ some w')
                    × (w'.inbox
                        ≡ w.inbox
                          ++ turn 1 (length s.workers) s.next_worker (21 ∷ 22 ∷ 23 ∷ 24 ∷ []))))))
handle_all-turn_example = handle_all-turn first_requests (21 ∷ 22 ∷ 23 ∷ 24 ∷ []) 1

-- The turn of the second of three workers.
second_turn : turn 1 3 1 (21 ∷ 22 ∷ 23 ∷ 24 ∷ []) ≡ process_task 21 ∷ process_task 24 ∷ []
second_turn = refl

-- A worker counts the tasks, and not the requests for its status.
abbrev busy : Worker
busy = record {
  name = 2;
  tasks_processed = 0;
  inbox = get_status ∷ process_task 21 ∷ process_task 24 ∷ [];
}

counted : (work (work (work busy))).tasks_processed ≡ 2
unfolding work
counted = refl
