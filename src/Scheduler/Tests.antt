-- ===== src/Scheduler/Tests.antt =====
-- One worker that is stopped, and a queue with two jobs.
use actor_zeta.Base.{◌≡◌, refl, List, [], ◌∷◌, some}
use actor_zeta.Scheduler.{
  Job, actor, shutdown_helper, enqueue, dequeue, waiting, stopped, after_resume, asking,
  awaiting_one, joined, Scheduler, start, Reach, started, later, take, complete, exit, begin_stop,
  ask, wait_for_completion, join, resume, ResumeInfo, finish,
}
use actor_zeta.Scheduler.Accounts.{total, helper, out}
use actor_zeta.Scheduler.Shutdown.{CanGoOn, stop_not_in_vain, joined_at_rest}
use actor_zeta.Scheduler.Waiting.{Run, at_once, then_step, served_in_turn}

abbrev asked : Scheduler
asked = record {
  queue = shutdown_helper ∷ [];
  workers = waiting ∷ [];
  completed_count = 0;
  controller = awaiting_one 0;
}

asked-Reach : Reach 1 asked
unfolding start enqueue
asked-Reach = later (later started (begin_stop refl)) (ask 0 refl)

stop_not_in_vain_example : CanGoOn asked
stop_not_in_vain_example = stop_not_in_vain 1 0 asked-Reach refl

abbrev over : Scheduler
over = record { queue = []; workers = stopped ∷ []; completed_count = 0; controller = joined }

over-Reach : Reach 1 over
unfolding after_resume dequeue
over-Reach =
    later
      (later
        (later
          (later (later asked-Reach (take [] [] shutdown_helper [] refl refl))
            (complete [] [] refl))
          (wait_for_completion 0 0 refl refl))
        (exit [] [] refl))
      (join refl refl)

joined_at_rest_example :
    (out stopped ≡ 1) × (total helper over.queue ≡ 0) × (over.completed_count ≡ 0)
joined_at_rest_example = joined_at_rest 1 [] [] stopped over-Reach refl refl

-- The first job comes back while the second waits.
abbrev two_jobs : Scheduler
two_jobs = record {
  queue = actor 1 ∷ actor 2 ∷ [];
  workers = waiting ∷ [];
  completed_count = 0;
  controller = asking 1;
}

abbrev again : ResumeInfo
again = record { result = resume; messages_processed = 5 }

abbrev one_back : Scheduler
one_back = record {
  queue = actor 2 ∷ actor 1 ∷ [];
  workers = waiting ∷ [];
  completed_count = 0;
  controller = asking 1;
}

one_back-Run : Run two_jobs 1 one_back
unfolding dequeue after_resume enqueue
one_back-Run =
    then_step (then_step at_once (take [] [] (actor 1) (actor 2 ∷ []) refl refl) refl)
      (finish [] [] 1 again refl (λ e. cc)) refl

served_in_turn_example : (rest : List Job) × (dequeue one_back.queue ≡ some (actor 2, rest))
served_in_turn_example = served_in_turn (actor 1 ∷ []) [] (actor 2) refl refl one_back-Run
