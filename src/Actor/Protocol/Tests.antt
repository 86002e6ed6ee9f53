-- ===== src/Actor/Protocol/Tests.antt =====
-- A run of two threads: one sends, and as a worker takes the job up; and a run that destroys.
use actor_zeta.Base.{ℕ, ◌+◌, ◌≤◌, ◌≡◌, refl, Bool, true, false, [], ◌∷◌, arith}
use actor_zeta.Actor.StateWord.{
  is_scheduled, is_running, is_destroying, set_scheduled, set_running, set_destroying, sender_count,
  add_sender, sub_sender,
}
use actor_zeta.Actor.StateWord.Laws.{bit}
use actor_zeta.Actor.Protocol.{
  blocked, opened, Pc, outside, entering, pushing, pushed, leaving, owing, holding, acquiring,
  started, publishing, draining, drained, claims, leave, owes_enqueue, acquire,
}
use actor_zeta.Actor.Protocol.Steps.{
  enter, register, push, leave_load, leave_win, enqueue, dequeue, acquire_load, acquire_win,
  destroy, publish, drain, System, Step, pick, Reach, start, later,
}
use actor_zeta.Actor.Protocol.Tally.{total, runs, pending, wakes, registered}
use actor_zeta.Actor.Protocol.Safety.{
  open_mailbox_served, word_tracks_threads, drained_no_senders, one_job, workers_never_contend,
}

-- Two threads, the second of which is idle.
abbrev at : ℕ → Bool → ℕ → ℕ → Pc → System
at word open_box messages jobs p = record {
  shared = record {
    state = word;
    box = elim open_box [ true ↦ opened messages | false ↦ blocked ];
    jobs = jobs;
  };
  threads = p ∷ outside ∷ [];
}

-- The first thread moves, to a given state.
advance : {e : Bool} {s : System} (t : System) → Reach e 2 s → Step e s t → Reach e 2 t
advance t r st = later r st

abbrev sent : System
sent = at 8 true 1 0 (pushed true)

sent-Reach : (e : Bool) → Reach e 2 sent
unfolding add_sender is_destroying
sent-Reach e =
    advance (sent)
      (advance (at 8 false 0 0 pushing)
        (advance (at 0 false 0 0 (entering 0)) (start) (pick [] (outside ∷ []) refl refl enter))
        (pick [] (outside ∷ []) refl refl (register refl refl)))
      (pick [] (outside ∷ []) refl refl push)

abbrev owed : System
owed = at 1 true 1 0 owing

owed-Reach : (e : Bool) → Reach e 2 owed
unfolding leave claims owes_enqueue sub_sender is_destroying is_scheduled is_running set_scheduled
owed-Reach e =
    advance (owed)
      (advance (at 8 true 1 0 (leaving true 8)) (sent-Reach e)
        (pick [] (outside ∷ []) refl refl leave_load))
      (pick [] (outside ∷ []) refl refl (leave_win refl))

abbrev taken : System
taken = at 1 true 1 0 (acquiring 1)

taken-Reach : (e : Bool) → Reach e 2 taken
taken-Reach e =
    advance (taken)
      (advance (at 1 true 1 0 holding)
        (advance (at 1 true 1 1 outside) (owed-Reach e) (pick [] (outside ∷ []) refl refl enqueue))
        (pick [] (outside ∷ []) refl refl (dequeue refl)))
      (pick [] (outside ∷ []) refl refl acquire_load)

abbrev going : System
going = at 2 true 1 0 started

going-Reach : (e : Bool) → Reach e 2 going
unfolding acquire is_running set_scheduled set_running
going-Reach e =
    advance (going) (taken-Reach e) (pick [] (outside ∷ []) refl refl (acquire_win refl refl))

abbrev ending : System
ending = at 4 false 0 0 drained

ending-Reach : (e : Bool) → Reach e 2 ending
unfolding set_destroying is_destroying is_running sender_count
ending-Reach e =
    advance (ending)
      (advance (at 4 false 0 0 draining)
        (advance (at 0 false 0 0 (publishing 0)) (start) (pick [] (outside ∷ []) refl refl destroy))
        (pick [] (outside ∷ []) refl refl (publish refl refl)))
      (pick [] (outside ∷ []) refl refl (drain refl refl))

open_mailbox_served_example :
    1 ≤ 0 + total runs sent.threads + total pending sent.threads + total wakes sent.threads
unfolding is_destroying
open_mailbox_served_example = open_mailbox_served (omega arith) (sent-Reach true) refl refl

word_tracks_threads_example :
    (bit (is_running 2) ≡ total runs going.threads)
    × (total runs going.threads ≤ 1)
    × (sender_count 2 ≡ total registered going.threads)
word_tracks_threads_example = word_tracks_threads (omega arith) (going-Reach true)

drained_no_senders_example : (total registered ending.threads ≡ 0) × (is_destroying 4 ≡ true)
unfolding total
drained_no_senders_example = drained_no_senders (omega arith) (ending-Reach true) (omega arith)

one_job_example : 0 + total pending owed.threads + total runs owed.threads ≤ 1
one_job_example = one_job (omega arith) (owed-Reach false)

workers_never_contend_example : is_running 1 ≡ false
workers_never_contend_example =
    workers_never_contend (omega arith) (taken-Reach false) [] (outside ∷ []) 1 refl
