-- ===== src/Actor/Protocol/Steps.antt =====
-- The steps of one thread, the system of all threads, and its reachable states.
use actor_zeta.Base.{ℕ, zero, suc, ◌≡◌, Bool, true, false, ◌||◌, List, [], ◌∷◌, ◌++◌}
use actor_zeta.Actor.StateWord.{
  ActorState, idle, is_scheduled, is_running, is_destroying, set_destroying, sender_count,
  add_sender, make_state,
}
use actor_zeta.Actor.Protocol.{
  blocked, opened, is_blocked, push_back, unblock, Verdict, Shared, Pc, outside, entering, pushing,
  pushed, leaving, owing, holding, acquiring, started, opening, working, parked, checking, finished,
  releasing, publishing, draining, drained, finishing, destroyed, contend, acquire, release, leave,
  owes_enqueue, owing_if, after_resume,
}

-- One access by one thread. `external` says whether anything but the scheduler calls `resume`.
pub data Move (external : Bool) (s : Shared) : Pc → Shared → Pc → Type 0 where
  -- enqueue_impl
  enter : Move external s outside s (entering s.state)
  refuse : {c : ActorState} → is_destroying c ≡ true → Move external s (entering c) s outside
  enter_retry : {c : ActorState} → Move external s (entering c) s (entering s.state)
  register :
      {c : ActorState}
      → is_destroying c ≡ false
      → s.state ≡ c
      → Move external s (entering c) (record s { state = add_sender c }) pushing
  push : Move external s pushing (record s { box = push_back s.box }) (pushed (is_blocked s.box))
  leave_load : {u : Bool} → Move external s (pushed u) s (leaving u s.state)
  leave_retry : {u : Bool} {c : ActorState} → Move external s (leaving u c) s (leaving u s.state)
  leave_win :
      {u : Bool} {c : ActorState}
      → s.state ≡ c
      → Move external s (leaving u c) (record s { state = leave c u }) (owing_if (owes_enqueue c u))
  -- scheduler->enqueue, and a worker's dequeue
  enqueue : Move external s owing (record s { jobs = suc s.jobs }) outside
  dequeue : {n : ℕ} → s.jobs ≡ suc n → Move external s outside (record s { jobs = n }) holding
  -- resume
  drive : external ≡ true → Move external s outside s (acquiring s.state)
  acquire_load : Move external s holding s (acquiring s.state)
  acquire_retry : {c : ActorState} → Move external s (acquiring c) s (acquiring s.state)
  acquire_lose :
      {c : ActorState}
      → is_running c ≡ true
      → s.state ≡ c
      → Move external s (acquiring c) (record s { state = contend c }) outside
  acquire_win :
      {c : ActorState}
      → is_running c ≡ false
      → s.state ≡ c
      → Move external s (acquiring c) (record s { state = acquire c }) started
  see_destroying :
      is_destroying s.state ≡ true → Move external s started s (finished Verdict.done false)
  see_alive : is_destroying s.state ≡ false → Move external s started s opening
  un_park : Move external s opening (record s { box = unblock s.box }) working
  -- a behavior waits for a future: keep the actor scheduled
  busy : Move external s working s (finished Verdict.resume true)
  see_blocked :
      is_blocked s.box ≡ true → Move external s working s (finished Verdict.awaiting false)
  stop_destroying :
      is_destroying s.state ≡ true → Move external s working s (finished Verdict.done false)
  handle :
      {n : ℕ}
      → s.box ≡ opened (suc n)
      → Move external s working (record s { box = opened n }) working
  -- park: `try_block`, then `check_race_window`
  block : s.box ≡ opened 0 → Move external s working (record s { box = blocked }) parked
  block_fails :
      {n : ℕ} → s.box ≡ opened (suc n) → Move external s working s (finished Verdict.resume true)
  still_blocked :
      is_blocked s.box ≡ true → Move external s parked s (finished Verdict.awaiting false)
  unblocked : is_blocked s.box ≡ false → Move external s parked s checking
  race_empty : s.box ≡ opened 0 → Move external s checking s (finished Verdict.awaiting false)
  race_message :
      {n : ℕ} → s.box ≡ opened (suc n) → Move external s checking s (finished Verdict.resume true)
  -- ~resume_guard
  release_load :
      {v : Verdict} {k : Bool}
      → Move external s (finished v k) s (releasing v k (is_scheduled s.state) s.state)
  release_retry :
      {v : Verdict} {k w : Bool} {c : ActorState}
      → Move external s (releasing v k w c) s (releasing v k (w || is_scheduled s.state) s.state)
  release_win :
      {v : Verdict} {k w : Bool} {c : ActorState}
      → s.state ≡ c
      → Move external s (releasing v k w c) (record s { state = release c k }) (after_resume v w)
  -- ~cooperative_actor
  destroy : Move external s outside s (publishing s.state)
  publish_retry :
      {c : ActorState}
      → is_destroying c ≡ false
      → Move external s (publishing c) s (publishing s.state)
  publish :
      {c : ActorState}
      → is_destroying c ≡ false
      → s.state ≡ c
      → Move external s (publishing c) (record s { state = set_destroying c }) draining
  published : {c : ActorState} → is_destroying c ≡ true → Move external s (publishing c) s draining
  drain : is_running s.state ≡ false → sender_count s.state ≡ 0 → Move external s draining s drained
  finish_load : Move external s drained s (finishing s.state)
  finish_retry : {c : ActorState} → Move external s (finishing c) s (finishing s.state)
  -- with the two assertions of the destructor
  finish :
      {c : ActorState}
      → is_running c ≡ false
      → sender_count c ≡ 0
      → s.state ≡ c
      → Move external s (finishing c) (record s { state = make_state false false true }) destroyed

pub record System : Type 0 where
  pub shared : Shared
  pub threads : List Pc

-- Any thread moves next.
pub data Step (external : Bool) (s t : System) : Type 0 where
  pick :
      (before after : List Pc) {p q : Pc}
      → s.threads ≡ before ++ (p ∷ after)
      → t.threads ≡ before ++ (q ∷ after)
      → Move external s.shared p t.shared q
      → Step external s t

abbrev pub idle_threads : ℕ → List Pc
idle_threads zero = []
idle_threads (suc n) = outside ∷ idle_threads n

-- The constructor blocks the mailbox.
abbrev pub init : ℕ → System
init n = record {
  shared = record { state = idle; box = blocked; jobs = 0 };
  threads = idle_threads n;
}

pub data Reach (external : Bool) (n : ℕ) : System → Type 0 where
  start : Reach external n (init n)
  later : {s t : System} → Reach external n s → Step external s t → Reach external n t
