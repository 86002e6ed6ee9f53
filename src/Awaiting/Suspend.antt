-- ===== src/Awaiting/Suspend.antt =====
-- header/actor-zeta/detail/future_awaiters.hpp: `future_await_suspend_cas`, one atomic access at a
-- time, against the end of the producer (`final_awaiter::await_suspend` of detail/future.hpp, or a
-- promise, which sets flags only) and against the driver's poll (detail/behavior_t.hpp).
use actor_zeta.Base.{ℕ, suc, ◌+◌, ◌≤◌, ◌≡◌, Bool, true, false, arith}

-- The thread of the awaiting coroutine. `went_on`: the co_await is over for it without the others.
pub data Consumer : Type 0 where
  checking registering registered reclaiming suspended went_on : Consumer

-- The producer; `taken` and `released` hold whether it took a continuation.
pub data Producer : Type 0 where
  running settled : Producer
  taken : (continuation : Bool) → Producer
  released : (continuation : Bool) → Producer
  ended : Producer

-- `continuation`: whether `continuation_` is set, to the awaiting coroutine. `runs` counts how often
-- that coroutine has been let go on behind its co_await.
pub record Race : Type 0 where
  pub continuation : Bool
  pub result_set : Bool
  pub promise_released : Bool
  pub consumer : Consumer
  pub producer : Producer
  pub runs : ℕ

abbrev pub init : Race
init = record {
  continuation = false;
  result_set = false;
  promise_released = false;
  consumer = checking;
  producer = running;
  runs = 0;
}

pub data Step (s : Race) : Race → Type 0 where
  -- await_ready
  ready :
      s.consumer ≡ checking
      → s.result_set ≡ true
      → Step s (record s { consumer = went_on; runs = suc s.runs })
  not_ready :
      s.consumer ≡ checking → s.result_set ≡ false → Step s (record s { consumer = registering })
  -- the compare-exchange of `continuation_`, from null
  register :
      s.consumer ≡ registering
      → s.continuation ≡ false
      → Step s (record s { continuation = true; consumer = registered })
  load_set :
      s.consumer ≡ registered → s.result_set ≡ true → Step s (record s { consumer = reclaiming })
  load_unset :
      s.consumer ≡ registered → s.result_set ≡ false → Step s (record s { consumer = suspended })
  reclaim :
      s.consumer ≡ reclaiming
      → s.continuation ≡ true
      → Step s (record s { continuation = false; consumer = went_on; runs = suc s.runs })
  reclaim_nothing :
      s.consumer ≡ reclaiming → s.continuation ≡ false → Step s (record s { consumer = suspended })
  -- the driver: is_awaited_ready, take_awaited_continuation, resume
  drain :
      s.consumer ≡ suspended
      → s.promise_released ≡ true
      → s.continuation ≡ true
      → Step s (record s { continuation = false; runs = suc s.runs })
  -- the producer, with a result and without
  settle : s.producer ≡ running → Step s (record s { result_set = true; producer = settled })
  give_up : s.producer ≡ running → Step s (record s { producer = settled })
  take :
      s.producer ≡ settled
      → Step s (record s { continuation = false; producer = taken s.continuation })
  release :
      {c : Bool}
      → s.producer ≡ taken c
      → Step s (record s { result_set = true; promise_released = true; producer = released c })
  resume : s.producer ≡ released true → Step s (record s { producer = ended; runs = suc s.runs })
  resume_nothing : s.producer ≡ released false → Step s (record s { producer = ended })
  -- a promise takes no continuation
  flag_only :
      s.producer ≡ settled
      → Step s (record s { result_set = true; promise_released = true; producer = ended })

pub data Reach : Race → Type 0 where
  start : Reach init
  later : {s t : Race} → Reach s → Step s t → Reach t

abbrev bit : Bool → ℕ
bit true = 1
bit false = 0

-- What the producer has taken and not yet resumed.
abbrev pub held : Producer → ℕ
held (taken c) = bit c
held (released c) = bit c
held _ = 0

abbrev pub has_registered : Consumer → Bool
has_registered checking = false
has_registered registering = false
has_registered _ = true

abbrev has_released : Producer → Bool
has_released (released c) = true
has_released ended = true
has_released _ = false

record Inv (s : Race) : Type 0 where
  owned : bit s.continuation + held s.producer + s.runs ≡ bit (has_registered s.consumer)
  over : s.consumer ≡ went_on → s.runs ≡ 1
  announced : s.promise_released ≡ has_released s.producer
  result : s.promise_released ≡ true → s.result_set ≡ true

Step-Inv : {s t : Race} → Step s t → Inv s → Inv t
Step-Inv (ready e r) i = ground arith
Step-Inv (not_ready e r) i = ground arith
Step-Inv (register e c) i = ground arith
Step-Inv (load_set e r) i = ground arith
Step-Inv (load_unset e r) i = ground arith
Step-Inv (reclaim e c) i = ground arith
Step-Inv (reclaim_nothing e c) i = ground arith
Step-Inv (drain e p c) i = ground arith
Step-Inv (settle e) i = ground arith
Step-Inv (give_up e) i = ground arith
Step-Inv (take e) i = ground arith
Step-Inv (release e) i = ground arith
Step-Inv (resume e) i = ground arith
Step-Inv (resume_nothing e) i = ground arith
Step-Inv (flag_only e) i = ground arith

Reach-Inv : {s : Race} → Reach s → Inv s
Reach-Inv start = ground arith
Reach-Inv (later r st) = Step-Inv st (Reach-Inv r)

-- In every reachable state the awaiting coroutine has gone on at most once, and registering it
-- never finds the continuation set: no second co_await is seen.
pub resumed_at_most_once :
    {s : Race} → Reach s → (s.runs ≤ 1) × (s.consumer ≡ registering → s.continuation ≡ false)
resumed_at_most_once r = let i = Reach-Inv r in ground arith

-- No wake-up is lost: in every reachable state in which the producer has ended and the awaiting
-- coroutine is suspended and has not gone on, the driver's next poll lets it go on, once.
pub wake_up_not_lost :
    {s : Race}
    → Reach s
    → s.producer ≡ ended
    → s.consumer ≡ suspended
    → s.runs ≡ 0
    → (t : Race) × Step s t × (t.runs ≡ 1) × (t.continuation ≡ false) × (t.result_set ≡ true)
wake_up_not_lost {s} r over asleep still =
    let i = Reach-Inv r in
    let registered : s.continuation ≡ true = ground arith in
    let announced : s.promise_released ≡ true = ground arith in
    let t : Race = record s { continuation = false; runs = suc s.runs } in
    (t, drain asleep announced registered, ground arith, ground arith, ground arith)
