-- ===== src/Future/Release.antt =====
-- The end of a shared state, with promise and future on two threads, one atomic access at a time:
-- `promise::settle` (detail/future.hpp), which `final_awaiter` repeats, over `release_promise` and
-- `try_complete_finalize`, against `release_future` (detail/shared_state.hpp). The value and the
-- error are written before the flag that publishes them, and so count as one access with it.
use actor_zeta.Base.{ℕ, ◌+◌, ◌≤◌, ◌≡◌, Bool, true, false, not, ◌&&◌, arith, if◌then◌else◌}
use actor_zeta.Future.Flags.{
  Flags, empty, result_set, or_flags, clear_flags, same_flags, same_flags-eq, eq-same_flags,
  mask_value_set, mask_error_set, mask_consumed, mask_future_released, mask_promise_finalizing,
}

-- The producer in `settle`: `completing` holds what the first load of `try_complete_finalize` read.
pub data Producer : Type 0 where
  live settling finalizing : Producer
  loaded : (failing : Bool) → Producer
  released : Producer
  completing : (current : Flags) → Producer
  clearing : Producer
  -- with whether `future_released` was set when the last `fetch_and` cleared `promise_finalizing`
  finished : (overlooked : Bool) → Producer

pub data Consumer : Type 0 where
  holding gone : Consumer

pub record System : Type 0 where
  pub flags : Flags
  pub deallocated : ℕ
  pub producer : Producer
  pub consumer : Consumer

abbrev pub init : System
init = record { flags = empty; deallocated = 0; producer = live; consumer = holding }

-- `fetch_or` of what `release_promise` computed.
abbrev pub release_bits : Bool → Flags
release_bits failing = record empty { promise_released = true; error_set = failing }

abbrev pub bit : Bool → ℕ
bit true = 1
bit false = 0

abbrev pub expected_flags : Flags → Flags
expected_flags current = clear_flags current mask_future_released

abbrev pub desired_flags : Flags → Flags
desired_flags current = clear_flags (expected_flags current) mask_promise_finalizing

pub data Step (s : System) : System → Type 0 where
  -- the producer
  produce_value :
      s.producer ≡ live
      → Step s (record s { flags = or_flags s.flags mask_value_set; producer = settling })
  produce_error :
      s.producer ≡ live
      → Step s (record s { flags = or_flags s.flags mask_error_set; producer = settling })
  -- a coroutine that ends without a result
  produce_nothing : s.producer ≡ live → Step s (record s { producer = settling })
  finalize :
      s.producer ≡ settling
      → Step s
          (record s { flags = or_flags s.flags mask_promise_finalizing; producer = finalizing })
  load_result :
      s.producer ≡ finalizing → Step s (record s { producer = loaded (not (result_set s.flags)) })
  release :
      {failing : Bool}
      → s.producer ≡ loaded failing
      → Step s (record s {
        flags = or_flags s.flags (release_bits failing);
        deallocated = s.deallocated + bit s.flags.future_released;
        producer = if s.flags.future_released then finished false else released;
      })
  load_current : s.producer ≡ released → Step s (record s { producer = completing s.flags })
  complete :
      {current : Flags}
      → s.producer ≡ completing current
      → same_flags s.flags (expected_flags current) ≡ true
      → Step s (record s { flags = desired_flags current; producer = finished false })
  complete_fails :
      {current : Flags}
      → s.producer ≡ completing current
      → same_flags s.flags (expected_flags current) ≡ false
      → Step s (record s {
        deallocated = s.deallocated + bit s.flags.future_released;
        producer = if s.flags.future_released then finished false else clearing;
      })
  clear :
      s.producer ≡ clearing
      → Step s (record s {
        flags = clear_flags s.flags mask_promise_finalizing;
        producer = finished s.flags.future_released;
      })
  -- the consumer: `take_value`, then `release_future`
  consume :
      s.consumer ≡ holding
      → result_set s.flags ≡ true
      → Step s (record s { flags = or_flags s.flags mask_consumed })
  release_future :
      s.consumer ≡ holding
      → Step s (record s {
        flags = or_flags s.flags mask_future_released;
        deallocated =
            s.deallocated + bit (s.flags.promise_released && not s.flags.promise_finalizing);
        consumer = gone;
      })

pub data Reach : System → Type 0 where
  start : Reach init
  later : {s t : System} → Reach s → Step s t → Reach t

abbrev pub is_finished : Producer → Bool
is_finished (finished o) = true
is_finished _ = false

abbrev pub is_gone : Consumer → Bool
is_gone gone = true
is_gone holding = false

abbrev pub overlooked : Producer → ℕ
overlooked (finished o) = bit o
overlooked _ = 0

-- What the flags say of the producer, before it is finished.
abbrev Tracks : Producer → Flags → Type 0
Tracks live f = (f.promise_released ≡ false) × (f.promise_finalizing ≡ false)
Tracks settling f = (f.promise_released ≡ false) × (f.promise_finalizing ≡ false)
Tracks finalizing f = (f.promise_released ≡ false) × (f.promise_finalizing ≡ true)
Tracks (loaded failing) f =
    (f.promise_released ≡ false) × (f.promise_finalizing ≡ true) × (failing ≡ not (result_set f))
Tracks (completing c) f =
    (f.promise_released ≡ true)
    × (f.promise_finalizing ≡ true)
    × (c ≡ record f { consumed = c.consumed; future_released = c.future_released })
    × (c.consumed ≡ true → f.consumed ≡ true)
Tracks clearing f =
    (f.promise_released ≡ true) × (f.promise_finalizing ≡ true) × (f.consumed ≡ true)
Tracks (finished o) f = Unit {0}
Tracks _ f = (f.promise_released ≡ true) × (f.promise_finalizing ≡ true)

record Inv (s : System) : Type 0 where
  tracks : Tracks s.producer s.flags
  leaves : s.flags.future_released ≡ is_gone s.consumer
  settled : s.flags.promise_released ≡ true → result_set s.flags ≡ true
  ended : is_finished s.producer ≡ true → s.flags.promise_released ≡ true
  open_end :
      is_finished s.producer ≡ true
      → is_gone s.consumer ≡ false
      → s.flags.promise_finalizing ≡ false
  early : is_finished s.producer && is_gone s.consumer ≡ false → s.deallocated ≡ 0
  sound : is_gone s.consumer ≡ false → overlooked s.producer ≡ 0
  taken : overlooked s.producer ≡ 1 → s.flags.consumed ≡ true
  once :
      is_finished s.producer && is_gone s.consumer ≡ true
      → s.deallocated + overlooked s.producer ≡ 1

Step-Inv : {s t : System} → Step s t → Inv s → Inv t
unfolding or_flags clear_flags result_set
Step-Inv (produce_value e) i = ground arith
Step-Inv (produce_error e) i = ground arith
Step-Inv (produce_nothing e) i = ground arith
Step-Inv (finalize e) i = ground arith
Step-Inv (load_result e) i = ground arith
Step-Inv (release e) i = ground arith
Step-Inv (load_current e) i = ground arith
Step-Inv {s} (complete {current} e c) i =
    ground (arith, same_flags-eq s.flags (expected_flags current))
Step-Inv {s} (complete_fails {current} e c) i =
    ground (arith, eq-same_flags s.flags (expected_flags current))
Step-Inv (clear e) i = ground arith
Step-Inv (consume e r) i = ground arith
Step-Inv (release_future e) i = ground arith

Reach-Inv : {s : System} → Reach s → Inv s
unfolding result_set
Reach-Inv start = ground arith
Reach-Inv (later r st) = Step-Inv st (Reach-Inv r)

step-deallocated : {s t : System} → Step s t → Inv s → s.deallocated ≡ 0
step-deallocated (produce_value e) i = ground arith
step-deallocated (produce_error e) i = ground arith
step-deallocated (produce_nothing e) i = ground arith
step-deallocated (finalize e) i = ground arith
step-deallocated (load_result e) i = ground arith
step-deallocated (release e) i = ground arith
step-deallocated (load_current e) i = ground arith
step-deallocated (complete e c) i = ground arith
step-deallocated (complete_fails e c) i = ground arith
step-deallocated (clear e) i = ground arith
step-deallocated (consume e r) i = ground arith
step-deallocated (release_future e) i = ground arith

-- Every step from a reachable state of the release protocol touches a shared state that is not
-- deallocated.
pub no_use_after_free : {s t : System} → Reach s → Step s t → s.deallocated ≡ 0
no_use_after_free r st = step-deallocated st (Reach-Inv r)

-- In every reachable state in which promise and future are both through, the shared state has been
-- deallocated exactly once, unless the producer's last fetch_and overlooked that the future had
-- just been released: then never, and only if a value was taken.
pub deallocated_once :
    {s : System}
    → Reach s
    → is_finished s.producer ≡ true
    → is_gone s.consumer ≡ true
    → (s.deallocated + overlooked s.producer ≡ 1) × (overlooked s.producer ≤ bit s.flags.consumed)
deallocated_once {s} r done left = ground (arith, Reach-Inv r)

-- In every reachable state a released promise has left a value or an error.
pub ready-has_result :
    {s : System} → Reach s → s.flags.promise_released ≡ true → result_set s.flags ≡ true
ready-has_result r = (Reach-Inv r).settled
