-- ===== src/Future/Tests.antt =====
-- A state with natural numbers for values and for exceptions, and a run of promise and future.
use actor_zeta.Base.{◌+◌, ◌≤◌, ◌≡◌, refl, Bool, true, false}
use actor_zeta.Future.Flags.{Flags, empty, or_flags, clear_flags, result_set, same, same_flags}
use actor_zeta.Future.Release.{
  System, Producer, live, settling, finalizing, loaded, released, completing, finished, Consumer,
  holding, gone, Step, produce_value, finalize, load_result, load_current, complete_fails, clear,
  clearing, consume, complete, Reach, start, later, init, bit, no_use_after_free, deallocated_once,
  ready-has_result,
}
use actor_zeta.Future.Release

-- The flags of a state with a value, whose promise is released or is finalizing.
abbrev flags : Bool → Bool → Flags
flags promise_released promise_finalizing = record empty {
  value_set = true;
  promise_released = promise_released;
  promise_finalizing = promise_finalizing;
}

abbrev at : Flags → Producer → System
at f p = record { flags = f; deallocated = 0; producer = p; consumer = holding }

advance : {s : System} (t : System) → Reach s → Step s t → Reach t
advance t r st = later r st

abbrev through : System
through = at (flags true false) (finished false)

through-Reach : Reach through
unfolding or_flags clear_flags same_flags same result_set
through-Reach =
    advance through
      (advance (at (flags true true) (completing (flags true true)))
        (advance (at (flags true true) released)
          (advance (at (flags false true) (loaded false))
            (advance (at (flags false true) finalizing)
              (advance (at (flags false false) settling) start (produce_value refl))
              (finalize refl))
            (load_result refl))
          (Release.release refl))
        (load_current refl))
      (complete refl refl)

abbrev over : System
over = record {
  flags = record (flags true false) { future_released = true };
  deallocated = 1;
  producer = finished false;
  consumer = gone;
}

last_step : Step through over
unfolding or_flags
last_step = Release.release_future refl

no_use_after_free_example : through.deallocated ≡ 0
no_use_after_free_example = no_use_after_free through-Reach last_step

deallocated_once_example : (1 + 0 ≡ 1) × (0 ≤ bit false)
deallocated_once_example = deallocated_once (later through-Reach last_step) refl refl

-- A run in which the consumer takes the value between the producer's load and its exchange, and
-- lets go before the producer's last `fetch_and`: both are through, and nobody deallocates.
abbrev consumed_flags : Bool → Bool → Flags
consumed_flags promise_finalizing future_released = record (flags true promise_finalizing) {
  consumed = true;
  future_released = future_released;
}

abbrev leaked : System
leaked = record {
  flags = consumed_flags false true;
  deallocated = 0;
  producer = finished true;
  consumer = gone;
}

leaked-Reach : Reach leaked
unfolding or_flags clear_flags same_flags same result_set
leaked-Reach =
    advance leaked
      (advance
        (record {
          flags = consumed_flags true true;
          deallocated = 0;
          producer = clearing;
          consumer = gone;
        })
        (advance (at (consumed_flags true false) clearing)
          (advance (at (consumed_flags true false) (completing (flags true true)))
            (advance (at (flags true true) (completing (flags true true)))
              (advance (at (flags true true) released)
                (advance (at (flags false true) (loaded false))
                  (advance (at (flags false true) finalizing)
                    (advance (at (flags false false) settling) start (produce_value refl))
                    (finalize refl))
                  (load_result refl))
                (Release.release refl))
              (load_current refl))
            (consume refl refl))
          (complete_fails refl refl))
        (Release.release_future refl))
      (clear refl)
