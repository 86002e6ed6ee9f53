-- ===== src/Awaiting/Tests.antt =====
-- The coroutine 10 awaits nothing new, 11 awaits it, and both wait for the state at 50; 12 and 13
-- are a row of their own until 12 awaits 11.
use actor_zeta.Future.Method.Resource.{
  pointer, object, extract_resource_impl, extract_resource_or_abort,
}
use actor_zeta.Awaiting.Root.{Root, behave_all, construct, behave_all-even}
use actor_zeta.Base.{
  length, ◌⊎◌, ◌≡◌, ◌≢◌, refl, Bool, true, false, [], ◌∷◌, ◌++◌, none, some, arith, ◌==◌,
  if◌then◌else◌,
}
use actor_zeta.Queue.Links.{Ptr, null}
use actor_zeta.Future.SharedState.{new_state, is_ready}
use actor_zeta.Message.{States}
use actor_zeta.Awaiting.{
  Awaiter, Awaiters, idle_awaiter, propagate_awaited_state, clear_awaited_chain, is_busy,
  is_awaited_ready, take_awaited_continuation,
}
use actor_zeta.Awaiting.Chain.{Row, AllWait}
use actor_zeta.Awaiting.Propagate.{propagate_awaited_state-Row}
use actor_zeta.Awaiting.Driver.{driver_sees_deepest}
use actor_zeta.Awaiting.Suspend.{
  Race, suspended, ended, Step, Reach, start, later, not_ready, register, load_unset, settle,
  flag_only, wake_up_not_lost,
}

abbrev no_states : States Bool Bool
no_states p = new_state

abbrev reporting : Ptr → Ptr → Awaiter
reporting outer state = record {
  awaited_flags = state;
  awaited_continuation = state;
  propagated_to_flags = outer;
  propagated_to_cont = outer;
  outer_promise_raw = outer;
  outer_update_fn = if outer == null then false else true;
}

abbrev promises : Awaiters
promises p =
    if p == 10
    then reporting 11 50
    else if p == 11
    then reporting null 50
    else if p == 12
    then reporting 13 null
    else idle_awaiter

inner-Row : Row promises 10 (11 ∷ [])
inner-Row = (
  omega arith,
  record { flags = refl; cont = refl; raw = refl; fn = λ n. refl },
  record { flags = refl; cont = refl; raw = refl; fn = λ n. absurd (n refl) },
)

outer-Row : Row promises 12 (13 ∷ [])
outer-Row = (
  omega arith,
  record { flags = refl; cont = refl; raw = refl; fn = λ n. refl },
  record { flags = refl; cont = refl; raw = refl; fn = λ n. absurd (n refl) },
)

propagate_awaited_state-Row_example :
    (h' : Awaiters) × (propagate_awaited_state 2 promises 12
        (record { state = 60; has_result = false; coroutine = 11 })
      ≡ some h')
    × Row h' 10 ((11 ∷ []) ++ (12 ∷ 13 ∷ []))
    × AllWait h' ((10 ∷ 11 ∷ []) ++ (12 ∷ 13 ∷ [])) 50 50
propagate_awaited_state-Row_example =
    propagate_awaited_state-Row 2 promises 10 (11 ∷ []) 12 (13 ∷ []) 60 50 50 (omega arith)
      inner-Row outer-Row (ground arith) (ground arith) (ground arith) (ground arith) (omega arith)
      (omega arith) (omega arith)

driver_sees_deepest_example :
    (h1 h2 : Awaiters) × (propagate_awaited_state 2 promises 12
        (record { state = 60; has_result = false; coroutine = 11 })
      ≡ some h1)
    × (is_busy (λ _. false) h1 (record { handle = 13 }) ≡ true)
    × (is_awaited_ready (λ _. false) h1 no_states (record { handle = 13 })
        ≡ is_ready (no_states 50))
    × ((take_awaited_continuation (λ _. false) h1 no_states (record { handle = 13 })).0
        ≡ (no_states 50).continuation)
    × ((take_awaited_continuation
          (λ _. false)
          h1
          (take_awaited_continuation (λ _. false) h1 no_states (record { handle = 13 })).1
          (record { handle = 13 })).0
        ≡ none)
    × (clear_awaited_chain 2 h1 12 ≡ some h2)
    × (is_busy (λ _. false) h2 (record { handle = 13 }) ≡ false)
    × (is_awaited_ready (λ _. false) h2 no_states (record { handle = 13 }) ≡ false)
    × (take_awaited_continuation (λ _. false) h2 no_states (record { handle = 13 })
        ≡ (none, no_states))
driver_sees_deepest_example =
    driver_sees_deepest 2 promises 10 (11 ∷ []) 12 (13 ∷ []) 60 50 (λ _. false) no_states
      (omega arith) inner-Row outer-Row (ground arith) (ground arith) (ground arith) (ground arith)
      (omega arith) (omega arith) (omega arith) refl

-- The coroutine suspends before a promise is fulfilled.
abbrev asleep : Race
asleep = record {
  continuation = true;
  result_set = true;
  promise_released = true;
  consumer = suspended;
  producer = ended;
  runs = 0;
}

asleep-Reach : Reach asleep
asleep-Reach =
    later
      (later
        (later (later (later start (not_ready refl refl)) (register refl refl))
          (load_unset refl refl))
        (settle refl))
      (flag_only refl)

wake_up_not_lost_example :
    (t : Race) × Step asleep t × (t.runs ≡ 1) × (t.continuation ≡ false) × (t.result_set ≡ true)
wake_up_not_lost_example = wake_up_not_lost asleep-Reach refl refl refl

-- The actor's resource is 64, and two frames of its behavior follow a header of 16 bytes.
behave_all-even_example :
    (r : Root 16 16 200) × (behave_all 16 16 200
        (record {
          current = record { handle = null };
          headers = λ p. record { resource = null; frame_size = 0 };
          asked = [];
          given_back = [];
        })
        (pointer true 64 ∷ object false 0 ∷ [])
        (4096 ∷ 8192 ∷ [])
      ≡ some r)
    × (r.given_back ≡ r.asked)
    × (length r.asked ≡ 2)
    × (((extract_resource_impl (pointer true 64) ≡ null)
          × (construct (pointer true 64 ∷ object false 0 ∷ []) ≡ null))
        ⊎ ((extract_resource_impl (pointer true 64) ≢ null)
            × (construct (pointer true 64 ∷ object false 0 ∷ []) ≡ 64)))
unfolding extract_resource_or_abort
behave_all-even_example =
    behave_all-even 16 16 200 (λ p. record { resource = null; frame_size = 0 }) (pointer true 64)
      (object false 0 ∷ []) 64 (4096 ∷ 8192 ∷ []) refl (ground arith)
