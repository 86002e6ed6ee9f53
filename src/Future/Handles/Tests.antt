-- ===== src/Future/Handles/Tests.antt =====
-- A promise at 100 with its future, the value 7, and the end of both.
use actor_zeta.Base.{ℕ, ◌≡◌, ◌≤◌, refl, Bool, true, false, [], ◌∷◌, arith, ◌==◌, if◌then◌else◌}
use actor_zeta.Queue.Links.{Ptr, null}
use actor_zeta.Future.Promise.{promise_set_value}
use actor_zeta.Future.SharedState.{new_state}
use actor_zeta.Future.States.{store}
use actor_zeta.Future.Handles.{
  UniqueFuture, no_future, get_future, make_promise, promise_release, fulfil_value, future_release,
  extract,
}
use actor_zeta.Future.Handles.Owners.{
  producers, consumers, World, empty_world, Reach, start, later, make, ask, settle_value,
  extract_value, destroy_promise, destroy_future,
}
use actor_zeta.Future.Handles.Accounts.{handles_point_to_live_states, deallocated_if_asked}

abbrev future_100 : UniqueFuture
future_100 = record { state = 100; handle = null }

abbrev marked : Ptr → Bool
marked q = if q == 100 then true else false

abbrev made : World ℕ ℕ
made = record (empty_world) {
  states = (make_promise (λ _. new_state) 100).0;
  promises = 100 ∷ [];
  made = marked;
}

abbrev asked : World ℕ ℕ
asked = record made { futures = future_100 ∷ []; asked = marked }

asked-Reach : Reach (λ _. false) asked
unfolding make_promise get_future
asked-Reach =
    later (later start (make 100 (omega arith) refl)) (ask 100 [] future_100 refl refl refl)

handles_point_to_live_states_example :
    (producers 100 asked.promises ≤ 1)
    × (consumers 100 asked.futures ≤ 1)
    × ((asked.states 100).deallocated ≡ 0)
handles_point_to_live_states_example =
    handles_point_to_live_states (λ _. false) asked-Reach 100 (omega arith)

abbrev settled : World ℕ ℕ
settled = record asked {
  states = store asked.states 100 (promise_set_value (asked.states 100) 7);
  promises = null ∷ [];
}

abbrev extracted : World ℕ ℕ
extracted = record settled {
  states = (extract (λ _. false) settled.states future_100).2;
  futures = no_future ∷ [];
}

abbrev over : World ℕ ℕ
over = record extracted { promises = []; futures = [] }

over-Reach : Reach (λ _. false) over
unfolding make_promise get_future fulfil_value extract promise_release future_release
over-Reach =
    later
      (later
        (later (later asked-Reach (settle_value 100 null [] 7 settled.states refl refl))
          (extract_value future_100 [] 7 refl (omega arith) refl))
        (destroy_promise null [] refl))
      (destroy_future no_future [] refl)

deallocated_if_asked_example : (over.states 100).deallocated ≡ 1
deallocated_if_asked_example = deallocated_if_asked (λ _. false) over-Reach refl refl 100 refl
