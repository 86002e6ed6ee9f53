-- ===== src/Future/Method/Tests.antt =====
-- A method of an actor whose memory resource is 64, with an argument that has none; its frame stands
-- at 4096 behind a header of 16 bytes.
use actor_zeta.Future.SharedState.{no_error}
use actor_zeta.Future.Promise.{error}
use actor_zeta.Base.{ℕ, ◌≡◌, refl, true, false, List, [], ◌∷◌, some, arith}
use actor_zeta.Queue.Links.{null}
use actor_zeta.Future.SharedState.{new_state}
use actor_zeta.Future.States.{States}
use actor_zeta.Future.Promise.{value}
use actor_zeta.Future.Handles.{future_release, extract}
use actor_zeta.Future.Frames.{Frames}
use actor_zeta.Future.Method.Resource.{Argument, object, pointer, extract_resource_or_abort}
use actor_zeta.Future.Method.{Called, returned, call, operator_delete_sized, operator_delete}
use actor_zeta.Future.Method.Call.{call_lem}

abbrev arguments : List Argument
arguments = object false 0 ∷ pointer true 64 ∷ []

abbrev no_frames : Frames
no_frames p = record { resource = null; frame_size = 0 }

abbrev no_states : States ℕ ℕ
no_states p = new_state

call_lem_example :
    (r : Called ℕ ℕ) × (call 16 16 no_frames arguments 200 4096 no_states 100 (returned 7) ≡ some r)
    × (r.destroyed ≡ false)
    × ((extract (λ _. true) r.states r.future).0 ≡ value 7)
    × (error (some (r.states r.future.state)) ≡ no_error)
    × (operator_delete_sized 16 16 r.frames (future_release (λ _. true) r.states r.future).0 200
        ≡ some r.request)
    × (operator_delete 16 16 r.frames (future_release (λ _. true) r.states r.future).0
        ≡ some r.request)
    × (((future_release (λ _. true) r.states r.future).1 100).deallocated ≡ 1)
unfolding extract_resource_or_abort
call_lem_example =
    call_lem 16 16 no_frames arguments 200 4096 no_states 100 (returned 7) (λ _. true) 64 4 256
      (omega arith) refl (omega arith) refl (omega arith) (omega arith) refl refl
