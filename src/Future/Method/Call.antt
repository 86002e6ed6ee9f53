-- ===== src/Future/Method/Call.antt =====
-- The whole life of a call of a coroutine method, in one thread.
use actor_zeta.Future.SharedState.{no_error, interrupted, ErrorCode}
use actor_zeta.Future.Promise.{error}
use actor_zeta.Base.{
  ℕ, ◌+◌, ◌*◌, ◌^◌, ◌≤◌, ◌<◌, ◌≡◌, ◌≢◌, refl, ap, ◌∙◌, Bool, true, false, List, some, arith, ◌==◌,
}
use actor_zeta.Rtt.{u64_mod}
use actor_zeta.Queue.Links.{Ptr, null}
use actor_zeta.Future.SharedState.{SharedState, new_state, is_ready, release_future}
use actor_zeta.Future.States.{States, store}
use actor_zeta.Future.Promise.{Extraction, value, thrown, refused, take_ready}
use actor_zeta.Future.Handles.{future_release, extract}
use actor_zeta.Future.Coroutine.{await_suspend, unhandled_exception}
use actor_zeta.Future.Frames.{
  Frames, Request, padded_size, allocate_coro_frame, deallocate-allocate_coro_frame,
}
use actor_zeta.Future.Method.Resource.{Argument, extract_resource_or_abort}
use actor_zeta.Future.Method.{
  construct, Completion, returned, failed_with, threw, get_return_object, complete, Called,
  operator_new, operator_delete_sized, operator_delete, call,
}

abbrev pub extraction : {V X : Type 0} → Completion V X → Extraction V X
extraction (returned v) = value v
extraction (failed_with ec) = refused
extraction (threw ep) = thrown ep

abbrev pub error_of : {V X : Type 0} → Completion V X → ErrorCode
error_of (returned v) = no_error
error_of (failed_with ec) = ec
error_of (threw ep) = interrupted

frame_lem :
    (header_size align : ℕ) (headers written : Frames) (res size raw : ℕ) (request : Request)
    (frame : Ptr)
    → res ≢ null
    → raw ≢ null
    → allocate_coro_frame header_size align headers res size raw ≡ some (request, written, frame)
    → frame ≡ raw + padded_size header_size align
unfolding allocate_coro_frame
frame_lem header_size align headers written res size raw request frame given got e = ground arith

module _ {V X : Type 0} where
  abbrev pub ended : Completion V X → SharedState V X
  ended c = (await_suspend (complete c new_state)).state

  -- A new state behind the final suspend point.
  ended_lem :
      (c : Completion V X)
      → ((await_suspend (complete c new_state)).destroyed ≡ false)
        × (is_ready (ended c) ≡ true)
        × ((take_ready (ended c)).0 ≡ extraction c)
        × (error (some (ended c)) ≡ error_of c)
        × ((release_future (ended c)).deallocated ≡ 1)
  unfolding error complete await_suspend is_ready take_ready release_future unhandled_exception
  ended_lem (returned v) = ground arith
  ended_lem (failed_with ec) = ground arith
  ended_lem (threw ep) = ground arith

  -- A method that is called on arguments of which one gives a resource, and that ends at once,
  -- with memory that is aligned as asked: its frame is left to its future, which yields what the
  -- body ended with; and when the future is destroyed the frame and the state are given back, once
  -- each, the frame with exactly the request that it was allocated with, by either form of delete.
  pub call_lem :
      (header_size align : ℕ) (headers : Frames) (args : List Argument) (size raw : ℕ)
      (states : States V X) (at : Ptr) (c : Completion V X) (done : Ptr → Bool) (res k b : ℕ)
      → k ≤ 63
      → align ≡ 2 ^ k
      → header_size + align < u64_mod
      → raw ≡ b * align
      → raw ≢ null
      → at ≢ null
      → extract_resource_or_abort args ≡ some res
      → done (raw + padded_size header_size align) ≡ true
      → (r : Called V X) × (call header_size align headers args size raw states at c ≡ some r)
        × (r.destroyed ≡ false)
        × ((extract done r.states r.future).0 ≡ extraction c)
        × (error (some (r.states r.future.state)) ≡ error_of c)
        × (operator_delete_sized header_size align r.frames
              (future_release done r.states r.future).0
              size
            ≡ some r.request)
        × (operator_delete header_size align r.frames (future_release done r.states r.future).0
            ≡ some r.request)
        × (((future_release done r.states r.future).1 at).deallocated ≡ 1)
  unfolding call operator_new operator_delete_sized operator_delete construct get_return_object
      extract future_release
  call_lem header_size align headers args size raw states at c done res k b small al fits multiple
        there placed supplied suspended =
      let some_res : res ≢ null = unfold extract_resource_or_abort in ground (arith, supplied) in
      let (request, written, frame, e, sized, unsized, here, room, aligned) =
        deallocate-allocate_coro_frame header_size align headers res size raw k b small al fits
          multiple some_res there in
      let (kept, ready, yields, code, freed) = ended_lem c in
      let at_frame =
        frame_lem header_size align headers written res size raw request frame some_res there e in
      let is_done : done frame ≡ true = ap done at_frame ∙ suspended in
      let set : (frame == null) ≡ false = ground (arith, there, at_frame) in
      let given : (res == null) ≡ false = ground (arith, some_res) in
      let state_set : (at == null) ≡ false = ground (arith, placed) in
      let same : (at == at) ≡ true = ground arith in
      (
        record {
          request = request;
          frames = written;
          states = store (store states at new_state) at (ended c);
          future = record { state = at; handle = frame };
          destroyed = false;
        },
        rw (supplied, e, given, same, kept) refl,
        refl,
        rw (same, yields) refl,
        rw same code,
        rw (set, is_done) sized,
        rw (set, is_done) unsized,
        rw (state_set, same) freed,
      )
