-- ===== src/Message/Tests.antt =====
-- A message to an actor whose state stands at 100, made, moved, dispatched and destroyed; and its
-- block at 4096.
use actor_zeta.Base.{
  ℕ, suc, ◌+◌, ◌*◌, ◌≤◌, ◌≡◌, refl, true, false, [], ◌∷◌, some, arith, ◌==◌, if◌then◌else◌,
}
use actor_zeta.Rtt.{nothing}
use actor_zeta.Queue.Links.{Ptr, null}
use actor_zeta.Future.SharedState.{new_state, operation_canceled, release_future}
use actor_zeta.Future.Promise.{refused, failed, future_is_ready, error, take_ready}
use actor_zeta.Future.Promise.Outcomes.{IsPending}
use actor_zeta.Future.Frames.{Request}
use actor_zeta.Message.{States, Message, number, move_from, destroy, make_message}
use actor_zeta.Message.Slot.{Owes, destroy-cancels}
use actor_zeta.Message.Block.{
  Platform, BlockHdr, alloc_align, pmr_make_message, message_deleter, hdr_from_message,
  message_deleter-pmr_make_message,
}
use actor_zeta.Message.Pool.{
  World, raise, Reach, start, later, make, move, die, nothing_left_pending,
}

abbrev pub no_states : States ℕ ℕ
no_states p = new_state

abbrev made : States ℕ ℕ × Message × Ptr
made = make_message no_states 100 (number 7) nothing

abbrev letter : Message
letter = record {
  command = 7;
  body = nothing;
  result_slot = 100;
  cleanup_fn = true;
  ownership_transferred = false;
}

letter-Owes : Owes letter 100
letter-Owes = record { slot = refl; cleans = refl; kept = refl; there = omega arith }

fresh-IsPending : IsPending (no_states 100)
fresh-IsPending = record {
  no_value = refl;
  no_error_yet = refl;
  not_consumed = refl;
  promised = refl;
  not_finalizing = refl;
  no_exception = refl;
}

destroy-cancels_example :
    (future_is_ready (some (destroy no_states letter 100)) ≡ true)
    × (failed (some (destroy no_states letter 100)) ≡ true)
    × (error (some (destroy no_states letter 100)) ≡ operation_canceled)
    × ((take_ready (destroy no_states letter 100)).0 ≡ refused)
    × ((if (no_states 100).flags.future_released
          then destroy no_states letter 100
          else release_future (destroy no_states letter 100)).deallocated
        ≡ suc (no_states 100).deallocated)
    × (destroy no_states letter 101
        ≡ (if 101 == 100 then destroy no_states letter 100 else no_states 101))
destroy-cancels_example = destroy-cancels no_states letter 100 letter-Owes fresh-IsPending 101

-- One message, moved once.
abbrev moved_world : World ℕ ℕ
moved_world = record {
  states = made.0;
  pool = (move_from made.1).0 ∷ (move_from made.1).1 ∷ [];
  made = λ q. raise (λ _. 0) 100 q;
  handed = λ _. 0;
}

moved-Reach : Reach moved_world
moved-Reach =
    later (later start (make 100 (number 7) nothing (omega arith) refl)) (move made.1 [] refl)

abbrev dead_world : World ℕ ℕ
dead_world = record {
  states = destroy (destroy made.0 (move_from made.1).0) (move_from made.1).1;
  pool = [];
  made = λ q. raise (λ _. 0) 100 q;
  handed = λ _. 0;
}

dead-Reach : Reach dead_world
dead-Reach =
    later (later moved-Reach (die (move_from made.1).0 ((move_from made.1).1 ∷ []) refl))
      (die (move_from made.1).1 [] refl)

nothing_left_pending_example : (dead_world.states 100).flags.promise_released ≡ true
nothing_left_pending_example = nothing_left_pending dead-Reach refl (λ q. refl) 100 refl

abbrev platform : Platform
platform = record { message_size = 120; message_align = 8; header_size = 16; max_align = 16 }

abbrev no_headers : Ptr → BlockHdr
no_headers p = record { resource = null; total = 0 }

abbrev block : Request × (Ptr → BlockHdr) × Ptr
block = pmr_make_message platform no_headers 64 4096

message_deleter-pmr_make_message_example :
    (message_deleter platform block.1 block.2 ≡ some block.0)
    × ((q : ℕ) × (block.2 ≡ q * 8))
    × (hdr_from_message platform block.2 ≡ 4096)
    × (4096 + 16 ≤ block.2)
unfolding alloc_align
message_deleter-pmr_make_message_example =
    message_deleter-pmr_make_message platform no_headers 64 4096 3 256 2 (omega arith) refl
      (omega arith) refl refl (omega arith)
