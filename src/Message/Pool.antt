-- ===== src/Message/Pool.antt =====
-- All the messages that are alive, in any order, and the promises that they or a dispatch answer
-- for. The consumers of the futures are left out: they do not touch the promise's bit.
use actor_zeta.Base.{
  ℕ, suc, ◌+◌, ◌≤◌, ◌≡◌, ◌≢◌, ap, Bool, true, false, not, ◌&&◌, List, [], ◌∷◌, ◌++◌, arith, ◌==◌,
  if◌then◌else◌,
}
use actor_zeta.Rtt.{Rtt}
use actor_zeta.Queue.Links.{Ptr, null}
use actor_zeta.Future.SharedState.{SharedState, ErrorCode, new_state}
use actor_zeta.Future.Promise.{promise_set_value, promise_error, promise_exception}
use actor_zeta.Message.{
  States, store, Message, Name, get_result_promise, transfer_ownership, move_from, swap, cleanup,
  destroy, assign, make_message,
}

abbrev bit : Bool → ℕ
bit true = 1
bit false = 0

-- Whether the death of the message settles the promise at `p`.
abbrev pub owes : Message → Ptr → Bool
owes m p =
    not m.ownership_transferred && m.cleanup_fn && not (m.result_slot == null) && m.result_slot == p

abbrev pub owners : Ptr → List Message → ℕ
owners p [] = 0
owners p (m ∷ ms) = bit (owes m p) + owners p ms

owners-reorder :
    (p : Ptr) (xs ys : List Message) (a b : Message)
    → owners p (xs ++ (b ∷ a ∷ ys)) ≡ owners p (xs ++ (a ∷ b ∷ ys))
owners-reorder p [] ys a b = omega arith
owners-reorder p (x ∷ xs) ys a b = omega (arith, owners-reorder p xs ys a b)

abbrev pub raise : (Ptr → ℕ) → Ptr → Ptr → ℕ
raise f p q = if q == p then suc (f q) else f q

abbrev pub lower : (Ptr → ℕ) → Ptr → Ptr → ℕ
lower f p q = if q == p then 0 else f q

-- `made` counts the states made at an address, `handed` the promises there that a dispatch holds.
pub record World (V X : Type 0) : Type 0 where
  pub states : States V X
  pub pool : List Message
  pub made : Ptr → ℕ
  pub handed : Ptr → ℕ

abbrev pub empty_world : {V X : Type 0} → World V X
empty_world = record { states = λ _. new_state; pool = []; made = λ _. 0; handed = λ _. 0 }

abbrev pub settled : {V X : Type 0} → World V X → Ptr → ℕ
settled w p = bit (w.states p).flags.promise_released

module _ {V X : Type 0} where
  pub data Step (w : World V X) : World V X → Type 0 where
    make :
        (p : Ptr) (name : Name) (body : Rtt)
        → p ≢ null
        → w.made p ≡ 0
        → Step w (record w {
          states = (make_message w.states p name body).0;
          pool = (make_message w.states p name body).1 ∷ w.pool;
          made = raise w.made p;
        })
    move :
        (m : Message) (rest : List Message)
        → w.pool ≡ m ∷ rest
        → Step w (record w { pool = (move_from m).0 ∷ (move_from m).1 ∷ rest })
    move_assign :
        (m other : Message) (rest : List Message)
        → w.pool ≡ m ∷ other ∷ rest
        → Step w (record w {
          states = (assign w.states m other).0;
          pool = (assign w.states m other).1 ∷ (assign w.states m other).2 ∷ rest;
        })
    exchange :
        (m other : Message) (rest : List Message)
        → w.pool ≡ m ∷ other ∷ rest
        → Step w (record w { pool = (swap m other).0 ∷ (swap m other).1 ∷ rest })
    die :
        (m : Message) (rest : List Message)
        → w.pool ≡ m ∷ rest
        → Step w (record w { states = destroy w.states m; pool = rest })
    -- dispatch takes the promise of a message
    dispatch :
        (m : Message) (rest : List Message)
        → w.pool ≡ m ∷ rest
        → owes m (get_result_promise m) ≡ true
        → Step w (record w {
          pool = transfer_ownership m ∷ rest;
          handed = raise w.handed (get_result_promise m);
        })
    fulfil_value :
        (p : Ptr) (v : V)
        → w.handed p ≡ 1
        → Step w (record w {
          states = store w.states p (promise_set_value (w.states p) v);
          handed = lower w.handed p;
        })
    fulfil_error :
        (p : Ptr) (ec : ErrorCode)
        → w.handed p ≡ 1
        → Step w (record w {
          states = store w.states p (promise_error (w.states p) ec);
          handed = lower w.handed p;
        })
    fulfil_exception :
        (p : Ptr) (ep : X)
        → w.handed p ≡ 1
        → Step w (record w {
          states = store w.states p (promise_exception (w.states p) ep);
          handed = lower w.handed p;
        })
    -- the order of the pool has no meaning
    reorder :
        (xs ys : List Message) (a b : Message)
        → w.pool ≡ xs ++ (a ∷ b ∷ ys)
        → Step w (record w { pool = xs ++ (b ∷ a ∷ ys) })

  pub data Reach : World V X → Type 0 where
    start : Reach empty_world
    later : {v w : World V X} → Reach v → Step v w → Reach w

  -- Each promise made is owed by one message, or settled, or in the hands of a dispatch.
  abbrev pub Accounted : World V X → Ptr → Type 0
  Accounted w p = (owners p w.pool + settled w p + w.handed p ≡ w.made p) × (w.made p ≤ 1)

  cleanup-settles :
      (states : States V X) (p q : Ptr)
      → (cleanup states p q).flags.promise_released
        ≡ (if q == p then true else (states q).flags.promise_released)
  unfolding cleanup
  cleanup-settles states p q = ground arith

  destroy-settles :
      (states : States V X) (m : Message) (q : Ptr)
      → (destroy states m q).flags.promise_released
        ≡ (if owes m q then true else (states q).flags.promise_released)
  unfolding destroy
  destroy-settles states m q = ground (arith, cleanup-settles states m.result_slot q)

  -- Whatever the outcome of a promise, it is released.
  promise_set_value-released :
      (s : SharedState V X) (v : V) → (promise_set_value s v).flags.promise_released ≡ true
  unfolding promise_set_value
  promise_set_value-released s v = ground arith

  promise_error-released :
      (s : SharedState V X) (ec : ErrorCode) → (promise_error s ec).flags.promise_released ≡ true
  unfolding promise_error
  promise_error-released s ec = ground arith

  promise_exception-released :
      (s : SharedState V X) (ep : X) → (promise_exception s ep).flags.promise_released ≡ true
  unfolding promise_exception
  promise_exception-released s ep = ground arith

  -- A dispatch settles the promise in its hands.
  fulfil-Accounted :
      (w : World V X) (p : Ptr) (s : SharedState V X)
      → w.handed p ≡ 1
      → s.flags.promise_released ≡ true
      → ((q : Ptr) → Accounted w q)
      → (q : Ptr)
      → Accounted (record w { states = store w.states p s; handed = lower w.handed p }) q
  fulfil-Accounted w p s e done all q = ground (arith, all q, all p)

  die-Accounted :
      (w : World V X) (m : Message) (rest : List Message)
      → w.pool ≡ m ∷ rest
      → ((q : Ptr) → Accounted w q)
      → (q : Ptr) → Accounted (record w { states = destroy w.states m; pool = rest }) q
  die-Accounted w m rest e all q =
      let before : owners q w.pool ≡ bit (owes m q) + owners q rest = ap (owners q) e in
      let after = destroy-settles w.states m q in rw after (ground (arith, before, all q))

  Step-Accounted :
      {v w : World V X} → Step v w → ((q : Ptr) → Accounted v q) → (q : Ptr) → Accounted w q
  unfolding make_message move_from assign swap destroy transfer_ownership get_result_promise
  Step-Accounted {v} (make p name body there new) all q = ground (arith, all q, all p)
  Step-Accounted {v} (move m rest e) all q =
      let before = ap (owners q) e in omega (arith, before, all q)
  Step-Accounted {v} (move_assign m other rest e) all q =
      let settles = die-Accounted v m (other ∷ rest) e all q in omega (arith, settles)
  Step-Accounted {v} (exchange m other rest e) all q =
      let before = ap (owners q) e in omega (arith, before, all q)
  Step-Accounted {v} (die m rest e) all q = die-Accounted v m rest e all q
  Step-Accounted {v} (dispatch m rest e o) all q =
      let before = ap (owners q) e in ground (arith, before, all q)
  Step-Accounted {v} (fulfil_value p x e) all q =
      fulfil-Accounted v p _ e (promise_set_value-released (v.states p) x) all q
  Step-Accounted {v} (fulfil_error p x e) all q =
      fulfil-Accounted v p _ e (promise_error-released (v.states p) x) all q
  Step-Accounted {v} (fulfil_exception p x e) all q =
      fulfil-Accounted v p _ e (promise_exception-released (v.states p) x) all q
  Step-Accounted {v} (reorder xs ys a b e) all q =
      let before = ap (owners q) e in omega (arith, before, owners-reorder q xs ys a b, all q)

  Reach-Accounted : {w : World V X} → Reach w → (q : Ptr) → Accounted w q
  Reach-Accounted start q = ground arith
  Reach-Accounted (later r st) q = Step-Accounted st (Reach-Accounted r) q

  -- A world without live messages and running dispatches has settled every promise that was made:
  -- no future waits for ever on a message that is gone.
  pub nothing_left_pending :
      {w : World V X}
      → Reach w
      → w.pool ≡ []
      → ((q : Ptr) → w.handed q ≡ 0)
      → (p : Ptr) → w.made p ≡ 1
      → (w.states p).flags.promise_released ≡ true
  nothing_left_pending r none_alive none_handed p once =
      let none = ap (owners p) none_alive in
      ground (arith, Reach-Accounted r p, none, none_handed p)
