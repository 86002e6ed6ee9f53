-- ===== src/Awaiting/Driver.antt =====
-- What the driver of an actor reads off its behavior, at the outer end of a row of coroutines, while
-- the inner ones await and go on.
use actor_zeta.Base.{
  ℕ, ◌<◌, ◌≡◌, ◌≢◌, refl, Bool, true, false, List, [], ◌∷◌, ◌++◌, length, none, some, arith, ◌==◌,
}
use actor_zeta.Queue.Links.{Ptr, null, last_or, OffAll, Distinct}
use actor_zeta.Future.SharedState.{is_ready}
use actor_zeta.Message.{States}
use actor_zeta.Awaiting.{
  Awaiters, Awaited, Behavior, propagate_awaited_state, clear_awaited_chain, is_busy,
  is_awaited_ready, take_awaited_continuation,
}
use actor_zeta.Awaiting.Chain.{Row, Waits, AllWait, clear_awaited_chain_lem}
use actor_zeta.Awaiting.Propagate.{AllWait-end, propagate_awaited_state-Row}

Row-right :
    (h : Awaiters) (d : Ptr) (ds : List Ptr) (p : Ptr) (ps : List Ptr)
    → Row h d (ds ++ (p ∷ ps))
    → Row h p ps
Row-right h d [] p ps r = r.2
Row-right h d (x ∷ xs) p ps r = Row-right h x xs p ps r.2

AllWait-right :
    (h : Awaiters) (xs ys : List Ptr) (flags cont : Ptr)
    → AllWait h (xs ++ ys) flags cont
    → AllWait h ys flags cont
AllWait-right h [] ys flags cont w = w
AllWait-right h (x ∷ xs) ys flags cont w = AllWait-right h xs ys flags cont w.1

-- The outer end of a row is a coroutine.
Row-end : (h : Awaiters) (p : Ptr) (ps : List Ptr) → p ≢ null → Row h p ps → last_or p ps ≢ null
Row-end h p [] there r = there
Row-end h p (x ∷ xs) there r = Row-end h x xs r.0 r.2

module _ {V X : Type 0} (ended : Ptr → Bool) (b : Behavior) where
  -- The behavior waits for a state.
  sees_state :
      (h : Awaiters) (states : States V X) (flags : Ptr)
      → Waits (h b.handle) flags flags
      → b.handle ≢ null
      → ended b.handle ≡ false
      → flags ≢ null
      → let taken = take_awaited_continuation ended h states b in
        (is_busy ended h b ≡ true)
        × (is_awaited_ready ended h states b ≡ is_ready (states flags))
        × (taken.0 ≡ (states flags).continuation)
        × ((take_awaited_continuation ended h taken.1 b).0 ≡ none)
  unfolding is_busy is_awaited_ready take_awaited_continuation
  sees_state h states flags (f, c) there alive set =
      let held : (b.handle == null) ≡ false = ground arith in
      let awaits : (flags == null) ≡ false = ground arith in
      let here : (flags == flags) ≡ true = ground arith in
      rw (held, alive, f, c, awaits, here) (refl, refl, refl, refl)

  -- The behavior waits for nothing.
  sees_nothing :
      (h : Awaiters) (states : States V X)
      → Waits (h b.handle) null null
      → (is_busy ended h b ≡ false)
        × (is_awaited_ready ended h states b ≡ false)
        × (take_awaited_continuation ended h states b ≡ (none, states))
  unfolding is_busy is_awaited_ready take_awaited_continuation
  sees_nothing h states (f, c) = (ground (arith, f), ground (arith, f), ground (arith, c))

-- The innermost coroutine of a row, at whose outer end a behavior stands that is not done, awaits
-- the outer end of another row, which waits for a state; the rows are sound and have no common
-- member. From then on the driver sees the behavior as busy, ready exactly when the state of that
-- other row is, and takes the continuation of that state, and none when it asks again. When the
-- coroutine that awaited goes on and clears what it awaits, the driver sees the behavior neither
-- busy nor ready, and finds no continuation.
pub driver_sees_deepest :
    {V X : Type 0} (fuel : ℕ) (h : Awaiters) (d : Ptr) (ds : List Ptr) (p : Ptr) (ps : List Ptr)
    (state flags : Ptr) (ended : Ptr → Bool) (states : States V X)
    → length ps < fuel
    → Row h d ds
    → Row h p ps
    → Distinct (d ∷ ds)
    → Distinct (p ∷ ps)
    → OffAll (d ∷ ds) (p ∷ ps)
    → AllWait h (d ∷ ds) flags flags
    → flags ≢ null
    → last_or d ds ≢ null
    → p ≢ null
    → ended (last_or p ps) ≡ false
    → let future : Awaited = record {
      state = state;
      has_result = false;
      coroutine = last_or d ds;
    } in
      let b : Behavior = record { handle = last_or p ps } in
      (h1 h2 : Awaiters) × (propagate_awaited_state fuel h p future ≡ some h1)
      × (is_busy ended h1 b ≡ true)
      × (is_awaited_ready ended h1 states b ≡ is_ready (states flags))
      × ((take_awaited_continuation ended h1 states b).0 ≡ (states flags).continuation)
      × ((take_awaited_continuation ended h1 (take_awaited_continuation ended h1 states b).1 b).0
          ≡ none)
      × (clear_awaited_chain fuel h1 p ≡ some h2)
      × (is_busy ended h2 b ≡ false)
      × (is_awaited_ready ended h2 states b ≡ false)
      × (take_awaited_continuation ended h2 states b ≡ (none, states))
driver_sees_deepest fuel h d ds p ps state flags ended states enough inner outer dd dp apart waits
      set there here alive =
    let b : Behavior = record { handle = last_or p ps } in
    let (h1, run, row, all) =
      propagate_awaited_state-Row fuel h d ds p ps state flags flags enough inner outer dd dp apart
        waits set there here in
    let outer1 = Row-right h1 d ds p ps row in
    let (busy, ready, taken, once) =
      sees_state ended b h1 states flags
        (AllWait-end h1 p ps flags flags (AllWait-right h1 (d ∷ ds) (p ∷ ps) flags flags all))
        (Row-end h1 p ps here outer1) alive set in
    let (h2, clear, idle, row2) = clear_awaited_chain_lem fuel h1 p ps enough outer1 dp in
    let (quiet, unready, untaken) =
      sees_nothing ended b h2 states (AllWait-end h2 p ps null null idle) in
    (h1, h2, run, busy, ready, taken, once, clear, quiet, unready, untaken)
