-- ===== src/Future/Handles/Accounts.antt =====
-- Whatever is done with promises and futures, each state has at most one of either, and is
-- deallocated when both are through, not before.
use actor_zeta.Base.{
  ℕ, suc, ◌+◌, ◌≤◌, ◌<◌, ◌≡◌, ◌≢◌, refl, sym, ap, ◌∙◌, Bool, true, false, not, ◌&&◌, List, [], ◌∷◌,
  some, arith, ◌==◌, if◌then◌else◌, Bool-cases, inl, inr, Option, none, subst,
}
use actor_zeta.Queue.Links.{Ptr, null}
use actor_zeta.Future.SharedState.{SharedState, ErrorCode, broken_pipe, release_future}
use actor_zeta.Future.States.{States, store}
use actor_zeta.Future.Promise.{
  value, promise_set_value, promise_error, promise_exception, take_ready,
}
use actor_zeta.Future.Handles.{
  Promise, UniqueFuture, no_future, promise_move, future_move, get_future, make_promise,
  promise_release, promise_assign, fulfil_value, fulfil_error, fulfil_exception, future_release,
  future_assign, extract,
}
use actor_zeta.Future.Handles.Owners.{
  bit, producers, consumers, World, Step, Reach, make, ask, move_promise, assign_promise,
  destroy_promise, settle_value, settle_error, settle_exception, move_future, assign_future, let_go,
  destroy_future, extract_value, reorder_promises, reorder_futures, producers-reorder,
  consumers-reorder, start, later,
}

-- A state of which `made` and `asked` are known, with so many promises and futures.
record Balanced {V X : Type 0} (s : SharedState V X) (made asked : Bool) (promises futures : ℕ)
    : Type 0 where
  produced : promises + bit s.flags.promise_released ≡ bit made
  consumed : futures + bit s.flags.future_released ≡ bit asked
  asked_of_made : not made && asked ≡ false
  freed : s.deallocated ≡ bit (s.flags.promise_released && s.flags.future_released)
  tidy : not s.flags.future_released && s.flags.promise_finalizing ≡ false

module _ {V X : Type 0} where
  abbrev Accounted : World V X → Ptr → Type 0
  Accounted w q =
      Balanced (w.states q) (w.made q) (w.asked q) (producers q w.promises) (consumers q w.futures)

  -- The promise of a state is through.
  set_value-Balanced :
      (s : SharedState V X) (v : V) (made asked : Bool) (n m : ℕ)
      → Balanced s made asked (suc n) m
      → Balanced (promise_set_value s v) made asked n m
  unfolding promise_set_value
  set_value-Balanced s v made asked n m b = ground arith

  error-Balanced :
      (s : SharedState V X) (ec : ErrorCode) (made asked : Bool) (n m : ℕ)
      → Balanced s made asked (suc n) m
      → Balanced (promise_error s ec) made asked n m
  unfolding promise_error
  error-Balanced s ec made asked n m b = ground arith

  exception-Balanced :
      (s : SharedState V X) (ep : X) (made asked : Bool) (n m : ℕ)
      → Balanced s made asked (suc n) m
      → Balanced (promise_exception s ep) made asked n m
  unfolding promise_exception
  exception-Balanced s ep made asked n m b = ground arith

  -- The future of a state is through.
  release-Balanced :
      (s : SharedState V X) (made asked : Bool) (n m : ℕ)
      → Balanced s made asked n (suc m)
      → Balanced (release_future s) made asked n m
  unfolding release_future
  release-Balanced s made asked n m b = ground arith

  take_ready-Balanced :
      (s : SharedState V X) (v : V) (made asked : Bool) (n m : ℕ)
      → Balanced s made asked n (suc m)
      → (take_ready s).0 ≡ value v
      → Balanced (take_ready s).1 made asked n m
  unfolding take_ready
  take_ready-Balanced s v made asked n m b e = ground arith

  -- A state that is not touched, and of which no promise or future comes or goes.
  Balanced-cast :
      {s t : SharedState V X} {made made' asked asked' : Bool} {n n' m m' : ℕ}
      → s ≡ t
      → made ≡ made'
      → asked ≡ asked'
      → n ≡ n'
      → m ≡ m'
      → Balanced s made asked n m
      → Balanced t made' asked' n' m'
  Balanced-cast s made asked n m b = coe 0 1 (i. Balanced (s i) (made i) (asked i) (n i) (m i)) b

  -- The promise at the front is through, and the state becomes `t`.
  produce :
      (w : World V X) (p : Promise) (rest rest' : List Promise) (t : SharedState V X)
      → w.promises ≡ p ∷ rest
      → p ≢ null
      → ((made asked : Bool) (n m : ℕ)
          → Balanced (w.states p) made asked (suc n) m
          → Balanced t made asked n m)
      → ((q : Ptr) → producers q rest' ≡ producers q rest)
      → ((q : Ptr) → Accounted w q)
      → (q : Ptr) → Accounted (record w { states = store w.states p t; promises = rest' }) q
  produce w p rest rest' t e there through same all q = elim (Bool-cases (q == p)) [
    | inl here ↦
        let at : q ≡ p = ground arith in
        let before = ap (producers q) e in
        Balanced-cast (rw here refl) refl refl (sym (same q)) refl (
          through (w.made q) (w.asked q) (producers q rest) (consumers q w.futures)
            (Balanced-cast (ap w.states at) refl refl (ground (arith, before)) refl (all q)))
    | inr away ↦
        let before = ap (producers q) e in
        Balanced-cast (rw away refl) refl refl (ground (arith, before, same q)) refl (all q)
  ]

  consume :
      (w : World V X) (f : UniqueFuture) (rest rest' : List UniqueFuture) (t : SharedState V X)
      → w.futures ≡ f ∷ rest
      → f.state ≢ null
      → ((made asked : Bool) (n m : ℕ)
          → Balanced (w.states f.state) made asked n (suc m)
          → Balanced t made asked n m)
      → ((q : Ptr) → consumers q rest' ≡ consumers q rest)
      → ((q : Ptr) → Accounted w q)
      → (q : Ptr) → Accounted (record w { states = store w.states f.state t; futures = rest' }) q
  consume w f rest rest' t e there through same all q = elim (Bool-cases (q == f.state)) [
    | inl here ↦
        let at : q ≡ f.state = ground arith in
        let before = ap (consumers q) e in
        Balanced-cast (rw here refl) refl refl refl (sym (same q)) (
          through (w.made q) (w.asked q) (producers q w.promises) (consumers q rest)
            (Balanced-cast (ap w.states at) refl refl refl (ground (arith, before)) (all q)))
    | inr away ↦
        let before = ap (consumers q) e in
        Balanced-cast (rw away refl) refl refl refl (ground (arith, before, same q)) (all q)
  ]

  -- The front promise dies, or is assigned to; it may point to no state.
  give_up :
      (w : World V X) (p : Promise) (rest rest' : List Promise)
      → w.promises ≡ p ∷ rest
      → ((q : Ptr) → producers q rest' ≡ producers q rest)
      → ((q : Ptr) → Accounted w q)
      → (q : Ptr) → Accounted (record w { states = promise_release w.states p; promises = rest' }) q
  unfolding promise_release promise_error
  give_up w p rest rest' e same all q = elim (Bool-cases (p == null)) [
    | inl nowhere ↦
        let before = ap (producers q) e in
        Balanced-cast (rw nowhere refl) refl refl (ground (arith, before, same q)) refl (all q)
    | inr somewhere ↦ Balanced-cast (rw somewhere refl) refl refl refl refl (
        produce w p rest rest' (promise_error (w.states p) broken_pipe) e (ground arith)
          (error-Balanced (w.states p) broken_pipe) same all q)
  ]

  let_go_of :
      (done : Ptr → Bool) (w : World V X) (f : UniqueFuture) (rest rest' : List UniqueFuture)
      → w.futures ≡ f ∷ rest
      → ((q : Ptr) → consumers q rest' ≡ consumers q rest)
      → ((q : Ptr) → Accounted w q)
      → (q : Ptr)
      → Accounted (record w { states = (future_release done w.states f).1; futures = rest' }) q
  unfolding future_release
  let_go_of done w f rest rest' e same all q = elim (Bool-cases (f.state == null)) [
    | inl nowhere ↦
        let before = ap (consumers q) e in
        Balanced-cast (rw nowhere refl) refl refl refl (ground (arith, before, same q)) (all q)
    | inr somewhere ↦ Balanced-cast (rw somewhere refl) refl refl refl refl (
        consume w f rest rest' (release_future (w.states f.state)) e (ground arith)
          (release-Balanced (w.states f.state)) same all q)
  ]

  abbrev given : States V X × Promise → Option (States V X × Promise) → States V X × Promise
  given r none = r
  given r (some x) = x

  -- An outcome that went through its assertion.
  settled :
      (w : World V X) (p p' : Promise) (rest : List Promise) (t : SharedState V X)
      (states : States V X)
      → ◌≡◌ {A = Option (States V X × Promise)}
          (if p == null then none else some (store w.states p t, null))
          (some (states, p'))
      → w.promises ≡ p ∷ rest
      → ((made asked : Bool) (n m : ℕ)
          → Balanced (w.states p) made asked (suc n) m
          → Balanced t made asked n m)
      → ((q : Ptr) → Accounted w q)
      → (q : Ptr) → Accounted (record w { states = states; promises = p' ∷ rest }) q
  settled w p p' rest t states went e through all q = elim (Bool-cases (p == null)) [
    | inl nowhere ↦
        let impossible : ◌≡◌ {A = Option (States V X × Promise)} none (some (states, p')) =
          rw nowhere at went in
        absurd (ground arith)
    | inr somewhere ↦
        let result : States V X × Promise = (store w.states p t, null) in
        let left : some result ≡ some (states, p') = rw somewhere at went in
        let same : result ≡ (states, p') = ap (given result) left in
        subst (λ r. Accounted (record w { states = r.0; promises = r.1 ∷ rest }) q) same
          (produce w p rest (null ∷ rest) t e (ground arith) through (λ r. omega arith) all q)
  ]

  Step-Accounted :
      (done : Ptr → Bool) {v w : World V X}
      → Step done v w
      → ((q : Ptr) → Accounted v q)
      → (q : Ptr) → Accounted w q
  unfolding make_promise promise_move promise_assign fulfil_value fulfil_error fulfil_exception
      future_move future_assign extract get_future
  Step-Accounted done {v} (make p there new) all q = elim (Bool-cases (q == p)) [
    | inl here ↦
        let at : q ≡ p = ground arith in
        let fresh = ap v.made at ∙ new in ground (arith, fresh, all q)
    | inr away ↦ ground (arith, all q)
  ]
  Step-Accounted done {v} (ask p rest f e once got) all q =
      let before = ap (producers q) e in
      let there : (p == null) ≡ false = ground (arith, got) in
      let at : f.state ≡ p = ground (arith, got) in
      elim (Bool-cases (q == p)) [
        | inl here ↦
            let same : q ≡ p = ground arith in
            let fresh = ap v.asked same ∙ once in ground (arith, before, fresh, all q)
        | inr away ↦ ground (arith, all q)
      ]
  Step-Accounted done {v} (move_promise p rest e) all q =
      let before = ap (producers q) e in
      Balanced-cast refl refl refl (omega (arith, before)) refl (all q)
  Step-Accounted done {v} (assign_promise p other rest e) all q =
      give_up v p (other ∷ rest) (other ∷ null ∷ rest) e (λ r. omega arith) all q
  Step-Accounted done {v} (destroy_promise p rest e) all q =
      give_up v p rest rest e (λ r. refl) all q
  Step-Accounted done {v} (settle_value p p' rest x states e went) all q =
      settled v p p' rest _ states went e (set_value-Balanced (v.states p) x) all q
  Step-Accounted done {v} (settle_error p p' rest ec states e went) all q =
      settled v p p' rest _ states went e (error-Balanced (v.states p) ec) all q
  Step-Accounted done {v} (settle_exception p p' rest ep states e went) all q =
      settled v p p' rest _ states went e (exception-Balanced (v.states p) ep) all q
  Step-Accounted done {v} (move_future f rest e) all q =
      let before = ap (consumers q) e in
      Balanced-cast refl refl refl refl (omega (arith, before)) (all q)
  Step-Accounted done {v} (assign_future f other rest e) all q =
      let_go_of done v f (other ∷ rest)
        (record { state = other.state; handle = other.handle } ∷ no_future ∷ rest) e
        (λ r. omega arith) all q
  Step-Accounted done {v} (let_go f rest e) all q =
      let_go_of done v f rest (no_future ∷ rest) e (λ r. omega arith) all q
  Step-Accounted done {v} (destroy_future f rest e) all q =
      let_go_of done v f rest rest e (λ r. refl) all q
  Step-Accounted done {v} (extract_value f rest x e there came) all q =
      let gone = ap (λ r. elim r as (λ _. UniqueFuture) [ value y ↦ no_future | _ ↦ f ]) came in
      let after = ap (consumers q) (ap (λ g. g ∷ rest) gone) in
      Balanced-cast refl refl refl refl (sym after) (
        consume v f rest (no_future ∷ rest) (take_ready (v.states f.state)).1 e there
          (λ made asked n m b. take_ready-Balanced (v.states f.state) x made asked n m b came)
          (λ r. omega arith) all q)
  Step-Accounted done {v} (reorder_promises xs ys a b e) all q =
      let before = ap (producers q) e in
      Balanced-cast refl refl refl (omega (arith, before, producers-reorder q xs ys a b)) refl
        (all q)
  Step-Accounted done {v} (reorder_futures xs ys a b e) all q =
      let before = ap (consumers q) e in
      Balanced-cast refl refl refl refl (omega (arith, before, consumers-reorder q xs ys a b))
        (all q)

module _ {V X : Type 0} (done : Ptr → Bool) where
  Reach-Accounted : {w : World V X} → Reach done w → (q : Ptr) → Accounted w q
  Reach-Accounted start q = ground arith
  Reach-Accounted (later r st) q = Step-Accounted done st (Reach-Accounted r) q

  -- In whatever order promises and futures are made, moved, assigned, settled, extracted from and
  -- destroyed, one whole operation after the other and with one future asked of each promise: a
  -- state has at most one promise and one future, and none of them points to a state that is
  -- deallocated; so no operation touches freed memory.
  pub handles_point_to_live_states :
      {w : World V X}
      → Reach done w
      → (p : Ptr) → 0 < producers p w.promises + consumers p w.futures
      → (producers p w.promises ≤ 1) × (consumers p w.futures ≤ 1) × ((w.states p).deallocated ≡ 0)
  handles_point_to_live_states r p some_handle = ground (arith, Reach-Accounted r p, some_handle)

  -- Where no two operations on one state overlap, as when its promise and its future are used by
  -- one thread: when no promise and no future is left, each state that was allocated has been
  -- deallocated, once, if a future was ever asked of its promise, and not at all otherwise. (With
  -- the two ends on two threads a state may stay allocated; see Future/Release.antt.)
  pub deallocated_if_asked :
      {w : World V X}
      → Reach done w
      → w.promises ≡ []
      → w.futures ≡ []
      → (p : Ptr) → w.made p ≡ true
      → (w.states p).deallocated ≡ bit (w.asked p)
  deallocated_if_asked r no_promise none_held p made =
      let none_left = ap (producers p) no_promise in
      let none_waits = ap (consumers p) none_held in
      ground (arith, Reach-Accounted r p, none_left, none_waits, made)
