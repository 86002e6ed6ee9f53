-- ===== src/Future/Handles/Owners.antt =====
-- All the promises and futures of a program, in any order, and the states that they point to. They
-- are used by one thread; see Future/Release.antt for two.
use actor_zeta.Base.{
  ℕ, ◌+◌, ◌≡◌, ◌≢◌, Bool, true, false, not, ◌&&◌, List, [], ◌∷◌, ◌++◌, some, arith, ◌==◌,
  if◌then◌else◌,
}
use actor_zeta.Queue.Links.{Ptr, null}
use actor_zeta.Future.SharedState.{ErrorCode, new_state}
use actor_zeta.Future.States.{States}
use actor_zeta.Future.Promise.{value}
use actor_zeta.Future.Handles.{
  Promise, UniqueFuture, promise_move, future_move, get_future, make_promise, promise_release,
  promise_assign, fulfil_value, fulfil_error, fulfil_exception, future_release, future_assign,
  extract,
}

abbrev pub bit : Bool → ℕ
bit true = 1
bit false = 0

-- The promises, and the futures, that point to the state at `p`.
abbrev pub producers : Ptr → List Promise → ℕ
producers p [] = 0
producers p (q ∷ qs) = bit (not (q == null) && q == p) + producers p qs

abbrev pub consumers : Ptr → List UniqueFuture → ℕ
consumers p [] = 0
consumers p (f ∷ fs) = bit (not (f.state == null) && f.state == p) + consumers p fs

pub producers-reorder :
    (p : Ptr) (xs ys : List Promise) (a b : Promise)
    → producers p (xs ++ (b ∷ a ∷ ys)) ≡ producers p (xs ++ (a ∷ b ∷ ys))
producers-reorder p [] ys a b = omega arith
producers-reorder p (x ∷ xs) ys a b = omega (arith, producers-reorder p xs ys a b)

pub consumers-reorder :
    (p : Ptr) (xs ys : List UniqueFuture) (a b : UniqueFuture)
    → consumers p (xs ++ (b ∷ a ∷ ys)) ≡ consumers p (xs ++ (a ∷ b ∷ ys))
consumers-reorder p [] ys a b = omega arith
consumers-reorder p (x ∷ xs) ys a b = omega (arith, consumers-reorder p xs ys a b)

-- `made` says at which addresses a state was allocated, `asked` from which a future was taken.
pub record World (V X : Type 0) : Type 0 where
  pub states : States V X
  pub promises : List Promise
  pub futures : List UniqueFuture
  pub made : Ptr → Bool
  pub asked : Ptr → Bool

abbrev pub empty_world : {V X : Type 0} → World V X
empty_world = record {
  states = λ _. new_state;
  promises = [];
  futures = [];
  made = λ _. false;
  asked = λ _. false;
}

abbrev pub mark : (Ptr → Bool) → Ptr → Ptr → Bool
mark f p q = if q == p then true else f q

module _ {V X : Type 0} (done : Ptr → Bool) where
  pub data Step (w : World V X) : World V X → Type 0 where
    make :
        (p : Ptr)
        → p ≢ null
        → w.made p ≡ false
        → Step w (record w {
          states = (make_promise w.states p).0;
          promises = (make_promise w.states p).1 ∷ w.promises;
          made = mark w.made p;
        })
    -- get_future, once
    ask :
        (p : Promise) (rest : List Promise) (f : UniqueFuture)
        → w.promises ≡ p ∷ rest
        → w.asked p ≡ false
        → get_future p ≡ some f
        → Step w (record w { futures = f ∷ w.futures; asked = mark w.asked p })
    move_promise :
        (p : Promise) (rest : List Promise)
        → w.promises ≡ p ∷ rest
        → Step w (record w { promises = (promise_move p).0 ∷ (promise_move p).1 ∷ rest })
    assign_promise :
        (p other : Promise) (rest : List Promise)
        → w.promises ≡ p ∷ other ∷ rest
        → Step w (record w {
          states = (promise_assign w.states p other).0;
          promises =
              (promise_assign w.states p other).1 ∷ (promise_assign w.states p other).2 ∷ rest;
        })
    destroy_promise :
        (p : Promise) (rest : List Promise)
        → w.promises ≡ p ∷ rest
        → Step w (record w { states = promise_release w.states p; promises = rest })
    settle_value :
        (p p' : Promise) (rest : List Promise) (v : V) (states : States V X)
        → w.promises ≡ p ∷ rest
        → fulfil_value w.states p v ≡ some (states, p')
        → Step w (record w { states = states; promises = p' ∷ rest })
    settle_error :
        (p p' : Promise) (rest : List Promise) (ec : ErrorCode) (states : States V X)
        → w.promises ≡ p ∷ rest
        → fulfil_error w.states p ec ≡ some (states, p')
        → Step w (record w { states = states; promises = p' ∷ rest })
    settle_exception :
        (p p' : Promise) (rest : List Promise) (ep : X) (states : States V X)
        → w.promises ≡ p ∷ rest
        → fulfil_exception w.states p ep ≡ some (states, p')
        → Step w (record w { states = states; promises = p' ∷ rest })
    move_future :
        (f : UniqueFuture) (rest : List UniqueFuture)
        → w.futures ≡ f ∷ rest
        → Step w (record w { futures = (future_move f).0 ∷ (future_move f).1 ∷ rest })
    assign_future :
        (f other : UniqueFuture) (rest : List UniqueFuture)
        → w.futures ≡ f ∷ other ∷ rest
        → Step w (record w {
          states = (future_assign done w.states f other).1;
          futures =
              (future_assign done w.states f other).2
              ∷ (future_assign done w.states f other).3
              ∷ rest;
        })
    -- detach
    let_go :
        (f : UniqueFuture) (rest : List UniqueFuture)
        → w.futures ≡ f ∷ rest
        → Step w (record w {
          states = (future_release done w.states f).1;
          futures = (future_release done w.states f).2 ∷ rest;
        })
    destroy_future :
        (f : UniqueFuture) (rest : List UniqueFuture)
        → w.futures ≡ f ∷ rest
        → Step w (record w { states = (future_release done w.states f).1; futures = rest })
    -- take_ready that returns a value
    extract_value :
        (f : UniqueFuture) (rest : List UniqueFuture) (v : V)
        → w.futures ≡ f ∷ rest
        → f.state ≢ null
        → (extract done w.states f).0 ≡ value v
        → Step w (record w {
          states = (extract done w.states f).2;
          futures = (extract done w.states f).3 ∷ rest;
        })
    -- the order of the objects has no meaning
    reorder_promises :
        (xs ys : List Promise) (a b : Promise)
        → w.promises ≡ xs ++ (a ∷ b ∷ ys)
        → Step w (record w { promises = xs ++ (b ∷ a ∷ ys) })
    reorder_futures :
        (xs ys : List UniqueFuture) (a b : UniqueFuture)
        → w.futures ≡ xs ++ (a ∷ b ∷ ys)
        → Step w (record w { futures = xs ++ (b ∷ a ∷ ys) })

  pub data Reach : World V X → Type 0 where
    start : Reach empty_world
    later : {v w : World V X} → Reach v → Step v w → Reach w
