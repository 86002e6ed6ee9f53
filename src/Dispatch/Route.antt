-- ===== src/Dispatch/Route.antt =====
-- header/actor-zeta/send.hpp, both `send`s, and the `behavior` of an actor as the examples write it
-- (examples/supervisor/main.cpp, examples/balancer/main.cpp): from the method that a caller names to the
-- method that the actor runs.
use mathlib.Core.List.Memᴰ
use mathlib.Core.List.{Memᴰ}
use actor_zeta.Base.{
  ℕ, ◌<◌, ◌^◌, ◌≡◌, ◌≢◌, refl, sym, ap, ◌∙◌, ◌⊎◌, inl, inr, Bool-cases, Option-cases, Bool, true,
  false, not, ◌&&◌, List, [], ◌∷◌, length, Option, none, some, arith, ◌==◌, if◌then◌else◌, ◌>>=◌,
}
use actor_zeta.MessageId.{normal, make_message_id}
use actor_zeta.Actor.StateWord.{is_destroying, u32_mod, sender_count}
use actor_zeta.Actor.StateWord.Laws.{parts, max_senders}
use actor_zeta.Queue.Links.{Ptr, null}
use actor_zeta.Queue.LifoInbox.Views.{View, pushed_view}
use actor_zeta.Queue.LifoInbox.Reader.{is_blocked_view, is_closed_view}
use actor_zeta.Mailbox.Fetch.{Contents}
use actor_zeta.Rtt.{Rtt}
use actor_zeta.Future.Promise.Outcomes.{IsPending}
use actor_zeta.Message.{States}
use actor_zeta.Dispatch.Methods.{MethodPtr, find_method_index, msg_id, runtime_dispatch}
use actor_zeta.Dispatch.Ids.{runtime_dispatch-find_method_index, msg_id_injective}
use actor_zeta.Dispatch.Send.{Actor, Sent, dispatch_method}
use actor_zeta.Dispatch.Send.Answers.{IsNew, send_delivers}
use actor_zeta.Dispatch.Address.{
  Actors, Address, Made, is_set, dispatch_method_address, dispatch_method_address-dispatch_method,
}

-- Whether a case label has the number. A method without a number is not a label.
abbrev pub labels : Option ℕ → ℕ → Bool
labels none command = false
labels (some id) command = id == command

-- The switch of `behavior`, on the cases in the order in which they are written: the method that is
-- dispatched, or `none` where no case matches.
unfoldable pub behavior : List MethodPtr → List MethodPtr → ℕ → Option MethodPtr
unfolding msg_id
behavior methods [] command = none
behavior methods (first ∷ rest) command =
    let later = behavior methods rest command in
    if labels (msg_id first methods) command then some first else later

labels-some : (o : Option ℕ) (command : ℕ) → labels o command ≡ true → o ≡ some command
labels-some none command h = ground arith
labels-some (some id) command h = ap some (ground arith)

labels_own : (o : Option ℕ) (command : ℕ) → o ≡ some command → labels o command ≡ true
labels_own none command h = ground arith
labels_own (some id) command h = ground arith

-- A number leads to its method, in whatever order the cases are.
behavior-msg_id :
    (methods cases : List MethodPtr) (m : MethodPtr) (id : ℕ)
    → length methods < 2 ^ 60
    → msg_id m methods ≡ some id
    → Memᴰ m cases
    → behavior methods cases id ≡ some m
unfolding behavior
behavior-msg_id methods [] m id few h there = absurd (Memᴰ.not-nil there)
behavior-msg_id methods (c ∷ cs) m id few h there = elim (Memᴰ.cases_cons there) [
  | inl here ↦
      let found : labels (msg_id c methods) id ≡ true =
        ap (λ (x : MethodPtr). labels (msg_id x methods) id) (sym here)
        ∙ labels_own (msg_id m methods) id h in
      rw found (ap some (sym here))
  | inr later ↦ elim (Bool-cases (labels (msg_id c methods) id)) [
    | inl e ↦
        let same : c ≡ m =
          msg_id_injective c m methods id few (labels-some (msg_id c methods) id e) h in
        rw e (ap some same)
    | inr e ↦ rw e (behavior-msg_id methods cs m id few h later)
  ]
]

module _ {V X : Type 0} (methods : List MethodPtr) where
  -- `send` to an actor. The outer `none` of the dispatch is its abort.
  unfoldable pub send : Actor → States V X → MethodPtr → Rtt → Ptr → Ptr → Option (Sent V X)
  unfolding runtime_dispatch dispatch_method
  send a states method body state p = do
    sent ←
        runtime_dispatch (λ _ action_id. dispatch_method a states action_id body state p) method
          methods
    sent

  -- `send` to an address, for a method of an interface; the outer `none` is also the assertion.
  unfoldable pub send_address :
      Actors → Address → States V X → MethodPtr → Rtt → Ptr → Ptr → Option (Sent V X)
  unfolding runtime_dispatch dispatch_method_address is_set
  send_address actors target states method body state p =
      let dispatched =
        runtime_dispatch
          (λ _ action_id. dispatch_method_address actors target states action_id body state p)
          method methods in
      if is_set target then (do sent ← dispatched; sent) else none

  -- What `send` does is decided by the number of the method.
  send_lem :
      (a : Actor) (states : States V X) (m : MethodPtr) (body : Rtt) (state p : Ptr)
      → send a states m body state p
        ≡ (do i ← find_method_index m methods; dispatch_method a states i body state p)
  unfolding send
  send_lem a states m body state p =
      ap (λ (o : Option (Option (Sent V X))). do sent ← o; sent)
        (runtime_dispatch-find_method_index
          (λ _ action_id. dispatch_method a states action_id body state p) m methods)
      ∙ elim (Option-cases (find_method_index m methods)) [
        | inl e ↦ rw e refl
        | inr (i, e) ↦ rw e refl
      ]

  send_address_lem :
      (actors : Actors) (a : Address) (states : States V X) (m : MethodPtr) (body : Rtt)
      (state p : Ptr)
      → send_address actors a states m body state p ≡ (
          if is_set a
          then (do
            i ← find_method_index m methods
            dispatch_method_address actors a states i body state p)
          else none)
  unfolding send_address
  send_address_lem actors a states m body state p =
      ap (λ (o : Option (Option (Sent V X))). if is_set a then (do sent ← o; sent) else none)
        (runtime_dispatch-find_method_index
          (λ _ action_id. dispatch_method_address actors a states action_id body state p) m methods)
      ∙ elim (Option-cases (find_method_index m methods)) [
        | inl e ↦ rw e refl
        | inr (i, e) ↦ rw e refl
      ]

  -- However an address came about, by construction from an actor, copies, moves, swaps and
  -- assignments: if it converts to true, then sending a method through it is sending it to the
  -- actor that it points to, with the message and the future's state allocated from that actor's
  -- resource, and the message handed to the `enqueue_impl` of that actor's type; otherwise the
  -- assertion fails.
  pub send_address-send :
      (actors : Actors) (a : Address) (states : States V X) (m : MethodPtr) (body : Rtt)
      (state p : Ptr)
      → Made actors a
      → send_address actors a states m body state p
        ≡ (if is_set a then send (actors.actor a.ptr) states m body state p else none)
  send_address-send actors a states m body state p made =
      send_address_lem actors a states m body state p ∙ elim (Bool-cases (is_set a)) [
        | inr off ↦ rw off refl
        | inl on ↦ elim (Option-cases (find_method_index m methods)) [
          | inl e ↦ rw (on, send_lem (actors.actor a.ptr) states m body state p, e) refl
          | inr (i, e) ↦
              let same : dispatch_method_address actors a states i body state p
                  ≡ dispatch_method (actors.actor a.ptr) states i body state p =
                dispatch_method_address-dispatch_method actors a states i body state p made
                ∙ rw on refl in
              rw (on, send_lem (actors.actor a.ptr) states m body state p, e) same
        ]
      ]

module _ {V X : Type 0} (a : Actor) (states : States V X) (us ns : List Ptr) (v : View)
    (contents : Contents a.box us ns v) (methods cases : List MethodPtr) (m : MethodPtr)
    (body : Rtt) (state p : Ptr) (set : state ≢ null) (new : IsNew a us ns v p) where
  -- A method that its actor has registered, among fewer than 2^60, is sent to an actor that lives,
  -- with room for one more sender, and whose mailbox is not closed: the message is pushed on what
  -- the inbox shows, under a command for which the actor's behavior dispatches that very method,
  -- if it is among the cases, in whatever order these are; the caller gets a future with a pending
  -- promise, and has to schedule the actor exactly if the mailbox was blocked and the actor
  -- neither runs nor is scheduled. A method that is not registered is never sent.
  pub send-behavior :
      length methods < 2 ^ 60
      → Memᴰ m cases
      → a.word < u32_mod
      → sender_count a.word < max_senders
      → is_destroying a.word ≡ false
      → is_closed_view v ≡ false
      → ((msg_id m methods ≡ none) × (send methods a states m body state p ≡ none))
        ⊎ ((r : Sent V X) × (send methods a states m body state p ≡ some r)
            × Contents r.actor.box us ns (pushed_view p v)
            × (behavior methods cases (r.actor.box.command p) ≡ some m)
            × (r.future ≡ state)
            × IsPending (r.states r.future)
            × (r.needs_sched ≡ (
                is_blocked_view v && not (parts a.word).scheduled && not (parts a.word).running)))
  unfolding msg_id
  send-behavior few there fits room alive opened =
      elim (Option-cases (find_method_index m methods)) [
        | inl e ↦ inl (rw e refl, rw (send_lem methods a states m body state p, e) refl)
        | inr (i, e) ↦
            let (r, run, after, command, future, pending, owes) =
              send_delivers a states us ns v contents i body state p set new fits room alive
                opened in
            let number : msg_id m methods ≡ some (make_message_id normal i) = rw e refl in
            inr (
              r,
              rw (send_lem methods a states m body state p, e) run,
              after,
              ap (behavior methods cases) command
                  ∙ behavior-msg_id methods cases m (make_message_id normal i) few number there,
              future,
              pending,
              owes,
            )
      ]
