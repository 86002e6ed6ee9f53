-- ===== src/Dispatch/Address.antt =====
-- header/actor-zeta/actor/address.hpp, header/actor-zeta/impl/actor/address.ipp: an address, which
-- hides the type of its actor, and the form of header/actor-zeta/send.hpp that sends through one.
use actor_zeta.Base.{
  ℕ, ◌≡◌, ◌≢◌, refl, Bool, true, false, not, ◌⊎◌, inl, inr, Option, none, some, ◌==◌, arith,
  if◌then◌else◌, ◌>>=◌, Bool-cases, subst, ap,
}
use actor_zeta.Queue.Links.{Ptr, null}
use actor_zeta.Queue.LifoInbox.{EnqueueResult}
use actor_zeta.MessageId.{normal, make_message_id}
use actor_zeta.Rtt.{Rtt}
use actor_zeta.Message.{States, make_message, message_id, destroy}
use actor_zeta.Dispatch.Send.{Actor, is_closed, enqueue, with_message, Sent, dispatch_method}

-- `enqueue_fn_` is named by the type whose `enqueue_impl` it calls.
pub record Address : Type 0 where
  pub resource : Ptr
  pub ptr : Ptr
  pub enqueue_fn : Option ℕ

-- The actors, by address, with the type of each.
pub record Actors : Type 0 where
  pub actor : Ptr → Actor
  pub type_of : Ptr → ℕ

unfoldable pub empty_address : Address
empty_address = record { resource = null; ptr = null; enqueue_fn = none }

-- The constructor from an actor; `none` is the assertion of `safe_cast_ptr`.
unfoldable pub address_of : Actors → Ptr → Option Address
address_of actors q =
    if q == null
    then none
    else some (record {
      resource = (actors.actor q).resource;
      ptr = q;
      enqueue_fn = some (actors.type_of q);
    })

unfoldable pub is_set : Address → Bool
is_set a = not (a.ptr == null)

unfoldable pub swap : Address → Address → Address × Address
swap a other = (
  record { resource = other.resource; ptr = other.ptr; enqueue_fn = other.enqueue_fn },
  record { resource = a.resource; ptr = a.ptr; enqueue_fn = a.enqueue_fn },
)

-- The move constructor: the new address, and what the other becomes.
unfoldable pub move_from : Address → Address × Address
unfolding swap empty_address
move_from other = swap empty_address other

unfoldable pub copy : Address → Address
copy other = record { resource = other.resource; ptr = other.ptr; enqueue_fn = other.enqueue_fn }

-- The assignments between two addresses: this one, and the other.
unfoldable pub move_assign : Address → Address → Address × Address
unfolding swap
move_assign a other = swap a other

unfoldable pub copy_assign : Address → Address → Address × Address
unfolding copy swap
copy_assign a other = ((swap a (copy other)).0, other)

-- `enqueue_impl`. `none` stands for its assertion, on the null function, and for the undefined
-- behavior of a function that casts the pointer to a type which is not that of the actor there.
unfoldable pub enqueue_address : Actors → Address → Ptr → Option (Actor × Bool × EnqueueResult)
unfolding enqueue
enqueue_address actors a p = elim a.enqueue_fn [
  | none ↦ none
  | some target ↦ if target == actors.type_of a.ptr then enqueue (actors.actor a.ptr) p else none
]

-- `dispatch_method_impl_address`
unfoldable pub dispatch_method_address :
    {V X : Type 0} → Actors → Address → States V X → ℕ → Rtt → Ptr → Ptr → Option (Sent V X)
unfolding enqueue_address make_message destroy
dispatch_method_address actors a states action_id body state p = do
  let cmd = make_message_id normal action_id
  let (states1, msg, future) = make_message states state (message_id cmd) body
  let reached = with_message (actors.actor a.ptr) p msg
  let there = record actors { actor = λ q. if q == a.ptr then reached else actors.actor q }
  (a', needs_sched, result) ← enqueue_address there a p
  some (record {
    resource = a.resource;
    actor = a';
    states = if is_closed result then destroy states1 msg else states1;
    needs_sched = needs_sched;
    future = future;
  })

-- The addresses that a program has, in any order: made from actors, copied, moved and assigned.
pub data Made (actors : Actors) : Address → Type 0 where
  nowhere : Made actors empty_address
  taken : (q : Ptr) (a : Address) → address_of actors q ≡ some a → Made actors a
  moved : (a : Address) → Made actors a → Made actors (move_from a).0
  left : (a : Address) → Made actors a → Made actors (move_from a).1
  copied : (a : Address) → Made actors a → Made actors (copy a)
  assigned : (a b : Address) → Made actors a → Made actors b → Made actors (move_assign a b).0
  swapped : (a b : Address) → Made actors a → Made actors b → Made actors (move_assign a b).1
  assigned_copy : (a b : Address) → Made actors a → Made actors b → Made actors (copy_assign a b).0

-- An address either names no actor or has all three parts of one.
abbrev pub Names : Actors → Address → Type 0
Names actors a =
    (a ≡ empty_address)
    ⊎ ((a.ptr ≢ null)
        × (a.resource ≡ (actors.actor a.ptr).resource)
        × (a.enqueue_fn ≡ some (actors.type_of a.ptr)))

abbrev named : (a : Address) → Option Address → Address
named a none = a
named a (some b) = b

address_of-Names :
    (actors : Actors) (q : Ptr) (a : Address) → address_of actors q ≡ some a → Names actors a
unfolding address_of
address_of-Names actors q a e = elim (Bool-cases (q == null)) [
  | inl nil ↦ let impossible : none ≡ some a = rw nil at e in absurd (ground arith)
  | inr real ↦
      let b : Address = record {
        resource = (actors.actor q).resource;
        ptr = q;
        enqueue_fn = some (actors.type_of q);
      } in
      let same : b ≡ a = ap (named b) (rw real at e) in
      subst (Names actors) same (inr (ground arith, refl, refl))
]

pub Made-Names : (actors : Actors) (a : Address) → Made actors a → Names actors a
unfolding move_from copy move_assign copy_assign swap empty_address
Made-Names actors a nowhere = inl refl
Made-Names actors a (taken q b e) = address_of-Names actors q b e
Made-Names actors a (moved b m) = Made-Names actors b m
Made-Names actors a (left b m) = inl refl
Made-Names actors a (copied b m) = Made-Names actors b m
Made-Names actors a (assigned b c m n) = Made-Names actors c n
Made-Names actors a (swapped b c m n) = Made-Names actors b m
Made-Names actors a (assigned_copy b c m n) = Made-Names actors c n

-- However an address came about, if it converts to true then a message sent through it takes
-- exactly the course of one sent to the actor that it points to, from the same memory resource and
-- through the function of the actor's own type; otherwise the assertion fails.
pub dispatch_method_address-dispatch_method :
    {V X : Type 0} (actors : Actors) (a : Address) (states : States V X) (action_id : ℕ)
    (body : Rtt) (state p : Ptr)
    → Made actors a
    → dispatch_method_address actors a states action_id body state p ≡ (
        if is_set a
        then dispatch_method (actors.actor a.ptr) states action_id body state p
        else none)
unfolding dispatch_method_address enqueue_address dispatch_method is_set empty_address
dispatch_method_address-dispatch_method actors a states action_id body state p made =
    elim (Made-Names actors a made) [
      | inl e ↦ rw e refl
      | inr (set, res, fn) ↦
          let on : (a.ptr == null) ≡ false = ground arith in
          let here : (a.ptr == a.ptr) ≡ true = ground arith in
          let fits : (actors.type_of a.ptr == actors.type_of a.ptr) ≡ true = ground arith in
          rw (fn, on, here, fits, res) refl
    ]
