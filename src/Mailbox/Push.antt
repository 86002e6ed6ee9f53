-- ===== src/Mailbox/Push.antt =====
-- Pushing a message into the whole mailbox, in whatever state its inbox is.
use actor_zeta.Base.{◌≡◌, ◌≢◌, refl, ap, subst, List, [], ◌∷◌, some, arith}
use actor_zeta.Queue.Links.{Ptr, Heap, Off}
use actor_zeta.Queue.LinkedList.{LinkedList}
use actor_zeta.Queue.LifoInbox.{Inbox, EnqueueResult, queue_closed, attempt}
use actor_zeta.Queue.LifoInbox
use actor_zeta.Queue.LifoInbox.Views.{
  View, closed_view, blocked_view, open_view, IsNode, OffView, Shows, pushed_view, push_result,
}
use actor_zeta.Queue.LifoInbox.Reader.{taken}
use actor_zeta.Queue.LifoInbox.Pushes.{push_front_quiet}
use actor_zeta.Queue.Frames.{nodes, Agree, Holds-Agree, OffAll-cons}
use actor_zeta.Mailbox.{Mailbox, inbox_of, with_inbox, push_back}
use actor_zeta.Mailbox.Regions.{Apart}
use actor_zeta.Mailbox.Fetch.{Contents}

-- A push writes to its own node only.
push_front-off :
    (b : Inbox) (p x : Ptr) (after : Inbox × EnqueueResult)
    → p ≢ x
    → LifoInbox.push_front (λ _ c. c) 1 b b.stack p ≡ some after
    → after.0.heap x ≡ b.heap x
unfolding LifoInbox.push_front attempt
push_front-off b p x after off e = ground arith

push_front-Agree :
    (b : Inbox) (p : Ptr) (r : List Ptr) (after : Inbox × EnqueueResult)
    → Off p r
    → LifoInbox.push_front (λ _ c. c) 1 b b.stack p ≡ some after
    → Agree b.heap after.0.heap r
push_front-Agree b p [] after off e = tt
push_front-Agree b p (x ∷ xs) after off e =
    (push_front-off b p x after off.0 e, push_front-Agree b p xs after off.1 e)

push_front-self :
    (b : Inbox) (p : Ptr) (after : Inbox × EnqueueResult)
    → LifoInbox.push_front (λ _ c. c) 1 b b.stack p ≡ some after
    → after.0.self ≡ b.self
unfolding LifoInbox.push_front attempt
push_front-self b p after e = ground arith

-- A new node joins the messages outside the two lists.
Apart-push :
    (h g : Heap) (l k : LinkedList) (us ns zs : List Ptr) (p : Ptr)
    → Apart h l us k ns zs
    → Agree h g (nodes l us)
    → Agree h g (nodes k ns)
    → Off p (nodes l us)
    → Off p (nodes k ns)
    → Off p zs
    → Apart g l us k ns (p ∷ zs)
Apart-push h g l k us ns zs p a one two off_l off_k off = record {
  one = Holds-Agree h g l us one a.one;
  two = Holds-Agree h g k ns two a.two;
  lists = a.lists;
  off_one = OffAll-cons (nodes l us) zs p off_l a.off_one;
  off_two = OffAll-cons (nodes k ns) zs p off_k a.off_two;
  distinct = (off, a.distinct);
}

Apart-pushed :
    (h g : Heap) (l k : LinkedList) (us ns : List Ptr) (p : Ptr) (v : View)
    → Apart h l us k ns (taken v)
    → Agree h g (nodes l us)
    → Agree h g (nodes k ns)
    → Off p (nodes l us)
    → Off p (nodes k ns)
    → Off p (taken v)
    → Apart g l us k ns (taken (pushed_view p v))
Apart-pushed h g l k us ns p closed_view a one two off_l off_k off = record {
  one = Holds-Agree h g l us one a.one;
  two = Holds-Agree h g k ns two a.two;
  lists = a.lists;
  off_one = a.off_one;
  off_two = a.off_two;
  distinct = a.distinct;
}
Apart-pushed h g l k us ns p blocked_view a one two off_l off_k off =
    Apart-push h g l k us ns [] p a one two off_l off_k off
Apart-pushed h g l k us ns p (open_view xs) a one two off_l off_k off =
    Apart-push h g l k us ns xs p a one two off_l off_k off

taken-OffView : (p : Ptr) (v : View) → Off p (taken v) → OffView p v
taken-OffView p closed_view o = tt
taken-OffView p blocked_view o = tt
taken-OffView p (open_view xs) o = o

-- A message that is new to the mailbox is pushed on what the inbox shows, without a failed
-- exchange: the queues stay as they are, and only an inbox that is closed does not get it.
pub push_back-Contents :
    (m : Mailbox) (us ns : List Ptr) (v : View) (p : Ptr)
    → Contents m us ns v
    → IsNode (inbox_of m) p
    → Off p (nodes m.urgent us)
    → Off p (nodes m.normal ns)
    → Off p (taken v)
    → (m' : Mailbox) × (push_back m p ≡ some (m', push_result v))
      × Contents m' us ns (pushed_view p v)
      × (m'.command ≡ m.command)
unfolding push_back
push_back-Contents m us ns v p c node off_u off_n off =
    let b = inbox_of m in
    let (b', run, shows) = push_front_quiet 0 b p v c.shown node (taken-OffView p v off) in
    let m' = with_inbox m b' in
    let one = push_front-Agree b p (nodes m.urgent us) (b', push_result v) off_u run in
    let two = push_front-Agree b p (nodes m.normal ns) (b', push_result v) off_n run in
    let same = push_front-self b p (b', push_result v) run in
    (
      m',
      rw run refl,
      record {
        memory =
            Apart-pushed m.heap b'.heap m.urgent m.normal us ns p v c.memory one two off_u off_n
              off;
        shown =
            subst (λ (i : Inbox). Shows i (pushed_view p v)) (ap (λ s. record b' { self = s }) same)
              shows;
      },
      refl,
    )
