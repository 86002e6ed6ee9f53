-- ===== src/Queue/LifoInbox/Pushes.antt =====
-- Pushing into the inbox while other threads use it.
use actor_zeta.Base.{
  ℕ, zero, suc, ◌+◌, ◌≡◌, ◌≢◌, refl, sym, subst, true, false, List, [], ◌∷◌, Option, none, some,
  ◌==◌, arith, Bool-cases, inl, inr,
}
use actor_zeta.Queue.Links.{Ptr, write}
use actor_zeta.Queue.LifoInbox.{
  EnqueueResult, queue_closed, Inbox, stack_closed_tag, attempt, push_front,
}
use actor_zeta.Queue.LifoInbox.Views.{
  View, closed_view, blocked_view, open_view, Shows, IsNode, Chain, Chain-write, OffView,
  pushed_view, push_result,
}

-- What a round of `push_front` on the inbox `a`, from the head `last`, may come to.
pub data Pushes (p last : Ptr) (v : View) (a b : Inbox) : Option EnqueueResult → Type 0 where
  lost : a.stack ≢ last → b.stack ≡ a.stack → Shows b v → Pushes p last v a b none
  won :
      a.stack ≡ last
      → v ≢ closed_view
      → Shows b (pushed_view p v)
      → Pushes p last v a b (some (push_result v))

pub open_head-ne-tags :
    (b : Inbox) (xs : List Ptr)
    → Shows b (open_view xs)
    → (b.stack ≢ b.self) × (b.stack ≢ b.self + 1)
open_head-ne-tags b [] shows = ground arith
open_head-ne-tags b (x ∷ xs) shows = ground arith

-- The exchange succeeds: the head is as it was read.
attempt_hit :
    (b : Inbox) (p : Ptr) (v : View)
    → Shows b v
    → IsNode b p
    → OffView p v
    → b.stack ≢ stack_closed_tag b
    → Pushes p b.stack v b (attempt b b.stack p).0 (attempt b b.stack p).1
unfolding attempt
attempt_hit b p closed_view shows node off guard = absurd (guard shows.1)
attempt_hit b p blocked_view shows node off guard =
    let here : (b.stack == b.stack) ≡ true = ground arith in
    let tag : (b.stack == b.self) ≡ true = ground arith in
    rw (here, tag) (won refl (λ e. cc) (shows.0, (refl, ground arith), (node, tt)))
attempt_hit b p (open_view xs) shows node off guard =
    let here : (b.stack == b.stack) ≡ true = ground arith in
    let tags = open_head-ne-tags b xs shows in
    let tag : (b.stack == b.self) ≡ false = ground arith in
    let linked : write b.heap p b.stack p ≡ b.stack = ground arith in
    rw (here, tag)
      (won refl (λ e. cc)
        (
          shows.0,
          (
            refl,
            subst (λ r. Chain (write b.heap p b.stack) r xs) (sym linked)
                (Chain-write b.heap p b.stack b.stack xs off shows.1),
          ),
          (node, shows.2),
        ))

-- The exchange fails: the new node's `next` has been written, and nothing else.
attempt_miss :
    (b : Inbox) (last p : Ptr) (v : View)
    → (b.stack == last) ≡ false
    → Shows b v
    → OffView p v
    → Pushes p last v b (attempt b last p).0 (attempt b last p).1
unfolding attempt
attempt_miss b last p closed_view e shows off = rw e (lost (ground (arith, e)) refl shows)
attempt_miss b last p blocked_view e shows off = rw e (lost (ground (arith, e)) refl shows)
attempt_miss b last p (open_view xs) e shows off = rw e (
    lost (ground (arith, e)) refl (shows.0, Chain-write b.heap p _ b.stack xs off shows.1, shows.2))

-- One round, from a head that may be out of date, is one push on what the inbox shows at the
-- exchange, or nothing: also where the head has meanwhile been taken, freed and pushed again.
pub attempt-Pushes :
    (b : Inbox) (last p : Ptr) (v : View)
    → Shows b v
    → IsNode b p
    → OffView p v
    → last ≢ stack_closed_tag b
    → Pushes p last v b (attempt b last p).0 (attempt b last p).1
attempt-Pushes b last p v shows node off guard = elim (Bool-cases (b.stack == last)) [
  | inl e ↦
      subst (λ r. Pushes p r v b (attempt b r p).0 (attempt b r p).1) (ground arith)
        (attempt_hit b p v shows node off (ground arith))
  | inr e ↦ attempt_miss b last p v e shows off
]

-- An inbox that shows something, and to which the node `p` does not belong yet.
pub record Accepts (p : Ptr) (b : Inbox) : Type 0 where
  pub view : View
  pub shows : Shows b view
  pub node : IsNode b p
  pub off : OffView p view

-- The runs of `push_front` on the inbox `b`, whose head has just been read. It returns in two ways
-- only: the head that it read is the tag of a closed inbox; or its exchange puts the node on what the
-- inbox shows at that moment. Otherwise the head has moved between the read and the exchange, the
-- exchange changes nothing but the link of the new node, and the head found there is the next read.
pub data Linearized (interfere : ℕ → Inbox → Inbox) (p : Ptr)
    : ℕ → Inbox → Option (Inbox × EnqueueResult) → Type 0 where
  pending : {b : Inbox} → Linearized interfere p zero b none
  refused :
      {fuel : ℕ} {b : Inbox}
      → Shows b closed_view
      → Linearized interfere p (suc fuel) b (some (b, queue_closed))
  took_effect :
      {fuel : ℕ} {b : Inbox} (v : View) (b' : Inbox)
      → v ≢ closed_view
      → (interfere fuel b).stack ≡ b.stack
      → Shows (interfere fuel b) v
      → Shows b' (pushed_view p v)
      → Linearized interfere p (suc fuel) b (some (b', push_result v))
  lost_race :
      {fuel : ℕ} {b : Inbox} (v : View) (b' : Inbox) (r : Option (Inbox × EnqueueResult))
      → (interfere fuel b).stack ≢ b.stack
      → Shows (interfere fuel b) v
      → b'.stack ≡ (interfere fuel b).stack
      → Shows b' v
      → Linearized interfere p fuel b' r
      → Linearized interfere p (suc fuel) b r

attempt-self : (b : Inbox) (last p : Ptr) → (attempt b last p).0.self ≡ b.self
unfolding attempt
attempt-self b last p = ground arith

finish_round :
    (interfere : ℕ → Inbox → Inbox) (p : Ptr) (fuel : ℕ) (b b' : Inbox) (v : View)
    (o : Option EnqueueResult) (retry : Option (Inbox × EnqueueResult))
    → Shows (interfere fuel b) v
    → Pushes p b.stack v (interfere fuel b) b' o
    → (Shows b' v → Linearized interfere p fuel b' retry)
    → Linearized interfere p (suc fuel) b (elim o [ some e ↦ some (b', e) | none ↦ retry ])
finish_round interfere p fuel b b' v _ retry before (lost moved kept shows) again =
    lost_race v b' retry moved before kept shows (again shows)
finish_round interfere p fuel b b' v _ retry before (won same alive shows) again =
    took_effect v b' alive same before shows

Shows-closed :
    (b : Inbox) (v : View) → Shows b v → b.stack ≡ stack_closed_tag b → Shows b closed_view
Shows-closed b closed_view shows e = shows
Shows-closed b blocked_view shows e = absurd (ground arith)
Shows-closed b (open_view xs) shows e = absurd ((open_head-ne-tags b xs shows).1 e)

-- Whatever other threads do to the inbox between the rounds, as long as they leave an inbox that
-- shows something, do not push this node and do not move the inbox: push_front, from the head that
-- it reads first, returns a refusal only when the head that it read last is that of a closed
-- inbox, and success or unblocked_reader only by an exchange that finds the head as it was read
-- and puts the node on an inbox that is open, or blocked; and it goes round again only if the head
-- has moved since it was read.
pub push_front-Linearized :
    (interfere : ℕ → Inbox → Inbox) (p : Ptr)
    → ((k : ℕ) (b : Inbox) → Accepts p b → Accepts p (interfere k b))
    → ((k : ℕ) (b : Inbox) → (interfere k b).self ≡ b.self)
    → (fuel : ℕ) (b : Inbox) → Accepts p b
    → Linearized interfere p fuel b (push_front interfere fuel b b.stack p)
unfolding push_front
push_front-Linearized interfere p keeps stays zero b acc = pending
push_front-Linearized interfere p keeps stays (suc fuel) b acc =
    elim (Bool-cases (b.stack == stack_closed_tag b)) [
      | inl e ↦ rw e (refused (Shows-closed b acc.view acc.shows (ground (arith, e))))
      | inr e ↦ rw e (
          let b1 = interfere fuel b in
          let acc1 = keeps fuel b acc in
          let r = attempt b1 b.stack p in
          finish_round interfere p fuel b r.0 acc1.view r.1 _ acc1.shows
            (attempt-Pushes b1 b.stack p acc1.view acc1.shows acc1.node acc1.off
              (ground (arith, stays fuel b)))
            (λ shows. push_front-Linearized interfere p keeps stays fuel r.0 (record {
              view = acc1.view;
              shows = shows;
              node = rw (attempt-self b1 b.stack p) acc1.node;
              off = acc1.off;
            })))
    ]

attempt_wins : (b : Inbox) (p : Ptr) → (attempt b b.stack p).1 ≢ none
unfolding attempt
attempt_wins b p = ground arith

of_won :
    (p last : Ptr) (v : View) (a b : Inbox) (o : Option EnqueueResult)
    → Pushes p last v a b o
    → o ≢ none
    → (o ≡ some (push_result v)) × Shows b (pushed_view p v)
of_won p last v a b _ (lost moved kept shows) n = absurd (n refl)
of_won p last v a b _ (won same alive shows) n = (refl, shows)

quiet_round :
    (fuel : ℕ) (b : Inbox) (p : Ptr) (v : View)
    → Shows b v
    → IsNode b p
    → OffView p v
    → b.stack ≢ stack_closed_tag b
    → (b' : Inbox) × (push_front (λ _ c. c) (suc fuel) b b.stack p ≡ some (b', push_result v))
      × Shows b' (pushed_view p v)
unfolding push_front
quiet_round fuel b p v shows node off guard =
    let r = attempt b b.stack p in
    let (e, after) =
      of_won p b.stack v b r.0 r.1 (attempt_hit b p v shows node off guard) (attempt_wins b p) in
    let open_head : (b.stack == stack_closed_tag b) ≡ false = ground arith in
    (r.0, rw (open_head, e), after)

quiet_closed :
    (fuel : ℕ) (b : Inbox) (p : Ptr)
    → b.stack ≡ b.self + 1
    → push_front (λ _ c. c) (suc fuel) b b.stack p ≡ some (b, queue_closed)
unfolding push_front
quiet_closed fuel b p e = let h : (b.stack == stack_closed_tag b) ≡ true = ground arith in rw h

-- Without interference push_front needs one round on every state of the inbox: it is refused by a
-- closed one, opens and reports a blocked one, and goes on top of an open one.
pub push_front_quiet :
    (fuel : ℕ) (b : Inbox) (p : Ptr) (v : View)
    → Shows b v
    → IsNode b p
    → OffView p v
    → (b' : Inbox) × (push_front (λ _ c. c) (suc fuel) b b.stack p ≡ some (b', push_result v))
      × Shows b' (pushed_view p v)
push_front_quiet fuel b p closed_view shows node off = (b, quiet_closed fuel b p shows.1, shows)
push_front_quiet fuel b p blocked_view shows node off =
    quiet_round fuel b p blocked_view shows node off (ground arith)
push_front_quiet fuel b p (open_view xs) shows node off =
    quiet_round fuel b p (open_view xs) shows node off (open_head-ne-tags b xs shows).1
