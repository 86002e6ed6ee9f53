-- ===== src/Queue/LifoInbox/Reader.antt =====
-- The reader's side of the inbox: blocking, taking everything, closing.
use mathlib.Core.Option
use actor_zeta.Base.{
  ◌∙◌, ℕ, zero, suc, ◌+◌, ◌<◌, ◌≡◌, ◌≢◌, refl, sym, ap, subst, Bool, true, false, List, [], ◌∷◌,
  Option, some, ◌==◌, arith, length,
}
use actor_zeta.Queue.Links.{Ptr, null, Heap}
use actor_zeta.Queue.LifoInbox.{
  Inbox, stack_empty_tag, stack_closed_tag, closed, blocked, empty, try_block, try_unblock,
  take_head, chain, close,
}
use actor_zeta.Queue.LifoInbox.Views.{
  View, closed_view, blocked_view, open_view, Shows, AllNodes, Chain,
}

abbrev pub is_closed_view : View → Bool
is_closed_view closed_view = true
is_closed_view _ = false

abbrev pub is_blocked_view : View → Bool
is_blocked_view blocked_view = true
is_blocked_view _ = false

abbrev pub is_empty_view : View → Bool
is_empty_view (open_view []) = true
is_empty_view _ = false

-- The three tests of the head tell the views apart.
pub tests_lem :
    (b : Inbox) (v : View)
    → Shows b v
    → (closed b ≡ is_closed_view v) × (blocked b ≡ is_blocked_view v) × (empty b ≡ is_empty_view v)
unfolding closed blocked empty
tests_lem b closed_view shows = ground arith
tests_lem b blocked_view shows = ground arith
tests_lem b (open_view []) shows = ground arith
tests_lem b (open_view (x ∷ xs)) shows = ground arith

abbrev pub blocked_after : View → View
blocked_after (open_view []) = blocked_view
blocked_after v = v

abbrev pub unblocked_after : View → View
unblocked_after blocked_view = open_view []
unblocked_after v = v

-- try_block blocks an open empty inbox and no other, try_unblock opens a blocked one and no other,
-- and each says whether it did.
pub block_lem :
    (b : Inbox) (v : View)
    → Shows b v
    → ((try_block b).1 ≡ is_empty_view v)
      × Shows (try_block b).0 (blocked_after v)
      × ((try_unblock b).1 ≡ is_blocked_view v)
      × Shows (try_unblock b).0 (unblocked_after v)
unfolding try_block try_unblock
block_lem b closed_view shows = ground arith
block_lem b blocked_view shows = ground arith
block_lem b (open_view []) shows = ground arith
block_lem b (open_view (x ∷ xs)) shows =
    let e1 : (b.stack == null) ≡ false = ground arith in
    let e2 : (b.stack == b.self) ≡ false = ground arith in
    let kept1 : try_block b ≡ (b, false) = rw e1 in
    let kept2 : try_unblock b ≡ (b, false) = rw e2 in
    let keeps = λ (r : Inbox × Bool). (r.1 ≡ false) × Shows r.0 (open_view (x ∷ xs)) in
    let one = subst keeps (sym kept1) (refl, shows) in
    let two = subst keeps (sym kept2) (refl, shows) in (one.0, one.1, two.0, two.1)

-- Following a chain to null passes its nodes in order, and fuel for one more than they are suffices.
pub chain_lem :
    (h : Heap) (p : Ptr) (xs : List Ptr) (fuel : ℕ) (b : Inbox)
    → Chain h p xs
    → AllNodes b xs
    → length xs < fuel
    → chain fuel h p ≡ some xs
unfolding chain
chain_lem h p xs zero b w nodes few = absurd (omega arith)
chain_lem h p [] (suc fuel) b w nodes few = let e : (p == null) ≡ true = ground arith in rw e
chain_lem h p (x ∷ xs) (suc fuel) b w nodes few =
    let ih = chain_lem h (h x) xs fuel b w.1 nodes.1 (omega arith) in
    let first = w.0 in
    let e : (x == null) ≡ false = ground arith in rw (first, e, ih) (ap (λ y. some (y ∷ xs)) first)

-- What the reader of such an inbox takes.
abbrev pub taken : View → List Ptr
taken (open_view xs) = xs
taken _ = []

-- The pointer that `take_head` returns.
abbrev pub taken_head : Inbox → View → Ptr
taken_head b (open_view xs) = b.stack
taken_head b _ = null

-- The reader takes the whole chain of an open inbox and leaves it empty.
pub take_head_open :
    (b : Inbox) (xs : List Ptr)
    → Shows b (open_view xs)
    → take_head b stack_empty_tag ≡ (record b { stack = null }, b.stack)
unfolding take_head
take_head_open b [] shows =
    let e : (b.stack == null) ≡ true = ground arith in
    let head = shows.1 in rw e (λ i. (record b { stack = head i }, sym head i))
take_head_open b (x ∷ xs) shows = ground arith

-- Closing an open or a blocked inbox closes it, and takes what was in it; the heap stays.
pub take_head_closing :
    (b : Inbox) (v : View)
    → Shows b v
    → v ≢ closed_view
    → take_head b (stack_closed_tag b) ≡ (record b { stack = b.self + 1 }, taken_head b v)
unfolding take_head
take_head_closing b closed_view shows alive = absurd (alive refl)
take_head_closing b blocked_view shows alive = ground arith
take_head_closing b (open_view []) shows alive = ground arith
take_head_closing b (open_view (x ∷ xs)) shows alive = ground arith

taken-Chain : (b : Inbox) (v : View) → Shows b v → Chain b.heap (taken_head b v) (taken v)
taken-Chain b closed_view shows = refl
taken-Chain b blocked_view shows = refl
taken-Chain b (open_view xs) shows = shows.1

taken-nodes : (b : Inbox) (v : View) → Shows b v → AllNodes b (taken v)
taken-nodes b closed_view shows = tt
taken-nodes b blocked_view shows = tt
taken-nodes b (open_view xs) shows = shows.2

closes :
    (b : Inbox) (fuel : ℕ) (p q : Ptr) (xs : List Ptr)
    → take_head b (stack_closed_tag b) ≡ (record b { stack = q }, p)
    → chain fuel b.heap p ≡ some xs
    → close fuel b ≡ some (xs, record b { stack = q })
unfolding close
closes b fuel p q xs after all =
    let passed =
      λ (r : Inbox) (o : Option (List Ptr)). Option.map {B = List Ptr × Inbox} (λ ps. (ps, r)) o in
    ap (λ (r : Inbox × Ptr). passed r.0 (chain fuel r.0.heap r.1)) after
    ∙ ap (passed (record b { stack = q })) all

-- close on an inbox that is not closed, with enough fuel, hands over each of its nodes once,
-- newest first, and leaves it closed.
pub close_lem :
    (b : Inbox) (v : View) (fuel : ℕ)
    → Shows b v
    → v ≢ closed_view
    → length (taken v) < fuel
    → (close fuel b ≡ some (taken v, record b { stack = stack_closed_tag b }))
      × (closed (record b { stack = stack_closed_tag b }) ≡ true)
unfolding close closed
close_lem b v fuel shows alive few =
    let after = take_head_closing b v shows alive in
    let all =
      chain_lem b.heap (taken_head b v) (taken v) fuel b (taken-Chain b v shows)
        (taken-nodes b v shows) few in
    (closes b fuel (taken_head b v) (b.self + 1) (taken v) after all, ground arith)
