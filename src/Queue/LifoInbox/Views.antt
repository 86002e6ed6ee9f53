-- ===== src/Queue/LifoInbox/Views.antt =====
-- What an inbox stands for: closed, blocked, or open with its nodes, newest first.
use actor_zeta.Base.{◌+◌, ◌≡◌, ◌≢◌, subst, List, [], ◌∷◌, arith}
use actor_zeta.Queue.Links.{Ptr, null, Heap, write, Off}
use actor_zeta.Queue.LifoInbox.{EnqueueResult, success, unblocked_reader, queue_closed, Inbox}

-- From `p` the `next` pointers lead through the nodes to null.
abbrev pub Chain : Heap → Ptr → List Ptr → Type 0
Chain h p [] = p ≡ null
Chain h p (x ∷ xs) = (p ≡ x) × Chain h (h x) xs

pub data View : Type 0 where
  closed_view blocked_view : View
  open_view : List Ptr → View

-- An address that a node can have: not null, nor a tag.
abbrev pub IsNode : Inbox → Ptr → Type 0
IsNode b p = (p ≢ null) × (p ≢ b.self) × (p ≢ b.self + 1)

abbrev pub AllNodes : Inbox → List Ptr → Type 0
AllNodes b [] = Unit {0}
AllNodes b (x ∷ xs) = IsNode b x × AllNodes b xs

abbrev pub Shows : Inbox → View → Type 0
Shows b closed_view = (b.self ≢ null) × (b.stack ≡ b.self + 1)
Shows b blocked_view = (b.self ≢ null) × (b.stack ≡ b.self)
Shows b (open_view xs) = (b.self ≢ null) × Chain b.heap b.stack xs × AllNodes b xs

pub Chain-write :
    (h : Heap) (a q p : Ptr) (xs : List Ptr) → Off a xs → Chain h p xs → Chain (write h a q) p xs
Chain-write h a q p [] o w = w
Chain-write h a q p (x ∷ xs) o w =
    let n = o.0 in
    (w.0, subst (λ r. Chain (write h a q) r xs) (ground arith) (Chain-write h a q (h x) xs o.1 w.1))

abbrev pub OffView : Ptr → View → Type 0
OffView p (open_view xs) = Off p xs
OffView p _ = Unit {0}

-- The atomic effect of a successful push.
abbrev pub pushed_view : Ptr → View → View
pushed_view p (open_view xs) = open_view (p ∷ xs)
pushed_view p blocked_view = open_view (p ∷ [])
pushed_view p closed_view = closed_view

abbrev pub push_result : View → EnqueueResult
push_result (open_view xs) = success
push_result blocked_view = unblocked_reader
push_result closed_view = queue_closed
