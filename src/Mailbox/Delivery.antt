-- ===== src/Mailbox/Delivery.antt =====
-- `pop_front_impl`: the order in which the mailbox delivers.
use actor_zeta.Base.{
  ℕ, suc, ◌<◌, ◌≡◌, refl, ◌∙◌, Bool, true, not, List, [], ◌∷◌, Option, none, some, reverse, select,
  length, arith, if◌then◌else◌,
}
use actor_zeta.Queue.Links.{Ptr, null}
use actor_zeta.Queue.LinkedList
use actor_zeta.Queue.LinkedList.{At}
use actor_zeta.Queue.LinkedList.Ends.{pop_front-nil}
use actor_zeta.Queue.LifoInbox.Views.{open_view}
use actor_zeta.Queue.Frames.{Chain-Agree}
use actor_zeta.Mailbox.{
  Mailbox, urgent_of, with_urgent, normal_of, with_normal, is_urgent, fetch_more, pop_front,
}
use actor_zeta.Mailbox.Regions.{Apart-symm, Apart-pop}
use actor_zeta.Mailbox.Fetch.{Contents, urgent_in, normal_in, fetch_more-nil, fetch_more-cons}

-- A mailbox as its reader sees it: urgent and normal messages, oldest first, and an inbox, newest
-- first.
pub data Letters : Type 0 where
  letters : List Ptr → List Ptr → List Ptr → Letters

-- The reader looks at its queues, urgent before normal.
abbrev pub deliver_cached : Letters → Option Ptr × Letters
deliver_cached (letters (u ∷ us) ns xs) = (some u, letters us ns xs)
deliver_cached (letters [] (n ∷ ns) xs) = (some n, letters [] ns xs)
deliver_cached (letters [] [] xs) = (none, letters [] [] xs)

-- When both are empty it sorts the inbox into them first.
abbrev pub refill : (Ptr → Bool) → Letters → Letters
refill high (letters [] [] xs) =
    letters (select high (reverse xs)) (select (λ p. not (high p)) (reverse xs)) []
refill high (letters [] (n ∷ ns) xs) = letters [] (n ∷ ns) xs
refill high (letters (u ∷ us) ns xs) = letters (u ∷ us) ns xs

abbrev pub deliver : (Ptr → Bool) → Letters → Option Ptr × Letters
deliver high l = deliver_cached (refill high l)

-- The mailbox is open and holds the letters.
abbrev pub HoldsLetters : Mailbox → Letters → Type 0
HoldsLetters m (letters us ns xs) = Contents m us ns (open_view xs)

abbrev pub inbox_of_letters : Letters → List Ptr
inbox_of_letters (letters us ns xs) = xs

pop_urgent :
    (rounds fuel : ℕ) (m : Mailbox) (u : Ptr) (us ns xs : List Ptr)
    → Contents m (u ∷ us) ns (open_view xs)
    → (m' : Mailbox) × (pop_front (suc rounds) fuel m ≡ some (some u, m'))
      × Contents m' us ns (open_view xs)
      × (m'.command ≡ m.command)
unfolding pop_front
pop_urgent rounds fuel m u us ns xs c =
    let r = LinkedList.pop_front (urgent_of m) in
    let (got, memory, agree) = Apart-pop m.heap m.urgent m.normal u us ns xs c.memory r refl in
    (
      with_urgent m r.1,
      rw (pop_front, got) refl,
      record {
        memory = memory;
        shown = (c.shown.0, Chain-Agree m.heap r.1.heap m.stack xs agree c.shown.1, c.shown.2);
      },
      refl,
    )

pop_normal :
    (rounds fuel : ℕ) (m : Mailbox) (n : Ptr) (ns xs : List Ptr)
    → Contents m [] (n ∷ ns) (open_view xs)
    → (m' : Mailbox) × (pop_front (suc rounds) fuel m ≡ some (some n, m'))
      × Contents m' [] ns (open_view xs)
      × (m'.command ≡ m.command)
unfolding pop_front
pop_normal rounds fuel m n ns xs c =
    let r = LinkedList.pop_front (normal_of m) in
    let none_urgent = pop_front-nil (urgent_of m) c.memory.one in
    let (got, memory, agree) =
      Apart-pop m.heap m.normal m.urgent n ns [] xs (Apart-symm c.memory) r refl in
    (
      with_normal m r.1,
      rw (pop_front, none_urgent, got) refl,
      record {
        memory = Apart-symm memory;
        shown = (c.shown.0, Chain-Agree m.heap r.1.heap m.stack xs agree c.shown.1, c.shown.2);
      },
      refl,
    )

pop_fetched :
    (rounds fuel : ℕ) (m : Mailbox) (xs : List Ptr) (r : Mailbox × Bool)
    → Contents m [] [] (open_view xs)
    → fetch_more fuel m ≡ some r
    → pop_front (suc rounds) fuel m ≡ (if r.1 then pop_front rounds fuel r.0 else some (none, r.0))
unfolding pop_front
pop_fetched rounds fuel m xs r c e =
    let none_urgent = pop_front-nil (urgent_of m) c.memory.one in
    let none_normal = pop_front-nil (normal_of m) c.memory.two in
    rw (pop_front, none_urgent, none_normal, e) refl

-- What the theorem below says of one call.
abbrev Delivered : (rounds fuel : ℕ) (m : Mailbox) (r : Option Ptr × Letters) → Type 0
Delivered rounds fuel m r =
    (m' : Mailbox) × (pop_front rounds fuel m ≡ some (r.0, m'))
    × HoldsLetters m' r.1
    × (m'.command ≡ m.command)

cached_lem :
    (rounds fuel : ℕ) (m : Mailbox) (us ns : List Ptr)
    → Contents m us ns (open_view [])
    → Delivered (suc rounds) fuel m (deliver_cached (letters us ns []))
cached_lem rounds fuel m (u ∷ us) ns c = pop_urgent rounds fuel m u us ns [] c
cached_lem rounds fuel m [] (n ∷ ns) c = pop_normal rounds fuel m n ns [] c
cached_lem rounds fuel m [] [] c =
    let (e, head) = fetch_more-nil fuel m [] [] c in
    (
      record m { stack = null },
      pop_fetched rounds fuel m [] _ c e,
      record { memory = c.memory; shown = (c.shown.0, refl, tt) },
      refl,
    )

-- pop_front on an open mailbox, with fuel for two rounds and for the messages of the inbox,
-- returns what the specification delivers (urgent before normal in the sorted queues, the inbox
-- sorted in only when both are empty) and leaves the mailbox that it leaves.
pub pop_front-deliver :
    (rounds fuel : ℕ) (m : Mailbox) (l : Letters)
    → HoldsLetters m l
    → length (inbox_of_letters l) < fuel
    → (m' : Mailbox) × (pop_front (suc (suc rounds)) fuel m
        ≡ some ((deliver (is_urgent m) l).0, m'))
      × HoldsLetters m' (deliver (is_urgent m) l).1
      × (m'.command ≡ m.command)
pop_front-deliver rounds fuel m (letters (u ∷ us) ns xs) c few =
    pop_urgent (suc rounds) fuel m u us ns xs c
pop_front-deliver rounds fuel m (letters [] (n ∷ ns) xs) c few =
    pop_normal (suc rounds) fuel m n ns xs c
pop_front-deliver rounds fuel m (letters [] [] []) c few = cached_lem (suc rounds) fuel m [] [] c
pop_front-deliver rounds fuel m (letters [] [] (x ∷ xs)) c few =
    let (m1, e, c1, kept) = fetch_more-cons fuel m [] [] x xs c (omega arith) in
    let (m2, e2, c2, kept2) =
      cached_lem rounds fuel m1 (urgent_in m (x ∷ xs)) (normal_in m (x ∷ xs)) c1 in
    (m2, pop_fetched (suc rounds) fuel m (x ∷ xs) (m1, true) c e ∙ e2, c2, kept2 ∙ kept)
