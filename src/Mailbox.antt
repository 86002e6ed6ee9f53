-- ===== src/Mailbox.antt =====
-- header/actor-zeta/mailbox/default_mailbox.hpp and header/actor-zeta/impl/mailbox/default_mailbox.ipp:
-- the mailbox, a lock-free inbox that any thread pushes to and two linked lists that the reader
-- alone uses, one per priority. Every function is the reader's, or a push in one step.
pub mod Tests
pub mod Regions
pub mod Fetch
pub mod Delivery
pub mod Order
pub mod Closing
pub mod Push
use mathlib.Core.Option
use actor_zeta.Base.{
  ℕ, zero, suc, ◌+◌, Bool, true, false, List, [], ◌∷◌, ◌++◌, Option, none, some, ◌==◌,
  if◌then◌else◌, ◌>>=◌,
}
use actor_zeta.MessageId.{is_high_priority}
use actor_zeta.Queue.Links.{Ptr, null, Heap}
use actor_zeta.Queue.LinkedList.{LinkedList, At}
use actor_zeta.Queue.LinkedList
use actor_zeta.Queue.LifoInbox.{Inbox, EnqueueResult, stack_empty_tag, take_head}
use actor_zeta.Queue.LifoInbox

-- The two lists, the inbox (its address and its head), and the heap that all of them link through.
-- `command` gives each message's id, which does not change while a message is in the mailbox.
pub record Mailbox : Type 0 where
  pub heap : Heap
  pub command : Ptr → ℕ
  pub urgent : LinkedList
  pub normal : LinkedList
  pub self : Ptr
  pub stack : Ptr

abbrev pub inbox_of : Mailbox → Inbox
inbox_of m = record { self = m.self; stack = m.stack; heap = m.heap }

abbrev pub with_inbox : Mailbox → Inbox → Mailbox
with_inbox m b = record m { heap = b.heap; stack = b.stack }

abbrev pub urgent_of : Mailbox → At
urgent_of m = record { heap = m.heap; list = m.urgent }

abbrev pub with_urgent : Mailbox → At → Mailbox
with_urgent m s = record m { heap = s.heap; urgent = s.list }

abbrev pub normal_of : Mailbox → At
normal_of m = record { heap = m.heap; list = m.normal }

abbrev pub with_normal : Mailbox → At → Mailbox
with_normal m s = record m { heap = s.heap; normal = s.list }

abbrev pub is_urgent : Mailbox → Ptr → Bool
is_urgent m p = is_high_priority (m.command p)

-- `push_back_impl`, while no other thread is in the inbox
unfoldable pub push_back : Mailbox → Ptr → Option (Mailbox × EnqueueResult)
push_back m p =
    Option.map (λ (r : Inbox × EnqueueResult). (with_inbox m r.0, r.1))
      (LifoInbox.push_front (λ _ b. b) 1 (inbox_of m) m.stack p)

unfoldable pub push_front : Mailbox → Ptr → Mailbox
push_front m p =
    if is_urgent m p
    then with_urgent m (LinkedList.push_front (urgent_of m) p)
    else with_normal m (LinkedList.push_front (normal_of m) p)

unfoldable pub cached : Mailbox → ℕ
cached m = m.urgent.size + m.normal.size

-- One round of the loop of `fetch_more`: the message goes behind its list's insertion point.
unfoldable pub sort_one : Mailbox → Ptr → Ptr → Ptr → Mailbox
sort_one m urgent_point normal_point head =
    if is_urgent m head
    then with_urgent m (LinkedList.insert_after (urgent_of m) urgent_point head)
    else with_normal m (LinkedList.insert_after (normal_of m) normal_point head)

-- The loop of `fetch_more`, which reads the next pointer before it moves the message.
unfoldable pub sort_all : ℕ → Mailbox → Ptr → Ptr → Ptr → Option Mailbox
unfolding sort_one
sort_all zero m urgent_point normal_point head = none
sort_all (suc fuel) m urgent_point normal_point head =
    let next = m.heap head in
    let m' = sort_one m urgent_point normal_point head in
    let rest = sort_all fuel m' urgent_point normal_point next in
    if next == null then some m' else rest

unfoldable pub fetch_more : ℕ → Mailbox → Option (Mailbox × Bool)
unfolding sort_all
fetch_more fuel m =
    let (b, head) = take_head (inbox_of m) stack_empty_tag in
    let m' = with_inbox m b in
    if head == null
    then some (m', false)
    else Option.map (λ (r : Mailbox). (r, true))
        (sort_all fuel m' (LinkedList.before_end (urgent_of m'))
          (LinkedList.before_end (normal_of m')) head)

-- `pop_front_impl`: the loop with fuel `rounds`, whose last step calls `fetch_more`.
unfoldable pub pop_front : ℕ → ℕ → Mailbox → Option (Option Ptr × Mailbox)
unfolding fetch_more
pop_front zero fuel m = none
pop_front (suc rounds) fuel m =
    let again = pop_front rounds fuel in
    let (first, s1) = LinkedList.pop_front (urgent_of m) in
    elim first [
      | some p ↦ some (some p, with_urgent m s1)
      | none ↦
          let (second, s2) = LinkedList.pop_front (normal_of m) in
          elim second [
            | some p ↦ some (some p, with_normal m s2)
            | none ↦ elim (fetch_more fuel m) [
              | none ↦ none
              | some r ↦ if r.1 then again r.0 else some (none, r.0)
            ]
          ]
    ]

unfoldable pub closed : Mailbox → Bool
closed m = LifoInbox.closed (inbox_of m)

unfoldable pub blocked : Mailbox → Bool
blocked m = LifoInbox.blocked (inbox_of m)

-- The conjunction does not try the inbox when a message is cached.
unfoldable pub try_block : Mailbox → Mailbox × Bool
unfolding cached
try_block m =
    if cached m == 0
    then (let r = LifoInbox.try_block (inbox_of m) in (with_inbox m r.0, r.1))
    else (m, false)

unfoldable pub try_unblock : Mailbox → Mailbox × Bool
try_unblock m = let r = LifoInbox.try_unblock (inbox_of m) in (with_inbox m r.0, r.1)

-- `size_impl`
unfoldable pub size : ℕ → Mailbox → Option (ℕ × Mailbox)
unfolding fetch_more cached
size fuel m = Option.map (λ (r : Mailbox × Bool). (cached r.0, r.0)) (fetch_more fuel m)

-- `close_impl`: the messages it deletes, whose number it returns, and the mailbox.
unfoldable pub close : ℕ → Mailbox → Option (List Ptr × Mailbox)
close fuel m = do
  (us, s1) ← LinkedList.drain fuel (urgent_of m)
  let m1 = with_urgent m s1
  (ns, s2) ← LinkedList.drain fuel (normal_of m1)
  let m2 = with_normal m1 s2
  (xs, b) ← LifoInbox.close fuel (inbox_of m2)
  some (us ++ (ns ++ xs), with_inbox m2 b)

-- The destructor
unfoldable pub destroy : ℕ → Mailbox → Option (List Ptr × Mailbox)
unfolding close closed
destroy fuel m = if closed m then some ([], m) else close fuel m
