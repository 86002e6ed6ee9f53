-- ===== src/Queue/LifoInbox.antt =====
-- header/actor-zeta/detail/queue/lifo_inbox.hpp: the lock-free inbox, a stack of nodes headed by one
-- atomic pointer that two tags share: `self` (the inbox's own address) for a blocked reader and
-- `self + 1` for a closed inbox. Each function is what one thread does between two accesses of
-- another: `attempt` is one round of the loop of `push_front`, from a head that was read earlier.
pub mod Views
pub mod Pushes
pub mod Reader
use mathlib.Core.Option
use actor_zeta.Base.{
  ℕ, zero, suc, ◌+◌, Bool, true, false, ◌||◌, List, [], ◌∷◌, Option, none, some, ◌==◌,
  if◌then◌else◌,
}
use actor_zeta.Queue.Links.{Ptr, null, Heap, write}

pub data EnqueueResult : Type 0 where
  success unblocked_reader queue_closed : EnqueueResult

-- `stack_`, the address of the inbox, and the heap that its nodes stand in.
pub record Inbox : Type 0 where
  pub self : Ptr
  pub stack : Ptr
  pub heap : Heap

abbrev pub stack_empty_tag : Ptr
stack_empty_tag = null

abbrev pub stack_closed_tag : Inbox → Ptr
stack_closed_tag b = b.self + 1

abbrev pub reader_blocked_tag : Inbox → Ptr
reader_blocked_tag b = b.self

abbrev pub is_empty_or_blocked_tag : Inbox → Ptr → Bool
is_empty_or_blocked_tag b x = x == stack_empty_tag || x == reader_blocked_tag b

-- `compare_exchange_strong` on `stack_`: the inbox after it, and whether it succeeded.
abbrev pub exchange : Inbox → Ptr → Ptr → Inbox × Bool
exchange b expected desired =
    if b.stack == expected then (record b { stack = desired }, true) else (b, false)

unfoldable pub closed : Inbox → Bool
closed b = b.stack == stack_closed_tag b

unfoldable pub blocked : Inbox → Bool
blocked b = b.stack == reader_blocked_tag b

unfoldable pub empty : Inbox → Bool
empty b = b.stack == stack_empty_tag

unfoldable pub try_block : Inbox → Inbox × Bool
try_block b = exchange b stack_empty_tag (reader_blocked_tag b)

unfoldable pub try_unblock : Inbox → Inbox × Bool
try_unblock b = exchange b (reader_blocked_tag b) stack_empty_tag

-- One round of the loop: the node is linked to the head that was read, and the head exchanged.
-- `none` means that the exchange failed, and that the loop goes on with the head that it found.
unfoldable pub attempt : Inbox → Ptr → Ptr → Inbox × Option EnqueueResult
attempt b last_element new_element =
    let next = if last_element == reader_blocked_tag b then stack_empty_tag else last_element in
    let linked = record b { heap = write b.heap new_element next } in
    let (b', won) = exchange linked last_element new_element in
    if won
    then (b', some (if last_element == reader_blocked_tag b then unblocked_reader else success))
    else (b', none)

-- `push_front`, where between the rounds the other threads change the inbox: `interfere k` is what
-- they do before round k's exchange. On a closed head the node is deleted. `none`: out of fuel.
unfoldable pub push_front :
    (ℕ → Inbox → Inbox) → ℕ → Inbox → Ptr → Ptr → Option (Inbox × EnqueueResult)
unfolding attempt
push_front interfere zero b last_element new_element = none
push_front interfere (suc fuel) b last_element new_element =
    let b1 = interfere fuel b in
    let r = attempt b1 last_element new_element in
    let retry = push_front interfere fuel r.0 r.0.stack new_element in
    if last_element == stack_closed_tag b
    then some (b, queue_closed)
    else elim r.1 [ some e ↦ some (r.0, e) | none ↦ retry ]

-- `take_head` from the head that was read: null, or the chain that was taken. One round suffices
-- for the only reader; `none` is a failed exchange.
unfoldable pub take_round : Inbox → Ptr → Ptr → Inbox × Option Ptr
take_round b last_element new_head =
    if last_element == new_head
    then (b, some null)
    else (let (b', won) = exchange b last_element new_head in
        if won
        then (b', some (if is_empty_or_blocked_tag b last_element then null else last_element))
        else (b', none))

-- `take_head` and `close` without interference.
unfoldable pub take_head : Inbox → Ptr → Inbox × Ptr
unfolding take_round
take_head b new_head =
    let r = take_round b b.stack new_head in (r.0, elim r.1 [ none ↦ null | some p ↦ p ])

-- The nodes that the loops of `close` and `fetch_more` pass, from a chain's head; the next pointer
-- is read before the node is handed on.
unfoldable pub chain : ℕ → Heap → Ptr → Option (List Ptr)
chain zero h p = none
chain (suc fuel) h p =
    let rest = chain fuel h (h p) in
    if p == null then some [] else elim rest [ none ↦ none | some ps ↦ some (p ∷ ps) ]

unfoldable pub close : ℕ → Inbox → Option (List Ptr × Inbox)
unfolding take_head chain
close fuel b =
    let r = take_head b (stack_closed_tag b) in
    Option.map (λ (ps : List Ptr). (ps, r.0)) (chain fuel r.0.heap r.1)
