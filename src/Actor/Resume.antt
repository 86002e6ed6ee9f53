-- ===== src/Actor/Resume.antt =====
-- header/actor-zeta/actor/cooperative_actor.hpp: `resume_impl` and `park`, the part of `resume` under
-- the `running` flag, as one function: which messages an actor handles, and with which verdict it
-- leaves. What other threads and the actor's own methods do is a parameter.
pub mod Parking
pub mod Verdicts
pub mod Default
mod Tests
use mathlib.Core.Option
use actor_zeta.Base.{
  ℕ, zero, suc, ◌+◌, Bool, true, false, not, ◌&&◌, ◌||◌, ◌≡◌, List, [], ◌∷◌, ◌++◌, Option, none,
  some, ◌==◌, if◌then◌else◌, ◌>>=◌,
}
use actor_zeta.Queue.Links.{Ptr}
use actor_zeta.Mailbox.{Mailbox}
use actor_zeta.Mailbox
use actor_zeta.Scheduler.{ResumeResult, resume, awaiting, done}

-- What the actor uses of a mailbox; `empty` may sort its inbox. In `empty` and `pop_front`, `none`
-- stands for a failed assertion, and for a loop that runs out of fuel.
pub record MailboxOps (B : Type 0) : Type 0 where
  pub closed : B → Bool
  pub blocked : B → Bool
  pub empty : B → Option (Bool × B)
  pub try_block : B → B × Bool
  pub try_unblock : B → B × Bool
  pub pop_front : B → Option (Option Ptr × B)

-- What it relies on: a sound mailbox is open or blocked, `try_unblock` opens it, `try_block` leaves
-- it sound, and an open one can be read and stays open then.
pub record MailboxLaws {B : Type 0} (ops : MailboxOps B) : Type 1 where
  pub IsSound : B → Type 0
  pub IsOpen : B → Type 0
  pub open_sound : (b : B) → IsOpen b → IsSound b
  pub open_not_blocked : (b : B) → IsOpen b → ops.blocked b ≡ false
  pub unblocked_open : (b : B) → IsSound b → ops.blocked b ≡ false → IsOpen b
  pub unblock_opens : (b : B) → IsSound b → IsOpen (ops.try_unblock b).0
  pub block_sound : (b : B) → IsSound b → IsSound (ops.try_block b).0
  pub empty_stays : (b : B) → IsOpen b → (r : Bool × B) × (ops.empty b ≡ some r) × IsOpen r.1
  pub pop_stays :
      (b : B) → IsOpen b → (r : Option Ptr × B) × (ops.pop_front b ≡ some r) × IsOpen r.1

-- The default mailbox, with fuel for its loops.
abbrev pub default_mailbox : ℕ → MailboxOps Mailbox
default_mailbox fuel = record {
  closed = Mailbox.closed;
  blocked = Mailbox.blocked;
  empty = λ m. Option.map (λ (r : ℕ × Mailbox). (r.0 == 0, r.1)) (Mailbox.size fuel m);
  try_block = Mailbox.try_block;
  try_unblock = Mailbox.try_unblock;
  pop_front = Mailbox.pop_front 2 fuel;
}

-- `current_behavior_`: none or done; on a co_await, with whether the awaited promise is released when
-- it is next asked; or alive without awaiting anything.
pub data Behaving : Type 0 where
  quiet adrift : Behaving
  busy : (awaited_ready : Bool) → Behaving

abbrev pub is_busy : Behaving → Bool
is_busy (busy ready) = true
is_busy _ = false

-- `behavior_t::done`
abbrev pub is_done : Behaving → Bool
is_done quiet = true
is_done _ = false

-- What is outside. Whether `destroying` is set when k messages are handled, before and behind the
-- pop; what a message's behavior comes to; what a resumed behavior does next. `others k n` is what
-- happens to the mailbox, when k messages are handled, before the n-th access of it: what other
-- threads do, and what the actor's own methods and continuations did since the access before. An
-- access is one step: what comes while it runs counts before it or behind it.
pub record Outside (B : Type 0) : Type 0 where
  pub destroying : ℕ → Bool
  pub destroying_then : ℕ → Bool
  pub behavior : ℕ → Ptr → Behaving
  pub resumed : ℕ → Behaving
  pub others : ℕ → ℕ → B → B

-- What `finalize` is given, with the mailbox, the behavior, and the messages that were handled.
pub record Verdict (B : Type 0) : Type 0 where
  pub result : ResumeResult
  pub handled : ℕ
  pub keep_scheduled : Bool
  pub mailbox : B
  pub behaving : Behaving
  pub messages : List Ptr

module _ {B : Type 0} (ops : MailboxOps B) (outside : Outside B) where
  -- Resume the awaited continuation, if it is ready.
  unfoldable pub drain : ℕ → Behaving → Behaving
  drain handled quiet = quiet
  drain handled adrift = adrift
  drain handled (busy true) = outside.resumed handled
  drain handled (busy false) = busy false

  abbrev finalize : ResumeResult → ℕ → Bool → B → Behaving → List Ptr → Verdict B
  finalize result handled keep_scheduled box behaving messages = record {
    result = result;
    handled = handled;
    keep_scheduled = keep_scheduled;
    mailbox = box;
    behaving = behaving;
    messages = messages;
  }

  -- `none` stands for its assertion that the behavior is done.
  unfoldable pub park : B → Behaving → ℕ → List Ptr → Option (Verdict B)
  park box behaving handled messages =
      let (box1, did) = ops.try_block (outside.others handled 9 box) in
      let box2 = outside.others handled 10 box1 in
      let box3 = outside.others handled 11 box2 in
      let race_window : Option (Bool × B) =
        if ops.blocked box2
        then some (false, box2)
        else Option.map (λ (r : Bool × B). (not r.0, r.1)) (ops.empty box3) in
      let checked = if did then race_window else some (false, box1) in
      let verdict : Bool × B → Verdict B = λ r.
        (let keep_scheduled = not did || r.0 in
          finalize (if keep_scheduled then resume else awaiting) handled keep_scheduled r.1 behaving
            messages) in
      if is_done behaving then Option.map verdict checked else none

  -- The loop, for so many more messages.
  unfoldable pub drain_mailbox : ℕ → ℕ → B → Behaving → List Ptr → Option (Verdict B)
  drain_mailbox zero handled box behaving messages =
      let box1 = outside.others handled 8 box in
      if ops.closed box1
      then some (finalize done handled false box1 behaving messages)
      else if is_busy behaving
      then some (finalize resume handled true box1 behaving messages)
      else park box1 behaving handled messages
  drain_mailbox (suc left) handled box behaving messages =
      let box1 = outside.others handled 4 box in
      let box2 = outside.others handled 5 box1 in
      let drained = drain handled behaving in
      let box3 = outside.others handled 6 box2 in
      let next : Ptr → B → Option (Verdict B) = λ p box4.
        drain_mailbox left (suc handled) box4
          (if outside.destroying_then handled then drained else outside.behavior handled p)
          (messages ++ (p ∷ [])) in
      if outside.destroying handled
      then some (finalize done handled false box behaving messages)
      else if ops.closed box1
      then some (finalize done handled false box1 behaving messages)
      else if ops.blocked box2
      then some (finalize awaiting handled false box2 behaving messages)
      else if is_busy drained
      then some (finalize resume handled true box2 drained messages)
      else (do
        (msg, box4) ← ops.pop_front box3
        let box5 = outside.others handled 7 box4
        elim msg [
          | some p ↦ next p box4
          | none ↦
              if ops.closed box5
              then some (finalize done handled false box5 drained messages)
              else park box5 drained handled messages
        ])

  -- With whether `destroying` is set at the entry.
  unfoldable pub resume_impl : Bool → ℕ → B → Behaving → Option (Verdict B)
  resume_impl destroying_first max_throughput box behaving =
      let box1 = outside.others 0 0 box in
      let (box2, unblocked) = ops.try_unblock (outside.others 0 1 box1) in
      let drained = drain 0 behaving in
      let box3 = outside.others 0 2 box2 in
      if destroying_first
      then some (finalize done 0 false box behaving [])
      else if ops.closed box1
      then some (finalize done 0 false box1 behaving [])
      else if is_busy drained
      then some (finalize resume 0 true box2 drained [])
      else if ops.blocked box3
      then some (finalize awaiting 0 false box3 drained [])
      else (do
        (vacant, box4) ← ops.empty (outside.others 0 3 box3)
        (if vacant then park box4 drained 0 [] else drain_mailbox max_throughput 0 box4 drained []))
