-- ===== src/Actor/Resume/Default.antt =====
-- The default mailbox keeps what an actor relies on, as long as it is not closed.
use actor_zeta.Base.{
  ℕ, ◌≤◌, ◌<◌, ◌≡◌, ◌≢◌, refl, ap, Bool, true, false, List, [], ◌∷◌, Option, some, length, arith,
  ◌==◌, Bool-cases, inl, inr,
}
use actor_zeta.Queue.Links.{Ptr, null}
use actor_zeta.Queue.LifoInbox.{try_block, try_unblock}
use actor_zeta.Queue.LifoInbox
use actor_zeta.Queue.LifoInbox.Views.{View, closed_view, blocked_view, open_view}
use actor_zeta.Queue.LifoInbox.Pushes.{open_head-ne-tags}
use actor_zeta.Queue.LifoInbox.Reader.{taken, tests_lem, block_lem}
use actor_zeta.Mailbox
use actor_zeta.Mailbox.{Mailbox, inbox_of, with_inbox, is_urgent}
use actor_zeta.Mailbox.Fetch.{Contents, fetch_more-nil, fetch_more-cons}
use actor_zeta.Mailbox.Delivery.{
  Letters, letters, deliver_cached, refill, deliver, HoldsLetters, inbox_of_letters,
  pop_front-deliver,
}
use actor_zeta.Actor.Resume.{
  MailboxLaws, default_mailbox, Outside, Behaving, adrift, Verdict, resume_impl,
}
use actor_zeta.Actor.Resume.Parking.{IsFair}
use actor_zeta.Actor.Resume.Verdicts.{resume_impl-Returns}

-- Open, with fuel for its inbox.
pub record IsOpen (fuel : ℕ) (m : Mailbox) : Type 0 where
  pub held : Letters
  pub holds : HoldsLetters m held
  pub enough : length (inbox_of_letters held) < fuel

-- Open or blocked, with fuel for its inbox.
pub record IsSound (fuel : ℕ) (m : Mailbox) : Type 0 where
  pub urgent : List Ptr
  pub normal : List Ptr
  pub view : View
  pub contents : Contents m urgent normal view
  pub not_closed : view ≢ closed_view
  pub enough : length (taken view) < fuel

open_not_blocked_lem : (fuel : ℕ) (m : Mailbox) → IsOpen fuel m → Mailbox.blocked m ≡ false
unfolding Mailbox.blocked
open_not_blocked_lem fuel m o = go o.held o.holds
  where
    go : (l : Letters) → HoldsLetters m l → LifoInbox.blocked (inbox_of m) ≡ false
    go (letters us ns xs) c = (tests_lem (inbox_of m) (open_view xs) c.shown).1

open_sound_lem : (fuel : ℕ) (m : Mailbox) → IsOpen fuel m → IsSound fuel m
open_sound_lem fuel m o = go o.held o.holds o.enough
  where
    go : (l : Letters) → HoldsLetters m l → length (inbox_of_letters l) < fuel → IsSound fuel m
    go (letters us ns xs) c few = record {
      urgent = us;
      normal = ns;
      view = open_view xs;
      contents = c;
      not_closed = λ e. cc;
      enough = few;
    }

unblocked_open_lem :
    (fuel : ℕ) (m : Mailbox) → IsSound fuel m → Mailbox.blocked m ≡ false → IsOpen fuel m
unfolding Mailbox.blocked
unblocked_open_lem fuel m s clear = go s.view s.contents s.not_closed s.enough
  where
    go :
        (v : View)
        → Contents m s.urgent s.normal v
        → v ≢ closed_view
        → length (taken v) < fuel
        → IsOpen fuel m
    go closed_view c alive few = absurd (alive refl)
    go blocked_view c alive few =
        let tag = (tests_lem (inbox_of m) blocked_view c.shown).1 in absurd (ground arith)
    go (open_view xs) c alive few = record {
      held = letters s.urgent s.normal xs;
      holds = c;
      enough = few;
    }

-- Blocking goes from open and empty to blocked.
blocked_after-IsSound :
    (fuel : ℕ) (m : Mailbox) (us ns : List Ptr) (v : View)
    → Contents m us ns v
    → v ≢ closed_view
    → length (taken v) < fuel
    → IsSound fuel (with_inbox m (LifoInbox.try_block (inbox_of m)).0)
unfolding LifoInbox.try_block
blocked_after-IsSound fuel m us ns closed_view c alive few = absurd (alive refl)
blocked_after-IsSound fuel m us ns blocked_view c alive few =
    let shown = (block_lem (inbox_of m) blocked_view c.shown).1 in
    let other : (m.stack == null) ≡ false = ground arith in
    rw other (record {
      urgent = us;
      normal = ns;
      view = blocked_view;
      contents = c;
      not_closed = λ e. cc;
      enough = few;
    })
blocked_after-IsSound fuel m us ns (open_view []) c alive few =
    let here : (m.stack == null) ≡ true = ground arith in
    rw here (record {
      urgent = us;
      normal = ns;
      view = blocked_view;
      contents = record { memory = c.memory; shown = (c.shown.0, refl) };
      not_closed = λ e. cc;
      enough = few;
    })
blocked_after-IsSound fuel m us ns (open_view (x ∷ xs)) c alive few =
    let other : (m.stack == null) ≡ false = ground arith in
    rw other (record {
      urgent = us;
      normal = ns;
      view = open_view (x ∷ xs);
      contents = c;
      not_closed = λ e. cc;
      enough = few;
    })

block_sound_lem : (fuel : ℕ) (m : Mailbox) → IsSound fuel m → IsSound fuel (Mailbox.try_block m).0
unfolding Mailbox.try_block
block_sound_lem fuel m s = elim (Bool-cases (Mailbox.cached m == 0)) [
  | inl e ↦
      rw e (blocked_after-IsSound fuel m s.urgent s.normal s.view s.contents s.not_closed s.enough)
  | inr e ↦ rw e s
]

unblock_opens_lem :
    (fuel : ℕ) (m : Mailbox) → IsSound fuel m → IsOpen fuel (Mailbox.try_unblock m).0
unfolding Mailbox.try_unblock LifoInbox.try_unblock
unblock_opens_lem fuel m s = go s.view s.contents s.not_closed s.enough
  where
    go :
        (v : View)
        → Contents m s.urgent s.normal v
        → v ≢ closed_view
        → length (taken v) < fuel
        → IsOpen fuel (Mailbox.try_unblock m).0
    go closed_view c alive few = absurd (alive refl)
    go blocked_view c alive few =
        let here : (m.stack == m.self) ≡ true = ground arith in
        rw here (record {
          held = letters s.urgent s.normal [];
          holds = record { memory = c.memory; shown = (c.shown.0, refl, tt) };
          enough = few;
        })
    go (open_view xs) c alive few =
        let tags = open_head-ne-tags (inbox_of m) xs c.shown in
        let other : (m.stack == m.self) ≡ false = ground arith in
        rw other (record { held = letters s.urgent s.normal xs; holds = c; enough = few })

deliver_cached-inbox : (l : Letters) → inbox_of_letters (deliver_cached l).1 ≡ inbox_of_letters l
deliver_cached-inbox (letters (u ∷ us) ns xs) = refl
deliver_cached-inbox (letters [] (n ∷ ns) xs) = refl
deliver_cached-inbox (letters [] [] xs) = refl

refill-inbox :
    (high : Ptr → Bool) (l : Letters)
    → length (inbox_of_letters (refill high l)) ≤ length (inbox_of_letters l)
refill-inbox high (letters (u ∷ us) ns xs) = omega arith
refill-inbox high (letters [] (n ∷ ns) xs) = omega arith
refill-inbox high (letters [] [] xs) = omega arith

pop_stays_lem :
    (fuel : ℕ) (m : Mailbox)
    → IsOpen fuel m
    → (r : Option Ptr × Mailbox) × (Mailbox.pop_front 2 fuel m ≡ some r) × IsOpen fuel r.1
pop_stays_lem fuel m o =
    let (m', run, holds, same) = pop_front-deliver 0 fuel m o.held o.holds o.enough in
    let full = refill (is_urgent m) o.held in
    let left = ap length (deliver_cached-inbox full) in
    (
      (_, m'),
      run,
      record {
        held = (deliver (is_urgent m) o.held).1;
        holds = holds;
        enough = omega (arith, left, refill-inbox (is_urgent m) o.held, o.enough);
      },
    )

empty_stays_lem :
    (fuel : ℕ) (m : Mailbox)
    → IsOpen fuel m
    → (r : Bool × Mailbox) × ((default_mailbox fuel).empty m ≡ some r) × IsOpen fuel r.1
unfolding Mailbox.size
empty_stays_lem fuel m o = go o.held o.holds o.enough
  where
    go :
        (l : Letters)
        → HoldsLetters m l
        → length (inbox_of_letters l) < fuel
        → (r : Bool × Mailbox) × ((default_mailbox fuel).empty m ≡ some r) × IsOpen fuel r.1
    go (letters us ns []) c few =
        let (run, head) = fetch_more-nil fuel m us ns c in
        rw (default_mailbox, run)
          (
            _,
            refl,
            record {
              held = letters us ns [];
              holds = record { memory = c.memory; shown = (c.shown.0, refl, tt) };
              enough = few;
            },
          )
    go (letters us ns (x ∷ xs)) c few =
        let (m', run, after, same) = fetch_more-cons fuel m us ns x xs c (omega arith) in
        rw (default_mailbox, run)
          (_, refl, record { held = letters _ _ []; holds = after; enough = omega arith })

-- The laws hold for the default mailbox.
pub default_laws : (fuel : ℕ) → MailboxLaws (default_mailbox fuel)
default_laws fuel = record {
  IsSound = IsSound fuel;
  IsOpen = IsOpen fuel;
  open_sound = open_sound_lem fuel;
  open_not_blocked = open_not_blocked_lem fuel;
  unblocked_open = unblocked_open_lem fuel;
  unblock_opens = unblock_opens_lem fuel;
  block_sound = block_sound_lem fuel;
  empty_stays = empty_stays_lem fuel;
  pop_stays = pop_stays_lem fuel;
}

-- On a default mailbox that is open or blocked, where before each of the actor's accesses the
-- others (other threads, and the actor's own methods and continuations) do anything that leaves it
-- open if it is open, sound if it is sound, and with fewer messages in its inbox than the fuel,
-- such as pushing, but nobody closes it (only its destructor does); and where a coroutine that is
-- alive awaits something: resume_impl returns; none of the assertions that are modelled fails, nor
-- does a loop run out of fuel; it handles at most max_throughput messages; it keeps the actor
-- scheduled exactly if the verdict is `resume`; and its verdict is `awaiting` only if the behavior
-- is done.
pub resume_impl-default_mailbox :
    (fuel : ℕ) (outside : Outside Mailbox) (destroying : Bool) (max_throughput : ℕ) (m : Mailbox)
    (behaving : Behaving)
    → ((k n : ℕ) (b : Mailbox) → IsSound fuel b → IsSound fuel (outside.others k n b))
    → ((k n : ℕ) (b : Mailbox) → IsOpen fuel b → IsOpen fuel (outside.others k n b))
    → ((k : ℕ) (p : Ptr) → outside.behavior k p ≢ adrift)
    → ((k : ℕ) → outside.resumed k ≢ adrift)
    → behaving ≢ adrift
    → IsSound fuel m
    → (v : Verdict Mailbox) × (resume_impl
          (default_mailbox fuel)
          outside
          destroying
          max_throughput
          m
          behaving
        ≡ some v)
      × IsFair max_throughput v
unfolding default_laws
resume_impl-default_mailbox fuel outside destroying max_throughput m behaving sound_kept open_kept
      behavior_moored resumed_moored moored sound =
    resume_impl-Returns (default_mailbox fuel) (default_laws fuel) outside sound_kept open_kept
      behavior_moored resumed_moored destroying max_throughput m behaving sound moored
