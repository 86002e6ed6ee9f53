-- ===== src/Actor/Resume/Tests.antt =====
-- An actor with one urgent and one normal message, to which another thread pushes a third one, the
-- node 22, before the loop looks at the mailbox; its handler suspends on a future that is not ready.
use actor_zeta.Base.{
  ℕ, ◌≡◌, ◌≢◌, refl, false, ◌&&◌, [], ◌∷◌, some, arith, ◌==◌, if◌then◌else◌, Bool-cases, inl, inr,
}
use actor_zeta.Queue.Links.{Ptr, write}
use actor_zeta.MessageId.{message_priority, is_high_priority}
use actor_zeta.Queue.LinkedList
use actor_zeta.Queue.LinkedList.{insert_after, before_end}
use actor_zeta.Queue.LifoInbox
use actor_zeta.Queue.LifoInbox.{take_head}
use actor_zeta.Queue.LifoInbox.Views.{open_view}
use mathlib.Core.Option
use actor_zeta.Mailbox.{Mailbox}
use actor_zeta.Mailbox
use actor_zeta.Mailbox.Fetch.{Contents}
use actor_zeta.Mailbox.Delivery.{letters}
use actor_zeta.Mailbox.Tests.{box, box-Contents}
use actor_zeta.Actor.Resume.{
  Outside, Verdict, default_mailbox, quiet, adrift, busy, drain, drain_mailbox, resume_impl,
}
use actor_zeta.Actor.Resume.Parking.{IsFair}
use actor_zeta.Actor.Resume.Default.{IsSound, IsOpen, resume_impl-default_mailbox}

-- The mailbox behind the push, its first two messages sorted.
abbrev pushed : Mailbox
pushed = record box {
  heap =
      write (write (write (write (write (write (write (λ _. 0) 1 21) 21 2) 2 21) 3 20) 20 4) 4 20)
        22 0;
  urgent = record { head = 1; tail = 2; size = 1 };
  normal = record { head = 3; tail = 4; size = 1 };
  stack = 22;
}

pushed-Contents : Contents pushed (21 ∷ []) (20 ∷ []) (open_view (22 ∷ []))
pushed-Contents = record {
  memory = record {
    one = record { path = (refl, (refl, tt)); back = refl; sized = refl; distinct = ground arith };
    two = record { path = (refl, (refl, tt)); back = refl; sized = refl; distinct = ground arith };
    lists = ground arith;
    off_one = ground arith;
    off_two = ground arith;
    distinct = ground arith;
  };
  shown = ground arith;
}

abbrev outside : Outside Mailbox
outside = record {
  destroying = λ _. false;
  destroying_then = λ _. false;
  behavior = λ k p. if p == 22 then busy false else quiet;
  resumed = λ _. quiet;
  others = λ k n m. if k == 0 && n == 4 then pushed else m;
}

box-IsSound : IsSound 5 box
box-IsSound = record {
  urgent = [];
  normal = [];
  view = open_view (20 ∷ 21 ∷ []);
  contents = box-Contents;
  not_closed = λ e. cc;
  enough = omega arith;
}

others-IsSound : (k n : ℕ) (m : Mailbox) → IsSound 5 m → IsSound 5 (outside.others k n m)
others-IsSound k n m s = elim (Bool-cases (k == 0 && n == 4)) [
  | inl e ↦ rw e (record {
    urgent = 21 ∷ [];
    normal = 20 ∷ [];
    view = open_view (22 ∷ []);
    contents = pushed-Contents;
    not_closed = λ e. cc;
    enough = omega arith;
  })
  | inr e ↦ rw e s
]

others-IsOpen : (k n : ℕ) (m : Mailbox) → IsOpen 5 m → IsOpen 5 (outside.others k n m)
others-IsOpen k n m s = elim (Bool-cases (k == 0 && n == 4)) [
  | inl e ↦ rw e (record {
    held = letters (21 ∷ []) (20 ∷ []) (22 ∷ []);
    holds = pushed-Contents;
    enough = omega arith;
  })
  | inr e ↦ rw e s
]

behavior_moored : (k : ℕ) (p : Ptr) → outside.behavior k p ≢ adrift
behavior_moored k p = elim (Bool-cases (p == 22)) [
  | inl e ↦ rw e (λ i. cc)
  | inr e ↦ rw e (λ i. cc)
]

resume_impl-default_mailbox_example :
    (v : Verdict Mailbox) × (resume_impl (default_mailbox 5) outside false 100 box quiet ≡ some v)
    × IsFair 100 v
resume_impl-default_mailbox_example =
    resume_impl-default_mailbox 5 outside false 100 box quiet others-IsSound others-IsOpen
      behavior_moored (λ k e. cc) (λ e. cc) box-IsSound

-- The message that was pushed meanwhile is handled in the same run, last.
three_handled :
    Option.map
      (λ (v : Verdict Mailbox). v.messages)
      (resume_impl (default_mailbox 5) outside false 4 box quiet)
    ≡ some (21 ∷ 20 ∷ 22 ∷ [])
unfolding resume_impl drain_mailbox drain Mailbox.try_unblock Mailbox.blocked Mailbox.closed
    Mailbox.size Mailbox.fetch_more Mailbox.pop_front LifoInbox.closed LifoInbox.blocked
    LifoInbox.try_unblock take_head is_high_priority message_priority insert_after before_end
    LinkedList.pop_front
three_handled = refl
