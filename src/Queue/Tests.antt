-- ===== src/Queue/Tests.antt =====
-- A list of two nodes at the addresses 10 and 11 between the sentinels 1 and 2, and inboxes at 100.
use actor_zeta.Base.{ℕ, ◌≢◌, refl, [], ◌∷◌, arith, ◌==◌, if◌then◌else◌, Bool-cases, inl, inr}
use actor_zeta.Queue.Links.{null, write}
use actor_zeta.Queue.LinkedList.{At, insert_after}
use actor_zeta.Queue.LinkedList.Laws.{Holds, IsNew, insert_after-Holds}
use actor_zeta.Queue.LifoInbox.{
  Inbox, EnqueueResult, stack_closed_tag, closed, try_block, try_unblock, close,
}
use actor_zeta.Queue.LifoInbox
use actor_zeta.Queue.LifoInbox.Views.{View, open_view, blocked_view, closed_view, Shows}
use actor_zeta.Queue.LifoInbox.Pushes.{Accepts, Linearized, push_front-Linearized}

abbrev two : At
two = record {
  heap = write (write (write (write (λ _. 0) 1 10) 10 11) 11 2) 2 11;
  list = record { head = 1; tail = 2; size = 2 };
}

two-Holds : Holds two (10 ∷ 11 ∷ [])
two-Holds = record {
  path = (refl, (refl, (refl, tt)));
  back = refl;
  sized = refl;
  distinct = ground arith;
}

twelve-IsNew : IsNew two (10 ∷ 11 ∷ []) 12
twelve-IsNew = ground arith

insert_after-Holds_example : Holds (insert_after two 10 12) (10 ∷ 12 ∷ 11 ∷ [])
insert_after-Holds_example = insert_after-Holds two (10 ∷ []) (11 ∷ []) 12 two-Holds twelve-IsNew

-- An inbox that holds the node 20 on top of 21.
abbrev loaded : Inbox
loaded = record { self = 100; stack = 20; heap = write (λ _. 0) 20 21 }

loaded-Shows : Shows loaded (open_view (20 ∷ 21 ∷ []))
loaded-Shows = ground arith

-- Before the first round another thread empties the inbox, so that its exchange fails.
abbrev steal : ℕ → Inbox → Inbox
steal k b = if k == 1 then record b { stack = 0 } else b

Shows-placed : (b : Inbox) (v : View) → Shows b v → b.self ≢ null
Shows-placed b closed_view shows = shows.0
Shows-placed b blocked_view shows = shows.0
Shows-placed b (open_view xs) shows = shows.0

steal-Accepts : (k : ℕ) (b : Inbox) → Accepts 22 b → Accepts 22 (steal k b)
steal-Accepts k b a = elim (Bool-cases (k == 1)) [
  | inl e ↦ rw e (record {
    view = open_view [];
    shows = (Shows-placed b a.view a.shows, refl, tt);
    node = a.node;
    off = tt;
  })
  | inr e ↦ rw e a
]

push_front-Linearized_example :
    Linearized steal 22 2 loaded (LifoInbox.push_front steal 2 loaded 20 22)
push_front-Linearized_example =
    push_front-Linearized steal 22 steal-Accepts (λ k b. ground arith) 2 loaded
      (record {
        view = open_view (20 ∷ 21 ∷ []);
        shows = loaded-Shows;
        node = ground arith;
        off = ground arith;
      })
