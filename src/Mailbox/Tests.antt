-- ===== src/Mailbox/Tests.antt =====
-- A mailbox at 100 with the sentinels 1 to 4, empty lists, and two messages in the inbox: the node
-- 21, which is urgent and came first, and 20, which is normal.
use actor_zeta.Base.{◌^◌, ◌≡◌, refl, true, [], ◌∷◌, Option, some, arith, ◌==◌, if◌then◌else◌}
use actor_zeta.MessageId.{message_priority, is_high_priority}
use actor_zeta.Queue.Links.{Ptr, write}
use actor_zeta.Queue.LifoInbox.Views.{open_view}
use actor_zeta.Mailbox.{Mailbox, is_urgent, pop_front, close, closed}
use actor_zeta.Mailbox.Fetch.{Contents}
use actor_zeta.Mailbox.Delivery.{Letters, letters, deliver, HoldsLetters, pop_front-deliver}
use actor_zeta.Mailbox.Order.{Takes, pop_front-fifo}
use actor_zeta.Mailbox.Closing.{close-Contents}

abbrev pub box : Mailbox
box = record {
  heap = write (write (write (write (write (λ _. 0) 1 2) 2 1) 3 4) 4 3) 20 21;
  command = λ p. if p == 20 then 2 ^ 60 else 5;
  urgent = record { head = 1; tail = 2; size = 0 };
  normal = record { head = 3; tail = 4; size = 0 };
  self = 100;
  stack = 20;
}

pub box-Contents : Contents box [] [] (open_view (20 ∷ 21 ∷ []))
box-Contents = record {
  memory = record {
    one = record { path = (refl, tt); back = refl; sized = refl; distinct = ground arith };
    two = record { path = (refl, tt); back = refl; sized = refl; distinct = ground arith };
    lists = ground arith;
    off_one = ground arith;
    off_two = ground arith;
    distinct = ground arith;
  };
  shown = ground arith;
}

pop_front-deliver_example :
    (m' : Mailbox) × (pop_front 2 5 box
      ≡ some ((deliver (is_urgent box) (letters [] [] (20 ∷ 21 ∷ []))).0, m'))
    × HoldsLetters m' (deliver (is_urgent box) (letters [] [] (20 ∷ 21 ∷ []))).1
    × (m'.command ≡ box.command)
pop_front-deliver_example =
    pop_front-deliver 0 5 box (letters [] [] (20 ∷ 21 ∷ [])) box-Contents (omega arith)

-- The urgent message comes out, though the normal one is on top of the inbox.
urgent_first : (deliver (is_urgent box) (letters [] [] (20 ∷ 21 ∷ []))).0 ≡ some 21
unfolding is_high_priority message_priority
urgent_first = refl

pop_front-fifo_example :
    (r : Option Ptr × Letters) × (m' : Mailbox) × (pop_front 2 5 box ≡ some (r.0, m'))
    × HoldsLetters m' r.1
    × Takes (is_urgent box) (letters [] [] (20 ∷ 21 ∷ [])) r
pop_front-fifo_example =
    pop_front-fifo 0 5 box (letters [] [] (20 ∷ 21 ∷ [])) box-Contents (omega arith)

close-Contents_example :
    (m' : Mailbox) × (close 5 box ≡ some (20 ∷ 21 ∷ [], m')) × (closed m' ≡ true)
close-Contents_example =
    close-Contents 5 box [] [] (open_view (20 ∷ 21 ∷ [])) box-Contents (λ e. cc) (omega arith)
      (omega arith) (omega arith)
