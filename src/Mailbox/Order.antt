-- ===== src/Mailbox/Order.antt =====
-- The order in which messages of one priority are delivered.
use mathlib.Core.List.{append-nil}
use actor_zeta.Base.{
  ℕ, suc, ◌<◌, ◌≡◌, ◌⊎◌, refl, sym, ap, Bool, not, List, [], ◌∷◌, ◌++◌, Option, none, some, reverse,
  select, length, inl, inr,
}
use actor_zeta.Queue.Links.{Ptr}
use actor_zeta.Mailbox.{Mailbox, is_urgent, pop_front}
use actor_zeta.Mailbox.Delivery.{
  Letters, letters, deliver_cached, deliver, HoldsLetters, inbox_of_letters, pop_front-deliver,
}

-- All urgent messages in the mailbox, and all normal ones, oldest first.
abbrev pub urgent_queue : (Ptr → Bool) → Letters → List Ptr
urgent_queue high (letters us ns xs) = us ++ select high (reverse xs)

abbrev pub normal_queue : (Ptr → Bool) → Letters → List Ptr
normal_queue high (letters us ns xs) = ns ++ select (λ p. not (high p)) (reverse xs)

-- Nothing comes out of empty queues; a message comes out of the front of one of them.
abbrev pub TakesFront : (us ns : List Ptr) → Option Ptr → (us' ns' : List Ptr) → Type 0
TakesFront us ns none us' ns' = (us ≡ []) × (ns ≡ []) × (us' ≡ []) × (ns' ≡ [])
TakesFront us ns (some p) us' ns' = ((us ≡ p ∷ us') × (ns ≡ ns')) ⊎ ((us ≡ us') × (ns ≡ p ∷ ns'))

abbrev pub Takes : (Ptr → Bool) → Letters → Option Ptr × Letters → Type 0
Takes high l r =
    TakesFront (urgent_queue high l) (normal_queue high l) r.0 (urgent_queue high r.1)
      (normal_queue high r.1)

cached_takes :
    (high : Ptr → Bool) (us ns : List Ptr)
    → let r = deliver_cached (letters us ns []) in
      TakesFront us ns r.0 (urgent_queue high r.1) (normal_queue high r.1)
cached_takes high [] [] = (refl, refl, refl, refl)
cached_takes high [] (n ∷ ns) = inr (refl, ap (λ xs. n ∷ xs) (sym (append-nil ns)))
cached_takes high (u ∷ us) ns = inl (ap (λ xs. u ∷ xs) (sym (append-nil us)), sym (append-nil ns))

deliver-Takes : (high : Ptr → Bool) (l : Letters) → Takes high l (deliver high l)
deliver-Takes high (letters (u ∷ us) ns xs) = inl (refl, refl)
deliver-Takes high (letters [] (n ∷ ns) xs) = inr (refl, refl)
deliver-Takes high (letters [] [] xs) =
    cached_takes high (select high (reverse xs)) (select (λ p. not (high p)) (reverse xs))

-- pop_front on an open mailbox, with enough fuel, returns the oldest message of one priority and
-- leaves the other messages in their order, and returns null only if there is none.
pub pop_front-fifo :
    (rounds fuel : ℕ) (m : Mailbox) (l : Letters)
    → HoldsLetters m l
    → length (inbox_of_letters l) < fuel
    → (r : Option Ptr × Letters) × (m' : Mailbox) × (pop_front (suc (suc rounds)) fuel m
        ≡ some (r.0, m'))
      × HoldsLetters m' r.1
      × Takes (is_urgent m) l r
pop_front-fifo rounds fuel m l c few =
    let (m', e, c', kept) = pop_front-deliver rounds fuel m l c few in
    (deliver (is_urgent m) l, m', e, c', deliver-Takes (is_urgent m) l)
