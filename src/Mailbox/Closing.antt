-- ===== src/Mailbox/Closing.antt =====
-- Blocking, pushing and closing of the whole mailbox.
use actor_zeta.Base.{
  ℕ, ◌+◌, ◌<◌, ◌≡◌, ◌≢◌, refl, sym, subst, ◌∙◌, Bool, true, false, ◌&&◌, List, [], ◌∷◌, ◌++◌, some,
  length, arith, ◌==◌, if◌then◌else◌, Bool-cases, inl, inr,
}
use actor_zeta.Queue.Links.{Ptr, null, Heap}
use actor_zeta.Queue.LinkedList.{At, init}
use actor_zeta.Queue.LinkedList
use actor_zeta.Queue.LinkedList.Ends.{drain-Holds}
use actor_zeta.Queue.LifoInbox.{Inbox}
use actor_zeta.Queue.LifoInbox
use actor_zeta.Queue.LifoInbox.Views.{View, open_view, blocked_view, closed_view, Shows}
use actor_zeta.Queue.LifoInbox.Reader.{
  taken, tests_lem, close_lem, is_empty_view, blocked_after, unblocked_after,
}
use actor_zeta.Queue.Frames.{Chain-Agree, Agree}
use actor_zeta.Mailbox.{
  Mailbox, inbox_of, with_inbox, urgent_of, with_urgent, normal_of, with_normal, cached, try_block,
  close, closed,
}
use actor_zeta.Mailbox.Regions.{Apart-symm, Apart-init}
use actor_zeta.Mailbox.Fetch.{Contents}

abbrev pub no_cached : List Ptr → List Ptr → Bool
no_cached [] [] = true
no_cached (u ∷ us) ns = false
no_cached [] (n ∷ ns) = false

Shows-Agree :
    (b : Inbox) (h : Heap) (v : View)
    → Agree b.heap h (taken v)
    → Shows b v
    → Shows (record b { heap = h }) v
Shows-Agree b h closed_view a shows = shows
Shows-Agree b h blocked_view a shows = shows
Shows-Agree b h (open_view xs) a shows =
    (shows.0, Chain-Agree b.heap h b.stack xs a shows.1, shows.2)

cached_lem :
    (m : Mailbox) (us ns : List Ptr) (v : View)
    → Contents m us ns v
    → (cached m == 0) ≡ no_cached us ns
unfolding cached
cached_lem m [] [] v c = let u = c.memory.one.sized in let n = c.memory.two.sized in ground arith
cached_lem m [] (n ∷ ns) v c =
    let u = c.memory.one.sized in let n = c.memory.two.sized in ground arith
cached_lem m (u ∷ us) ns v c =
    let u = c.memory.one.sized in let n = c.memory.two.sized in ground arith

blocked_taken : (v : View) → taken (blocked_after v) ≡ taken v
blocked_taken closed_view = refl
blocked_taken blocked_view = refl
blocked_taken (open_view []) = refl
blocked_taken (open_view (x ∷ xs)) = refl

unblocked_taken : (v : View) → taken (unblocked_after v) ≡ taken v
unblocked_taken closed_view = refl
unblocked_taken blocked_view = refl
unblocked_taken (open_view xs) = refl

try_block_run :
    (m : Mailbox) (us ns : List Ptr) (v : View)
    → Contents m us ns v
    → try_block m ≡ (
        if no_cached us ns && is_empty_view v
        then (record m { stack = m.self }, true)
        else (m, false))
unfolding try_block LifoInbox.try_block LifoInbox.empty
try_block_run m us ns v c =
    let quiet = cached_lem m us ns v c in
    let vacant = (tests_lem (inbox_of m) v c.shown).2 in
    elim (Bool-cases (no_cached us ns)) [
      | inr n ↦ let e : (cached m == 0) ≡ false = quiet ∙ n in rw (try_block, e, n) refl
      | inl n ↦
          let e : (cached m == 0) ≡ true = quiet ∙ n in
          elim (Bool-cases (is_empty_view v)) [
            | inl w ↦
                let f : (m.stack == null) ≡ true = vacant ∙ w in rw (try_block, e, n, f, w) refl
            | inr w ↦
                let f : (m.stack == null) ≡ false = vacant ∙ w in rw (try_block, e, n, f, w) refl
          ]
    ]

-- try_block blocks a mailbox that has no message in its queues or inbox and no other, and says
-- whether it did.
pub try_block-Contents :
    (m : Mailbox) (us ns : List Ptr) (v : View)
    → Contents m us ns v
    → ((try_block m).1 ≡ (no_cached us ns && is_empty_view v))
      × Contents (try_block m).0 us ns (if no_cached us ns then blocked_after v else v)
try_block-Contents m us ns v c =
    subst
      (λ (r : Mailbox × Bool).
        (r.1 ≡ (no_cached us ns && is_empty_view v))
        × Contents r.0 us ns (if no_cached us ns then blocked_after v else v))
      (sym (try_block_run m us ns v c)) (go (no_cached us ns) v c)
  where
    go :
        (n : Bool) (v : View)
        → Contents m us ns v
        → let r : Mailbox × Bool =
            if n && is_empty_view v then (record m { stack = m.self }, true) else (m, false) in
          (r.1 ≡ (n && is_empty_view v)) × Contents r.0 us ns (if n then blocked_after v else v)
    go false v c = (refl, c)
    go true closed_view c = (refl, c)
    go true blocked_view c = (refl, c)
    go true (open_view []) c = (refl, record { memory = c.memory; shown = (c.shown.0, refl) })
    go true (open_view (x ∷ xs)) c = (refl, c)

close_run :
    (fuel : ℕ) (m : Mailbox) (us ns xs : List Ptr) (b : Inbox)
    → LinkedList.drain fuel (urgent_of m) ≡ some (us, init (urgent_of m))
    → let m1 = with_urgent m (init (urgent_of m)) in
      LinkedList.drain fuel (normal_of m1) ≡ some (ns, init (normal_of m1))
      → let m2 = with_normal m1 (init (normal_of m1)) in
        LifoInbox.close fuel (inbox_of m2) ≡ some (xs, b)
        → close fuel m ≡ some (us ++ (ns ++ xs), with_inbox m2 b)
unfolding close
close_run fuel m us ns xs b e1 e2 e3 = rw (close, e1, e2, e3) refl

-- close on a mailbox that is not closed, with enough fuel, deletes every message in it once,
-- urgent then normal then the inbox, and leaves it closed.
pub close-Contents :
    (fuel : ℕ) (m : Mailbox) (us ns : List Ptr) (v : View)
    → Contents m us ns v
    → v ≢ closed_view
    → length us < fuel
    → length ns < fuel
    → length (taken v) < fuel
    → (m' : Mailbox) × (close fuel m ≡ some (us ++ (ns ++ taken v), m')) × (closed m' ≡ true)
unfolding closed
close-Contents fuel m us ns v c alive fu fn fx =
    let m1 = with_urgent m (init (urgent_of m)) in
    let m2 = with_normal m1 (init (normal_of m1)) in
    let (v1, a1) = Apart-init m.heap m.urgent m.normal us ns (taken v) c.memory in
    let (v2, a2) = Apart-init m1.heap m.normal m1.urgent ns [] (taken v) (Apart-symm v1) in
    let shown =
      Shows-Agree (inbox_of m1) m2.heap v a2 (Shows-Agree (inbox_of m) m1.heap v a1 c.shown) in
    let (e, shut) = close_lem (inbox_of m2) v fuel shown alive fx in
    let b = record (inbox_of m2) { stack = m.self + 1 } in
    (
      with_inbox m2 b,
      close_run fuel m us ns (taken v) b (drain-Holds (urgent_of m) us fuel c.memory.one fu).0
          (drain-Holds (normal_of m1) ns fuel v1.two fn).0 e,
      shut,
    )
