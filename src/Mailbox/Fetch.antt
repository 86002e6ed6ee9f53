-- ===== src/Mailbox/Fetch.antt =====
-- `fetch_more`: from the inbox, newest first, to the two lists, oldest first.
use mathlib.Core.List.{append_assoc, append-nil, reverse-cons}
use actor_zeta.Base.{
  ℕ, zero, suc, ◌<◌, ◌≡◌, ◌≢◌, ◌⊎◌, refl, sym, ap, subst, ◌∙◌, Bool, true, false, not, List, [],
  ◌∷◌, ◌++◌, some, reverse, select, select-append, length, arith, ◌==◌, if◌then◌else◌, Bool-cases,
  inl, inr,
}
use actor_zeta.MessageId.{is_high_priority}
use actor_zeta.Queue.Links.{Ptr, null, last_or}
use actor_zeta.Queue.LinkedList.{insert_after, before_end}
use actor_zeta.Queue.LifoInbox.{Inbox}
use actor_zeta.Queue.LifoInbox.Views.{View, open_view, Chain, AllNodes, Shows}
use actor_zeta.Queue.LifoInbox.Reader.{taken, take_head_open}
use actor_zeta.Queue.Frames.{Chain-Agree, Agree}
use actor_zeta.Mailbox.{
  Mailbox, inbox_of, urgent_of, normal_of, is_urgent, sort_one, sort_all, fetch_more,
}
use actor_zeta.Mailbox.Regions.{Apart, Apart-symm, Apart-insert}

-- The messages of the lists, front to back, and of the inbox, newest first.
pub record Contents (m : Mailbox) (us ns : List Ptr) (v : View) : Type 0 where
  pub memory : Apart m.heap m.urgent us m.normal ns (taken v)
  pub shown : Shows (inbox_of m) v

-- The messages that pass the test are pushed one by one on the front of a list.
abbrev pub gather : (Ptr → Bool) → List Ptr → List Ptr → List Ptr
gather p [] ys = ys
gather p (x ∷ xs) ys = gather p xs (if p x then x ∷ ys else ys)

pub gather_lem : (p : Ptr → Bool) (xs ys : List Ptr) → gather p xs ys ≡ select p (reverse xs) ++ ys
gather_lem p [] ys = refl
gather_lem p (x ∷ xs) ys =
    let one = select-append p (reverse xs) (x ∷ []) in
    let ih = gather_lem p xs (if p x then x ∷ ys else ys) in
    rw (ih, reverse-cons x xs, one) (last (Bool-cases (p x)))
  where
    last :
        (p x ≡ true) ⊎ (p x ≡ false)
        → select p (reverse xs) ++ (if p x then x ∷ ys else ys)
          ≡ (select p (reverse xs) ++ select p (x ∷ [])) ++ ys
    last (inl e) = rw e (sym (append_assoc (select p (reverse xs)) (x ∷ []) ys))
    last (inr e) = rw e (ap (λ zs. zs ++ ys) (sym (append-nil (select p (reverse xs)))))

-- The reader leaves the ids, the inbox's address and its head alone.
abbrev pub Kept : Mailbox → Mailbox → Type 0
Kept m m' = (m'.command ≡ m.command) × (m'.self ≡ m.self) × (m'.stack ≡ m.stack)

Kept-trans : (m m1 m2 : Mailbox) → Kept m m1 → Kept m1 m2 → Kept m m2
Kept-trans m m1 m2 k1 k2 = (k2.0 ∙ k1.0, k2.1 ∙ k1.1, k2.2 ∙ k1.2)

abbrev not_urgent : Mailbox → Ptr → Bool
not_urgent m p = not (is_urgent m p)

sort_one_lem :
    (m : Mailbox) (us gu ns gn : List Ptr) (x : Ptr) (xs : List Ptr)
    → Apart m.heap m.urgent (us ++ gu) m.normal (ns ++ gn) (x ∷ xs)
    → let m' = sort_one m (last_or m.urgent.head us) (last_or m.normal.head ns) x in
      Apart m'.heap m'.urgent
        (us ++ (if is_urgent m x then x ∷ gu else gu))
        m'.normal
        (ns ++ (if not_urgent m x then x ∷ gn else gn))
        xs
      × Agree m.heap m'.heap xs
      × Kept m m'
      × (m'.urgent.head ≡ m.urgent.head)
      × (m'.normal.head ≡ m.normal.head)
unfolding sort_one insert_after
sort_one_lem m us gu ns gn x xs v = elim (Bool-cases (is_urgent m x)) [
  | inl e ↦
      let r =
        Apart-insert m.heap m.urgent us gu m.normal (ns ++ gn) x xs v
          (insert_after (urgent_of m) (last_or m.urgent.head us) x) refl in
      rw e (r.0, r.1, (refl, refl, refl), refl, refl)
  | inr e ↦
      let r =
        Apart-insert m.heap m.normal ns gn m.urgent (us ++ gu) x xs (Apart-symm v)
          (insert_after (normal_of m) (last_or m.normal.head ns) x) refl in
      rw e (Apart-symm r.0, r.1, (refl, refl, refl), refl, refl)
]

-- The loop from a chain's first node, with the insertion points where it began.
sort_all_lem :
    (fuel : ℕ) (m : Mailbox) (us gu ns gn : List Ptr) (x : Ptr) (xs : List Ptr) (b : Inbox)
    → length xs < fuel
    → Apart m.heap m.urgent (us ++ gu) m.normal (ns ++ gn) (x ∷ xs)
    → Chain m.heap (m.heap x) xs
    → AllNodes b xs
    → (m' : Mailbox) × (sort_all fuel m (last_or m.urgent.head us) (last_or m.normal.head ns) x
        ≡ some m')
      × Apart m'.heap m'.urgent
          (us ++ gather (is_urgent m) (x ∷ xs) gu)
          m'.normal
          (ns ++ gather (not_urgent m) (x ∷ xs) gn)
          []
      × Kept m m'
unfolding sort_all
sort_all_lem zero m us gu ns gn x xs b few v w nodes = absurd (omega arith)
sort_all_lem (suc fuel) m us gu ns gn x [] b few v w nodes =
    let r = sort_one_lem m us gu ns gn x [] v in
    let e : (m.heap x == null) ≡ true = ground arith in
    (sort_one m (last_or m.urgent.head us) (last_or m.normal.head ns) x, rw e refl, r.0, r.2)
sort_all_lem (suc fuel) m us gu ns gn x (y ∷ ys) b few v w nodes =
    let m1 = sort_one m (last_or m.urgent.head us) (last_or m.normal.head ns) x in
    let (v1, agree, kept, hu, hn) = sort_one_lem m us gu ns gn x (y ∷ ys) v in
    let gu1 = if is_urgent m x then x ∷ gu else gu in
    let gn1 = if not_urgent m x then x ∷ gn else gn in
    let w1 =
      subst (λ r. Chain m1.heap r ys) (sym agree.0)
        (Chain-Agree m.heap m1.heap (m.heap y) ys agree.1 w.1) in
    let (m', done, v', kept') =
      sort_all_lem fuel m1 us gu1 ns gn1 y ys b (omega arith) v1 w1 nodes.1 in
    let there : y ≢ null = nodes.0.0 in
    let first = w.0 in
    let e : (y == null) ≡ false = ground arith in
    let goal = λ (c : Ptr → ℕ).
      Apart m'.heap m'.urgent (us ++ gather (λ p. is_high_priority (c p)) (y ∷ ys) gu1) m'.normal
        (ns ++ gather (λ p. not (is_high_priority (c p))) (y ∷ ys) gn1) [] in
    (m', rw (first, e) (rw (hu, hn) at done), subst goal kept.0 v', Kept-trans m m1 m' kept kept')

-- The messages of a priority in the inbox, in the order they came.
abbrev pub urgent_in : Mailbox → List Ptr → List Ptr
urgent_in m xs = select (is_urgent m) (reverse xs)

abbrev pub normal_in : Mailbox → List Ptr → List Ptr
normal_in m xs = select (not_urgent m) (reverse xs)

-- With an empty inbox `fetch_more` reports false and changes nothing.
pub fetch_more-nil :
    (fuel : ℕ) (m : Mailbox) (us ns : List Ptr)
    → Contents m us ns (open_view [])
    → fetch_more fuel m ≡ some (record m { stack = null }, false) × (m.stack ≡ null)
unfolding fetch_more
fetch_more-nil fuel m us ns c =
    let head = c.shown.1 in (rw (take_head_open (inbox_of m) [] c.shown) (rw head refl), head)

fetch_more-run :
    (fuel : ℕ) (m m' : Mailbox) (us ns : List Ptr) (x : Ptr) (xs : List Ptr)
    → Contents m us ns (open_view (x ∷ xs))
    → sort_all fuel
        (record m { stack = null })
        (last_or m.urgent.head us)
        (last_or m.normal.head ns)
        x
      ≡ some m'
    → fetch_more fuel m ≡ some (m', true)
unfolding fetch_more before_end
fetch_more-run fuel m m' us ns x xs c done =
    let u = c.memory.one.back in
    let n = c.memory.two.back in
    let first = c.shown.1.0 in
    let there : (x == null) ≡ false = let o = c.shown.2.0.0 in ground arith in
    rw (take_head_open (inbox_of m) (x ∷ xs) c.shown) (rw (first, there, u, n, done) refl)

-- fetch_more on a non-empty inbox, with enough fuel, takes every message out of it and appends
-- those of each priority to their queue in the order in which they were pushed.
pub fetch_more-cons :
    (fuel : ℕ) (m : Mailbox) (us ns : List Ptr) (x : Ptr) (xs : List Ptr)
    → Contents m us ns (open_view (x ∷ xs))
    → length xs < fuel
    → (m' : Mailbox) × (fetch_more fuel m ≡ some (m', true))
      × Contents m' (us ++ urgent_in m (x ∷ xs)) (ns ++ normal_in m (x ∷ xs)) (open_view [])
      × (m'.command ≡ m.command)
unfolding fetch_more before_end
fetch_more-cons fuel m us ns x xs c few =
    let m1 : Mailbox = record m { stack = null } in
    let (m', done, v, kept) =
      sort_all_lem fuel m1 us [] ns [] x xs (inbox_of m) few
        (rw (append-nil us, append-nil ns) c.memory) c.shown.1.1 c.shown.2.1 in
    (
      m',
      fetch_more-run fuel m m' us ns x xs c done,
      record {
        memory = rw (gathered (is_urgent m) (x ∷ xs), gathered (not_urgent m) (x ∷ xs)) at v;
        shown = ((λ e. c.shown.0 (sym kept.1 ∙ e)), kept.2, tt);
      },
      kept.0,
    )
  where
    gathered : (p : Ptr → Bool) (ys : List Ptr) → gather p ys [] ≡ select p (reverse ys)
    gathered p ys = gather_lem p ys [] ∙ append-nil (select p (reverse ys))
