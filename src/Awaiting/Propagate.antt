-- ===== src/Awaiting/Propagate.antt =====
-- A coroutine that awaits another, which may await others in turn.
use actor_zeta.Base.{
  ℕ, ◌<◌, ◌≡◌, ◌≢◌, refl, sym, subst, ◌∙◌, Bool, true, false, List, [], ◌∷◌, ◌++◌, length, some,
  arith, ◌==◌, if◌then◌else◌,
}
use actor_zeta.Queue.Links.{Ptr, null, last_or, Off, Off-last, OffAll, Distinct}
use actor_zeta.Awaiting.{Awaiter, Awaiters, put, Awaited, propagate_awaited_state}
use actor_zeta.Awaiting.Chain.{ReportsTo, Row, Waits, AllWait, await_lem}

-- The inner coroutine reports to `p`.
abbrev linked : Awaiters → Ptr → Ptr → Awaiters
linked h inner p = put h inner (record (h inner) {
  propagated_to_flags = p;
  propagated_to_cont = p;
  outer_promise_raw = p;
  outer_update_fn = true;
})

linked-off : (h : Awaiters) (inner p q : Ptr) → q ≢ inner → linked h inner p q ≡ h q
linked-off h inner p q n = let away : (q == inner) ≡ false = ground arith in rw away refl

linked-ReportsTo : (h : Awaiters) (inner p : Ptr) → ReportsTo (linked h inner p inner) p
linked-ReportsTo h inner p =
    let here : (inner == inner) ≡ true = ground arith in
    rw here (record { flags = refl; cont = refl; raw = refl; fn = λ n. refl })

linked-Waits :
    (h : Awaiters) (inner p q flags cont : Ptr)
    → Waits (h q) flags cont
    → Waits (linked h inner p q) flags cont
linked-Waits h inner p q flags cont w = ground arith

Row-linked :
    (h : Awaiters) (inner p y : Ptr) (xs : List Ptr)
    → Off inner (y ∷ xs)
    → Row h y xs
    → Row (linked h inner p) y xs
Row-linked h inner p y [] off r =
    subst (λ (a : Awaiter). ReportsTo a null) (sym (linked-off h inner p y (λ e. off.0 (sym e)))) r
Row-linked h inner p y (x ∷ xs) off (n, r, rest) = (
  n,
  subst (λ (a : Awaiter). ReportsTo a x) (sym (linked-off h inner p y (λ e. off.0 (sym e)))) r,
  Row-linked h inner p x xs off.1 rest,
)

-- Two rows become one when the end of the inner one reports to the outer one.
Row-join :
    (h h' : Awaiters) (d : Ptr) (ds : List Ptr) (p : Ptr) (ps : List Ptr)
    → Row h d ds
    → Distinct (d ∷ ds)
    → OffAll (d ∷ ds) (p ∷ ps)
    → ((q : Ptr) → q ≢ last_or d ds → Off q (p ∷ ps) → h' q ≡ h q)
    → ReportsTo (h' (last_or d ds)) p
    → p ≢ null
    → Row h' p ps
    → Row h' d (ds ++ (p ∷ ps))
Row-join h h' d [] p ps row distinct apart same report there outer = (there, report, outer)
Row-join h h' d (x ∷ xs) p ps (n, r, rest) distinct apart same report there outer = (
  n,
  subst (λ (a : Awaiter). ReportsTo a x)
      (sym (same d (Off-last d x xs distinct.0.0 distinct.0.1) apart.0)) r,
  Row-join h h' x xs p ps rest distinct.1 apart.1 same report there outer,
)

AllWait-join :
    (h h' : Awaiters) (ds ps : List Ptr) (flags cont : Ptr)
    → AllWait h ds flags cont
    → OffAll ds ps
    → ((q : Ptr) → Off q ps → Waits (h q) flags cont → Waits (h' q) flags cont)
    → AllWait h' ps flags cont
    → AllWait h' (ds ++ ps) flags cont
AllWait-join h h' [] ps flags cont w apart same waits = waits
AllWait-join h h' (d ∷ ds) ps flags cont (w, ws) apart same waits =
    (same d apart.0 w, AllWait-join h h' ds ps flags cont ws apart.1 same waits)

Off-end : (d : Ptr) (ds ps : List Ptr) → OffAll (d ∷ ds) ps → Off (last_or d ds) ps
Off-end d [] ps apart = apart.0
Off-end d (x ∷ xs) ps apart = Off-end x xs ps apart.1

pub AllWait-end :
    (h : Awaiters) (d : Ptr) (ds : List Ptr) (flags cont : Ptr)
    → AllWait h (d ∷ ds) flags cont
    → Waits (h (last_or d ds)) flags cont
AllWait-end h d [] flags cont w = w.0
AllWait-end h d (x ∷ xs) flags cont w = AllWait-end h x xs flags cont w.1

-- The outermost coroutine of one row is awaited by the innermost of another, both sound and
-- without a common member. If the inner row waits for a state, then afterwards the two are one
-- sound row and all of it waits for that state: the driver at the far end sees the deepest one.
pub propagate_awaited_state-Row :
    (fuel : ℕ) (h : Awaiters) (d : Ptr) (ds : List Ptr) (p : Ptr) (ps : List Ptr)
    (state flags cont : Ptr)
    → length ps < fuel
    → Row h d ds
    → Row h p ps
    → Distinct (d ∷ ds)
    → Distinct (p ∷ ps)
    → OffAll (d ∷ ds) (p ∷ ps)
    → AllWait h (d ∷ ds) flags cont
    → flags ≢ null
    → last_or d ds ≢ null
    → p ≢ null
    → let future : Awaited = record {
      state = state;
      has_result = false;
      coroutine = last_or d ds;
    } in
      (h' : Awaiters) × (propagate_awaited_state fuel h p future ≡ some h')
      × Row h' d (ds ++ (p ∷ ps))
      × AllWait h' ((d ∷ ds) ++ (p ∷ ps)) flags cont
unfolding propagate_awaited_state
propagate_awaited_state-Row fuel h d ds p ps state flags cont enough inner outer dd dp apart waits
      some_flags there here =
    let end = last_or d ds in
    let off = Off-end d ds (p ∷ ps) apart in
    let h1 = linked h end p in
    let (h', run, all, row, frame) =
      await_lem fuel h1 p ps flags cont enough (Row-linked h end p p ps off outer) dp in
    let (wf, wc) = linked-Waits h end p end flags cont (AllWait-end h d ds flags cont waits) in
    let behind : (end == null) ≡ false = ground arith in
    let set : (flags == null) ≡ false = ground arith in
    (
      h',
      rw (behind, wf, wc, set) run,
      Row-join h h' d ds p ps inner dd apart (λ q n o. frame q o ∙ linked-off h end p q n)
          (subst (λ (a : Awaiter). ReportsTo a p) (sym (frame end off)) (linked-ReportsTo h end p))
          here row,
      AllWait-join h h' (d ∷ ds) (p ∷ ps) flags cont waits apart
          (λ q o w.
            subst (λ (a : Awaiter). Waits a flags cont) (sym (frame q o))
              (linked-Waits h end p q flags cont w))
          all,
    )

-- With nothing behind the awaited future but its own state, the whole row waits for that state;
-- with a result there already, for nothing.
pub propagate_awaited_state-end :
    (fuel : ℕ) (h : Awaiters) (p : Ptr) (ps : List Ptr) (state : Ptr) (ready : Bool)
    → length ps < fuel
    → Row h p ps
    → Distinct (p ∷ ps)
    → let future : Awaited = record { state = state; has_result = ready; coroutine = null } in
      (h' : Awaiters) × (propagate_awaited_state fuel h p future ≡ some h')
      × AllWait h' (p ∷ ps) (if ready then null else state) (if ready then null else state)
      × Row h' p ps
unfolding propagate_awaited_state
propagate_awaited_state-end fuel h p ps state true enough row dp =
    let (h', run, all, row', frame) = await_lem fuel h p ps null null enough row dp in
    (h', run, all, row')
propagate_awaited_state-end fuel h p ps state false enough row dp =
    let (h', run, all, row', frame) = await_lem fuel h p ps state state enough row dp in
    (h', run, all, row')
