-- ===== src/Awaiting/Chain.antt =====
-- Awaiting coroutines in a row: each tells the next outer one what the innermost waits for.
use actor_zeta.Base.{
  ℕ, zero, suc, ◌<◌, ◌≡◌, ◌≢◌, refl, sym, subst, ◌∙◌, true, false, List, [], ◌∷◌, length, some,
  arith, ◌==◌,
}
use actor_zeta.Queue.Links.{Ptr, null, Off, Distinct}
use actor_zeta.Awaiting.{
  Awaiter, Awaiters, put, write_flags, write_cont, update_propagated_outer, clear_awaited_chain,
}

-- The awaiter reports to `outer`, or to nobody.
pub record ReportsTo (a : Awaiter) (outer : Ptr) : Type 0 where
  pub flags : a.propagated_to_flags ≡ outer
  pub cont : a.propagated_to_cont ≡ outer
  pub raw : a.outer_promise_raw ≡ outer
  pub fn : outer ≢ null → a.outer_update_fn ≡ true

-- From `p` outwards, each reports to the next and the last to nobody.
abbrev pub Row : Awaiters → Ptr → List Ptr → Type 0
Row h p [] = ReportsTo (h p) null
Row h p (x ∷ xs) = (x ≢ null) × ReportsTo (h p) x × Row h x xs

-- The awaiter waits for one state.
abbrev pub Waits : Awaiter → Ptr → Ptr → Type 0
Waits a flags cont = (a.awaited_flags ≡ flags) × (a.awaited_continuation ≡ cont)

abbrev pub AllWait : Awaiters → List Ptr → Ptr → Ptr → Type 0
AllWait h [] flags cont = Unit {0}
AllWait h (x ∷ xs) flags cont = Waits (h x) flags cont × AllWait h xs flags cont

-- The two writes to the next outer promise.
abbrev told : Awaiters → Ptr → Ptr → Awaiters
told h p x =
    let h1 = put h x (record (h x) { awaited_flags = (h p).awaited_flags }) in
    put h1 x (record (h1 x) { awaited_continuation = (h1 p).awaited_continuation })

-- Only what is awaited may differ.
abbrev KeepsLinks : Awaiter → Awaiter → Type 0
KeepsLinks a b =
    (b.propagated_to_flags ≡ a.propagated_to_flags)
    × (b.propagated_to_cont ≡ a.propagated_to_cont)
    × (b.outer_promise_raw ≡ a.outer_promise_raw)
    × (b.outer_update_fn ≡ a.outer_update_fn)

ReportsTo-keeps : (a b : Awaiter) (o : Ptr) → KeepsLinks a b → ReportsTo a o → ReportsTo b o
ReportsTo-keeps a b o (f, c, r, u) report = record {
  flags = f ∙ report.flags;
  cont = c ∙ report.cont;
  raw = r ∙ report.raw;
  fn = λ n. u ∙ report.fn n;
}

Row-keeps :
    (h h' : Awaiters) (y : Ptr) (xs : List Ptr)
    → ((q : Ptr) → KeepsLinks (h q) (h' q))
    → Row h y xs
    → Row h' y xs
Row-keeps h h' y [] keeps r = ReportsTo-keeps (h y) (h' y) null (keeps y) r
Row-keeps h h' y (z ∷ zs) keeps (n, r, rest) =
    (n, ReportsTo-keeps (h y) (h' y) z (keeps y) r, Row-keeps h h' z zs keeps rest)

told-keeps : (h : Awaiters) (p x q : Ptr) → KeepsLinks (h q) (told h p x q)
told-keeps h p x q = ground arith

update_step :
    (fuel : ℕ) (h : Awaiters) (p x : Ptr)
    → x ≢ null
    → p ≢ x
    → ReportsTo (h p) x
    → update_propagated_outer (suc fuel) h p ≡ update_propagated_outer fuel (told h p x) x
unfolding update_propagated_outer write_flags write_cont
update_step fuel h p x there other r =
    let set : (x == null) ≡ false = ground arith in
    let away : (p == x) ≡ false = ground arith in
    rw (r.flags, set, away, r.cont, set, away, r.raw, set, r.fn there) refl

update_end :
    (fuel : ℕ) (h : Awaiters) (p : Ptr)
    → ReportsTo (h p) null
    → update_propagated_outer (suc fuel) h p ≡ some h
unfolding update_propagated_outer
update_end fuel h p r = rw (r.flags, r.cont, r.raw) (ground arith)

told-off : (h : Awaiters) (p x q : Ptr) → q ≢ x → told h p x q ≡ h q
told-off h p x q n = let away : (q == x) ≡ false = ground arith in rw away refl

told-Waits :
    (h : Awaiters) (p x : Ptr)
    → p ≢ x
    → Waits (told h p x x) (h p).awaited_flags (h p).awaited_continuation
told-Waits h p x n =
    let here : (x == x) ≡ true = ground arith in
    let away : (p == x) ≡ false = ground arith in rw (here, away) (refl, refl)

-- An update that starts at one end of a row of different promises, with fuel for each, makes all
-- the outer ones wait for what the first waits for, and changes neither the row nor other promises.
pub update_propagated_outer_lem :
    (fuel : ℕ) (h : Awaiters) (p : Ptr) (ps : List Ptr)
    → length ps < fuel
    → Row h p ps
    → Distinct (p ∷ ps)
    → (h' : Awaiters) × (update_propagated_outer fuel h p ≡ some h')
      × AllWait h' ps (h p).awaited_flags (h p).awaited_continuation
      × Row h' p ps
      × ((q : Ptr) → Off q ps → h' q ≡ h q)
update_propagated_outer_lem zero h p ps enough r d = absurd (omega arith)
update_propagated_outer_lem (suc fuel) h p [] enough r d =
    (h, update_end fuel h p r, tt, r, λ q off. refl)
update_propagated_outer_lem (suc fuel) h p (x ∷ xs) enough (there, r, rest) ((n, off), d) =
    let h1 = told h p x in
    let row1 = Row-keeps h h1 x xs (told-keeps h p x) rest in
    let (h', run, waits, row, frame) =
      update_propagated_outer_lem fuel h1 x xs (omega arith) row1 d in
    let (flags, cont) = told-Waits h p x n in
    let at_x = frame x d.0 in
    let at_p = frame p off ∙ told-off h p x p n in
    (
      h',
      update_step fuel h p x there n r ∙ run,
      (
        subst (λ (a : Awaiter). Waits a (h p).awaited_flags (h p).awaited_continuation) (sym at_x)
            (flags, cont),
        subst (λ (s : Ptr). AllWait h' xs s (h p).awaited_continuation) flags
            (subst (λ (c : Ptr). AllWait h' xs (h1 x).awaited_flags c) cont waits),
      ),
      (there, subst (λ (a : Awaiter). ReportsTo a x) (sym at_p) r, row),
      λ q off_q. frame q off_q.1 ∙ told-off h p x q off_q.0,
    )

-- `p` waits for something else.
abbrev pub awaiting : Awaiters → Ptr → Ptr → Ptr → Awaiters
awaiting h p flags cont =
    put h p (record (h p) { awaited_flags = flags; awaited_continuation = cont })

awaiting-keeps :
    (h : Awaiters) (p flags cont q : Ptr) → KeepsLinks (h q) (awaiting h p flags cont q)
awaiting-keeps h p flags cont q = ground arith

awaiting-here : (h : Awaiters) (p flags cont : Ptr) → Waits (awaiting h p flags cont p) flags cont
awaiting-here h p flags cont = let here : (p == p) ≡ true = ground arith in rw here (refl, refl)

awaiting-off : (h : Awaiters) (p flags cont q : Ptr) → q ≢ p → awaiting h p flags cont q ≡ h q
awaiting-off h p flags cont q n = let away : (q == p) ≡ false = ground arith in rw away refl

-- What a promise newly waits for reaches the whole row.
pub await_lem :
    (fuel : ℕ) (h : Awaiters) (p : Ptr) (ps : List Ptr) (flags cont : Ptr)
    → length ps < fuel
    → Row h p ps
    → Distinct (p ∷ ps)
    → (h' : Awaiters) × (update_propagated_outer fuel (awaiting h p flags cont) p ≡ some h')
      × AllWait h' (p ∷ ps) flags cont
      × Row h' p ps
      × ((q : Ptr) → Off q (p ∷ ps) → h' q ≡ h q)
await_lem fuel h p ps flags cont enough r d =
    let h1 = awaiting h p flags cont in
    let row1 = Row-keeps h h1 p ps (awaiting-keeps h p flags cont) r in
    let (h', run, waits, row, frame) = update_propagated_outer_lem fuel h1 p ps enough row1 d in
    let (one, two) = awaiting-here h p flags cont in
    (
      h',
      run,
      (
        subst (λ (a : Awaiter). Waits a flags cont) (sym (frame p d.0)) (one, two),
        subst (λ (s : Ptr). AllWait h' ps s cont) one
            (subst (λ (c : Ptr). AllWait h' ps (h1 p).awaited_flags c) two waits),
      ),
      row,
      λ q off. frame q off.1 ∙ awaiting-off h p flags cont q off.0,
    )

-- Clearing at one end of a row leaves no promise of it waiting.
pub clear_awaited_chain_lem :
    (fuel : ℕ) (h : Awaiters) (p : Ptr) (ps : List Ptr)
    → length ps < fuel
    → Row h p ps
    → Distinct (p ∷ ps)
    → (h' : Awaiters) × (clear_awaited_chain fuel h p ≡ some h')
      × AllWait h' (p ∷ ps) null null
      × Row h' p ps
unfolding clear_awaited_chain
clear_awaited_chain_lem fuel h p ps enough r d =
    let (h', run, waits, row, frame) = await_lem fuel h p ps null null enough r d in
    (h', run, waits, row)
