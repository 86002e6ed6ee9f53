-- ===== src/Examples/Supervisor/Turns.antt =====
-- The supervisor never leaves its list of workers, and its workers take their turns.
use native.Mathlib.Nat.{mod-eq_of_lt, mod-lt, mod-add-mod}
use mathlib.Core.List.{append-nil, append_assoc}
use actor_zeta.Base.{
  dec_lt, ◌≤◌, ℕ, suc, ◌+◌, ◌%◌, ◌<◌, ◌≡◌, ◌≢◌, refl, sym, ap, subst, ◌∙◌, ◌⊎◌, inl, inr, List, [],
  ◌∷◌, ◌++◌, map, length, length-append, some, get_elem?, modify, length-modify,
  get_elem?-modify_same, get_elem?-modify_other, get_elem?-lt, arith, ◌==◌, if◌then◌else◌,
  Bool-cases,
}
use actor_zeta.Examples.Supervisor.{
  WorkerRequest, process_task, get_status, Worker, send, Supervisor, no_workers, create_worker,
  assign_task, stop_workers, check_status, Request, to_create, to_assign, to_stop, to_check,
  behavior, handle_all,
}

-- The next worker is one of the workers, if there are any.
abbrev pub InRange : Supervisor → Type 0
InRange s = ((s.workers ≡ []) × (s.next_worker ≡ 0)) ⊎ (s.next_worker < length s.workers)

length-map-send : (r : WorkerRequest) (ws : List Worker) → length (map (send r) ws) ≡ length ws
length-map-send r [] = refl
length-map-send r (w ∷ ws) = omega (arith, length-map-send r ws)

-- A task for a supervisor with workers.
abbrev assigned : List Worker → ℕ → ℕ → Supervisor
assigned ws next task = record {
  workers = modify (send (process_task task)) ws next;
  next_worker = (next + 1) % length ws;
}

assign_task-assigned :
    (ws : List Worker) (next task : ℕ)
    → next < length ws
    → assign_task (record { workers = ws; next_worker = next }) task ≡ some (assigned ws next task)
unfolding assign_task
assign_task-assigned [] next task below = absurd (omega (arith, below))
assign_task-assigned (w ∷ ws) next task below =
    let (worker, there) = get_elem?-lt (w ∷ ws) next below in rw (assign_task, there) refl

assign_task-none : (s : Supervisor) (task : ℕ) → s.workers ≡ [] → assign_task s task ≡ some s
unfolding assign_task
assign_task-none s task e =
    let at : List Worker → Supervisor =
      λ ws. record { workers = ws; next_worker = s.next_worker } in
    subst (λ (ws : List Worker). assign_task (at ws) task ≡ some (at ws)) (sym e) refl

behavior-InRange :
    (s : Supervisor) (r : Request)
    → InRange s
    → (s' : Supervisor) × (behavior s r ≡ some s') × InRange s'
unfolding behavior create_worker assign_task stop_workers check_status
behavior-InRange s (to_create name) (inl (e, zero_next)) =
    let first : List Worker = record { name = name; tasks_processed = 0; inbox = [] } ∷ [] in
    (create_worker s name, refl, inr (omega (arith, zero_next, length-append s.workers first)))
behavior-InRange s (to_create name) (inr below) =
    let last : List Worker = record { name = name; tasks_processed = 0; inbox = [] } ∷ [] in
    (create_worker s name, refl, inr (omega (arith, below, length-append s.workers last)))
behavior-InRange s (to_assign task) (inl (e, zero_next)) =
    (s, assign_task-none s task e, inl (e, zero_next))
behavior-InRange s (to_assign task) (inr below) =
    let same = length-modify (send (process_task task)) s.workers s.next_worker in
    let next = mod-lt (s.next_worker + 1) {m = length s.workers} (omega (arith, below)) in
    (
      assigned s.workers s.next_worker task,
      assign_task-assigned s.workers s.next_worker task below,
      inr (omega (arith, same, next)),
    )
behavior-InRange s to_stop ok = (s, refl, ok)
behavior-InRange s to_check (inl (e, zero_next)) =
    (check_status s, refl, inl (ap (map (send get_status)) e, zero_next))
behavior-InRange s to_check (inr below) =
    (check_status s, refl, inr (omega (arith, below, length-map-send get_status s.workers)))

handle_all-InRange :
    (s : Supervisor) (rs : List Request)
    → InRange s
    → (s' : Supervisor) × (handle_all s rs ≡ some s') × InRange s'
unfolding handle_all
handle_all-InRange s [] ok = (s, refl, ok)
handle_all-InRange s (r ∷ rs) ok =
    let (s1, run, ok1) = behavior-InRange s r ok in
    let (s2, later, ok2) = handle_all-InRange s1 rs ok1 in (s2, rw run later, ok2)

-- The tasks that fall to worker j of n, when the first of them is the turn of number `at`.
abbrev pub turn : ℕ → ℕ → ℕ → List ℕ → List WorkerRequest
turn j n at [] = []
turn j n at (task ∷ tasks) =
    let later = turn j n (suc at) tasks in if at % n == j then process_task task ∷ later else later

assign_all-turn :
    (s : Supervisor) (tasks : List ℕ) (n at : ℕ)
    → length s.workers ≡ n
    → 0 < n
    → s.next_worker ≡ at % n
    → (s' : Supervisor) × (handle_all s (map to_assign tasks) ≡ some s')
      × (length s'.workers ≡ n)
      × ((j : ℕ) (w : Worker)
          → get_elem? s.workers j ≡ some w
          → (w' : Worker) × (get_elem? s'.workers j ≡ some w')
            × (w'.inbox ≡ w.inbox ++ turn j n at tasks))
unfolding handle_all behavior
assign_all-turn s [] n at many pos next =
    (s, refl, many, (λ j w there. (w, there, sym (append-nil w.inbox))))
assign_all-turn s (task ∷ tasks) n at many pos next =
    let below : s.next_worker < length s.workers = omega (arith, next, many, mod-lt at pos) in
    let change = send (process_task task) in
    let s1 = assigned s.workers s.next_worker task in
    let stepped : s1.next_worker ≡ suc at % n =
      ap (λ (m : ℕ). (s.next_worker + 1) % m) many
      ∙ ap (λ (x : ℕ). (x + 1) % n) next
      ∙ mod-add-mod at n 1
      ∙ ap (λ (x : ℕ). x % n) (omega arith) in
    let (s2, run, many2, later) =
      assign_all-turn s1 tasks n (suc at) (length-modify change s.workers s.next_worker ∙ many) pos
        stepped in
    (
      s2,
      rw (assign_task-assigned s.workers s.next_worker task below) run,
      many2,
      (λ j w there. elim (Bool-cases (at % n == j)) [
        | inl hers ↦
            let mine : s.next_worker ≡ j = ground (arith, next, hers) in
            let got : get_elem? s1.workers j ≡ some (change w) =
              ap (λ i. get_elem? (modify change s.workers i) j) mine
              ∙ get_elem?-modify_same change s.workers j w there in
            let (w', there', inbox) = later j (change w) got in
            (
              w',
              there',
              rw hers
                  (inbox ∙ append_assoc w.inbox (process_task task ∷ []) (turn j n (suc at) tasks)),
            )
        | inr others ↦
            let not_mine : s.next_worker ≢ j = ground (arith, next, others) in
            let (w', there', inbox) =
              later j w
                (get_elem?-modify_other change s.workers s.next_worker j not_mine ∙ there) in
            (w', there', rw others inbox)
      ]),
    )

-- Whatever was asked of a new supervisor, it has never reached for a worker that is not there; and
-- when it then has workers and is given tasks, each worker is sent, behind what waits for it
-- already, just the tasks whose turn is its own, in their order: those whose number, counted from
-- the next worker on, is its index modulo the number of the workers.
pub handle_all-turn :
    (rs : List Request) (tasks : List ℕ) (j : ℕ)
    → (s : Supervisor) × (handle_all no_workers rs ≡ some s)
      × ((s.workers ≡ [])
          ⊎ ((s' : Supervisor) × (handle_all s (map to_assign tasks) ≡ some s')
              × (length s'.workers ≡ length s.workers)
              × ((length s.workers ≤ j)
                  ⊎ ((w : Worker) × (w' : Worker) × (get_elem? s.workers j ≡ some w)
                      × (get_elem? s'.workers j ≡ some w')
                      × (w'.inbox ≡ w.inbox ++ turn j (length s.workers) s.next_worker tasks)))))
handle_all-turn rs tasks j =
    let (s, run, ok) = handle_all-InRange no_workers rs (inl (refl, refl)) in
    (
      s,
      run,
      elim ok [
        | inl (e, zero_next) ↦ inl e
        | inr below ↦
            let pos : 0 < length s.workers = omega (arith, below) in
            let (s', run', same, turns) =
              assign_all-turn s tasks (length s.workers) s.next_worker refl pos
                (sym (mod-eq_of_lt below)) in
            inr (
              s',
              run',
              same,
              elim (dec_lt j (length s.workers)) [
                | no outside ↦ inl (omega (arith, outside))
                | yes inside ↦
                    let (w, there) = get_elem?-lt s.workers j inside in
                    let (w', there', inbox) = turns j w there in inr (w, w', there, there', inbox)
              ],
            )
      ],
    )
