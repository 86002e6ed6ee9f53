-- ===== src/Examples/Balancer/Rounds.antt =====
-- The turns of the parts of a collection.
use native.Mathlib.Nat.{mod-lt, mod-add-mod, add-mod_right, mod-eq_of_lt, mod-eq-sub-mod}
use actor_zeta.Base.{
  ℕ, suc, ◌+◌, ◌-◌, ◌%◌, ◌^◌, ◌<◌, ◌≤◌, ◌≡◌, ◌≢◌, refl, sym, ap, subst, ◌∙◌, List, [], ◌∷◌, length,
  none, some, arith, get_elem?, modify, length-modify, get_elem?-modify_other,
  get_elem?-modify_same, get_elem?-lt, dec_lt,
}
use actor_zeta.Examples.Balancer.{
  Key, Value, CollectionPart, update, find, Request, to_update, to_find, done, found, serve, answer,
  Collection, index, forward, reply, forward_all,
}

-- Less than one round later it is the turn of another part.
turns_differ : (c i n : ℕ) → 0 < i → i < n → (c + i) % n ≢ c % n
turns_differ c i n pos small =
    let r = c % n in
    let below : r < n = mod-lt c (omega (arith, small)) in
    let shifted : (r + i) % n ≡ (c + i) % n = mod-add-mod c n i in
    elim (dec_lt (r + i) n) [
      | yes inside ↦ λ e. (omega (arith, shifted, mod-eq_of_lt inside, e, pos))
      | no outside ↦ λ e.
          let past : n ≤ r + i = omega (arith, outside) in
          let again : (r + i) % n ≡ (r + i - n) % n = mod-eq-sub-mod past in
          let small' : r + i - n < n = omega (arith, below, small) in
          omega (arith, shifted, again, mod-eq_of_lt small', e, past, small)
    ]

-- What one request does to n parts.
abbrev Forwarded : Collection → Request → ℕ → Type 0
Forwarded c r n =
    (child : CollectionPart) × (get_elem? c.actors (c.cursor % n) ≡ some child)
    × (reply c r ≡ some (answer child r))
    × (get_elem? (forward c r).actors (c.cursor % n) ≡ some (serve child r))
    × ((j : ℕ) → c.cursor % n ≢ j → get_elem? (forward c r).actors j ≡ get_elem? c.actors j)
    × (length (forward c r).actors ≡ n)
    × ((forward c r).cursor ≡ suc c.cursor)

forward_child :
    (c : Collection) (r : Request) (child : CollectionPart)
    → get_elem? c.actors (index c) ≡ some child
    → (reply c r ≡ some (answer child r))
      × ((forward c r).actors ≡ modify (λ part. serve part r) c.actors (index c))
      × ((forward c r).cursor ≡ suc c.cursor % 2 ^ 32)
unfolding forward reply
forward_child c r child there =
    (rw (reply, there) refl, rw (forward, there) refl, rw (forward, there) refl)

forward_lem :
    (c : Collection) (r : Request) (n : ℕ)
    → length c.actors ≡ n
    → 0 < n
    → suc c.cursor < 2 ^ 32
    → Forwarded c r n
forward_lem c r n many pos fits =
    let (child, there) =
      get_elem?-lt c.actors (index c) (mod-lt c.cursor (omega (arith, many, pos))) in
    let (said, actors, moved) = forward_child c r child there in
    let change = λ (part : CollectionPart). serve part r in
    subst (Forwarded c r) many (
      child,
      there,
      said,
      ap (λ l. get_elem? l (index c)) actors
          ∙ get_elem?-modify_same change c.actors (index c) child there,
      (λ j other.
          ap (λ l. get_elem? l j) actors
          ∙ get_elem?-modify_other change c.actors (index c) j other),
      ap length actors ∙ length-modify change c.actors (index c),
      moved ∙ mod-eq_of_lt fits,
    )

-- Requests that are not the turn of a part leave it alone.
forward_all_lem :
    (c : Collection) (rs : List Request) (n i : ℕ)
    → length c.actors ≡ n
    → 0 < n
    → c.cursor + length rs < 2 ^ 32
    → ((k : ℕ) → k < length rs → (c.cursor + k) % n ≢ i)
    → (get_elem? (forward_all c rs).actors i ≡ get_elem? c.actors i)
      × (length (forward_all c rs).actors ≡ n)
      × ((forward_all c rs).cursor ≡ c.cursor + length rs)
unfolding forward_all
forward_all_lem c [] n i many pos fits others = (refl, many, omega arith)
forward_all_lem c (r ∷ rs) n i many pos fits others =
    let (child, there, said, served, kept, many', moved) =
      forward_lem c r n many pos (omega (arith, fits)) in
    let first : c.cursor % n ≢ i =
      λ e. others 0 (omega arith) (ap (λ (x : ℕ). x % n) (omega arith) ∙ e) in
    let (same, many'', at) =
      forward_all_lem (forward c r) rs n i many' pos (omega (arith, moved, fits)) (λ k below e.
        others (suc k) (omega (arith, below)) (ap (λ (x : ℕ). x % n) (omega (arith, moved)) ∙ e)) in
    (same ∙ kept i first, many'', omega (arith, at, moved))

find-update :
    (part : CollectionPart) (key : Key) (v : Value)
    → answer (serve part (to_update key v)) (to_find key) ≡ found v
unfolding answer serve update find
find-update part key v = ground arith

-- Once a key is updated, and each of the other parts has then had its turn, with any requests at
-- all, a find of the key yields the value: of n parts, it is the one that was updated whose turn
-- it is, as long as the 32-bit cursor does not wrap around.
pub reply-forward_all :
    (c : Collection) (key : Key) (v : Value) (rs : List Request) (n : ℕ)
    → length c.actors ≡ n
    → suc (length rs) ≡ n
    → suc (c.cursor + n) < 2 ^ 32
    → reply (forward_all (forward c (to_update key v)) rs) (to_find key) ≡ some (found v)
reply-forward_all c key v rs n many round fits =
    let pos : 0 < n = omega (arith, round) in
    let i = c.cursor % n in
    let c1 = forward c (to_update key v) in
    let (child, there, said, served, kept, many1, moved) =
      forward_lem c (to_update key v) n many pos (omega (arith, fits)) in
    let (same, many2, at) =
      forward_all_lem c1 rs n i many1 pos (omega (arith, moved, fits, round)) (λ k below e.
        turns_differ c.cursor (suc k) n (omega arith) (omega (arith, below, round))
          (ap (λ (x : ℕ). x % n) (omega (arith, moved)) ∙ e)) in
    let c2 = forward_all c1 rs in
    let turn : c2.cursor % n ≡ i =
      ap (λ (x : ℕ). x % n) (omega (arith, at, moved, round)) ∙ add-mod_right c.cursor n in
    let (part, here, replied, served2, kept2, many3, at2) =
      forward_lem c2 (to_find key) n many2 pos (omega (arith, at, moved, round, fits)) in
    let found_there : some part ≡ some (serve child (to_update key v)) =
      sym here ∙ ap (get_elem? c2.actors) turn ∙ same ∙ served in
    replied
    ∙ ap (λ o. some (elim o [ none ↦ done | some p ↦ answer p (to_find key) ])) found_there
    ∙ ap some (find-update child key v)
