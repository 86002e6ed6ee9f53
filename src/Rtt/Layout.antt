-- ===== src/Rtt/Layout.antt =====
-- Where the run-time tuple puts its objects.
use mathlib.Core.List.{append_assoc, append-nil, reverse-cons}
use actor_zeta.Base.{
  ℕ, ◌+◌, ◌≤◌, ◌<◌, ◌≡◌, refl, sym, ◌∙◌, ◌⊎◌, inl, inr, Bool-cases, false, List, [], ◌∷◌, ◌++◌,
  none, some, map, reverse, length, arith, ltb, ◌==◌,
}
use actor_zeta.Rtt.{
  u64_mod, TypeInfo, Entry, Rtt, get_size, push_back_no_realloc, push_all, make, block_size, clear,
  nothing,
}
use actor_zeta.Rtt.Offsets.{AllAligned, extent, Stacked, pushed, not_pushed, next_offset}

-- A stack fits below any larger volume.
Stacked-weaken :
    (base : ℕ) (es : List Entry) (v w : ℕ) → v ≤ w → Stacked base es v → Stacked base es w
Stacked-weaken base [] v w le st = tt
Stacked-weaken base (e ∷ es) v w le (fits, al, rest) = (omega arith, al, rest)

push_all_step :
    (r r1 : Rtt) (t : TypeInfo) (ts : List TypeInfo)
    → push_back_no_realloc r t ≡ some r1
    → push_all r (t ∷ ts) ≡ push_all r1 ts
unfolding push_all
push_all_step r r1 t ts e = rw e refl

push_all_stop :
    (r : Rtt) (t : TypeInfo) (ts : List TypeInfo)
    → push_back_no_realloc r t ≡ none
    → push_all r (t ∷ ts) ≡ none
unfolding push_all
push_all_stop r t ts e = rw e refl

abbrev with_object : Rtt → TypeInfo → ℕ → Rtt
with_object r t o = record r {
  volume = o + t.size;
  objects = record { offset = o; type = t } ∷ r.objects;
}

-- Pushing objects for which the rest of the capacity is enough.
push_all_lem :
    (r : Rtt) (ts : List TypeInfo)
    → AllAligned r.allocation ts
    → r.allocation + r.volume + extent ts < u64_mod
    → get_size r.volume ts ≤ r.capacity
    → Stacked r.allocation r.objects r.volume
    → (r' : Rtt) × (push_all r ts ≡ some r')
      × (r'.allocation ≡ r.allocation)
      × (r'.volume ≡ get_size r.volume ts)
      × (r'.capacity ≡ r.capacity)
      × (length r'.objects ≡ length ts + length r.objects)
      × (map (λ (e : Entry). e.type) r'.objects
          ≡ reverse ts ++ map (λ (e : Entry). e.type) r.objects)
      × Stacked r.allocation r'.objects r'.volume
unfolding push_all get_size
push_all_lem r [] a fits room stacked = (r, refl, refl, refl, refl, omega arith, refl, stacked)
push_all_lem r (t ∷ ts) a fits room stacked =
    let (o, there, low, high, al, sized, grows) = next_offset r.allocation r.volume t ts a fits in
    let r1 = with_object r t o in
    let (r', e', at, v', cap, len, ts', stacked') =
      push_all_lem r1 ts a.1 (omega arith) (omega (arith, sized, room))
        (omega arith, al, Stacked-weaken r.allocation r.objects r.volume o low stacked) in
    (
      r',
      push_all_step r r1 t ts (pushed r t o there low (omega (arith, sized, room, grows))) ∙ e',
      at,
      v' ∙ sym sized,
      cap,
      omega (arith, len),
      ts' ∙ sym (turned (map (λ (e : Entry). e.type) r.objects)),
      stacked',
    )
  where
    turned : (old : List TypeInfo) → reverse (t ∷ ts) ++ old ≡ reverse ts ++ (t ∷ old)
    turned old = rw (reverse-cons t ts) (append_assoc (reverse ts) (t ∷ []) old)

-- Pushing objects for which it is not.
push_all_full :
    (r : Rtt) (ts : List TypeInfo)
    → AllAligned r.allocation ts
    → r.allocation + r.volume + extent ts < u64_mod
    → r.volume ≤ r.capacity
    → r.capacity < get_size r.volume ts
    → push_all r ts ≡ none
unfolding get_size
push_all_full r [] a fits within full = absurd (omega (arith, within, full))
push_all_full r (t ∷ ts) a fits within full =
    let (o, there, low, high, al, sized, grows) = next_offset r.allocation r.volume t ts a fits in
    elim (Bool-cases (ltb r.capacity (o + t.size))) [
      | inl over ↦ push_all_stop r t ts (not_pushed r t o there low within (ground (arith, over)))
      | inr room ↦
          let r1 = with_object r t o in
          let goes : o + t.size ≤ r.capacity = ground (arith, room) in
          push_all_step r r1 t ts (pushed r t o there low goes)
          ∙ push_all_full r1 ts a.1 (omega arith) goes (omega (arith, sized, full))
    ]

module _ {ℓ} {A : Type ℓ} (info : A → TypeInfo) (decay : A → A) where
  -- The types of the objects that are stored.
  abbrev pub decayed : List A → List TypeInfo
  decayed args = map (λ t. info (decay t)) args

  length-decayed : (args : List A) → length (decayed args) ≡ length args
  length-decayed [] = refl
  length-decayed (arg ∷ args) = omega (arith, length-decayed args)

  -- A tuple of one or more arguments, whose decayed types have alignments that are powers of two
  -- and divide the address of the block, with no overflow of 64 bits. If the capacity, computed
  -- from the types of the arguments, is at least the room that the decayed types take, then the
  -- tuple holds objects of the decayed types in the order given, each aligned, none overlapping
  -- another, within the capacity. If it is less, as it may be for an array that decays to a
  -- pointer, the construction aborts.
  pub make-Stacked :
      (address : ℕ) (arg : A) (args : List A)
      → AllAligned address (decayed (arg ∷ args))
      → address + extent (decayed (arg ∷ args)) < u64_mod
      → ((get_size 0 (decayed (arg ∷ args)) ≤ get_size 0 (map info (arg ∷ args)))
          × (r : Rtt) × (make info decay address (arg ∷ args) ≡ some r)
          × (r.allocation ≡ address)
          × (r.volume ≡ get_size 0 (decayed (arg ∷ args)))
          × (r.capacity ≡ get_size 0 (map info (arg ∷ args)))
          × (map (λ (e : Entry). e.type) r.objects ≡ reverse (decayed (arg ∷ args)))
          × Stacked address r.objects r.volume)
        ⊎ ((get_size 0 (map info (arg ∷ args)) < get_size 0 (decayed (arg ∷ args)))
            × (make info decay address (arg ∷ args) ≡ none))
  unfolding make
  make-Stacked address arg args a fits =
      let stored = decayed (arg ∷ args) in
      let room = get_size 0 (map info (arg ∷ args)) in
      let empty : Rtt = record {
        capacity = room;
        volume = 0;
        allocation = address;
        objects = [];
      } in
      elim (Bool-cases (ltb room (get_size 0 stored))) [
        | inl short ↦
            let less : room < get_size 0 stored = ground (arith, short) in
            inr (less, push_all_full empty stored a (omega arith) (omega arith) less)
        | inr enough ↦
            let within : get_size 0 stored ≤ room = ground (arith, enough) in
            let (r, e, at, v, cap, len, all, stacked) =
              push_all_lem empty stored a (omega arith) within tt in
            inl (within, r, e, at, v, cap, all ∙ append-nil (reverse stored), stacked)
      ]

  -- Clearing such a tuple, whose block is not at address 0, where the capacity is enough: the
  -- construction succeeds, clear destroys the objects in the reverse of the order given and gives
  -- back as many bytes as the constructor allocated, which it computed from the types of the
  -- arguments.
  pub clear-make :
      (address : ℕ) (arg : A) (args : List A)
      → AllAligned address (decayed (arg ∷ args))
      → 0 < address
      → address + extent (decayed (arg ∷ args)) < u64_mod
      → get_size 0 (decayed (arg ∷ args)) ≤ get_size 0 (map info (arg ∷ args))
      → (r : Rtt) × (make info decay address (arg ∷ args) ≡ some r)
        × (map (λ (e : Entry). e.type) (clear r).0 ≡ reverse (decayed (arg ∷ args)))
        × ((clear r).1 ≡ block_size (get_size 0 (map info (arg ∷ args))) (length (arg ∷ args)))
        × ((clear r).2 ≡ nothing)
  unfolding make clear
  clear-make address arg args a some_where fits within =
      let stored = decayed (arg ∷ args) in
      let (r, e, at, v, cap, len, all, stacked) =
        push_all_lem
          (record {
            capacity = get_size 0 (map info (arg ∷ args));
            volume = 0;
            allocation = address;
            objects = [];
          })
          stored a (omega arith) within tt in
      let allocated : (r.allocation == 0) ≡ false = ground arith in
      let number : length r.objects ≡ length (arg ∷ args) =
        omega (arith, len, length-decayed (arg ∷ args)) in
      (r, e, all ∙ append-nil (reverse stored), rw (allocated, cap, number) refl, refl)
