-- ===== src/Rtt/Access.antt =====
-- header/actor-zeta/detail/rtt.hpp: how an object is read back from the tuple, at the offset that the
-- table gives and as the type that the reader names. The table is not asked for the type.
use mathlib.Core.Option
use mathlib.Core.List.{append-nil, append_assoc, reverse-cons, map-append}
use actor_zeta.Base.{
  ℕ, suc, ◌+◌, ◌≡◌, refl, sym, ap, ◌∙◌, ◌↔◌, List, [], ◌∷◌, ◌++◌, Option, none, some, map, reverse,
  length, length-append, get_elem?, get_elem?-append_mid, arith, ◌>>=◌, Option-cases, inl, inr, ◌-◌,
}
use actor_zeta.Rtt.{TypeInfo, Entry, Rtt, force_align, push_back_no_realloc, push_all}

-- The objects in the order in which they were put in.
abbrev pub in_order : Rtt → List Entry
in_order r = reverse r.objects

-- `none` is the assertion on the index.
unfoldable pub offset : Rtt → ℕ → Option ℕ
offset r index = Option.map (λ (o : Entry). o.offset) (get_elem? (in_order r) index)

-- What a read of the type at the offset takes for an object.
unfoldable pub get_by_offset : TypeInfo → ℕ → Entry
get_by_offset t at = record { offset = at; type = t }

-- The member `get`.
unfoldable pub get : Rtt → TypeInfo → ℕ → Option Entry
unfolding offset get_by_offset
get r t index = do at ← offset r index; some (get_by_offset t at)

-- One read after the other, of the types, from the index on.
abbrev pub gets : Rtt → List TypeInfo → ℕ → Option (List Entry)
gets r [] i = some []
gets r (t ∷ ts) i =
    let rest = gets r ts (suc i) in do first ← get r t i; others ← rest; some (first ∷ others)

-- The objects, taken for objects of other types.
abbrev retyped : List Entry → List TypeInfo → List Entry
retyped [] ts = []
retyped (o ∷ os) [] = []
retyped (o ∷ os) (t ∷ ts) = record { offset = o.offset; type = t } ∷ retyped os ts

gets_lem :
    (r : Rtt) (before after : List Entry) (ts : List TypeInfo)
    → in_order r ≡ before ++ after
    → length ts ≡ length after
    → gets r ts (length before) ≡ some (retyped after ts)
unfolding get offset get_by_offset
gets_lem r before [] [] e n = refl
gets_lem r before (o ∷ after) [] e n = ground arith
gets_lem r before [] (t ∷ ts) e n = ground arith
gets_lem r before (o ∷ after) (t ∷ ts) e n =
    let here = ap (λ l. get_elem? l (length before)) e ∙ get_elem?-append_mid before o after in
    let longer : length (before ++ (o ∷ [])) ≡ suc (length before) =
      omega (arith, length-append before (o ∷ [])) in
    let ih =
      gets_lem r (before ++ (o ∷ [])) after ts (e ∙ sym (append_assoc before (o ∷ []) after))
        (omega (arith, n)) in
    let next : gets r ts (suc (length before)) ≡ some (retyped after ts) = rw longer at ih in
    rw (here, next) refl

abbrev pub types_of : List Entry → List TypeInfo
types_of = map (λ (o : Entry). o.type)

abbrev head_or : Entry → List Entry → Entry
head_or o [] = o
head_or o (p ∷ ps) = p

abbrev tail_of : List Entry → List Entry
tail_of [] = []
tail_of (p ∷ ps) = ps

-- Objects are taken for what they are exactly if they are read as their own types.
cons_path {ℓ} : {A : Type ℓ} {x y : A} {xs ys : List A} → x ≡ y → xs ≡ ys → x ∷ xs ≡ y ∷ ys
cons_path p q = λ i. p i ∷ q i

abbrev type_or : TypeInfo → List TypeInfo → TypeInfo
type_or t [] = t
type_or t (u ∷ us) = u

abbrev rest_of : List TypeInfo → List TypeInfo
rest_of [] = []
rest_of (u ∷ us) = us

retyped-same :
    (os : List Entry) (ts : List TypeInfo)
    → length ts ≡ length os
    → (retyped os ts ≡ os) ↔ (ts ≡ types_of os)
retyped-same [] [] n = ((λ _. refl), (λ _. refl))
retyped-same [] (t ∷ ts) n = ground arith
retyped-same (o ∷ os) [] n = ground arith
retyped-same (o ∷ os) (t ∷ ts) n =
    let (to, from) = retyped-same os ts (omega (arith, n)) in
    (
      (λ e. cons_path (ap (λ l. (head_or o l).type) e) (to (ap tail_of e))),
      (λ e.
          cons_path (λ i. record { offset = o.offset; type = type_or t (e i) })
            (from (ap rest_of e))),
    )

push_back-types :
    (r r' : Rtt) (t : TypeInfo)
    → push_back_no_realloc r t ≡ some r'
    → types_of (in_order r') ≡ types_of (in_order r) ++ (t ∷ [])
unfolding push_back_no_realloc
push_back-types r r' t e = elim (Option-cases (force_align r t)) [
  | inl full ↦ let impossible : none ≡ some r' = rw full at e in absurd (ground arith)
  | inr (place, fits) ↦
      let o : Entry = record { offset = place - r.allocation; type = t } in
      let pushed : some (record r { volume = o.offset + t.size; objects = o ∷ r.objects })
          ≡ some r' =
        rw fits at e in
      let same : o ∷ r.objects ≡ r'.objects = ground (arith, pushed) in
      rw (← same, reverse-cons o r.objects, map-append)
]

pub push_all-types :
    (r r' : Rtt) (ts : List TypeInfo)
    → push_all r ts ≡ some r'
    → types_of (in_order r') ≡ types_of (in_order r) ++ ts
unfolding push_all
push_all-types r r' [] e =
    let same : r.objects ≡ r'.objects = ground (arith, e) in
    ap (λ l. types_of (reverse l)) (sym same) ∙ sym (append-nil (types_of (in_order r)))
push_all-types r r' (t ∷ ts) e = elim (Option-cases (push_back_no_realloc r t)) [
  | inl full ↦ let impossible : none ≡ some r' = rw full at e in absurd (ground arith)
  | inr (r1, fits) ↦
      let later : push_all r1 ts ≡ some r' = rw fits at e in
      push_all-types r1 r' ts later
      ∙ ap (λ l. l ++ ts) (push_back-types r r1 t fits)
      ∙ append_assoc (types_of (in_order r)) (t ∷ []) ts
]

length-types : (os : List Entry) → length (types_of os) ≡ length os
length-types [] = refl
length-types (o ∷ os) = omega (arith, length-types os)

-- Objects that were put in as the types `ts` and are read as the types `us`: the reads find as many
-- objects, at their offsets, and take them for what they are exactly if the types are equal.
pub gets-push_all :
    (r r' : Rtt) (ts us : List TypeInfo)
    → r.objects ≡ []
    → push_all r ts ≡ some r'
    → length us ≡ length ts
    → (objects : List Entry) × (gets r' us 0 ≡ some objects) × ((objects ≡ in_order r') ↔ (us ≡ ts))
gets-push_all r r' ts us fresh e n =
    let stored : types_of (in_order r') ≡ ts =
      push_all-types r r' ts e ∙ ap (λ l. types_of (reverse l) ++ ts) fresh in
    let many : length us ≡ length (in_order r') =
      n ∙ sym (ap length stored) ∙ length-types (in_order r') in
    let (to, from) = retyped-same (in_order r') us many in
    (
      retyped (in_order r') us,
      gets_lem r' [] (in_order r') us refl many,
      ((λ same. to same ∙ stored), (λ same. from (same ∙ sym stored))),
    )
