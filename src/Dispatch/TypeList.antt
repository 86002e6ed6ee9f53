-- ===== src/Dispatch/TypeList.antt =====
-- header/actor-zeta/detail/type_list.hpp: lists of types, their elements and their slices. A type is a
-- number.
mod Tests
use actor_zeta.Base.{
  ℕ, zero, suc, ◌+◌, ◌-◌, ◌<◌, ◌≤◌, ◌≡◌, refl, sym, ap, ◌∙◌, Bool-cases, inl, inr, true, false,
  List, [], ◌∷◌, ◌++◌, length, length-append, get_elem?, Option, none, some, ◌==◌, ltb,
  if◌then◌else◌, arith, ◌&&◌,
}
use mathlib.Core.List.{append-nil, append_assoc}

-- `none` where no specialisation fits.
unfoldable pub type_list_at : List ℕ → ℕ → Option ℕ
type_list_at [] n = none
type_list_at (e ∷ es) zero = some e
type_list_at (e ∷ es) (suc n) = type_list_at es n

unfoldable pub tl_tail : List ℕ → List ℕ
tl_tail [] = []
tl_tail (t ∷ ts) = ts

-- `void` for the head of an empty list.
unfoldable pub tl_head : ℕ → List ℕ → ℕ
tl_head void [] = void
tl_head void (t ∷ ts) = t

-- The specialisations, from the most special on.
unfoldable pub tl_slice_impl : ℕ → ℕ → ℕ → List ℕ → List ℕ → List ℕ
unfolding tl_tail
tl_slice_impl pad (suc left_offset) remaining list args =
    tl_slice_impl pad left_offset remaining (tl_tail list) args
tl_slice_impl pad zero zero list args = args
tl_slice_impl pad zero (suc remaining) [] args =
    tl_slice_impl pad zero remaining [] (args ++ (pad ∷ []))
tl_slice_impl pad zero (suc remaining) (t ∷ ts) args =
    tl_slice_impl pad zero remaining ts (args ++ (t ∷ []))

-- `tl_slice_`, with the size of the list.
unfoldable pub tl_slice_from : ℕ → List ℕ → ℕ → ℕ → List ℕ
unfolding tl_slice_impl
tl_slice_from pad list first last =
    let slice = tl_slice_impl pad first (last - first) list [] in
    if first == 0 && last == length list then list else slice

unfoldable pub tl_slice : ℕ → List ℕ → ℕ → ℕ → List ℕ
unfolding tl_slice_from
tl_slice pad list first last = tl_slice_from pad list (if ltb last first then last else first) last

-- The list without its first types, and so many types of a list with padding behind its end.
abbrev skip : ℕ → List ℕ → List ℕ
skip zero ts = ts
skip (suc k) [] = []
skip (suc k) (t ∷ ts) = skip k ts

abbrev padded : ℕ → ℕ → List ℕ → List ℕ
padded pad zero ts = []
padded pad (suc n) [] = pad ∷ padded pad n []
padded pad (suc n) (t ∷ ts) = t ∷ padded pad n ts

skip-nil : (k : ℕ) → skip k [] ≡ []
skip-nil zero = refl
skip-nil (suc k) = refl

tl_slice_impl_lem :
    (pad k n : ℕ) (list args : List ℕ)
    → tl_slice_impl pad k n list args ≡ args ++ padded pad n (skip k list)
unfolding tl_slice_impl tl_tail
tl_slice_impl_lem pad (suc k) n [] args =
    tl_slice_impl_lem pad k n [] args ∙ ap (λ l. args ++ padded pad n l) (skip-nil k)
tl_slice_impl_lem pad (suc k) n (t ∷ ts) args = tl_slice_impl_lem pad k n ts args
tl_slice_impl_lem pad zero zero list args = sym (append-nil args)
tl_slice_impl_lem pad zero (suc n) [] args =
    tl_slice_impl_lem pad zero n [] (args ++ (pad ∷ []))
    ∙ append_assoc args (pad ∷ []) (padded pad n [])
tl_slice_impl_lem pad zero (suc n) (t ∷ ts) args =
    tl_slice_impl_lem pad zero n ts (args ++ (t ∷ []))
    ∙ append_assoc args (t ∷ []) (padded pad n ts)

at_padded :
    (pad n i : ℕ) (ts : List ℕ)
    → type_list_at (padded pad n ts) i
      ≡ (if ltb i n then (if ltb i (length ts) then type_list_at ts i else some pad) else none)
unfolding type_list_at
at_padded pad zero i ts = ground arith
at_padded pad (suc n) zero [] = ground arith
at_padded pad (suc n) zero (t ∷ ts) = ground arith
at_padded pad (suc n) (suc i) [] = ground (arith, at_padded pad n i [])
at_padded pad (suc n) (suc i) (t ∷ ts) = ground (arith, at_padded pad n i ts)

at_skip : (k i : ℕ) (ts : List ℕ) → type_list_at (skip k ts) i ≡ type_list_at ts (k + i)
unfolding type_list_at
at_skip zero i ts = ap (type_list_at ts) (omega arith)
at_skip (suc k) i [] = refl
at_skip (suc k) i (t ∷ ts) =
    let same : suc (k + i) ≡ suc k + i = omega arith in
    at_skip k i ts ∙ ap (type_list_at (t ∷ ts)) same

length-skip : (k : ℕ) (ts : List ℕ) → length (skip k ts) ≡ length ts - k
length-skip zero ts = omega arith
length-skip (suc k) [] = omega arith
length-skip (suc k) (t ∷ ts) = omega (arith, length-skip k ts)

at_end : (ts : List ℕ) (i : ℕ) → length ts ≤ i → type_list_at ts i ≡ none
unfolding type_list_at
at_end [] i past = refl
at_end (t ∷ ts) zero past = absurd (omega (arith, past))
at_end (t ∷ ts) (suc i) past = at_end ts i (omega (arith, past))

-- What stands at a place of `padded`, of the list without its first types.
from_skip :
    (pad first n i : ℕ) (list : List ℕ)
    → type_list_at (padded pad n (skip first list)) i ≡ (
        if ltb i n
        then (if ltb (first + i) (length list) then type_list_at list (first + i) else some pad)
        else none)
from_skip pad first n i list =
    let same : ltb i (length (skip first list)) ≡ ltb (first + i) (length list) =
      ground (arith, length-skip first list) in
    at_padded pad n i (skip first list) ∙ rw (same, at_skip first i list) refl

whole_list :
    (pad first last i : ℕ) (list : List ℕ)
    → first ≡ 0
    → last ≡ length list
    → type_list_at list i ≡ (
        if ltb i (last - first)
        then (if ltb (first + i) (length list) then type_list_at list (first + i) else some pad)
        else none)
whole_list pad first last i list start end =
    let same : type_list_at list i ≡ type_list_at list (first + i) =
      ap (type_list_at list) (omega (arith, start)) in
    elim (Bool-cases (ltb i (last - first))) [
      | inl inside ↦
          let below : ltb (first + i) (length list) ≡ true = ground arith in rw (inside, below) same
      | inr outside ↦ rw outside (at_end list i (ground arith))
    ]

at_tl_slice_from :
    (pad first last i : ℕ) (list : List ℕ)
    → type_list_at (tl_slice_from pad list first last) i ≡ (
        if ltb i (last - first)
        then (if ltb (first + i) (length list) then type_list_at list (first + i) else some pad)
        else none)
unfolding tl_slice_from
at_tl_slice_from pad first last i list = elim (Bool-cases (first == 0 && last == length list)) [
  | inl whole ↦ rw whole (whole_list pad first last i list (ground arith) (ground arith))
  | inr part ↦ rw part (
      ap (λ l. type_list_at l i) (tl_slice_impl_lem pad first (last - first) list [])
      ∙ from_skip pad first (last - first) i list)
]

-- The slice of a list from `first` to `last`, at each place: it has last - first types, or none if
-- last comes first, namely those of the list from `first` on, and then the padding.
pub tl_slice-type_list_at :
    (pad first last i : ℕ) (list : List ℕ)
    → type_list_at (tl_slice pad list first last) i ≡ (
        if ltb i (last - first)
        then (if ltb (first + i) (length list) then type_list_at list (first + i) else some pad)
        else none)
unfolding tl_slice
tl_slice-type_list_at pad first last i list = elim (Bool-cases (ltb last first)) [
  | inr ordered ↦ rw (tl_slice, ordered) (at_tl_slice_from pad first last i list)
  | inl swapped ↦
      let nothing : ltb i (last - first) ≡ false = ground arith in
      let empty : ltb i (last - last) ≡ false = ground arith in
      rw (nothing, tl_slice, swapped) (at_tl_slice_from pad last last i list ∙ rw empty refl)
]
