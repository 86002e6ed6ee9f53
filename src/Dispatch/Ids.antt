-- ===== src/Dispatch/Ids.antt =====
-- Message ids and run-time dispatch agree on the number of a method, and tell methods apart.
use mathlib.Core.Option
use actor_zeta.Base.{
  ℕ, zero, suc, ◌+◌, ◌%◌, ◌^◌, ◌<◌, ◌≡◌, ◌≢◌, refl, sym, ap, subst, ◌∙◌, true, List, [], ◌∷◌,
  length, Option, none, some, arith, ◌==◌, Bool-cases, Option-cases, inl, inr,
}
use actor_zeta.MessageId.{normal, make_message_id, message_priority-make_message_id}
use actor_zeta.Dispatch.Methods.{
  MethodPtr, same_types, same_type, is_same_ptr, first_match, find_method_index, msg_id,
  index_sequence, dispatch_one, runtime_dispatch, signatures_match,
}

same_types-eq : (xs ys : List ℕ) → same_types xs ys ≡ true → xs ≡ ys
same_types-eq [] [] h = refl
same_types-eq (x ∷ xs) (y ∷ ys) h = ground (arith, same_types-eq xs ys)
same_types-eq [] (y ∷ ys) h = ground arith
same_types-eq (x ∷ xs) [] h = ground arith

is_same_ptr-eq : (a b : MethodPtr) → is_same_ptr a b ≡ true → a ≡ b
unfolding is_same_ptr
is_same_ptr-eq a b h = ground (arith, same_types-eq a.args_types b.args_types)

same_types_refl : (xs : List ℕ) → same_types xs xs ≡ true
same_types_refl [] = refl
same_types_refl (x ∷ xs) = ground (arith, same_types_refl xs)

is_same_ptr_refl : (a : MethodPtr) → is_same_ptr a a ≡ true
unfolding is_same_ptr
is_same_ptr_refl a = ground (arith, same_types_refl a.args_types)

dispatch_one-first_match :
    {R : Type 0} (f : MethodPtr → ℕ → R) (m : MethodPtr) (ms : List MethodPtr) (i : ℕ)
    → dispatch_one f m ms (index_sequence i ms) ≡ Option.map (f m) (first_match m ms i)
unfolding dispatch_one first_match is_same_ptr
dispatch_one-first_match f m [] i = refl
dispatch_one-first_match f m (x ∷ xs) i =
    let ih = dispatch_one-first_match f m xs (suc i) in
    elim (Bool-cases (same_type m x)) [
      | inr t ↦ rw t ih
      | inl t ↦ elim (Bool-cases (m.pointer == x.pointer)) [
        | inr p ↦ rw (t, p) ih
        | inl p ↦
            let same : is_same_ptr m x ≡ true = rw (t, p) refl in
            rw (t, p) (ap (λ (y : MethodPtr). some (f y i)) (sym (is_same_ptr-eq m x same)))
      ]
    ]

-- Run-time dispatch hands a method to dispatch_method_impl with itself and the very index that its
-- message id has at compile time, and aborts exactly on a method that is not in the list.
pub runtime_dispatch-find_method_index :
    {R : Type 0} (f : MethodPtr → ℕ → R) (m : MethodPtr) (methods : List MethodPtr)
    → runtime_dispatch f m methods ≡ Option.map (f m) (find_method_index m methods)
unfolding runtime_dispatch find_method_index
runtime_dispatch-find_method_index f m methods = dispatch_one-first_match f m methods 0

-- The method with a given number.
abbrev pub get : ℕ → List MethodPtr → Option MethodPtr
get i [] = none
get zero (m ∷ ms) = some m
get (suc i) (m ∷ ms) = get i ms

of_some {ℓ} : {A : Type ℓ} (a b : A) → some a ≡ some b → a ≡ b
of_some a b e = ap (λ o. elim o [ none ↦ a | some x ↦ x ]) e

-- The index that is found is that of the method in the list.
first_match_sound :
    (m : MethodPtr) (ms : List MethodPtr) (i n : ℕ)
    → first_match m ms i ≡ some n
    → (k : ℕ) × (n ≡ i + k) × (k < length ms) × (get k ms ≡ some m)
unfolding first_match
first_match_sound m [] i n h = ground arith
first_match_sound m (x ∷ xs) i n h = elim (Bool-cases (is_same_ptr m x)) [
  | inl e ↦
      let found = of_some i n (rw e at h) in
      (0, omega arith, omega arith, ap some (sym (is_same_ptr-eq m x e)))
  | inr e ↦
      let (k, at, below, there) = first_match_sound m xs (suc i) n (rw e at h) in
      (suc k, omega arith, omega arith, there)
]

-- A message id leads back to its method.
msg_id-get :
    (m : MethodPtr) (methods : List MethodPtr) (id : ℕ)
    → length methods < 2 ^ 60
    → msg_id m methods ≡ some id
    → get (id % 2 ^ 60) methods ≡ some m
unfolding msg_id find_method_index
msg_id-get m methods id few h = elim (Option-cases (first_match m methods 0)) [
  | inl e ↦ let impossible : none ≡ some id = rw e at h in absurd (ground arith)
  | inr (n, e) ↦
      let made = of_some (make_message_id normal n) id (rw e at h) in
      let (k, at, below, there) = first_match_sound m methods 0 n e in
      let back = (message_priority-make_message_id normal k (omega arith)).1 in
      let place : n ≡ k = omega arith in
      let index : id % 2 ^ 60 ≡ k =
        ap (λ (r : ℕ). r % 2 ^ 60) (sym made)
        ∙ ap (λ (r : ℕ). make_message_id normal r % 2 ^ 60) place
        ∙ back in
      rw index there
]

-- Two registered methods with the same message id are the same method, as long as there are fewer
-- than 2^60 of them: no message is taken for that of another method.
pub msg_id_injective :
    (a b : MethodPtr) (methods : List MethodPtr) (id : ℕ)
    → length methods < 2 ^ 60
    → msg_id a methods ≡ some id
    → msg_id b methods ≡ some id
    → a ≡ b
msg_id_injective a b methods id few ha hb =
    of_some a b (sym (msg_id-get a methods id few ha) ∙ msg_id-get b methods id few hb)

-- A method occurs once.
abbrev NotIn : MethodPtr → List MethodPtr → Type 0
NotIn m [] = Unit {0}
NotIn m (x ∷ xs) = (x ≢ m) × NotIn m xs

abbrev pub NoRepeats : List MethodPtr → Type 0
NoRepeats [] = Unit {0}
NoRepeats (m ∷ ms) = NotIn m ms × NoRepeats ms

NotIn-get :
    (m : MethodPtr) (ms : List MethodPtr) (k : ℕ) (x : MethodPtr)
    → NotIn x ms
    → get k ms ≡ some m
    → m ≢ x
NotIn-get m [] k x n h = ground arith
NotIn-get m (y ∷ ys) zero x n h = λ e. n.0 (of_some y m h ∙ e)
NotIn-get m (y ∷ ys) (suc k) x n h = NotIn-get m ys k x n.1 h

-- In a list without repeats the index of a method is its position.
first_match-get :
    (m : MethodPtr) (ms : List MethodPtr) (i k : ℕ)
    → NoRepeats ms
    → get k ms ≡ some m
    → first_match m ms i ≡ some (i + k)
unfolding first_match
first_match-get m [] i k d h = absurd (ground arith)
first_match-get m (x ∷ xs) i zero d h =
    let same = is_same_ptr_refl m in
    let e = of_some x m h in
    let found : is_same_ptr m x ≡ true =
      subst (λ (y : MethodPtr). is_same_ptr m y ≡ true) (sym e) same in
    rw found (ap some (omega arith))
first_match-get m (x ∷ xs) i (suc k) d h = elim (Bool-cases (is_same_ptr m x)) [
  | inl e ↦ absurd (NotIn-get m xs k x d.0 h (is_same_ptr-eq m x e))
  | inr e ↦ rw e (first_match-get m xs (suc i) k d.1 h ∙ ap some (omega arith))
]

-- Matching signatures put a method of the actor beside each of the contract.
signatures_match-get :
    (contract actor : List MethodPtr) (k : ℕ) (c : MethodPtr)
    → signatures_match contract actor ≡ true
    → get k contract ≡ some c
    → (a : MethodPtr) × (get k actor ≡ some a)
      × (a.result_type ≡ c.result_type)
      × (a.args_types ≡ c.args_types)
unfolding signatures_match
signatures_match-get [] actor k c fits h = absurd (ground arith)
signatures_match-get (x ∷ xs) [] k c fits h = absurd (ground arith)
signatures_match-get (x ∷ xs) (a ∷ rest) zero c fits h =
    let e = of_some x c h in
    (a, refl, ground arith, ground (arith, same_types-eq c.args_types a.args_types))
signatures_match-get (x ∷ xs) (a ∷ rest) (suc k) c fits h =
    signatures_match-get xs rest k c (ground arith) h

-- When an actor implements a contract, and neither list repeats a method, each method of the
-- contract has a counterpart at the same place in the actor's list, with the same result and
-- arguments and the same message id: a message sent through the contract reaches it.
pub implements-msg_id :
    (contract actor : List MethodPtr) (k : ℕ) (c : MethodPtr)
    → signatures_match contract actor ≡ true
    → NoRepeats contract
    → NoRepeats actor
    → get k contract ≡ some c
    → (a : MethodPtr) × (get k actor ≡ some a)
      × (a.result_type ≡ c.result_type)
      × (a.args_types ≡ c.args_types)
      × (msg_id a actor ≡ msg_id c contract)
unfolding msg_id find_method_index
implements-msg_id contract actor k c fits dc da h =
    let (a, there, result, args) = signatures_match-get contract actor k c fits h in
    (
      a,
      there,
      result,
      args,
      ap (λ (o : Option ℕ). Option.map (make_message_id normal) o)
          (first_match-get a actor 0 k da there ∙ sym (first_match-get c contract 0 k dc h)),
    )
