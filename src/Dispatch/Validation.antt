-- ===== src/Dispatch/Validation.antt =====
-- header/actor-zeta/actor/dispatch_traits.hpp: what the list of an actor's methods and a call of `send`
-- are checked for when they are compiled, with the check of header/actor-zeta/actor/dispatch.hpp.
mod Tests
use mathlib.Core.List.Memᴰ
use mathlib.Core.List.{Memᴰ}
use actor_zeta.Base.{
  ℕ, ◌≡◌, refl, ◌∙◌, ap, sym, subst, Bool, true, false, not, ◌&&◌, ◌||◌, List, [], ◌∷◌, arith, ◌==◌,
  Bool-cases, inl, inr,
}
use actor_zeta.Dispatch.Methods.{MethodPtr, method_signature_exists}
use actor_zeta.Dispatch.Arguments.{Types, no_non_const_refs, non_const_lvalue_ref, moves_out}

-- What these checks ask of a type besides.
pub record Signatures : Type 0 where
  pub types : Types
  pub is_unique_future : ℕ → Bool
  pub is_rvalue_reference : ℕ → Bool
  pub remove_reference : ℕ → ℕ
  pub is_base_of : ℕ → ℕ → Bool

module _ (known : Signatures) where
  unfoldable pub const_lvalue_ref : ℕ → Bool
  const_lvalue_ref t = known.types.is_lvalue_reference t && known.types.refers_to_const t

  unfoldable pub has_const_ref : List ℕ → Bool
  unfolding const_lvalue_ref
  has_const_ref [] = false
  has_const_ref (t ∷ ts) = const_lvalue_ref t || has_const_ref ts

  unfoldable pub rvalue_ref_to_move_only : ℕ → Bool
  rvalue_ref_to_move_only t =
      known.is_rvalue_reference t
      && known.types.move_constructible (known.remove_reference t)
      && not (known.types.copy_constructible (known.remove_reference t))

  unfoldable pub has_rvalue_ref_move_only : List ℕ → Bool
  unfolding rvalue_ref_to_move_only
  has_rvalue_ref_move_only [] = false
  has_rvalue_ref_move_only (t ∷ ts) = rvalue_ref_to_move_only t || has_rvalue_ref_move_only ts

  -- `method_return_type_check`
  unfoldable pub returns_unique_future : MethodPtr → Bool
  returns_unique_future m = known.is_unique_future m.result_type

  -- `coroutine_parameter_check`
  unfoldable pub no_const_ref : MethodPtr → Bool
  unfolding has_const_ref
  no_const_ref m = not (known.is_unique_future m.result_type) || not (has_const_ref m.args_types)

  unfoldable pub no_rvalue_move_only : MethodPtr → Bool
  unfolding has_rvalue_ref_move_only
  no_rvalue_move_only m =
      not (known.is_unique_future m.result_type) || not (has_rvalue_ref_move_only m.args_types)

  -- `dispatch_traits_parser`
  unfoldable pub all_valid : List MethodPtr → Bool
  unfolding returns_unique_future
  all_valid [] = true
  all_valid (m ∷ ms) = returns_unique_future m && all_valid ms

  unfoldable pub all_no_const_ref : List MethodPtr → Bool
  unfolding no_const_ref
  all_no_const_ref [] = true
  all_no_const_ref (m ∷ ms) = no_const_ref m && all_no_const_ref ms

  unfoldable pub all_no_rvalue_move_only : List MethodPtr → Bool
  unfolding no_rvalue_move_only
  all_no_rvalue_move_only [] = true
  all_no_rvalue_move_only (m ∷ ms) = no_rvalue_move_only m && all_no_rvalue_move_only ms

  -- The static assertions of `dispatch_traits`.
  unfoldable pub dispatch_traits : List MethodPtr → Bool
  unfolding all_valid all_no_const_ref all_no_rvalue_move_only
  dispatch_traits methods =
      all_valid methods && all_no_const_ref methods && all_no_rvalue_move_only methods

  unfoldable pub method_belongs_to_class : MethodPtr → ℕ → Bool
  method_belongs_to_class m expected_class =
      m.class_type == expected_class || known.is_base_of m.class_type expected_class

  unfoldable pub validate_method_for_send : ℕ → List MethodPtr → MethodPtr → Bool
  unfolding method_signature_exists method_belongs_to_class
  validate_method_for_send actor methods m =
      method_signature_exists m methods && method_belongs_to_class m actor

  -- A parameter is no lvalue reference, and no rvalue reference to a type that can only be moved.
  abbrev pub Owned : ℕ → Type 0
  Owned t =
      (known.types.is_lvalue_reference t ≡ false)
      × (moves_out known.types t ≡ true)
      × (rvalue_ref_to_move_only t ≡ false)

  args_lem :
      (ts : List ℕ) (t : ℕ)
      → has_const_ref ts ≡ false
      → has_rvalue_ref_move_only ts ≡ false
      → no_non_const_refs known.types ts ≡ true
      → Memᴰ t ts
      → Owned t
  unfolding has_const_ref has_rvalue_ref_move_only no_non_const_refs const_lvalue_ref
      non_const_lvalue_ref moves_out
  args_lem [] t c r n there = absurd (Memᴰ.not-nil there)
  args_lem (u ∷ us) t c r n there = elim (Memᴰ.cases_cons there) [
    | inl here ↦ subst Owned (sym here) (ground arith, ground arith, ground arith)
    | inr later ↦ args_lem us t (ground arith) (ground arith) (ground arith) later
  ]

  -- Every parameter of a method that is registered in `dispatch_traits`, and that dispatch takes,
  -- is an object of its own or an rvalue reference to a type that can be copied or not moved: the
  -- method is handed each of its arguments as an rvalue, and refers to none of the message's
  -- objects by an lvalue reference. Such a method returns a unique_future.
  pub dispatch_traits-Owned :
      (methods : List MethodPtr) (m : MethodPtr) (t : ℕ)
      → dispatch_traits methods ≡ true
      → Memᴰ m methods
      → no_non_const_refs known.types m.args_types ≡ true
      → Memᴰ t m.args_types
      → (returns_unique_future m ≡ true) × Owned t
  unfolding dispatch_traits all_valid all_no_const_ref all_no_rvalue_move_only no_const_ref
      no_rvalue_move_only returns_unique_future
  dispatch_traits-Owned [] m t ok there refs param = absurd (Memᴰ.not-nil there)
  dispatch_traits-Owned (x ∷ xs) m t ok there refs param = elim (Memᴰ.cases_cons there) [
    | inr later ↦ dispatch_traits-Owned xs m t (ground arith) later refs param
    | inl here ↦
        let future : known.is_unique_future x.result_type ≡ true = ground arith in
        let no_const : has_const_ref x.args_types ≡ false = ground arith in
        let no_rvalue : has_rvalue_ref_move_only x.args_types ≡ false = ground arith in
        (
          ap (λ (y : MethodPtr). known.is_unique_future y.result_type) here ∙ future,
          args_lem m.args_types t
              (ap (λ (y : MethodPtr). has_const_ref y.args_types) here ∙ no_const)
              (ap (λ (y : MethodPtr). has_rvalue_ref_move_only y.args_types) here ∙ no_rvalue) refs
              param,
        )
  ]
