-- ===== src/Dispatch/Validation/Tests.antt =====
-- The checks of an actor with two methods, of which the second takes a string.
use mathlib.Core.List.Memᴰ.{head, tail}
use actor_zeta.Base.{◌≡◌, refl, true, false, [], ◌∷◌, ◌==◌, if◌then◌else◌}
use actor_zeta.Dispatch.Methods.{MethodPtr}
use actor_zeta.Dispatch.Arguments.{no_non_const_refs, non_const_lvalue_ref}
use actor_zeta.Dispatch.Validation.{
  Signatures, const_lvalue_ref, has_const_ref, rvalue_ref_to_move_only, has_rvalue_ref_move_only,
  returns_unique_future, no_const_ref, no_rvalue_move_only, all_valid, all_no_const_ref,
  all_no_rvalue_move_only, dispatch_traits, Owned, dispatch_traits-Owned,
}

-- The types: 1 a string, 2 a reference to a constant string, 3 an rvalue reference to a pointer that
-- can only be moved, 9 a future.
abbrev known : Signatures
known = record {
  types = record {
    decay = λ t. if t == 2 then 1 else t;
    align_of = λ t. 8;
    size_of = λ t. 8;
    convertible = λ p e. p == e;
    is_reference = λ t. t == 2;
    is_lvalue_reference = λ t. t == 2;
    refers_to_const = λ t. t == 2;
    is_abstract = λ t. false;
    copy_constructible = λ t. t == 1;
    move_constructible = λ t. true;
  };
  is_unique_future = λ t. t == 9;
  is_rvalue_reference = λ t. t == 3;
  remove_reference = λ t. t;
  is_base_of = λ base derived. false;
}

abbrev status : MethodPtr
status = record { class_type = 5; result_type = 9; args_types = []; pointer = 60 }

abbrev task : MethodPtr
task = record { class_type = 5; result_type = 9; args_types = 1 ∷ []; pointer = 61 }

abbrev by_reference : MethodPtr
by_reference = record { class_type = 5; result_type = 9; args_types = 2 ∷ []; pointer = 62 }

dispatch_traits-Owned_example : (returns_unique_future known task ≡ true) × Owned known 1
unfolding dispatch_traits all_valid all_no_const_ref all_no_rvalue_move_only no_const_ref
    has_const_ref const_lvalue_ref no_rvalue_move_only has_rvalue_ref_move_only
    rvalue_ref_to_move_only returns_unique_future no_non_const_refs non_const_lvalue_ref
dispatch_traits-Owned_example =
    dispatch_traits-Owned known (status ∷ task ∷ []) task 1 refl (tail (head refl)) refl (head refl)

-- A method with a parameter that is a constant reference is rejected.
rejected : dispatch_traits known (status ∷ by_reference ∷ []) ≡ false
unfolding dispatch_traits all_valid all_no_const_ref all_no_rvalue_move_only no_const_ref
    has_const_ref const_lvalue_ref no_rvalue_move_only has_rvalue_ref_move_only
    rvalue_ref_to_move_only returns_unique_future
rejected = refl
