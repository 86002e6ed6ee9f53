-- ===== src/Dispatch/Methods.antt =====
-- header/actor-zeta/actor/dispatch_traits.hpp and header/actor-zeta/actor/implements.hpp: which
-- number a method has in its actor's list, at compile time and at run time. A type is a number; a
-- pointer to a member function has a type and a value.
use mathlib.Core.Option
use actor_zeta.Base.{
  ℕ, suc, Bool, true, false, ◌&&◌, ◌||◌, List, [], ◌∷◌, Option, none, some, ◌==◌, if◌then◌else◌,
}
use actor_zeta.MessageId.{normal, make_message_id}

-- The parts of `decltype(MethodPtr)` that callable_trait takes apart, and the pointer's value.
pub record MethodPtr : Type 0 where
  pub class_type : ℕ
  pub result_type : ℕ
  pub args_types : List ℕ
  pub pointer : ℕ

abbrev pub same_types : List ℕ → List ℕ → Bool
same_types [] [] = true
same_types (x ∷ xs) (y ∷ ys) = x == y && same_types xs ys
same_types _ _ = false

-- `std::same_as<decltype(a), decltype(b)>`
abbrev pub same_type : MethodPtr → MethodPtr → Bool
same_type a b =
    a.class_type == b.class_type
    && (a.result_type == b.result_type && same_types a.args_types b.args_types)

unfoldable pub is_same_ptr : MethodPtr → MethodPtr → Bool
is_same_ptr a b = same_type a b && a.pointer == b.pointer

-- The loop over `matches`, from index i on.
unfoldable pub first_match : MethodPtr → List MethodPtr → ℕ → Option ℕ
unfolding is_same_ptr
first_match search [] i = none
first_match search (m ∷ ms) i =
    let rest = first_match search ms (suc i) in if is_same_ptr search m then some i else rest

-- `none` stands for the failure of a static_assert.
unfoldable pub find_method_index : MethodPtr → List MethodPtr → Option ℕ
unfolding first_match
find_method_index search methods = first_match search methods 0

unfoldable pub msg_id : MethodPtr → List MethodPtr → Option ℕ
unfolding find_method_index
msg_id m methods = Option.map (make_message_id normal) (find_method_index m methods)

unfoldable pub method_signature_exists : MethodPtr → List MethodPtr → Bool
method_signature_exists m [] = false
method_signature_exists m (first ∷ rest) = same_type m first || method_signature_exists m rest

-- `std::index_sequence_for`
abbrev pub index_sequence : ℕ → List MethodPtr → List ℕ
index_sequence i [] = []
index_sequence i (m ∷ ms) = i ∷ index_sequence (suc i) ms

module _ {R : Type 0} (dispatch_method : MethodPtr → ℕ → R) where
  -- `dispatch_one_impl::dispatch`; `none` is the abort at the end of the list.
  unfoldable pub dispatch_one : MethodPtr → List MethodPtr → List ℕ → Option R
  dispatch_one method [] indices = none
  dispatch_one method (first ∷ rest) [] = none
  dispatch_one method (first ∷ rest) (index ∷ indices) =
      let later = dispatch_one method rest indices in
      if same_type method first
      then (if method.pointer == first.pointer then some (dispatch_method first index) else later)
      else later

  -- `runtime_dispatch_helper::dispatch`
  unfoldable pub runtime_dispatch : MethodPtr → List MethodPtr → Option R
  unfolding dispatch_one
  runtime_dispatch method methods = dispatch_one method methods (index_sequence 0 methods)

-- `signatures_match`, with the equality of the sizes that `methods_count_matches` asks for, and the
-- checks of single methods left out.
unfoldable pub signatures_match : List MethodPtr → List MethodPtr → Bool
signatures_match [] [] = true
signatures_match (c ∷ contract) (a ∷ actor) =
    c.result_type == a.result_type
    && (same_types c.args_types a.args_types && signatures_match contract actor)
signatures_match _ _ = false
