-- ===== src/Dispatch/Arguments/Tests.antt =====
-- Arguments of the types int and long, in a block at 4096.
use actor_zeta.Base.{ℕ, ◌≡◌, refl, ◌↔◌, true, false, List, [], ◌∷◌, some, ◌==◌, if◌then◌else◌}
use actor_zeta.Rtt.{
  Entry, Rtt, align_up, get_size, std_align, force_align, push_back_no_realloc, push_all,
}
use actor_zeta.Rtt.Access.{in_order}
use actor_zeta.Dispatch.Arguments.{
  Types, make_body, validate_send_args, args_compatible, convertible_arg, all_args_storable,
  valid_rtt_type, read_arguments, read_arguments-make_body,
}

-- Types: 1 is int and 2 is long, and every number converts to every other.
abbrev numbers : Types
numbers = record {
  decay = λ t. t;
  align_of = λ t. if t == 1 then 4 else 8;
  size_of = λ t. if t == 1 then 4 else 8;
  convertible = λ p e. true;
  is_reference = λ t. false;
  is_lvalue_reference = λ t. false;
  refers_to_const = λ t. false;
  is_abstract = λ t. false;
  copy_constructible = λ t. true;
  move_constructible = λ t. true;
}

-- An int and a long, as `make_message` lays them out.
abbrev packed : Rtt
packed = record {
  capacity = 16;
  volume = 16;
  allocation = 4096;
  objects =
      record { offset = 8; type = record { name = 2; align = 8; size = 8 } }
      ∷ record { offset = 0; type = record { name = 1; align = 4; size = 4 } }
      ∷ [];
}

packed_lem : make_body numbers 4096 (1 ∷ 2 ∷ []) ≡ some packed
unfolding make_body push_all push_back_no_realloc force_align std_align get_size align_up
packed_lem = refl

accepted : validate_send_args numbers (1 ∷ 1 ∷ []) (1 ∷ 2 ∷ []) ≡ true
unfolding validate_send_args args_compatible convertible_arg all_args_storable valid_rtt_type
accepted = refl

-- A method with two parameters of type int, to which an int and a long are sent.
read_arguments-make_body_example :
    (objects : List Entry) × (read_arguments numbers packed (1 ∷ 1 ∷ []) ≡ some objects)
    × ((objects ≡ in_order packed) ↔ (◌≡◌ {A = List ℕ} (1 ∷ 1 ∷ []) (1 ∷ 2 ∷ [])))
read_arguments-make_body_example =
    read_arguments-make_body numbers 4096 (1 ∷ 1 ∷ []) (1 ∷ 2 ∷ []) packed accepted packed_lem
