-- ===== src/Dispatch/Arguments.antt =====
-- The arguments of a message, from the check of header/actor-zeta/send.hpp and
-- header/actor-zeta/mailbox/make_message.hpp to the call in header/actor-zeta/actor/dispatch.hpp. A type
-- is a number; what the language knows of types is a parameter.
mod Tests
use actor_zeta.Base.{
  ℕ, ◌+◌, ◌≡◌, refl, sym, ap, subst, ◌∙◌, ◌↔◌, ◌≢◌, Bool, true, false, not, ◌&&◌, ◌||◌, List, [],
  ◌∷◌, Option, none, some, map, length, ◌==◌, arith, if◌then◌else◌,
}
use actor_zeta.Rtt.{TypeInfo, Entry, Rtt, nothing, make}
use actor_zeta.Rtt.Access.{in_order, gets, gets-push_all}

-- `std::decay_t` and the traits of <type_traits>.
pub record Types : Type 0 where
  pub decay : ℕ → ℕ
  pub align_of : ℕ → ℕ
  pub size_of : ℕ → ℕ
  pub convertible : ℕ → ℕ → Bool
  pub is_reference : ℕ → Bool
  pub is_lvalue_reference : ℕ → Bool
  pub refers_to_const : ℕ → Bool
  pub is_abstract : ℕ → Bool
  pub copy_constructible : ℕ → Bool
  pub move_constructible : ℕ → Bool

module _ (types : Types) where
  -- What `getSize` reads of a type.
  abbrev pub type_info : ℕ → TypeInfo
  type_info t = record { name = t; align = types.align_of t; size = types.size_of t }

  unfoldable pub convertible_arg : ℕ → ℕ → Bool
  convertible_arg expected provided =
      types.decay expected == types.decay provided
      || types.convertible (types.decay provided) (types.decay expected)

  unfoldable pub args_compatible : List ℕ → List ℕ → Bool
  unfolding convertible_arg
  args_compatible [] [] = true
  args_compatible (e ∷ es) (p ∷ ps) = convertible_arg e p && args_compatible es ps
  args_compatible [] (p ∷ ps) = false
  args_compatible (e ∷ es) [] = false

  unfoldable pub valid_rtt_type : ℕ → Bool
  valid_rtt_type t =
      not (types.is_reference t)
      && not (types.is_abstract (types.decay t))
      && (types.copy_constructible (types.decay t) || types.move_constructible (types.decay t))

  unfoldable pub all_args_storable : List ℕ → Bool
  unfolding valid_rtt_type
  all_args_storable [] = true
  all_args_storable (t ∷ ts) = valid_rtt_type (types.decay t) && all_args_storable ts

  -- The static assertions of `validate_send_args`.
  unfoldable pub validate_send_args : List ℕ → List ℕ → Bool
  unfolding args_compatible all_args_storable
  validate_send_args expected provided =
      length expected == length provided
      && args_compatible expected provided
      && all_args_storable provided

  -- The static assertions of `dispatch` on the parameters of a method.
  unfoldable pub non_const_lvalue_ref : ℕ → Bool
  non_const_lvalue_ref t = types.is_lvalue_reference t && not (types.refers_to_const t)

  unfoldable pub no_non_const_refs : List ℕ → Bool
  unfolding non_const_lvalue_ref
  no_non_const_refs [] = true
  no_non_const_refs (t ∷ ts) = not (non_const_lvalue_ref t) && no_non_const_refs ts

  -- The body that `make_message` constructs at the address of its block: the capacity is computed
  -- from the types as they are given, and the objects have their decayed types.
  unfoldable pub make_body : ℕ → List ℕ → Option Rtt
  unfolding make
  make_body address args = make type_info types.decay address args

  -- The reads of `invoke_actor_method`, each by `detail::get` as the parameter's decayed type; and
  -- whether the argument is passed as an rvalue.
  unfoldable pub read_arguments : Rtt → List ℕ → Option (List Entry)
  read_arguments body expected = gets body (map (λ t. type_info (types.decay t)) expected) 0

  unfoldable pub moves_out : ℕ → Bool
  moves_out t = not (types.is_lvalue_reference t)

  args_compatible-length : (es ps : List ℕ) → args_compatible es ps ≡ true → length es ≡ length ps
  unfolding args_compatible
  args_compatible-length [] [] h = refl
  args_compatible-length [] (p ∷ ps) h = cc
  args_compatible-length (e ∷ es) [] h = cc
  args_compatible-length (e ∷ es) (p ∷ ps) h = ground (arith, args_compatible-length es ps)

  abbrev decayed : List ℕ → List ℕ
  decayed = map types.decay

  abbrev infos : List ℕ → List TypeInfo
  infos = map (λ t. type_info (types.decay t))

  names_of_infos : (ts : List ℕ) → map (λ (i : TypeInfo). i.name) (infos ts) ≡ decayed ts
  names_of_infos [] = refl
  names_of_infos (t ∷ ts) = ap (λ l. types.decay t ∷ l) (names_of_infos ts)

  infos_of_names : (ts : List ℕ) → map type_info (decayed ts) ≡ infos ts
  infos_of_names [] = refl
  infos_of_names (t ∷ ts) = ap (λ l. type_info (types.decay t) ∷ l) (infos_of_names ts)

  infos-eq : (ts us : List ℕ) → (infos ts ≡ infos us) ↔ (decayed ts ≡ decayed us)
  infos-eq ts us = (
    (λ e. sym (names_of_infos ts) ∙ ap (map (λ (i : TypeInfo). i.name)) e ∙ names_of_infos us),
    (λ e. sym (infos_of_names ts) ∙ ap (map type_info) e ∙ infos_of_names us),
  )

  length-infos : (ts : List ℕ) → length (infos ts) ≡ length ts
  length-infos [] = refl
  length-infos (t ∷ ts) = omega (arith, length-infos ts)

  -- Whenever `send` accepts the arguments and its message is made, the method finds an object for
  -- each of its parameters; and it takes all of them for the objects that were stored, exactly if
  -- each argument's decayed type is that of its parameter.
  pub read_arguments-make_body :
      (address : ℕ) (expected provided : List ℕ) (body : Rtt)
      → validate_send_args expected provided ≡ true
      → make_body address provided ≡ some body
      → (objects : List Entry) × (read_arguments body expected ≡ some objects)
        × ((objects ≡ in_order body) ↔ (map types.decay expected ≡ map types.decay provided))
  unfolding validate_send_args make_body make read_arguments
  read_arguments-make_body address [] [] body ok made =
      let empty : nothing ≡ body = ground (arith, made) in
      ([], refl, ((λ _. refl), λ _. ap in_order empty))
  read_arguments-make_body address (e ∷ es) [] body ok made = absurd (ground arith)
  read_arguments-make_body address es (p ∷ ps) body ok made =
      let alike : length es ≡ length (p ∷ ps) = ground (arith, ok) in
      let (objects, read, (to, from)) =
        gets-push_all _ body (infos (p ∷ ps)) (infos es) refl made
          (omega (arith, alike, length-infos es, length-infos (p ∷ ps))) in
      let (names, back) = infos-eq es (p ∷ ps) in
      (objects, read, ((λ same. names (to same)), λ same. from (back same)))

  -- So an argument that is only convertible to its parameter is accepted, stored as it is, and
  -- taken for an object of the parameter's type.
  pub converted_is_misread :
      (address e p : ℕ) (body : Rtt)
      → types.convertible (types.decay p) (types.decay e) ≡ true
      → valid_rtt_type (types.decay p) ≡ true
      → types.decay e ≢ types.decay p
      → make_body address (p ∷ []) ≡ some body
      → (validate_send_args (e ∷ []) (p ∷ []) ≡ true)
        × (objects : List Entry) × (read_arguments body (e ∷ []) ≡ some objects)
        × (objects ≢ in_order body)
  converted_is_misread address e p body converts storable differ made =
      let ok : validate_send_args (e ∷ []) (p ∷ []) ≡ true =
        unfold validate_send_args in
        unfold args_compatible in
        unfold convertible_arg in unfold all_args_storable in ground arith in
      let (objects, read, (to, from)) =
        read_arguments-make_body address (e ∷ []) (p ∷ []) body ok made in
      (ok, objects, read, λ same. differ (ground (arith, to same)))
