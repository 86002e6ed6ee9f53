-- ===== src/Future/Method/Resource.antt =====
-- header/actor-zeta/detail/future.hpp: where a coroutine takes its memory resource from, the first of
-- its arguments that supplies one, the actor itself among them. detail/behavior_t.hpp has the same
-- functions.
use actor_zeta.Base.{
  ◌≡◌, ◌≢◌, ◌⊎◌, refl, ap, Bool, true, false, ◌||◌, List, [], ◌∷◌, ◌++◌, Option, none, some, arith,
  ◌==◌, if◌then◌else◌, Bool-cases, inl, inr,
}
use actor_zeta.Queue.Links.{Ptr, null}

-- An argument: a `std::pmr::memory_resource*`; or a pointer to an object, or an object, of a type
-- with or without the method `resource()`, and what that returns.
pub data Argument : Type 0 where
  memory_resource : Ptr → Argument
  pointer object : (has_resource_method : Bool) → (resource : Ptr) → Argument

unfoldable pub try_get_resource : Bool → Ptr → Ptr
try_get_resource has_resource_method resource = if has_resource_method then resource else null

unfoldable pub extract_resource_impl : Argument → Ptr
unfolding try_get_resource
extract_resource_impl (memory_resource res) = res
extract_resource_impl (pointer has res) = try_get_resource has res
extract_resource_impl (object has res) = try_get_resource has res

unfoldable pub supplies_resource : Argument → Bool
supplies_resource (memory_resource res) = true
supplies_resource (pointer has res) = has
supplies_resource (object has res) = has

unfoldable pub extract_resource_from_args : List Argument → Ptr
unfolding extract_resource_impl
extract_resource_from_args [] = null
extract_resource_from_args (first ∷ rest) =
    let later = extract_resource_from_args rest in
    if extract_resource_impl first == null then later else extract_resource_impl first

-- The static assertion of `extract_resource_or_abort`.
unfoldable pub any_supplies : List Argument → Bool
unfolding supplies_resource
any_supplies [] = false
any_supplies (a ∷ rest) = supplies_resource a || any_supplies rest

-- `none` is the abort.
unfoldable pub extract_resource_or_abort : List Argument → Option Ptr
unfolding extract_resource_from_args
extract_resource_or_abort args =
    if extract_resource_from_args args == null then none else some (extract_resource_from_args args)

-- The arguments before the one that is taken give nothing.
abbrev pub AllNull : List Argument → Type 0
AllNull [] = Unit {0}
AllNull (a ∷ rest) = (extract_resource_impl a ≡ null) × AllNull rest

unsupplied : (a : Argument) → supplies_resource a ≡ false → extract_resource_impl a ≡ null
unfolding supplies_resource extract_resource_impl
unsupplied (memory_resource res) e = ground arith
unsupplied (pointer has res) e = ground arith
unsupplied (object has res) e = ground arith

-- The resource `r` is that of the first argument that gives one.
pub record First (args : List Argument) (r : Ptr) : Type 0 where
  pub before : List Argument
  pub taken : Argument
  pub after : List Argument
  pub split : args ≡ before ++ (taken ∷ after)
  pub none_before : AllNull before
  pub gives : extract_resource_impl taken ≡ r
  pub some_resource : r ≢ null

from_args_lem :
    (args : List Argument)
    → (First args (extract_resource_from_args args) × (any_supplies args ≡ true))
      ⊎ (AllNull args × (extract_resource_from_args args ≡ null))
unfolding extract_resource_from_args any_supplies
from_args_lem [] = inr (tt, refl)
from_args_lem (a ∷ rest) = elim (Bool-cases (extract_resource_impl a == null)) [
  | inl empty ↦ elim (from_args_lem rest) [
    | inl (f, accepted) ↦ inl (
      rw empty (record {
        before = a ∷ f.before;
        taken = f.taken;
        after = f.after;
        split = ap (λ l. a ∷ l) f.split;
        none_before = (ground arith, f.none_before);
        gives = f.gives;
        some_resource = f.some_resource;
      }),
      ground (arith, accepted),
    )
    | inr (nothing, e) ↦ inr ((ground arith, nothing), rw empty e)
  ]
  | inr full ↦
      let there : extract_resource_impl a ≢ null = ground arith in
      inl (
        rw full (record {
          before = [];
          taken = a;
          after = rest;
          split = refl;
          none_before = tt;
          gives = refl;
          some_resource = there;
        }),
        elim (Bool-cases (supplies_resource a)) [
          | inl yes_it_does ↦ rw yes_it_does refl
          | inr does_not ↦ absurd (there (unsupplied a does_not))
        ],
      )
]

-- A coroutine gets the resource of the first of its arguments that gives one, and then some
-- argument's type supplies a resource, as the static assertion demands; or none of them gives one,
-- and it aborts.
pub extract_resource_or_abort-First :
    (args : List Argument)
    → ((r : Ptr) × (extract_resource_or_abort args ≡ some r)
        × First args r
        × (any_supplies args ≡ true))
      ⊎ (AllNull args × (extract_resource_or_abort args ≡ none))
unfolding extract_resource_or_abort
extract_resource_or_abort-First args = elim (from_args_lem args) [
  | inl (f, accepted) ↦
      let there = f.some_resource in
      let set : (extract_resource_from_args args == null) ≡ false = ground arith in
      inl (extract_resource_from_args args, rw set refl, f, accepted)
  | inr (nothing, e) ↦ inr (nothing, rw e refl)
]
