-- ===== src/Actor/Spawn.antt =====
-- header/actor-zeta/detail/memory.hpp and header/actor-zeta/spawn.hpp: the memory of the actors that
-- `spawn` makes, and the deleter that their owners carry. A type is a number; sizes and alignments are
-- the platform's, and a memory resource must get back what it gave, with the same size and alignment.
pub mod Owners
mod Tests
use mathlib.Core.List.{append-nil}
use actor_zeta.Base.{
  subst, ℕ, suc, ◌+◌, ◌<◌, ◌≡◌, ◌≢◌, refl, sym, ap, ◌∙◌, ◌⊎◌, inl, inr, Bool, true, false, ◌&&◌,
  List, [], ◌∷◌, ◌++◌, map, Option, none, some, arith, ◌==◌, if◌then◌else◌, ◌>>=◌, Bool-cases,
}
use actor_zeta.Queue.Links.{Ptr, null}

pub record Block : Type 0 where
  pub resource : Ptr
  pub address : Ptr
  pub size : ℕ
  pub alignment : ℕ

abbrev pub same_block : Block → Block → Bool
same_block a b =
    a.resource == b.resource
    && a.address == b.address
    && a.size == b.size
    && a.alignment == b.alignment

-- What the resources do with a block that comes back: `none` if it was not given out as it is.
abbrev pub take_back : List Block → Block → Option (List Block)
take_back [] b = none
take_back (x ∷ xs) b =
    let rest = take_back xs b in
    if same_block x b then some xs else (do others ← rest; some (x ∷ others))

-- `std::unique_ptr<Target, deleter_t>`: the static type of the target, and the deleter's resource.
pub record Owner : Type 0 where
  pub target : Ptr
  pub type : ℕ
  pub resource : Ptr

module _ (size_of align_of : ℕ → ℕ) where
  -- `none` is the assertion; the resource answers with the address `buffer`.
  unfoldable pub allocate_ptr : List Block → Ptr → ℕ → Ptr → Option (List Block × Ptr)
  allocate_ptr given resource type buffer =
      let block : Block = record {
        resource = resource;
        address = buffer;
        size = size_of type;
        alignment = align_of type;
      } in
      if resource == null then none else some (block ∷ given, buffer)

  unfoldable pub deallocate_ptr : List Block → Ptr → ℕ → Ptr → Option (List Block)
  deallocate_ptr given resource type target =
      let block : Block = record {
        resource = resource;
        address = target;
        size = size_of type;
        alignment = align_of type;
      } in
      let returned = take_back given block in
      if resource == null then none else if target == null then none else returned

  unfoldable pub spawn : List Block → Ptr → ℕ → Ptr → Option (List Block × Owner)
  unfolding allocate_ptr
  spawn given resource type buffer = do
    (given', target_ptr) ← allocate_ptr given resource type buffer
    some (given', record { target = target_ptr; type = type; resource = resource })

  -- The destructor of an owner, which calls `deleter_t::operator()` if it has a target.
  unfoldable pub destroy : List Block → Owner → Option (List Block)
  unfolding deallocate_ptr
  destroy given o =
      let deleted = deallocate_ptr given o.resource o.type o.target in
      if o.target == null then some given else deleted
