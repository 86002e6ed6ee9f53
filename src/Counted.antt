-- ===== src/Counted.antt =====
-- header/actor-zeta/detail/ref_counted.hpp, header/actor-zeta/impl/detail/ref_counted.ipp and
-- header/actor-zeta/detail/intrusive_ptr.hpp: objects with a reference count and the pointers that
-- own a share of it. Every function is one thread's.
pub mod Shares
mod Tests
use actor_zeta.Base.{ℕ, suc, ◌+◌, ◌-◌, Bool, true, false, ◌==◌, if◌then◌else◌}
use actor_zeta.Queue.Links.{Ptr, null}

-- `rc_` of each object, and how often each was deleted. An `intrusive_ptr` is its `ptr_`.
pub record Store : Type 0 where
  pub count : Ptr → ℕ
  pub deleted : Ptr → ℕ

abbrev at : (Ptr → ℕ) → Ptr → ℕ → Ptr → ℕ
at f p n a = if a == p then n else f a

-- The constructor of an object, which the copy constructor does as well.
unfoldable pub construct : Store → Ptr → Store
construct s p = record { count = at s.count p 1; deleted = at s.deleted p 0 }

-- `ref`, also `intrusive_ptr_add_ref`
unfoldable pub ref : Store → Ptr → Store
ref s p = record s { count = at s.count p (s.count p + 1) }

unfoldable pub unique : Store → Ptr → Bool
unique s p = s.count p == 1

-- `deref`, also `intrusive_ptr_release`
unfoldable pub deref : Store → Ptr → Store
unfolding unique
deref s p =
    let deletion = at s.deleted p (suc (s.deleted p)) in
    if unique s p
    then record s { deleted = deletion }
    else (let lower = at s.count p (s.count p - 1) in
        if s.count p == 1
        then record { count = lower; deleted = deletion }
        else record s { count = lower })

-- `set_ptr`: the pointer becomes `raw_ptr`.
unfoldable pub set_ptr : Store → Ptr → Bool → Store
unfolding ref
set_ptr s raw_ptr add_ref = if raw_ptr == null then s else if add_ref then ref s raw_ptr else s

unfoldable pub copy : Store → Ptr → Store
unfolding set_ptr
copy s other = set_ptr s other true

-- The destructor
unfoldable pub destroy : Store → Ptr → Store
unfolding deref
destroy s p = if p == null then s else deref s p

-- What is returned, and what the pointer becomes.
unfoldable pub detach : Ptr → Ptr × Ptr
detach p = if p == null then (p, p) else (p, null)

-- Here the pointer `p` becomes `new_value`.
unfoldable pub reset : Store → Ptr → Ptr → Bool → Store
unfolding set_ptr deref
reset s p new_value add_ref =
    let s1 = set_ptr s new_value add_ref in if p == null then s1 else deref s1 p

-- The copy assignment: `other` comes by value, as a copy, and takes the old pointer away with it.
unfoldable pub assign : Store → Ptr → Ptr → Store
unfolding copy destroy
assign s p other = destroy (copy s other) p

-- `make_counted`, with the address of the new object
unfoldable pub make_counted : Store → Ptr → Store
unfolding construct set_ptr
make_counted s p = set_ptr (construct s p) p false
