-- ===== src/Rtt.antt =====
-- header/actor-zeta/detail/rtt.hpp: the run-time tuple, objects of any types one after the other in
-- one block, with the table of their offsets behind them. A `size_t` has 64 bits.
pub mod Offsets
pub mod Layout
pub mod Access
mod Tests
use Prim.Native.Nat.{bit_and}
use actor_zeta.Base.{
  ℕ, zero, suc, ◌+◌, ◌-◌, ◌*◌, ◌%◌, ◌^◌, Bool, true, false, List, [], ◌∷◌, ◌++◌, Option, none, some,
  length, map, reverse, ◌==◌, ltb, if◌then◌else◌, ◌>>=◌,
}

abbrev pub u64_mod : ℕ
u64_mod = 2 ^ 64

-- A type, by a number, with its `alignof` and `sizeof`
pub record TypeInfo : Type 0 where
  pub name : ℕ
  pub align : ℕ
  pub size : ℕ

unfoldable pub align_up : ℕ → ℕ → ℕ
align_up n align = bit_and ((n + align - 1) % u64_mod) (u64_mod - 1 - (align - 1))

-- `getSize`
unfoldable pub get_size : ℕ → List TypeInfo → ℕ
unfolding align_up
get_size n [] = n
get_size n (head ∷ rest) = get_size ((align_up n head.align + head.size) % u64_mod) rest

-- `objects_t`: where an object stands, and its type's destructor, here its type.
pub record Entry : Type 0 where
  pub offset : ℕ
  pub type : TypeInfo

abbrev pub entry_info : TypeInfo
entry_info = record { name = 0; align = 8; size = 16 }

-- `allocation` is the address of the block, 0 without one; `data_` is the same address. The table
-- holds the last object first, and its address is not kept.
pub record Rtt : Type 0 where
  pub capacity : ℕ
  pub volume : ℕ
  pub allocation : ℕ
  pub objects : List Entry

abbrev pub nothing : Rtt
nothing = record { capacity = 0; volume = 0; allocation = 0; objects = [] }

-- `std::align`: the next aligned address, if the object fits in the space that is left.
unfoldable pub std_align : TypeInfo → ℕ → ℕ → Option ℕ
unfolding align_up
std_align t place space_left =
    let aligned = align_up place t.align in
    if ltb space_left (aligned - place + t.size) then none else some aligned

-- `try_to_align`; `none` is the abort of `force_align`.
unfoldable pub force_align : Rtt → TypeInfo → Option ℕ
unfolding std_align
force_align r t = std_align t (r.allocation + r.volume) (r.capacity - r.volume)

unfoldable pub push_back_no_realloc : Rtt → TypeInfo → Option Rtt
unfolding force_align
push_back_no_realloc r t = do
  creation_place ← force_align r t
  let new_offset = creation_place - r.allocation
  some (record r {
    volume = new_offset + t.size;
    objects = record { offset = new_offset; type = t } ∷ r.objects;
  })

unfoldable pub push_all : Rtt → List TypeInfo → Option Rtt
unfolding push_back_no_realloc
push_all r [] = some r
push_all r (t ∷ ts) = do r' ← push_back_no_realloc r t; push_all r' ts

-- `aligned_capacity`, and the bytes that the constructor allocates and `clear` deallocates.
unfoldable pub block_size : ℕ → ℕ → ℕ
unfolding align_up
block_size capacity entries =
    (align_up capacity entry_info.align + entries * entry_info.size) % u64_mod

-- The constructor, with the address that the memory resource returns, of types with what
-- `std::decay_t` makes of each: the capacity is computed from the types of the arguments, and the
-- objects have the decayed types.
unfoldable pub make {ℓ} : {A : Type ℓ} → (A → TypeInfo) → (A → A) → ℕ → List A → Option Rtt
unfolding get_size push_all
make info decay address [] = some nothing
make info decay address (arg ∷ args) =
    push_all
      (record {
        capacity = get_size 0 (map info (arg ∷ args));
        volume = 0;
        allocation = address;
        objects = [];
      })
      (map (λ t. info (decay t)) (arg ∷ args))

-- `clear`: the objects that it destroys, in order, the bytes that it gives back, and the tuple.
unfoldable pub clear : Rtt → List Entry × ℕ × Rtt
unfolding block_size
clear r =
    (r.objects, if r.allocation == 0 then 0 else block_size r.capacity (length r.objects), nothing)

-- The move constructors: the new tuple, and what the other becomes.
unfoldable pub move_from : Rtt → Rtt × Rtt
move_from other = (other, nothing)

-- The move assignment between two tuples: what `clear` destroys, the tuple, and the other.
unfoldable pub assign : Rtt → Rtt → List Entry × Rtt × Rtt
unfolding clear
assign r other = ((clear r).0, other, nothing)
