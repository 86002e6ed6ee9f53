-- ===== src/Rtt/Tests.antt =====
-- A tuple of an int and a double in a block at 4096.
use actor_zeta.Base.{◌≡◌, ◌≤◌, ◌<◌, ◌⊎◌, refl, [], ◌∷◌, none, some, map, arith, ◌==◌, if◌then◌else◌}
use actor_zeta.Rtt.{
  TypeInfo, Entry, Rtt, nothing, align_up, get_size, std_align, force_align, push_back_no_realloc,
  push_all, make, block_size, clear,
}
use actor_zeta.Rtt.Offsets.{AllAligned, Stacked}
use actor_zeta.Rtt.Layout.{make-Stacked, clear-make}

abbrev int_info : TypeInfo
int_info = record { name = 1; align = 4; size = 4 }

abbrev double_info : TypeInfo
double_info = record { name = 2; align = 8; size = 8 }

-- `char[3]`, as the literal "ab" is passed, and what it decays to.
abbrev literal_info : TypeInfo
literal_info = record { name = 3; align = 1; size = 3 }

abbrev chars_info : TypeInfo
chars_info = record { name = 4; align = 8; size = 8 }

abbrev decay : TypeInfo → TypeInfo
decay t = if t.name == 3 then chars_info else t

both-AllAligned : AllAligned 4096 (int_info ∷ double_info ∷ [])
both-AllAligned = ((2, 1024, omega arith, refl, refl), ((3, 512, omega arith, refl, refl), tt))

make-Stacked_example :
    ((get_size 0 (int_info ∷ double_info ∷ []) ≤ get_size 0 (int_info ∷ double_info ∷ []))
      × (r : Rtt) × (make (λ t. t) decay 4096 (int_info ∷ double_info ∷ []) ≡ some r)
      × (r.allocation ≡ 4096)
      × (r.volume ≡ get_size 0 (int_info ∷ double_info ∷ []))
      × (r.capacity ≡ get_size 0 (int_info ∷ double_info ∷ []))
      × (map (λ (e : Entry). e.type) r.objects ≡ double_info ∷ int_info ∷ [])
      × Stacked 4096 r.objects r.volume)
    ⊎ ((get_size 0 (int_info ∷ double_info ∷ []) < get_size 0 (int_info ∷ double_info ∷ []))
        × (make (λ t. t) decay 4096 (int_info ∷ double_info ∷ []) ≡ none))
make-Stacked_example =
    make-Stacked (λ t. t) decay 4096 int_info (double_info ∷ []) both-AllAligned (omega arith)

clear-make_example :
    (r : Rtt) × (make (λ t. t) decay 4096 (int_info ∷ double_info ∷ []) ≡ some r)
    × (map (λ (e : Entry). e.type) (clear r).0 ≡ double_info ∷ int_info ∷ [])
    × ((clear r).1 ≡ block_size (get_size 0 (int_info ∷ double_info ∷ [])) 2)
    × ((clear r).2 ≡ nothing)
clear-make_example =
    clear-make (λ t. t) decay 4096 int_info (double_info ∷ []) both-AllAligned (omega arith)
      (omega arith) (omega arith)

-- The capacity for a literal of two characters is too small for the pointer that is stored.
literal_aborts : make (λ t. t) decay 4096 (literal_info ∷ []) ≡ none
unfolding make push_all push_back_no_realloc force_align std_align get_size align_up
literal_aborts = refl

padded_size : get_size 0 (int_info ∷ double_info ∷ []) ≡ 16
unfolding get_size
padded_size = refl

-- In a block that is not aligned for its type, an object finds no room, and the code aborts.
overaligned_aborts : make (λ t. t) decay 16 (record { name = 5; align = 32; size = 32 } ∷ []) ≡ none
unfolding make push_all push_back_no_realloc force_align std_align get_size align_up
overaligned_aborts = refl
