-- ===== src/Dispatch/TypeList/Tests.antt =====
-- Slices of a list of three types, padded with the type 0.
use actor_zeta.Base.{◌≡◌, refl, [], ◌∷◌}
use actor_zeta.Dispatch.TypeList.{tl_head, tl_tail, tl_slice, tl_slice_from, tl_slice_impl}

padded_slice : tl_slice 0 (7 ∷ 8 ∷ 9 ∷ []) 1 4 ≡ 8 ∷ 9 ∷ 0 ∷ []
unfolding tl_slice tl_slice_from tl_slice_impl tl_tail
padded_slice = refl

-- The head of a list is that of its slice up to 1.
head_slice : tl_head 0 (tl_slice 0 (7 ∷ 8 ∷ 9 ∷ []) 0 1) ≡ 7
unfolding tl_slice tl_slice_from tl_slice_impl tl_tail tl_head
head_slice = refl
