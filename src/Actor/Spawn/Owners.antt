-- ===== src/Actor/Spawn/Owners.antt =====
-- All the actors of a program: what their memory resources have given out is what their owners hold.
use actor_zeta.Base.{
  subst, ℕ, ◌+◌, ◌<◌, ◌≡◌, ◌≢◌, refl, sym, ap, ◌∙◌, inl, inr, Bool, true, false, List, [], ◌∷◌,
  ◌++◌, map, Option, none, some, arith, ◌==◌, ◌>>=◌, Bool-cases,
}
use actor_zeta.Queue.Links.{Ptr, null}
use actor_zeta.Actor.Spawn.{
  Block, same_block, take_back, Owner, allocate_ptr, deallocate_ptr, spawn, destroy,
}

some_injective {ℓ} : {A : Type ℓ} {a b : A} → some a ≡ some b → a ≡ b
some_injective {a = a} e = ap (λ o. elim o [ none ↦ a | some x ↦ x ]) e

abbrev bit : Bool → ℕ
bit true = 1
bit false = 0

abbrev pub count : Block → List Block → ℕ
count b [] = 0
count b (x ∷ xs) = bit (same_block x b) + count b xs

same_block-eq : (a b : Block) → same_block a b ≡ true → a ≡ b
same_block-eq a b h = ground (arith, h)

same_block_refl : (a : Block) → same_block a a ≡ true
same_block_refl a = ground arith

take_back-skip :
    (b x : Block) (xs ys : List Block)
    → same_block x b ≡ false
    → take_back xs b ≡ some ys
    → take_back (x ∷ xs) b ≡ some (x ∷ ys)
take_back-skip b x xs ys other taken = rw (other, taken) refl

-- A block that was given out comes back, and the others stay.
take_back_lem :
    (b : Block) (xs : List Block)
    → 0 < count b xs
    → (ys : List Block) × (take_back xs b ≡ some ys)
      × ((c : Block) → count c xs ≡ bit (same_block b c) + count c ys)
take_back_lem b [] some_b = absurd (omega (arith, some_b))
take_back_lem b (x ∷ xs) some_b = elim (Bool-cases (same_block x b)) [
  | inl e ↦ (
    xs,
    rw e refl,
    (λ c. ap (λ (y : Block). bit (same_block y c) + count c xs) (same_block-eq x b e)),
  )
  | inr e ↦
      let fewer : 0 < count b xs = omega (arith, rw e at some_b) in
      let (ys, taken, counts) = take_back_lem b xs fewer in
      (x ∷ ys, take_back-skip b x xs ys e taken, (λ c. omega (arith, counts c)))
]

module _ (size_of align_of : ℕ → ℕ) where
  -- The actors of a program: what the resources have given out, and the owners.
  pub record Actors : Type 0 where
    pub given : List Block
    pub owners : List Owner

  -- Actors are made, at addresses that a resource answers, and any owner is destroyed.
  pub data Step (w : Actors) : Actors → Type 0 where
    spawned :
        (resource buffer : Ptr) (type : ℕ) (given : List Block) (o : Owner)
        → buffer ≢ null
        → spawn size_of align_of w.given resource type buffer ≡ some (given, o)
        → Step w (record { given = given; owners = o ∷ w.owners })
    destroyed :
        (xs ys : List Owner) (o : Owner) (given : List Block)
        → w.owners ≡ xs ++ (o ∷ ys)
        → destroy size_of align_of w.given o ≡ some given
        → Step w (record { given = given; owners = xs ++ ys })

  pub data Reach : Actors → Type 0 where
    start : Reach (record { given = []; owners = [] })
    later : (v w : Actors) → Reach v → Step v w → Reach w

  -- The block of an owner's target.
  abbrev pub block_of : Owner → Block
  block_of o = record {
    resource = o.resource;
    address = o.target;
    size = size_of o.type;
    alignment = align_of o.type;
  }

  abbrev AllSet : List Owner → Type 0
  AllSet [] = Unit {0}
  AllSet (o ∷ os) = (o.target ≢ null) × (o.resource ≢ null) × AllSet os

  AllSet-split :
      (xs ys : List Owner) (o : Owner)
      → AllSet (xs ++ (o ∷ ys))
      → (o.target ≢ null) × (o.resource ≢ null) × AllSet (xs ++ ys)
  AllSet-split [] ys o all = all
  AllSet-split (x ∷ xs) ys o all =
      let (target, resource, rest) = AllSet-split xs ys o all.2 in
      (target, resource, (all.0, all.1, rest))

  count-split :
      (xs ys : List Owner) (o : Owner) (c : Block)
      → count c (map block_of (xs ++ (o ∷ ys)))
        ≡ bit (same_block (block_of o) c) + count c (map block_of (xs ++ ys))
  count-split [] ys o c = refl
  count-split (x ∷ xs) ys o c = omega (arith, count-split xs ys o c)

  -- Each owner is set, and the blocks that are out are those of the owners.
  abbrev Balanced : Actors → Type 0
  Balanced w = AllSet w.owners × ((c : Block) → count c w.given ≡ count c (map block_of w.owners))

  destroy_lem :
      (w : Actors) (xs ys : List Owner) (o : Owner)
      → Balanced w
      → w.owners ≡ xs ++ (o ∷ ys)
      → (given : List Block) × (destroy size_of align_of w.given o ≡ some given)
        × Balanced (record { given = given; owners = xs ++ ys })
  unfolding destroy deallocate_ptr
  destroy_lem w xs ys o (all, counts) e =
      let (target, resource, rest) = AllSet-split xs ys o (subst AllSet e all) in
      let split : (c : Block)
          → count c w.given ≡ bit (same_block (block_of o) c) + count c (map block_of (xs ++ ys)) =
        λ c. counts c ∙ ap (λ os. count c (map block_of os)) e ∙ count-split xs ys o c in
      let mine : same_block (block_of o) (block_of o) ≡ true = same_block_refl (block_of o) in
      let out : 0 < count (block_of o) w.given = ground (arith, split (block_of o), mine) in
      let (given, taken, left) = take_back_lem (block_of o) w.given out in
      let t : (o.target == null) ≡ false = ground (arith, target) in
      let r : (o.resource == null) ≡ false = ground (arith, resource) in
      (given, rw (t, r) taken, (rest, λ c. omega (arith, split c, left c)))

  made : Ptr → Ptr → ℕ → Owner
  made resource buffer type = record { target = buffer; type = type; resource = resource }

  spawn_made :
      (blocks : List Block) (resource buffer : Ptr) (type : ℕ) (given : List Block) (o : Owner)
      → spawn size_of align_of blocks resource type buffer ≡ some (given, o)
      → (resource ≢ null)
        × (given ≡ block_of (made resource buffer type) ∷ blocks)
        × (o ≡ made resource buffer type)
  unfolding spawn allocate_ptr made
  spawn_made blocks resource buffer type given o e =
      (ground (arith, e), ground (arith, e), ground (arith, e))

  Step-Balanced : (v w : Actors) → Step v w → Balanced v → Balanced w
  unfolding made
  Step-Balanced v w (spawned resource buffer type given o there e) (all, counts) =
      let (set, blocks, owner) = spawn_made v.given resource buffer type given o e in
      subst (λ (x : Owner). Balanced (record { given = given; owners = x ∷ v.owners })) (sym owner)
        (
          (there, set, all),
          λ c.
              ap (count c) blocks
              ∙ ap (λ (n : ℕ). bit (same_block (block_of (made resource buffer type)) c) + n)
                  (counts c),
        )
  Step-Balanced v w (destroyed xs ys o given e gone) balanced =
      let (given', run, (all, counts)) = destroy_lem v xs ys o balanced e in
      let same : given' ≡ given = some_injective (sym run ∙ gone) in
      (all, λ c. ap (count c) (sym same) ∙ counts c)

  Reach-Balanced : (w : Actors) → Reach w → Balanced w
  Reach-Balanced w start = (tt, λ c. refl)
  Reach-Balanced w (later v w' before step) = Step-Balanced v w step (Reach-Balanced v before)

  nothing_out : (blocks : List Block) → ((c : Block) → count c blocks ≡ 0) → blocks ≡ []
  nothing_out [] none_out = refl
  nothing_out (b ∷ bs) none_out =
      let mine : same_block b b ≡ true = same_block_refl b in
      absurd (ground (arith, none_out b, mine))

  -- The end of a program: every owner is destroyed.
  abbrev pub destroy_all : List Block → List Owner → Option (List Block)
  destroy_all blocks [] = some blocks
  destroy_all blocks (o ∷ os) = do left ← destroy size_of align_of blocks o; destroy_all left os

  destroy_all_lem :
      (blocks : List Block) (os : List Owner)
      → Balanced (record { given = blocks; owners = os })
      → destroy_all blocks os ≡ some []
  destroy_all_lem blocks [] (all, counts) = ap some (nothing_out blocks counts)
  destroy_all_lem blocks (o ∷ os) balanced =
      let (left, run, rest) =
        destroy_lem (record { given = blocks; owners = o ∷ os }) [] os o balanced refl in
      rw run (destroy_all_lem left os rest)

  -- However actors were made, at addresses that are not null, and destroyed in any order: when all
  -- the owners that are left are destroyed, each block goes back to its resource with the size and
  -- alignment that it was given out with, and in the end no block is out.
  pub destroy_all-Reach : (w : Actors) → Reach w → destroy_all w.given w.owners ≡ some []
  destroy_all-Reach w reach = destroy_all_lem w.given w.owners (Reach-Balanced w reach)
