-- ===== src/Awaiting/Root.antt =====
-- header/actor-zeta/detail/behavior_t.hpp: the frames of an actor's behaviors, one for each message, as
-- header/actor-zeta/actor/cooperative_actor.hpp keeps them in current_behavior_. Where a frame takes its
-- memory from is found by the functions of Future/Method/Resource.antt, which stand in both files.
use mathlib.Core.List.{append-nil}
use actor_zeta.Base.{
  Bool-cases, ℕ, suc, ◌+◌, ◌-◌, ◌%◌, ◌≡◌, ◌≢◌, refl, sym, ap, ◌∙◌, ◌⊎◌, inl, inr, true, false, List,
  [], ◌∷◌, ◌++◌, length, length-append, Option, none, some, arith, ◌==◌, if◌then◌else◌, ◌>>=◌,
}
use actor_zeta.Rtt.{u64_mod}
use actor_zeta.Queue.Links.{Ptr, null}
use actor_zeta.Future.Frames.{
  FrameHeader, write_header, Frames, Request, padded_size, allocate_coro_frame,
  deallocate_coro_frame, deallocate_coro_frame_unsized,
}
use actor_zeta.Future.Method.Resource.{
  Argument, extract_resource_impl, extract_resource_from_args, extract_resource_or_abort,
}
use actor_zeta.Awaiting.{Behavior, assign}

unfoldable pub extract_resource_or_null : List Argument → Ptr
unfolding extract_resource_from_args
extract_resource_or_null args = extract_resource_from_args args

-- `resource_` of the promise, which its constructor takes from the first argument alone.
unfoldable pub construct : List Argument → Ptr
unfolding extract_resource_or_null
construct [] = null
construct (first ∷ args) = extract_resource_or_null (first ∷ [])

unfoldable pub get_return_object : Ptr → Behavior
get_return_object frame = record { handle = frame }

resource_lem :
    (args : List Argument) (res : Ptr)
    → extract_resource_or_abort args ≡ some res
    → (extract_resource_from_args args ≡ res) × (res ≢ null)
unfolding extract_resource_or_abort
resource_lem args res supplied = (ground (arith, supplied), ground (arith, supplied))

construct_lem :
    (first : Argument) (args : List Argument) (res : Ptr)
    → extract_resource_from_args (first ∷ args) ≡ res
    → ((extract_resource_impl first ≡ null) × (construct (first ∷ args) ≡ null))
      ⊎ ((extract_resource_impl first ≢ null) × (construct (first ∷ args) ≡ res))
unfolding construct extract_resource_or_null extract_resource_from_args
construct_lem first args res e = elim (Bool-cases (extract_resource_impl first == null)) [
  | inl nothing ↦ inl (ground (arith, nothing), rw nothing refl)
  | inr something ↦ inr (ground (arith, something), ground (arith, something, e))
]

-- The platform's numbers, and the size of the frame of the actor's behavior.
module _ (header_size align size : ℕ) where
  unfoldable pub operator_new : Frames → List Argument → Ptr → Option (Request × Frames × Ptr)
  unfolding extract_resource_or_abort allocate_coro_frame
  operator_new headers args raw = do
    res ← extract_resource_or_abort args
    allocate_coro_frame header_size align headers res size raw

  unfoldable pub operator_delete_sized : Frames → Ptr → Option Request
  unfolding deallocate_coro_frame
  operator_delete_sized headers frame = deallocate_coro_frame header_size align headers frame size

  unfoldable pub operator_delete : Frames → Ptr → Option Request
  unfolding deallocate_coro_frame_unsized
  operator_delete = deallocate_coro_frame_unsized header_size align

  -- `handle_.destroy()`, if there is a handle: what goes back to the resource.
  unfoldable pub destroy : Frames → Ptr → List Request
  unfolding operator_delete_sized
  destroy headers handle =
      if handle == null
      then []
      else elim (operator_delete_sized headers handle) [ none ↦ [] | some r ↦ r ∷ [] ]

  -- An actor's `current_behavior_`, with what its resource was asked for and got back.
  pub record Root : Type 0 where
    pub current : Behavior
    pub headers : Frames
    pub asked : List Request
    pub given_back : List Request

  -- `current_behavior_ = self()->behavior(msg)`, where the resource returns `raw`.
  unfoldable pub behave : Root → List Argument → Ptr → Option Root
  unfolding operator_new get_return_object assign destroy
  behave r args raw = do
    (request, headers, frame) ← operator_new r.headers args raw
    let (old, current, moved) = assign r.current (get_return_object frame)
    some (record {
      current = current;
      headers = headers;
      asked = r.asked ++ (request ∷ []);
      given_back = r.given_back ++ destroy headers old;
    })

  -- One message after the other, and the destructor of the actor.
  unfoldable pub behave_all : Root → List Argument → List Ptr → Option Root
  unfolding behave destroy
  behave_all r args [] = some (record r {
    current = record { handle = null };
    given_back = r.given_back ++ destroy r.headers r.current.handle;
  })
  behave_all r args (raw ∷ raws) = do r' ← behave r args raw; behave_all r' args raws

  block : Ptr → Ptr → Request
  block res raw = record {
    resource = res;
    address = raw;
    bytes = (padded_size header_size align + size) % u64_mod;
    alignment = align;
  }

  -- The block of the current frame, or null, is all that has not been given back.
  abbrev Held : Ptr → Root → Ptr → Type 0
  Held res r raw =
      ((r.current.handle ≡ null) × (r.given_back ≡ r.asked))
      ⊎ ((raw ≢ null)
          × (r.current.handle ≡ raw + padded_size header_size align)
          × ((r.headers raw).resource ≡ res)
          × (r.asked ≡ r.given_back ++ (block res raw ∷ [])))

  -- A block is not given out while it is in use.
  abbrev pub Apart : Ptr → List Ptr → Type 0
  Apart raw [] = Unit {0}
  Apart raw (x ∷ xs) = (x ≢ null) × (x ≢ raw) × Apart x xs

  destroy-block :
      (headers : Frames) (res raw : Ptr)
      → raw ≢ null
      → (headers raw).resource ≡ res
      → destroy headers (raw + padded_size header_size align) ≡ block res raw ∷ []
  unfolding destroy operator_delete_sized deallocate_coro_frame block
  destroy-block headers res raw there owner =
      let p = padded_size header_size align in
      let set : (raw + p == null) ≡ false = ground (arith, there) in
      let back : raw + p - p ≡ raw = omega arith in rw (set, back, owner) refl

  -- Once the current frame is destroyed, everything has been given back.
  settled :
      (r : Root) (headers : Frames) (res raw : Ptr)
      → Held res r raw
      → headers raw ≡ r.headers raw
      → r.given_back ++ destroy headers r.current.handle ≡ r.asked
  unfolding destroy
  settled r headers res raw (inl (nothing, even)) same =
      ap (λ (p : Ptr). r.given_back ++ destroy headers p) nothing ∙ append-nil r.given_back ∙ even
  settled r headers res raw (inr (there, here, owner, asked)) same =
      ap (λ (p : Ptr). r.given_back ++ destroy headers p) here
      ∙ ap (λ l. r.given_back ++ l)
          (destroy-block headers res raw there (ap (λ (x : FrameHeader). x.resource) same ∙ owner))
      ∙ sym asked

  operator_new_lem :
      (headers : Frames) (args : List Argument) (res x : Ptr)
      → extract_resource_or_abort args ≡ some res
      → res ≢ null
      → x ≢ null
      → operator_new headers args x
        ≡ some (
          block res x,
          write_header headers x (record { resource = res; frame_size = size }),
          x + padded_size header_size align,
        )
  unfolding operator_new allocate_coro_frame block
  operator_new_lem headers args res x supplied given there =
      let some_res : (res == null) ≡ false = ground (arith, given) in
      let some_x : (x == null) ≡ false = ground (arith, there) in
      rw (supplied, some_res, some_x) refl

  behave_lem :
      (r : Root) (args : List Argument) (res raw x : Ptr)
      → extract_resource_or_abort args ≡ some res
      → res ≢ null
      → x ≢ null
      → x ≢ raw
      → Held res r raw
      → (r' : Root) × (behave r args x ≡ some r')
        × Held res r' x
        × (length r'.asked ≡ suc (length r.asked))
  unfolding behave get_return_object assign
  behave_lem r args res raw x supplied given there other held =
      let headers = write_header r.headers x (record { resource = res; frame_size = size }) in
      let kept : headers raw ≡ r.headers raw = ground (arith, other) in
      let here : (x == x) ≡ true = ground arith in
      let even = settled r headers res raw held kept in
      (
        record {
          current = record { handle = x + padded_size header_size align };
          headers = headers;
          asked = r.asked ++ (block res x ∷ []);
          given_back = r.given_back ++ destroy headers r.current.handle;
        },
        rw (operator_new_lem r.headers args res x supplied given there) refl,
        inr (there, refl, rw here refl, ap (λ l. l ++ (block res x ∷ [])) (sym even)),
        omega (arith, length-append r.asked (block res x ∷ [])),
      )

  behave_all_lem :
      (r : Root) (args : List Argument) (res raw : Ptr) (raws : List Ptr)
      → extract_resource_or_abort args ≡ some res
      → res ≢ null
      → Apart raw raws
      → Held res r raw
      → (r' : Root) × (behave_all r args raws ≡ some r')
        × (r'.given_back ≡ r'.asked)
        × (length r'.asked ≡ length r.asked + length raws)
  unfolding behave_all
  behave_all_lem r args res raw [] supplied given apart held =
      (_, refl, settled r r.headers res raw held refl, omega arith)
  behave_all_lem r args res raw (x ∷ xs) supplied given apart held =
      let (r1, run, held1, count) =
        behave_lem r args res raw x supplied given apart.0 apart.1 held in
      let (r2, later, even, count2) =
        behave_all_lem r1 args res x xs supplied given apart.2 held1 in
      (r2, rw run later, even, omega (arith, count, count2))

  -- An actor without a behavior, whose resource never gives out the block that is in use: each of
  -- its messages is given a frame, and when all have been handled and the actor is destroyed,
  -- every frame has gone back to the resource, once, in order, with the request that it was asked
  -- for, and there were as many as messages. The promise of a behavior holds the same resource, if
  -- the first argument, the actor, gives one, and none otherwise.
  pub behave_all-even :
      (headers : Frames) (first : Argument) (args : List Argument) (res : Ptr) (raws : List Ptr)
      → extract_resource_or_abort (first ∷ args) ≡ some res
      → Apart null raws
      → (r : Root) × (behave_all
            (record {
              current = record { handle = null };
              headers = headers;
              asked = [];
              given_back = [];
            })
            (first ∷ args)
            raws
          ≡ some r)
        × (r.given_back ≡ r.asked)
        × (length r.asked ≡ length raws)
        × (((extract_resource_impl first ≡ null) × (construct (first ∷ args) ≡ null))
            ⊎ ((extract_resource_impl first ≢ null) × (construct (first ∷ args) ≡ res)))
  behave_all-even headers first args res raws supplied apart =
      let (found, given) = resource_lem (first ∷ args) res supplied in
      let (r, run, even, count) =
        behave_all_lem _ (first ∷ args) res null raws supplied given apart (inl (refl, refl)) in
      (r, run, even, omega (arith, count), construct_lem first args res found)
