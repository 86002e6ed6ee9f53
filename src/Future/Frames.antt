-- ===== src/Future/Frames.antt =====
-- header/actor-zeta/detail/coro_frame_header.hpp: the memory of coroutine frames, behind a header
-- that names the memory resource and the size of the frame. Sizes and alignments are the platform's.
use Prim.Native.Nat.{bit_and}
use actor_zeta.Base.{
  ℕ, ◌+◌, ◌-◌, ◌*◌, ◌%◌, ◌^◌, ◌≤◌, ◌<◌, ◌≡◌, ◌≢◌, refl, sym, ap, ◌∙◌, true, false, Option, none,
  some, arith, ◌==◌, if◌then◌else◌,
}
use actor_zeta.Rtt
use actor_zeta.Rtt.{u64_mod}
use actor_zeta.Rtt.Offsets.{align_up_lem}
use actor_zeta.Queue.Links.{Ptr, null}

-- `coro_frame_header`
pub record FrameHeader : Type 0 where
  pub resource : Ptr
  pub frame_size : ℕ

abbrev pub Frames : Type 0
Frames = Ptr → FrameHeader

abbrev pub write_header : Frames → Ptr → FrameHeader → Frames
write_header headers raw header p = if p == raw then header else headers p

-- A request to a memory resource, and the address that it gets or gives back.
pub record Request : Type 0 where
  pub resource : Ptr
  pub address : Ptr
  pub bytes : ℕ
  pub alignment : ℕ

-- `sizeof(coro_frame_header)` and `alignof(std::max_align_t)`
module _ (header_size align : ℕ) where
  unfoldable pub padded_size : ℕ
  padded_size = bit_and ((header_size + align - 1) % u64_mod) (u64_mod - 1 - (align - 1))

  -- The request, the headers and the frame, where the resource returns `raw`; `none` is the abort
  -- on a missing resource.
  unfoldable pub allocate_coro_frame : Frames → Ptr → ℕ → Ptr → Option (Request × Frames × Ptr)
  unfolding padded_size
  allocate_coro_frame headers res frame_size raw =
      let request : Request = record {
        resource = res;
        address = raw;
        bytes = (padded_size + frame_size) % u64_mod;
        alignment = align;
      } in
      let written = write_header headers raw (record { resource = res; frame_size = frame_size }) in
      if res == null
      then none
      else if raw == null
      then some (request, headers, null)
      else some (request, written, raw + padded_size)

  -- What goes back to the resource of the header, if anything.
  unfoldable pub deallocate_coro_frame : Frames → Ptr → ℕ → Option Request
  unfolding padded_size
  deallocate_coro_frame headers frame frame_size =
      let raw = frame - padded_size in
      if frame == null
      then none
      else some (record {
        resource = (headers raw).resource;
        address = raw;
        bytes = (padded_size + frame_size) % u64_mod;
        alignment = align;
      })

  unfoldable pub deallocate_coro_frame_unsized : Frames → Ptr → Option Request
  unfolding padded_size
  deallocate_coro_frame_unsized headers frame =
      let raw = frame - padded_size in
      let frame_size = (headers raw).frame_size in
      if frame == null
      then none
      else some (record {
        resource = (headers raw).resource;
        address = raw;
        bytes = (padded_size + frame_size) % u64_mod;
        alignment = align;
      })

  padded_size_lem :
      (k : ℕ)
      → k ≤ 63
      → align ≡ 2 ^ k
      → header_size + align < u64_mod
      → ((q : ℕ) × (padded_size ≡ q * align)) × (header_size ≤ padded_size)
  unfolding padded_size Rtt.align_up
  padded_size_lem k small al fits =
      let (q, up, moved, low, high) = align_up_lem k header_size 0 small (omega (arith, al)) in
      let at : padded_size ≡ Rtt.align_up header_size (2 ^ k) = ap (Rtt.align_up header_size) al in
      ((q, at ∙ up ∙ ap (λ (a : ℕ). q * a) (sym al)), omega (arith, at, up, low))

  -- A frame that was allocated, at a non-null address aligned as asked, is aligned itself and
  -- stands behind its header; and the sized and the unsized deallocation both give back exactly
  -- the block that was asked for, to the same resource.
  pub deallocate-allocate_coro_frame :
      (headers : Frames) (res frame_size raw k b : ℕ)
      → k ≤ 63
      → align ≡ 2 ^ k
      → header_size + align < u64_mod
      → raw ≡ b * align
      → res ≢ null
      → raw ≢ null
      → (request : Request) × (written : Frames) × (frame : Ptr) × (allocate_coro_frame headers res
            frame_size raw
          ≡ some (request, written, frame))
        × (deallocate_coro_frame written frame frame_size ≡ some request)
        × (deallocate_coro_frame_unsized written frame ≡ some request)
        × (request.address ≡ raw)
        × (raw + header_size ≤ frame)
        × ((q : ℕ) × (frame ≡ q * align))
  unfolding allocate_coro_frame deallocate_coro_frame deallocate_coro_frame_unsized
  deallocate-allocate_coro_frame headers res frame_size raw k b small al fits at some_res there =
      let ((q, multiple), room) = padded_size_lem k small al fits in
      let given : (res == null) ≡ false = ground arith in
      let got : (raw == null) ≡ false = ground arith in
      let set : (raw + padded_size == null) ≡ false = ground arith in
      let back : raw + padded_size - padded_size ≡ raw = omega arith in
      let here : (raw == raw) ≡ true = ground arith in
      (
        record {
          resource = res;
          address = raw;
          bytes = (padded_size + frame_size) % u64_mod;
          alignment = align;
        },
        write_header headers raw (record { resource = res; frame_size = frame_size }),
        raw + padded_size,
        rw (given, got) refl,
        rw (set, back, here) refl,
        rw (set, back, here) refl,
        refl,
        omega (arith, room),
        (b + q, omega (arith, at, multiple)),
      )
