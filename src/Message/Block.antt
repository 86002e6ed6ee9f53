-- ===== src/Message/Block.antt =====
-- header/actor-zeta/mailbox/message.hpp: the block that a message stands in, behind a header that
-- names the memory resource and the size. Sizes and alignments are those of the platform.
use Prim.Native.Nat.{bit_and}
use actor_zeta.Base.{
  ℕ, ◌+◌, ◌-◌, ◌*◌, ◌%◌, ◌^◌, ◌≤◌, ◌<◌, ◌≡◌, ◌≢◌, refl, sym, ap, ◌∙◌, inl, inr, true, false, Option,
  none, some, arith, ltb, ◌==◌, Bool-cases, if◌then◌else◌,
}
use actor_zeta.Base.Bits.{pow-pos}
use actor_zeta.Rtt
use actor_zeta.Rtt.{u64_mod}
use actor_zeta.Rtt.Offsets.{align_up_lem}
use actor_zeta.Queue.Links.{Ptr, null}
use actor_zeta.Future.Frames.{Request}

-- `sizeof` and `alignof` of message, `sizeof(BlockHdr)`, `alignof(std::max_align_t)`
pub record Platform : Type 0 where
  pub message_size : ℕ
  pub message_align : ℕ
  pub header_size : ℕ
  pub max_align : ℕ

pub record BlockHdr : Type 0 where
  pub resource : Ptr
  pub total : ℕ

-- The headers in memory, by address.
abbrev pub Headers : Type 0
Headers = Ptr → BlockHdr

unfoldable pub align_up : ℕ → ℕ → ℕ
align_up n a = bit_and ((n + (a - 1)) % u64_mod) (u64_mod - 1 - (a - 1))

module _ (platform : Platform) where
  unfoldable pub alloc_align : ℕ
  alloc_align =
      if ltb platform.max_align platform.message_align
      then platform.message_align
      else platform.max_align

  unfoldable pub front : ℕ
  unfolding align_up
  front = align_up platform.header_size platform.message_align

  unfoldable pub hdr_from_message : Ptr → Ptr
  unfolding front
  hdr_from_message p = p - front

  unfoldable pub base_from_message : Ptr → Ptr
  unfolding front
  base_from_message p = p - front

  -- The request, where `raw` is the address that the resource returns; the headers; the message.
  unfoldable pub pmr_make_message : Headers → Ptr → Ptr → Request × Headers × Ptr
  unfolding front alloc_align
  pmr_make_message headers resource raw =
      let total = (front + platform.message_size) % u64_mod in
      (
        record { resource = resource; address = raw; bytes = total; alignment = alloc_align },
        λ p. if p == raw then record { resource = resource; total = total } else headers p,
        raw + front,
      )

  -- What `message_deleter` gives back.
  unfoldable pub message_deleter : Headers → Ptr → Option Request
  unfolding hdr_from_message base_from_message alloc_align
  message_deleter headers p =
      if p == null
      then none
      else let hdr = headers (hdr_from_message p) in
        some (record {
          resource = hdr.resource;
          address = base_from_message p;
          bytes = hdr.total;
          alignment = alloc_align;
        })

  align_up-same : (n a : ℕ) → 1 ≤ a → align_up n a ≡ Rtt.align_up n a
  unfolding align_up Rtt.align_up
  align_up-same n a pos =
      ap (λ (v : ℕ). bit_and (v % u64_mod) (u64_mod - 1 - (a - 1))) (omega arith)

  front_lem :
      (k : ℕ)
      → k ≤ 63
      → platform.message_align ≡ 2 ^ k
      → platform.header_size + platform.message_align < u64_mod
      → ((q : ℕ) × (front ≡ q * platform.message_align)) × (platform.header_size ≤ front)
  unfolding front
  front_lem k small al fits =
      let pos = pow-pos k in
      let (q, up, moved, low, high) =
        align_up_lem k platform.header_size 0 small (omega (arith, al)) in
      let same = align_up-same platform.header_size platform.message_align (omega (arith, al)) in
      let at : front ≡ Rtt.align_up platform.header_size (2 ^ k) =
        same ∙ ap (Rtt.align_up platform.header_size) al in
      ((q, at ∙ up ∙ ap (λ (a : ℕ). q * a) (sym al)), omega (arith, at, up, low))

  alloc_align_lem :
      (d : ℕ)
      → platform.max_align ≡ d * platform.message_align
      → (e : ℕ) × (alloc_align ≡ e * platform.message_align)
  unfolding alloc_align
  alloc_align_lem d h = elim (Bool-cases (ltb platform.max_align platform.message_align)) [
    | inl less ↦ (1, rw less (omega arith))
    | inr not_less ↦ (d, rw not_less h)
  ]

  -- On a platform whose alignments fit together, a resource that returns a non-null address with
  -- the alignment it was asked for gets back, from the deleter of the message, the block that it
  -- was asked for: the same address, size and alignment; the message is aligned, and its header
  -- lies in the block before it.
  pub message_deleter-pmr_make_message :
      (headers : Headers) (resource raw k b d : ℕ)
      → k ≤ 63
      → platform.message_align ≡ 2 ^ k
      → platform.header_size + platform.message_align < u64_mod
      → platform.max_align ≡ d * platform.message_align
      → raw ≡ b * alloc_align
      → raw ≢ null
      → let (request, written, p) = pmr_make_message headers resource raw in
        (message_deleter written p ≡ some request)
        × ((q : ℕ) × (p ≡ q * platform.message_align))
        × (hdr_from_message p ≡ raw)
        × (raw + platform.header_size ≤ p)
  unfolding pmr_make_message message_deleter hdr_from_message base_from_message
  message_deleter-pmr_make_message headers resource raw k b d small al fits max_al at there =
      let ((q, multiple), room) = front_lem k small al fits in
      let (e, divides) = alloc_align_lem d max_al in
      let set : (raw + front == null) ≡ false = ground arith in
      let back : raw + front - front ≡ raw = omega arith in
      let here : (raw == raw) ≡ true = ground arith in
      let place : raw ≡ b * e * platform.message_align =
        at ∙ ap (λ (a : ℕ). b * a) divides ∙ omega arith in
      (
        rw (set, back, here) refl,
        (b * e + q, omega (arith, place, multiple)),
        back,
        omega (arith, room),
      )
