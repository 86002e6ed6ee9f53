-- ===== src/Rtt/Offsets.antt =====
-- The offset of the next object, as the constructor of the run-time tuple computes it and as a push
-- finds it.
use actor_zeta.Base.{
  ℕ, ◌+◌, ◌-◌, ◌*◌, ◌%◌, ◌^◌, ◌≤◌, ◌<◌, ◌≡◌, refl, ap, true, false, List, [], ◌∷◌, none, some,
  arith, ltb,
}
use actor_zeta.Base.Bits.{pow-pos, rounds_down}
use actor_zeta.Rtt.{
  u64_mod, TypeInfo, Entry, Rtt, align_up, get_size, std_align, force_align, push_back_no_realloc,
}

-- The next multiple of a power of two, and the same behind a multiple of it.
pub align_up_lem :
    (k n b : ℕ)
    → k ≤ 63
    → b * 2 ^ k + n + 2 ^ k < u64_mod
    → (q : ℕ) × (align_up n (2 ^ k) ≡ q * 2 ^ k)
      × (align_up (b * 2 ^ k + n) (2 ^ k) ≡ b * 2 ^ k + q * 2 ^ k)
      × (n ≤ q * 2 ^ k)
      × (q * 2 ^ k < n + 2 ^ k)
unfolding align_up
align_up_lem k n b small fits =
    let pos = pow-pos k in
    let width : k + (64 - k) ≡ 64 = omega arith in
    let all : 2 ^ (k + (64 - k)) ≡ 2 ^ 64 = ap (λ (u : ℕ). 2 ^ u) width in
    let (q, low, high, e) = rounds_down (64 - k) k (n + 2 ^ k - 1) (omega (arith, all)) in
    let mask : u64_mod - 1 - (2 ^ k - 1) ≡ 2 ^ (k + (64 - k)) - 2 ^ k = omega (arith, all, pos) in
    let plain : (n + 2 ^ k - 1) % u64_mod ≡ n + 2 ^ k - 1 + 0 * 2 ^ k = omega (arith, pos) in
    let moved : (b * 2 ^ k + n + 2 ^ k - 1) % u64_mod ≡ n + 2 ^ k - 1 + b * 2 ^ k =
      omega (arith, pos) in
    (
      q,
      rw (mask, plain) (omega (arith, e 0 (omega (arith, all, pos)))),
      rw (mask, moved) (omega (arith, e b (omega (arith, all, pos)))),
      omega (arith, pos),
      omega (arith, pos),
    )

-- Every alignment is a power of two, and the block starts at a multiple of it.
abbrev pub AllAligned : ℕ → List TypeInfo → Type 0
AllAligned base [] = Unit {0}
AllAligned base (t ∷ ts) =
    ((k : ℕ) × (b : ℕ) × (k ≤ 63) × (t.align ≡ 2 ^ k) × (base ≡ b * 2 ^ k)) × AllAligned base ts

-- A bound on the bytes that the objects and their padding take.
abbrev pub extent : List TypeInfo → ℕ
extent [] = 0
extent (t ∷ ts) = t.align + t.size + extent ts

-- Newest first: the objects stand one below the other, from a volume down, each at its alignment.
abbrev pub Stacked : ℕ → List Entry → ℕ → Type 0
Stacked base [] v = Unit {0}
Stacked base (e ∷ es) v =
    (e.offset + e.type.size ≤ v)
    × ((q : ℕ) × (base + e.offset ≡ q * e.type.align))
    × Stacked base es e.offset

pub get_size_le :
    (base n : ℕ) (ts : List TypeInfo)
    → AllAligned base ts
    → n + extent ts < u64_mod
    → n ≤ get_size n ts
unfolding get_size
get_size_le base n [] a fits = omega arith
get_size_le base n (t ∷ ts) ((k, b, small, al, e), a) fits =
    let (q, up, moved, low, high) = align_up_lem k n 0 small (omega (arith, al)) in
    let here : align_up n t.align ≡ q * 2 ^ k = rw al up in
    let next : (align_up n t.align + t.size) % u64_mod ≡ q * 2 ^ k + t.size =
      omega (arith, here, al) in
    let rest = get_size_le base (q * 2 ^ k + t.size) ts a (omega (arith, al)) in
    rw next (omega arith)

pub pushed :
    (r : Rtt) (t : TypeInfo) (o : ℕ)
    → align_up (r.allocation + r.volume) t.align ≡ r.allocation + o
    → r.volume ≤ o
    → o + t.size ≤ r.capacity
    → push_back_no_realloc r t
      ≡ some
          (record r { volume = o + t.size; objects = record { offset = o; type = t } ∷ r.objects })
unfolding push_back_no_realloc force_align std_align
pushed r t o there low room =
    let fits : ltb (r.capacity - r.volume) (r.allocation + o - (r.allocation + r.volume) + t.size)
        ≡ false =
      ground arith in
    let back : r.allocation + o - r.allocation ≡ o = omega arith in
    rw (push_back_no_realloc, force_align, std_align, there, fits, back) refl

-- An object that does not fit.
pub not_pushed :
    (r : Rtt) (t : TypeInfo) (o : ℕ)
    → align_up (r.allocation + r.volume) t.align ≡ r.allocation + o
    → r.volume ≤ o
    → r.volume ≤ r.capacity
    → r.capacity < o + t.size
    → push_back_no_realloc r t ≡ none
unfolding push_back_no_realloc force_align std_align
not_pushed r t o there low within full =
    let over : ltb (r.capacity - r.volume) (r.allocation + o - (r.allocation + r.volume) + t.size)
        ≡ true =
      ground arith in
    rw (push_back_no_realloc, force_align, std_align, there, over) refl

-- Where the next object would go, as the constructor computes it and as it is pushed.
pub next_offset :
    (base volume : ℕ) (t : TypeInfo) (ts : List TypeInfo)
    → AllAligned base (t ∷ ts)
    → base + volume + extent (t ∷ ts) < u64_mod
    → (o : ℕ) × (align_up (base + volume) t.align ≡ base + o)
      × (volume ≤ o)
      × (o < volume + t.align)
      × ((q : ℕ) × (base + o ≡ q * t.align))
      × (get_size volume (t ∷ ts) ≡ get_size (o + t.size) ts)
      × (o + t.size ≤ get_size (o + t.size) ts)
unfolding get_size
next_offset base volume t ts ((k, b, small, al, e), a) fits =
    let (q, up, moved, low, high) = align_up_lem k volume b small (omega (arith, al, e)) in
    let here : align_up volume t.align ≡ q * 2 ^ k = rw al up in
    let next : (align_up volume t.align + t.size) % u64_mod ≡ q * 2 ^ k + t.size =
      omega (arith, here, al) in
    (
      q * 2 ^ k,
      rw (al, e) moved,
      low,
      omega (arith, al),
      (b + q, rw al (omega (arith, e))),
      ap (λ (n : ℕ). get_size n ts) next,
      get_size_le base (q * 2 ^ k + t.size) ts a (omega (arith, al)),
    )
