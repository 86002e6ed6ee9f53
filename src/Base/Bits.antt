-- ===== src/Base/Bits.antt =====
-- Laws of the bit operations at variables, from their digit recursion.
use Prim.Native.Nat.{
  ℕ, zero, suc, ◌+◌, ◌*◌, ◌/◌, ◌%◌, ◌≤◌, ◌<◌, ◌-◌, ◌^◌, min, max, bit_and, bit_or, digits,
  bit_and-bitwise, bit_or-bitwise,
}
use mathlib.Core.Path.{◌≡◌, refl, ap}
use native.Mathlib.Omega.{arith}
use native.Mathlib.Nat.{pow-suc}

module _ (z : ℕ → ℕ) (f : ℕ → ℕ → ℕ) where
  -- Fuel beyond the number itself changes nothing.
  spare_fuel : (x y k l : ℕ) → x ≤ k → k ≤ l → digits z f l x y ≡ digits z f k x y
  spare_fuel zero y zero zero hx hk = refl
  spare_fuel zero y zero (suc l) hx hk = refl
  spare_fuel zero y (suc k) zero hx hk = refl
  spare_fuel zero y (suc k) (suc l) hx hk = refl
  spare_fuel (suc x) y zero l hx hk = absurd (omega arith)
  spare_fuel (suc x) y (suc k) zero hx hk = absurd (omega arith)
  spare_fuel (suc x) y (suc k) (suc l) hx hk =
      let half : suc x / 2 ≤ k = omega arith in
      rw (spare_fuel (suc x / 2) (y / 2) k l half (omega arith))

-- The lowest digit of a number that is not zero, for both operations at once.
low_digit :
    (x y : ℕ)
    → (bit_and (suc x) y ≡ bit_and (suc x / 2) (y / 2) * 2 + min (suc x % 2) (y % 2))
      × (bit_or (suc x) y ≡ bit_or (suc x / 2) (y / 2) * 2 + max (suc x % 2) (y % 2))
low_digit x y =
    let half : suc x / 2 ≤ x = omega arith in
    let enough = λ (z : ℕ → ℕ) (f : ℕ → ℕ → ℕ).
      spare_fuel z f (suc x / 2) (y / 2) (suc x / 2) x (omega arith) half in
    (
      omega (
        arith,
        enough (λ _. 0) min,
        bit_and-bitwise (suc x) y,
        bit_and-bitwise (suc x / 2) (y / 2),
      ),
      omega (
        arith,
        enough (λ y. y) max,
        bit_or-bitwise (suc x) y,
        bit_or-bitwise (suc x / 2) (y / 2),
      ),
    )

pub zero-bit_or : (b : ℕ) → bit_or 0 b ≡ b
zero-bit_or b = bit_or-bitwise 0 b

pub bit_and_step : (a b : ℕ) → bit_and a b ≡ bit_and (a / 2) (b / 2) * 2 + min (a % 2) (b % 2)
bit_and_step (suc x) y = (low_digit x y).0
bit_and_step zero y =
    let none_here = λ (n : ℕ). bit_and-bitwise 0 n in omega (arith, none_here y, none_here (y / 2))

pub bit_or_step : (a b : ℕ) → bit_or a b ≡ bit_or (a / 2) (b / 2) * 2 + max (a % 2) (b % 2)
bit_or_step (suc x) y = (low_digit x y).1
bit_or_step zero y = omega (arith, zero-bit_or y, zero-bit_or (y / 2))

-- Zero on the right.
right_zero : (k x : ℕ) → x ≤ k → (bit_and x 0 ≡ 0) × (bit_or x 0 ≡ x)
right_zero k zero small = (refl, refl)
right_zero zero (suc x) small = absurd (omega arith)
right_zero (suc k) (suc x) small =
    let (ih_and, ih_or) = right_zero k (suc x / 2) (omega arith) in
    (omega (arith, (low_digit x 0).0, ih_and), omega (arith, (low_digit x 0).1, ih_or))

pub bit_and-zero : (a : ℕ) → bit_and a 0 ≡ 0
bit_and-zero a = (right_zero a a (omega arith)).0

pub bit_or-zero : (a : ℕ) → bit_or a 0 ≡ a
bit_or-zero a = (right_zero a a (omega arith)).1

pub pow-pos : (k : ℕ) → 0 < 2 ^ k
pow-pos zero = omega arith
pow-pos (suc k) = omega (arith, pow-pos k, pow-suc 2 k)

-- One bit of a word.
pub bit_and_one : (a : ℕ) → bit_and a 1 ≡ a % 2
bit_and_one a = omega (arith, bit_and_step a 1, bit_and-zero (a / 2))

pub bit_and_two : (a : ℕ) → bit_and a 2 ≡ a / 2 % 2 * 2
bit_and_two a = omega (arith, bit_and_step a 2, bit_and_one (a / 2))

pub bit_and_three : (a : ℕ) → bit_and a 3 ≡ a % 4
bit_and_three a = omega (arith, bit_and_step a 3, bit_and_one (a / 2))

pub bit_and_four : (a : ℕ) → bit_and a 4 ≡ a / 4 % 2 * 4
bit_and_four a = omega (arith, bit_and_step a 4, bit_and_two (a / 2))

pub bit_or_one : (a : ℕ) → bit_or a 1 ≡ a / 2 * 2 + 1
bit_or_one a = omega (arith, bit_or_step a 1, bit_or-zero (a / 2))

pub bit_or_two : (a : ℕ) → bit_or a 2 ≡ a / 4 * 4 + 2 + a % 2
bit_or_two a = omega (arith, bit_or_step a 2, bit_or_one (a / 2))

pub bit_or_four : (a : ℕ) → bit_or a 4 ≡ a / 8 * 8 + 4 + a % 4
bit_or_four a = omega (arith, bit_or_step a 4, bit_or_two (a / 2))

bit_and_odd : (a m : ℕ) → bit_and a (2 * m + 1) ≡ bit_and (a / 2) m * 2 + a % 2
bit_and_odd a m =
    let e : (2 * m + 1) / 2 ≡ m = omega arith in rw (bit_and_step a (2 * m + 1), e) (omega arith)

bit_and_even : (a m : ℕ) → bit_and a (2 * m) ≡ bit_and (a / 2) m * 2
bit_and_even a m =
    let e : 2 * m / 2 ≡ m = omega arith in rw (bit_and_step a (2 * m), e) (omega arith)

bit_or_double :
    (a b c d : ℕ) → b < 2 → d < 2 → bit_or (2 * a + b) (2 * c + d) ≡ bit_or a c * 2 + max b d
bit_or_double a b c d hb hd =
    let e : (2 * a + b) / 2 ≡ a = omega arith in
    let g : (2 * c + d) / 2 ≡ c = omega arith in
    rw (bit_or_step (2 * a + b) (2 * c + d), e, g) (omega arith)

-- A mask of ones keeps a word that it covers.
pub bit_and_ones : (k a : ℕ) → a < 2 ^ k → bit_and a (2 ^ k - 1) ≡ a
bit_and_ones zero a h = omega (arith, bit_and-zero a)
bit_and_ones (suc k) a h =
    let p = pow-suc 2 k in
    let ih = bit_and_ones k (a / 2) (omega (arith, p)) in
    let pos = pow-pos k in
    let e : 2 ^ suc k - 1 ≡ 2 * (2 ^ k - 1) + 1 = omega (arith, p) in
    rw e (omega (arith, bit_and_odd a (2 ^ k - 1), ih))

-- Digits below a shifted word are kept.
pub bit_or_shift :
    (k q t r : ℕ) → r < 2 ^ k → bit_or (q * 2 ^ k + r) (t * 2 ^ k) ≡ bit_or q t * 2 ^ k + r
bit_or_shift zero q t r h =
    let e : q * 2 ^ 0 + r ≡ q = omega arith in
    let g : t * 2 ^ 0 ≡ t = omega arith in rw (e, g) (omega arith)
bit_or_shift (suc k) q t r h =
    let p = pow-suc 2 k in
    let ih = bit_or_shift k q t (r / 2) (omega (arith, p)) in
    let e : q * 2 ^ suc k + r ≡ 2 * (q * 2 ^ k + r / 2) + r % 2 =
      omega (arith, ap (λ (w : ℕ). q * w) p) in
    let g : t * 2 ^ suc k ≡ 2 * (t * 2 ^ k) + 0 = omega (arith, ap (λ (w : ℕ). t * w) p) in
    rw (e, g)
      (omega (
        arith,
        bit_or_double (q * 2 ^ k + r / 2) (r % 2) (t * 2 ^ k) 0,
        ih,
        ap (λ (w : ℕ). bit_or q t * w) p,
      ))

-- Clearing one bit of a 32-bit word by the complement of its mask.
pub bit_and_clear_one : (a : ℕ) → a < 2 ^ 32 → bit_and a (2 ^ 32 - 1 - 1) ≡ a / 2 * 2
bit_and_clear_one a h =
    omega (arith, bit_and_even a (2 ^ 31 - 1), bit_and_ones 31 (a / 2) (omega arith))

pub bit_and_clear_two : (a : ℕ) → a < 2 ^ 32 → bit_and a (2 ^ 32 - 1 - 2) ≡ a / 4 * 4 + a % 2
bit_and_clear_two a h = omega (
  arith,
  bit_and_odd a (2 ^ 31 - 2),
  bit_and_even (a / 2) (2 ^ 30 - 1),
  bit_and_ones 30 (a / 2 / 2) (omega arith),
)

-- The word whose k lowest bits are clear and whose w next ones are set.
abbrev high_mask : ℕ → ℕ → ℕ
high_mask w zero = 2 ^ w - 1
high_mask w (suc k) = 2 * high_mask w k

-- The number of values of such a word, by recursion on k.
values_zero : (w : ℕ) → 2 ^ (0 + w) ≡ 2 ^ w
values_zero w = ap (λ (u : ℕ). 2 ^ u) (omega arith)

values_suc : (w k : ℕ) → 2 ^ (suc k + w) ≡ 2 * 2 ^ (k + w)
values_suc w k =
    let e : suc k + w ≡ suc (k + w) = omega arith in rw e (omega (arith, pow-suc 2 (k + w)))

high_mask_lem : (w k : ℕ) → high_mask w k + 2 ^ k ≡ 2 ^ (k + w)
high_mask_lem w zero = omega (arith, pow-pos w, values_zero w)
high_mask_lem w (suc k) = omega (arith, high_mask_lem w k, pow-suc 2 k, values_suc w k)

-- Clearing the low bits rounds down, whatever multiple of the unit stands in front.
pub rounds_down :
    (w k x : ℕ)
    → x < 2 ^ (k + w)
    → (q : ℕ) × (q * 2 ^ k ≤ x)
      × (x < q * 2 ^ k + 2 ^ k)
      × ((b : ℕ)
          → x + b * 2 ^ k < 2 ^ (k + w)
          → bit_and (x + b * 2 ^ k) (2 ^ (k + w) - 2 ^ k) ≡ q * 2 ^ k + b * 2 ^ k)
rounds_down w k x fits =
    let (q, low, high, e) = masked k x fits in
    let m : 2 ^ (k + w) - 2 ^ k ≡ high_mask w k = omega (arith, high_mask_lem w k) in
    (q, low, high, (λ b small. rw m (e b small)))
  where
    masked :
        (k x : ℕ)
        → x < 2 ^ (k + w)
        → (q : ℕ) × (q * 2 ^ k ≤ x)
          × (x < q * 2 ^ k + 2 ^ k)
          × ((b : ℕ)
              → x + b * 2 ^ k < 2 ^ (k + w)
              → bit_and (x + b * 2 ^ k) (high_mask w k) ≡ q * 2 ^ k + b * 2 ^ k)
    masked zero x fits = (
      x,
      omega arith,
      omega arith,
      (λ b small. omega (arith, bit_and_ones w (x + b * 2 ^ 0) (omega (arith, values_zero w)))),
    )
    masked (suc k) x fits =
        let p = pow-suc 2 k in
        let (q, low, high, e) = masked k (x / 2) (omega (arith, values_suc w k)) in
        let qp = ap (λ (u : ℕ). q * u) p in
        (
          q,
          omega (arith, qp),
          omega (arith, qp, p),
          (λ b small.
              let bp = ap (λ (u : ℕ). b * u) p in
              let half : (x + b * 2 ^ suc k) / 2 ≡ x / 2 + b * 2 ^ k = omega (arith, bp) in
              let ih = e b (omega (arith, bp, values_suc w k)) in
              rw (bit_and_even (x + b * 2 ^ suc k) (high_mask w k), half, ih)
                (omega (arith, qp, bp))),
        )
