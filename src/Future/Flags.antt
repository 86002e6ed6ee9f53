-- ===== src/Future/Flags.antt =====
-- header/actor-zeta/detail/state_flags.hpp: the flag byte of a shared state, bit by bit, and its
-- atomic reads and writes. `decode` relates it to the std::uint8_t of the code.
use Prim.Native.Nat.{bit_and, bit_or}
use actor_zeta.Base.{
  ℕ, zero, suc, ◌-◌, ◌<◌, ◌≡◌, refl, Bool, true, false, not, ◌&&◌, ◌||◌, ◌==◌, if◌then◌else◌, arith,
}

pub record Flags : Type 0 where
  pub value_set : Bool
  pub error_set : Bool
  pub consumed : Bool
  pub promise_released : Bool
  pub future_released : Bool
  pub promise_finalizing : Bool

abbrev pub empty : Flags
empty = record {
  value_set = false;
  error_set = false;
  consumed = false;
  promise_released = false;
  future_released = false;
  promise_finalizing = false;
}

-- `result_set`, the mask of both outcomes: whether a byte has one of its bits.
unfoldable pub result_set : Flags → Bool
result_set f = f.value_set || f.error_set

-- The bits of a byte, by their masks in state_flags.hpp.
unfoldable pub decode : ℕ → Flags
decode b = record {
  value_set = not (bit_and b 0b0000_0001 == 0);
  error_set = not (bit_and b 0b0000_0010 == 0);
  consumed = not (bit_and b 0b0000_0100 == 0);
  promise_released = not (bit_and b 0b0000_1000 == 0);
  future_released = not (bit_and b 0b0001_0000 == 0);
  promise_finalizing = not (bit_and b 0b0010_0000 == 0);
}

-- `fetch_or` of a mask
unfoldable pub or_flags : Flags → Flags → Flags
or_flags f m = record {
  value_set = f.value_set || m.value_set;
  error_set = f.error_set || m.error_set;
  consumed = f.consumed || m.consumed;
  promise_released = f.promise_released || m.promise_released;
  future_released = f.future_released || m.future_released;
  promise_finalizing = f.promise_finalizing || m.promise_finalizing;
}

-- A test that every number below a bound passes, as evaluation finds out.
passes : (test : ℕ → Bool) → ℕ → Bool
passes test zero = true
passes test (suc bound) = let rest = passes test bound in if test bound then rest else false

passes-below :
    (test : ℕ → Bool) (bound n : ℕ) → n < bound → passes test bound ≡ true → test n ≡ true
unfolding passes
passes-below test zero n small all = absurd (omega arith)
passes-below test (suc bound) n small all = ground (arith, passes-below test bound n)

unfoldable pub same : Bool → Bool → Bool
same true b = b
same false b = not b

same-eq : (a b : Bool) → same a b ≡ true → a ≡ b
unfolding same
same-eq a b h = ground arith

-- Equality of two flag bytes.
unfoldable pub same_flags : Flags → Flags → Bool
unfolding same
same_flags f g =
    same f.value_set g.value_set
    && (same f.error_set g.error_set
        && (same f.consumed g.consumed
            && (same f.promise_released g.promise_released
                && (same f.future_released g.future_released
                    && same f.promise_finalizing g.promise_finalizing))))

pub same_flags-eq : (f g : Flags) → same_flags f g ≡ true → f ≡ g
unfolding same_flags
same_flags-eq f g h = ground arith

pub eq-same_flags : (f g : Flags) → f ≡ g → same_flags f g ≡ true
unfolding same_flags
eq-same_flags f g h = ground arith

or_table :
    passes
      (λ x. passes (λ y. same_flags (decode (bit_or x y)) (or_flags (decode x) (decode y))) 64)
      64
    ≡ true
unfolding passes decode or_flags same_flags
or_table = refl

-- `fetch_and` of a complemented mask
unfoldable pub clear_flags : Flags → Flags → Flags
clear_flags f m = record {
  value_set = f.value_set && not m.value_set;
  error_set = f.error_set && not m.error_set;
  consumed = f.consumed && not m.consumed;
  promise_released = f.promise_released && not m.promise_released;
  future_released = f.future_released && not m.future_released;
  promise_finalizing = f.promise_finalizing && not m.promise_finalizing;
}

clear_table :
    passes
      (λ x.
        passes
          (λ y. same_flags (decode (bit_and x (255 - y))) (clear_flags (decode x) (decode y)))
          64)
      64
    ≡ true
unfolding passes decode clear_flags same_flags
clear_table = refl

result_table :
    passes (λ x. same (not (bit_and x 0b0000_0011 == 0)) (result_set (decode x))) 64 ≡ true
unfolding passes decode result_set same
result_table = refl

-- On bytes and masks made of the six flags, fetch_or, fetch_and of a complement and the test of
-- result_set mean the same on the byte and on the record of flags.
pub decode-byte :
    (x m : ℕ)
    → x < 64
    → m < 64
    → (decode (bit_or x m) ≡ or_flags (decode x) (decode m))
      × (decode (bit_and x (255 - m)) ≡ clear_flags (decode x) (decode m))
      × (not (bit_and x 0b0000_0011 == 0) ≡ result_set (decode x))
decode-byte x m hx hm = (
  same_flags-eq _ _ (passes-below _ 64 m hm (passes-below _ 64 x hx or_table)),
  same_flags-eq _ _ (passes-below _ 64 m hm (passes-below _ 64 x hx clear_table)),
  same-eq _ _ (passes-below _ 64 x hx result_table),
)

-- The masks.
abbrev pub mask_value_set : Flags
mask_value_set = record empty { value_set = true }

abbrev pub mask_error_set : Flags
mask_error_set = record empty { error_set = true }

abbrev pub mask_consumed : Flags
mask_consumed = record empty { consumed = true }

abbrev pub mask_promise_released : Flags
mask_promise_released = record empty { promise_released = true }

abbrev pub mask_future_released : Flags
mask_future_released = record empty { future_released = true }

abbrev pub mask_promise_finalizing : Flags
mask_promise_finalizing = record empty { promise_finalizing = true }
