-- ===== src/MessageId.antt =====
-- header/actor-zeta/mailbox/id.hpp and priority.hpp: message ids, whose bits 60 and 61 are the
-- priority. A message id is a uint64_t, here a native number.
use Prim.Native.Nat.{bit_and, bit_or}
use actor_zeta.Base.{ℕ, ◌+◌, ◌*◌, ◌/◌, ◌%◌, ◌^◌, ◌<◌, ◌≡◌, ap, ◌∙◌, Bool, false, ◌==◌, arith}
use actor_zeta.Base.Bits.{bit_or_one, bit_or_shift, bit_and_three}

pub data Priority : Type 0 where
  high normal : Priority

-- `high_message_priority` and `normal_message_priority`
abbrev pub priority_code : Priority → ℕ
priority_code high = 0
priority_code normal = 1

pub make_message_id : Priority → ℕ → ℕ
make_message_id normal value = bit_or value (1 * 2 ^ 60)
make_message_id high value = value

unfoldable pub message_priority : ℕ → ℕ
message_priority id = bit_and (id / 2 ^ 60) 3

-- `message::is_high_priority` (impl/mailbox/message.ipp), of the message's command
unfoldable pub is_high_priority : ℕ → Bool
is_high_priority command = message_priority command == 0

message_priority_lem : (id : ℕ) → message_priority id ≡ id / 2 ^ 60 % 4
unfolding message_priority
message_priority_lem id = bit_and_three (id / 2 ^ 60)

-- The normal id of any value is the value with bit 60 set.
make_message_id-normal :
    (value : ℕ)
    → make_message_id normal value ≡ (value / 2 ^ 60 / 2 * 2 + 1) * 2 ^ 60 + value % 2 ^ 60
unfolding make_message_id
make_message_id-normal value =
    let split : value ≡ value / 2 ^ 60 * 2 ^ 60 + value % 2 ^ 60 = omega arith in
    ap (λ v. bit_or v (1 * 2 ^ 60)) split
    ∙ bit_or_shift 60 (value / 2 ^ 60) 1 (value % 2 ^ 60) (omega arith)
    ∙ omega (arith, bit_or_one (value / 2 ^ 60))

-- For a value below 2^60 a made id reads back its priority, keeps the value in the low 60 bits,
-- and is a 64-bit word.
pub message_priority-make_message_id :
    (p : Priority) (value : ℕ)
    → value < 2 ^ 60
    → (message_priority (make_message_id p value) ≡ priority_code p)
      × (make_message_id p value % 2 ^ 60 ≡ value)
      × (make_message_id p value < 2 ^ 64)
message_priority-make_message_id high value h =
    unfold make_message_id in (omega (arith, message_priority_lem value), omega arith, omega arith)
message_priority-make_message_id normal value h = rw (make_message_id-normal value) (
  omega (arith, message_priority_lem ((value / 2 ^ 60 / 2 * 2 + 1) * 2 ^ 60 + value % 2 ^ 60)),
  omega arith,
  omega arith,
)

-- No value, however large, makes a normal id that is taken for a high one.
pub normal-not-high : (value : ℕ) → is_high_priority (make_message_id normal value) ≡ false
unfolding is_high_priority
normal-not-high value =
    ground
      (arith, make_message_id-normal value, message_priority_lem (make_message_id normal value))
