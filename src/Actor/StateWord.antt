-- ===== src/Actor/StateWord.antt =====
-- header/actor-zeta/actor/cooperative_actor.hpp, lines 18 to 99: the atomic word `actor_state` of
-- an actor, three flags in the low bits and the number of senders in flight above them.
pub mod Laws
use Prim.Native.Nat.{bit_and, bit_or}
use actor_zeta.Base.{ℕ, ◌+◌, ◌-◌, ◌*◌, ◌/◌, ◌%◌, ◌^◌, Bool, true, false, not, ◌==◌, if◌then◌else◌}

-- A `uint32_t`.
abbrev pub ActorState : Type 0
ActorState = ℕ

abbrev pub u32_mod : ℕ
u32_mod = 2 ^ 32

-- `~static_cast<uint32_t>(x)`
abbrev pub complement : ℕ → ℕ
complement x = u32_mod - 1 - x

abbrev pub idle : ActorState
idle = 0

unfoldable pub is_scheduled : ActorState → Bool
is_scheduled s = not (bit_and s 1 == 0)

unfoldable pub is_running : ActorState → Bool
is_running s = not (bit_and s 2 == 0)

unfoldable pub is_destroying : ActorState → Bool
is_destroying s = not (bit_and s 4 == 0)

unfoldable pub set_scheduled : ActorState → Bool → ActorState
set_scheduled s value = if value then bit_or s 1 else bit_and s (complement 1)

unfoldable pub set_running : ActorState → Bool → ActorState
set_running s value = if value then bit_or s 2 else bit_and s (complement 2)

unfoldable pub set_destroying : ActorState → ActorState
set_destroying s = bit_or s 4

abbrev pub sender_step : ℕ
sender_step = 8

unfoldable pub sender_count : ActorState → ℕ
sender_count s = s / sender_step

unfoldable pub flags_of : ActorState → ActorState
flags_of s = s % sender_step

unfoldable pub add_sender : ActorState → ActorState
add_sender s = (s + sender_step) % u32_mod

unfoldable pub sub_sender : ActorState → ActorState
sub_sender s = (s + u32_mod - sender_step) % u32_mod

unfoldable pub make_state : Bool → Bool → Bool → ActorState
make_state scheduled running destroying =
    let bits : ℕ = 0 in
    let bits1 = if scheduled then bit_or bits 1 else bits in
    let bits2 = if running then bit_or bits1 2 else bits1 in
    if destroying then bit_or bits2 4 else bits2
