-- ===== src/Actor/StateWord/Laws.antt =====
-- What the helpers of the state word do, seen through its four parts.
use actor_zeta.Base.{
  ℕ, ◌+◌, ◌-◌, ◌*◌, ◌/◌, ◌%◌, ◌^◌, ◌<◌, ◌≡◌, refl, sym, ap, ◌∙◌, Bool, true, false, ◌==◌, arith,
}
use actor_zeta.Base.Bits.{
  bit_and_one, bit_and_two, bit_and_four, bit_or_one, bit_or_two, bit_or_four, bit_and_clear_one,
  bit_and_clear_two,
}
use actor_zeta.Actor.StateWord.{
  ActorState, u32_mod, is_scheduled, is_running, is_destroying, set_scheduled, set_running,
  set_destroying, sender_count, flags_of, add_sender, sub_sender, make_state,
}

-- The parts of a word.
pub record Parts : Type 0 where
  pub scheduled : Bool
  pub running : Bool
  pub destroying : Bool
  pub senders : ℕ

abbrev pub bit : Bool → ℕ
bit true = 1
bit false = 0

unfoldable pub word : Parts → ActorState
word p = bit p.scheduled + 2 * bit p.running + 4 * bit p.destroying + 8 * p.senders

unfoldable pub parts : ActorState → Parts
parts s = record {
  scheduled = s % 2 == 1;
  running = s / 2 % 2 == 1;
  destroying = s / 4 % 2 == 1;
  senders = s / 8;
}

pub word-parts : (s : ActorState) → word (parts s) ≡ s
unfolding word parts
word-parts s = ground arith

pub parts-word : (p : Parts) → parts (word p) ≡ p
unfolding word parts
parts-word p = ground arith

is_scheduled_lem : (s : ActorState) → is_scheduled s ≡ (parts s).scheduled
unfolding is_scheduled parts
is_scheduled_lem s = ground (arith, bit_and_one s)

is_running_lem : (s : ActorState) → is_running s ≡ (parts s).running
unfolding is_running parts
is_running_lem s = ground (arith, bit_and_two s)

is_destroying_lem : (s : ActorState) → is_destroying s ≡ (parts s).destroying
unfolding is_destroying parts
is_destroying_lem s = ground (arith, bit_and_four s)

pub sender_count_lem : (s : ActorState) → sender_count s ≡ (parts s).senders
unfolding sender_count parts
sender_count_lem s = refl

set_scheduled_lem :
    (s : ActorState) (v : Bool)
    → s < u32_mod
    → parts (set_scheduled s v) ≡ record (parts s) { scheduled = v }
unfolding set_scheduled parts
set_scheduled_lem s true h = ground (arith, bit_or_one s)
set_scheduled_lem s false h = ground (arith, bit_and_clear_one s h)

set_running_lem :
    (s : ActorState) (v : Bool)
    → s < u32_mod
    → parts (set_running s v) ≡ record (parts s) { running = v }
unfolding set_running parts
set_running_lem s true h = ground (arith, bit_or_two s)
set_running_lem s false h = ground (arith, bit_and_clear_two s h)

set_destroying_lem :
    (s : ActorState) → parts (set_destroying s) ≡ record (parts s) { destroying = true }
unfolding set_destroying parts
set_destroying_lem s = ground (arith, bit_or_four s)

-- The writes stay within 32 bits.
pub flag_writes_fit :
    (s : ActorState) (v : Bool)
    → s < u32_mod
    → (set_scheduled s v < u32_mod) × (set_running s v < u32_mod) × (set_destroying s < u32_mod)
unfolding set_scheduled set_running set_destroying
flag_writes_fit s true h = omega (arith, bit_or_one s, bit_or_two s, bit_or_four s)
flag_writes_fit s false h =
    omega (arith, bit_and_clear_one s h, bit_and_clear_two s h, bit_or_four s)

-- The largest number of senders that the word counts without a carry.
abbrev pub max_senders : ℕ
max_senders = 2 ^ 29 - 1

pub add_sender_lem :
    (s : ActorState)
    → s < u32_mod
    → sender_count s < max_senders
    → (parts (add_sender s) ≡ record (parts s) { senders = (parts s).senders + 1 })
      × (add_sender s < u32_mod)
unfolding add_sender sender_count parts
add_sender_lem s h few = (ground arith, omega arith)

pub sub_sender_lem :
    (s : ActorState)
    → s < u32_mod
    → 0 < sender_count s
    → (parts (sub_sender s) ≡ record (parts s) { senders = (parts s).senders - 1 })
      × (sub_sender s < u32_mod)
unfolding sub_sender sender_count parts
sub_sender_lem s h some_left = (ground arith, omega arith)

-- On a 32-bit word every flag test reads its part, and every flag write changes that flag alone
-- and stays within 32 bits.
pub flags_refine_parts :
    (s : ActorState) (v : Bool)
    → s < u32_mod
    → ((is_scheduled s ≡ (parts s).scheduled)
        × (is_running s ≡ (parts s).running)
        × (is_destroying s ≡ (parts s).destroying))
      × ((parts (set_scheduled s v) ≡ record (parts s) { scheduled = v })
          × (parts (set_running s v) ≡ record (parts s) { running = v })
          × (parts (set_destroying s) ≡ record (parts s) { destroying = true }))
      × ((set_scheduled s v < u32_mod) × (set_running s v < u32_mod) × (set_destroying s < u32_mod))
flags_refine_parts s v h = (
  (is_scheduled_lem s, is_running_lem s, is_destroying_lem s),
  (set_scheduled_lem s v h, set_running_lem s v h, set_destroying_lem s),
  flag_writes_fit s v h,
)

-- On a 32-bit word with fewer than 2^29 - 1 senders, add_sender counts one more and keeps the
-- flags, and sub_sender undoes it.
pub sub_sender-add_sender :
    (s : ActorState)
    → s < u32_mod
    → sender_count s < max_senders
    → (sub_sender (add_sender s) ≡ s)
      × (sender_count (add_sender s) ≡ sender_count s + 1)
      × (flags_of (add_sender s) ≡ flags_of s)
unfolding sub_sender add_sender sender_count flags_of
sub_sender-add_sender s h few = omega arith

-- `make_state` is the word of its three flags with no sender.
pub parts-make_state :
    (sch run des : Bool)
    → parts (make_state sch run des)
      ≡ record { scheduled = sch; running = run; destroying = des; senders = 0 }
unfolding make_state parts
parts-make_state true true true = refl
parts-make_state true true false = refl
parts-make_state true false true = refl
parts-make_state true false false = refl
parts-make_state false true true = refl
parts-make_state false true false = refl
parts-make_state false false true = refl
parts-make_state false false false = refl

word-small :
    (sch run des : Bool)
    → word (record { scheduled = sch; running = run; destroying = des; senders = 0 }) < u32_mod
unfolding word
word-small sch run des = ground arith

-- Two words are one when their parts are.
pub parts-injective : (s t : ActorState) → parts s ≡ parts t → s ≡ t
parts-injective s t e = sym (word-parts s) ∙ ap word e ∙ word-parts t

pub make_state-fits : (sch run des : Bool) → make_state sch run des < u32_mod
make_state-fits sch run des =
    let e : make_state sch run des
        ≡ word (record { scheduled = sch; running = run; destroying = des; senders = 0 }) =
      sym (word-parts (make_state sch run des)) ∙ ap word (parts-make_state sch run des) in
    rw e (word-small sch run des)
