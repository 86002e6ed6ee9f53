-- ===== src/Actor/Resume/Parking.antt =====
-- What a verdict of `resume_impl` promises, and those of `park`.
use mathlib.Core.Option
use actor_zeta.Base.{
  ℕ, ◌≤◌, ◌≡◌, ◌≢◌, refl, Bool, true, false, not, ◌&&◌, List, length, Option, some, arith,
  Bool-cases, inl, inr, if◌then◌else◌,
}
use actor_zeta.Queue.Links.{Ptr}
use actor_zeta.Scheduler.{ResumeResult, resume, awaiting, done}
use actor_zeta.Actor.Resume.{
  MailboxOps, MailboxLaws, Behaving, quiet, adrift, busy, is_busy, is_done, Outside, Verdict, park,
}

abbrev pub is_resume : ResumeResult → Bool
is_resume resume = true
is_resume _ = false

abbrev pub is_awaiting : ResumeResult → Bool
is_awaiting awaiting = true
is_awaiting _ = false

-- At most so many messages were handled; the actor stays scheduled exactly if the verdict is
-- `resume`; and it goes to sleep only with a behavior that is done.
pub record IsFair {B : Type 0} (most : ℕ) (v : Verdict B) : Type 0 where
  pub bounded : v.handled ≤ most
  pub counted : length v.messages ≡ v.handled
  pub scheduled : v.keep_scheduled ≡ is_resume v.result
  pub not_stranded : is_awaiting v.result && not (is_done v.behaving) ≡ false

-- The function returns, and fairly.
abbrev pub Returns : {B : Type 0} → ℕ → Option (Verdict B) → Type 0
Returns {B} most r = (v : Verdict B) × (r ≡ some v) × IsFair most v

-- The mailbox is sound, or open, whatever the others do before any of the actor's accesses.
abbrev pub Keeps : {B : Type 0} → Outside B → (B → Type 0) → Type 0
Keeps {B} outside IsGood = (k n : ℕ) (b : B) → IsGood b → IsGood (outside.others k n b)

-- A behavior that is not busy is done.
pub done_lem :
    (behaving : Behaving) → behaving ≢ adrift → is_busy behaving ≡ false → is_done behaving ≡ true
done_lem quiet moored still = refl
done_lem adrift moored still = absurd (moored refl)
done_lem (busy ready) moored still = absurd (ground arith)

module _ {B : Type 0} where
  -- The actor is done with: no behavior is asked for.
  pub done-IsFair :
      (box : B) (behaving : Behaving) (handled most : ℕ) (messages : List Ptr)
      → handled ≤ most
      → length messages ≡ handled
      → IsFair {B = B} most (record {
        result = done;
        handled = handled;
        keep_scheduled = false;
        mailbox = box;
        behaving = behaving;
        messages = messages;
      })
  done-IsFair box behaving handled most messages few counted = record {
    bounded = few;
    counted = counted;
    scheduled = refl;
    not_stranded = refl;
  }

  -- The actor goes on later.
  pub resume-IsFair :
      (box : B) (behaving : Behaving) (handled most : ℕ) (messages : List Ptr)
      → handled ≤ most
      → length messages ≡ handled
      → IsFair {B = B} most (record {
        result = resume;
        handled = handled;
        keep_scheduled = true;
        mailbox = box;
        behaving = behaving;
        messages = messages;
      })
  resume-IsFair box behaving handled most messages few counted = record {
    bounded = few;
    counted = counted;
    scheduled = refl;
    not_stranded = refl;
  }

module _ {B : Type 0} (ops : MailboxOps B) (laws : MailboxLaws ops) (outside : Outside B)
    (sound_kept : Keeps outside laws.IsSound) (open_kept : Keeps outside laws.IsOpen) where
  -- The check of the race window comes to an answer, on a sound mailbox.
  race_window_lem :
      (handled : ℕ) (box : B)
      → laws.IsSound box
      → (r : Bool × B) × ((if ops.blocked box
            then some (false, box)
            else Option.map
                (λ (r : Bool × B). (not r.0, r.1))
                (ops.empty (outside.others handled 11 box)))
          ≡ some r)
  race_window_lem handled box sound = elim (Bool-cases (ops.blocked box)) [
    | inl b ↦ rw b (_, refl)
    | inr b ↦
        let (r, run, after) =
          laws.empty_stays (outside.others handled 11 box)
            (open_kept handled 11 box (laws.unblocked_open box sound b)) in
        rw (b, run) (_, refl)
  ]

  pub park_lem :
      (box : B) (behaving : Behaving) (handled most : ℕ) (messages : List Ptr)
      → laws.IsSound box
      → is_done behaving ≡ true
      → handled ≤ most
      → length messages ≡ handled
      → Returns most (park ops outside box behaving handled messages)
  unfolding park
  park_lem box behaving handled most messages sound still few counted =
      let tried = ops.try_block (outside.others handled 9 box) in
      let (r, run) = race_window_lem handled (outside.others handled 10 tried.0) (
        sound_kept handled 10 tried.0
          (laws.block_sound (outside.others handled 9 box) (sound_kept handled 9 box sound))) in
      elim (Bool-cases tried.1) [
        | inr lost ↦
            rw (still, lost)
              (
                _,
                refl,
                record { bounded = few; counted = counted; scheduled = refl; not_stranded = refl },
              )
        | inl did ↦ elim (Bool-cases r.0) [
          | inl k ↦
              rw (still, did, run, k)
                (
                  _,
                  refl,
                  record {
                    bounded = few;
                    counted = counted;
                    scheduled = refl;
                    not_stranded = refl;
                  },
                )
          | inr k ↦
              rw (still, did, run, k)
                (
                  _,
                  refl,
                  record {
                    bounded = few;
                    counted = counted;
                    scheduled = refl;
                    not_stranded = rw still refl;
                  },
                )
        ]
      ]
