-- ===== src/Actor/Resume/Verdicts.antt =====
-- The verdicts of `resume_impl`: for every mailbox that keeps the laws, whatever happens outside.
use actor_zeta.Base.{
  ℕ, zero, suc, ◌+◌, ◌≡◌, ◌≢◌, refl, subst, Bool, true, false, List, [], ◌∷◌, ◌++◌, length,
  length-append, Option-cases, arith, Bool-cases, inl, inr, if◌then◌else◌,
}
use actor_zeta.Queue.Links.{Ptr}
use actor_zeta.Actor.Resume.{
  MailboxOps, MailboxLaws, Behaving, quiet, adrift, busy, is_busy, Outside, drain, drain_mailbox,
  resume_impl,
}
use actor_zeta.Actor.Resume.Parking.{
  IsFair, Returns, Keeps, done_lem, park_lem, done-IsFair, resume-IsFair,
}

module _ {B : Type 0} (ops : MailboxOps B) (laws : MailboxLaws ops) (outside : Outside B)
    (sound_kept : Keeps outside laws.IsSound) (open_kept : Keeps outside laws.IsOpen)
    (behavior_moored : (k : ℕ) (p : Ptr) → outside.behavior k p ≢ adrift)
    (resumed_moored : (k : ℕ) → outside.resumed k ≢ adrift) where
  drain-moored :
      (handled : ℕ) (behaving : Behaving)
      → behaving ≢ adrift
      → drain ops outside handled behaving ≢ adrift
  unfolding drain
  drain-moored handled quiet moored = moored
  drain-moored handled adrift moored = moored
  drain-moored handled (busy true) moored = resumed_moored handled
  drain-moored handled (busy false) moored = moored

  drain_mailbox_lem :
      (left handled : ℕ) (box : B) (behaving : Behaving) (messages : List Ptr)
      → laws.IsOpen box
      → behaving ≢ adrift
      → length messages ≡ handled
      → Returns (handled + left) (drain_mailbox ops outside left handled box behaving messages)
  unfolding drain_mailbox
  drain_mailbox_lem zero handled box behaving messages opened moored counted =
      let box1 = outside.others handled 8 box in
      let sound = laws.open_sound box1 (open_kept handled 8 box opened) in
      elim (Bool-cases (ops.closed box1)) [
        | inl c ↦ rw c (
          _,
          refl,
          done-IsFair box1 behaving handled (handled + 0) messages (omega arith) counted,
        )
        | inr c ↦ elim (Bool-cases (is_busy behaving)) [
          | inl b ↦
              rw (c, b)
                (
                  _,
                  refl,
                  resume-IsFair box1 behaving handled (handled + 0) messages (omega arith) counted,
                )
          | inr b ↦
              rw (c, b)
                (park_lem ops laws outside sound_kept open_kept box1 behaving handled (handled + 0)
                  messages sound (done_lem behaving moored b) (omega arith) counted)
        ]
      ]
  drain_mailbox_lem (suc left) handled box behaving messages opened moored counted =
      let most = handled + suc left in
      let box1 = outside.others handled 4 box in
      let open1 = open_kept handled 4 box opened in
      let box2 = outside.others handled 5 box1 in
      let open2 = open_kept handled 5 box1 open1 in
      let box3 = outside.others handled 6 box2 in
      let drained = drain ops outside handled behaving in
      let drained_moored = drain-moored handled behaving moored in
      let open_yet = laws.open_not_blocked box2 open2 in
      let ((msg, box4), popped, open4) = laws.pop_stays box3 (open_kept handled 6 box2 open2) in
      elim (Bool-cases (outside.destroying handled)) [
        | inl d ↦
            rw d (_, refl, done-IsFair box behaving handled most messages (omega arith) counted)
        | inr d ↦ elim (Bool-cases (ops.closed box1)) [
          | inl c ↦
              rw (d, c)
                (_, refl, done-IsFair box1 behaving handled most messages (omega arith) counted)
          | inr c ↦ elim (Bool-cases (is_busy drained)) [
            | inl b ↦
                rw (d, c, open_yet, b)
                  (_, refl, resume-IsFair box2 drained handled most messages (omega arith) counted)
            | inr b ↦ elim (Option-cases msg) [
              | inr (p, m) ↦
                  let after : Behaving =
                    if outside.destroying_then handled
                    then drained
                    else outside.behavior handled p in
                  let after_moored : after ≢ adrift =
                    elim (Bool-cases (outside.destroying_then handled)) [
                      | inl t ↦ rw t drained_moored
                      | inr t ↦ rw t (behavior_moored handled p)
                    ] in
                  let grown : length (messages ++ (p ∷ [])) ≡ suc handled =
                    omega (arith, length-append messages (p ∷ [])) in
                  let (v, run, fair) =
                    drain_mailbox_lem left (suc handled) box4 after (messages ++ (p ∷ [])) open4
                      after_moored grown in
                  let total : suc handled + left ≡ most = omega arith in
                  rw (d, c, open_yet, b, popped, m)
                    (v, run, subst (λ (n : ℕ). IsFair n v) total fair)
              | inl m ↦
                  let box5 = outside.others handled 7 box4 in
                  let sound = laws.open_sound box5 (open_kept handled 7 box4 open4) in
                  elim (Bool-cases (ops.closed box5)) [
                    | inl c' ↦
                        rw (d, c, open_yet, b, popped, m, c')
                          (
                            _,
                            refl,
                            done-IsFair box5 drained handled most messages (omega arith) counted,
                          )
                    | inr c' ↦
                        rw (d, c, open_yet, b, popped, m, c')
                          (park_lem ops laws outside sound_kept open_kept box5 drained handled most
                            messages sound (done_lem drained drained_moored b) (omega arith)
                            counted)
                  ]
            ]
          ]
        ]
      ]

  -- On a sound mailbox resume_impl returns, fairly.
  pub resume_impl-Returns :
      (destroying : Bool) (max_throughput : ℕ) (box : B) (behaving : Behaving)
      → laws.IsSound box
      → behaving ≢ adrift
      → Returns max_throughput (resume_impl ops outside destroying max_throughput box behaving)
  unfolding resume_impl
  resume_impl-Returns true most box behaving sound moored =
      (_, refl, done-IsFair box behaving 0 most [] (omega arith) refl)
  resume_impl-Returns false most box behaving sound moored =
      let box1 = outside.others 0 0 box in
      let sound1 = sound_kept 0 0 box sound in
      let box2 = (ops.try_unblock (outside.others 0 1 box1)).0 in
      let open2 = laws.unblock_opens (outside.others 0 1 box1) (sound_kept 0 1 box1 sound1) in
      let box3 = outside.others 0 2 box2 in
      let open3 = open_kept 0 2 box2 open2 in
      let open_yet = laws.open_not_blocked box3 open3 in
      let drained = drain ops outside 0 behaving in
      let drained_moored = drain-moored 0 behaving moored in
      let ((vacant, box4), asked, open4) =
        laws.empty_stays (outside.others 0 3 box3) (open_kept 0 3 box3 open3) in
      elim (Bool-cases (ops.closed box1)) [
        | inl c ↦ rw c (_, refl, done-IsFair box1 behaving 0 most [] (omega arith) refl)
        | inr c ↦ elim (Bool-cases (is_busy drained)) [
          | inl b ↦ rw (c, b) (_, refl, resume-IsFair box2 drained 0 most [] (omega arith) refl)
          | inr b ↦ elim (Bool-cases vacant) [
            | inl e ↦
                rw (c, b, open_yet, asked, e)
                  (park_lem ops laws outside sound_kept open_kept box4 drained 0 most []
                    (laws.open_sound box4 open4) (done_lem drained drained_moored b) (omega arith)
                    refl)
            | inr e ↦
                let (v, run, fair) =
                  drain_mailbox_lem most 0 box4 drained [] open4 drained_moored refl in
                let same : 0 + most ≡ most = omega arith in
                rw (c, b, open_yet, asked, e) (v, run, subst (λ (n : ℕ). IsFair n v) same fair)
          ]
        ]
      ]
