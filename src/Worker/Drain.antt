-- ===== src/Worker/Drain.antt =====
-- The loop of `Process` left to itself: it runs what the queue holds.
use mathlib.Core.List.{List}
use netframework.Base.{
  ℕ, zero, suc, true, [], ◌∷◌, ◌++◌, append-nil, append_assoc, length, ◌≡◌, refl, ◌∙◌, sym, ap, ◌⊎◌,
  inl, inr,
}
use netframework.Worker.{
  Worker, ThreadMsg, post_user_data, timer_expired, exit_thread_msg, looping, joining, returned,
  Timer, no_timer, testing, asleep, ended, dispatch, take_msg, finish, process_at, process,
}
use netframework.Worker.Order.{runnable}

module _ {C : Type 0} where
  -- Rounds of `Process` with no step of another thread between them.
  unfoldable pub rounds : ℕ → Worker C → Worker C
  unfolding process
  rounds zero w = w
  rounds (suc n) w = rounds n (process w)

  finish-ran : (timer : Timer) (w : Worker C) → (finish timer w).ran ≡ w.ran
  unfolding finish
  finish-ran no_timer w = refl
  finish-ran testing w = refl
  finish-ran asleep w = refl
  finish-ran ended w = refl

  -- A worker that is past its loop runs nothing.
  abbrev IsPast : Worker C → Type 0
  IsPast w = (w.phase ≡ joining) ⊎ (w.phase ≡ returned)

  finish-IsPast : (timer : Timer) (w : Worker C) → IsPast w → IsPast (finish timer w)
  unfolding finish
  finish-IsPast no_timer w past = past
  finish-IsPast testing w past = past
  finish-IsPast asleep w past = past
  finish-IsPast ended w past = inr refl

  process_joining : (w : Worker C) → w.phase ≡ joining → process w ≡ finish w.timer w
  unfolding process process_at
  process_joining w at = ap (λ phase. process_at phase w) at

  process_returned : (w : Worker C) → w.phase ≡ returned → process w ≡ w
  unfolding process process_at
  process_returned w at = ap (λ phase. process_at phase w) at

  process-looping :
      (w : Worker C) (queue : List (ThreadMsg C))
      → w.phase ≡ looping
      → w.queue ≡ queue
      → process w ≡ take_msg queue w
  unfolding process process_at
  process-looping w queue at left =
      ap (λ phase. process_at phase w) at ∙ ap (λ q. take_msg q w) left

  rounds_past : (n : ℕ) (w : Worker C) → IsPast w → (rounds n w).ran ≡ w.ran
  unfolding rounds
  rounds_past zero w past = refl
  rounds_past (suc n) w (inl joins) =
      ap (λ v. (rounds n v).ran) (process_joining w joins)
      ∙ rounds_past n (finish w.timer w) (finish-IsPast w.timer w (inl joins))
      ∙ finish-ran w.timer w
  rounds_past (suc n) w (inr done) =
      ap (λ v. (rounds n v).ran) (process_returned w done) ∙ rounds_past n w (inr done)

  -- Where no other thread takes a step, as many rounds of a looping worker as there are messages in
  -- its queue run every callback in front of the first request to exit, in their order, and no
  -- other.
  pub rounds-runnable :
      (queue : List (ThreadMsg C)) (w : Worker C)
      → w.phase ≡ looping
      → w.queue ≡ queue
      → (rounds (length queue) w).ran ≡ w.ran ++ runnable queue
  unfolding rounds take_msg dispatch runnable
  rounds-runnable [] w at left = sym (append-nil w.ran)
  rounds-runnable (post_user_data callback ∷ rest) w at left =
      ap (λ v. (rounds (length rest) v).ran)
        (process-looping w (post_user_data callback ∷ rest) at left)
      ∙ rounds-runnable rest (record w { queue = rest; ran = w.ran ++ (callback ∷ []) }) at refl
      ∙ append_assoc w.ran (callback ∷ []) (runnable rest)
  rounds-runnable (timer_expired ∷ rest) w at left =
      ap (λ v. (rounds (length rest) v).ran) (process-looping w (timer_expired ∷ rest) at left)
      ∙ rounds-runnable rest (record w { queue = rest }) at refl
  rounds-runnable (exit_thread_msg ∷ rest) w at left =
      ap (λ v. (rounds (length rest) v).ran) (process-looping w (exit_thread_msg ∷ rest) at left)
      ∙ rounds_past (length rest) (record w { queue = rest; timer_exit = true; phase = joining })
          (inl refl)
      ∙ sym (append-nil w.ran)
