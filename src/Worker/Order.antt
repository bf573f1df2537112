-- ===== src/Worker/Order.antt =====
-- Which callbacks run, and in which order.
use mathlib.Core.List.{List}
use netframework.Base.{
  ℕ, Bool, true, false, [], ◌∷◌, ◌++◌, append-nil, append_assoc, ◌≡◌, refl, ◌∙◌, sym, ap,
}
use netframework.Worker.{
  Worker, ThreadMsg, post_user_data, timer_expired, exit_thread_msg, Phase, enter_at, process_at,
  test_at, not_started, looping, joining, returned, Timer, no_timer, testing, asleep, ended,
  create_thread, post_msg, exit_thread, enter, dispatch, take_msg, finish, process, test_timer,
  wake_timer,
}
use netframework.Worker.Reach.{
  Reach, constructed, created, entered, posted, exited, processed, tested, woken,
}

module _ {C : Type 0} where
  -- The callbacks among messages, in their order, up to the first request to exit.
  unfoldable pub runnable : List (ThreadMsg C) → List C
  runnable [] = []
  runnable (post_user_data callback ∷ msgs) = callback ∷ runnable msgs
  runnable (timer_expired ∷ msgs) = runnable msgs
  runnable (exit_thread_msg ∷ msgs) = []

  -- The callbacks in the queue that will still run.
  unfoldable pub pending : Phase → List (ThreadMsg C) → List C
  unfolding runnable
  pending not_started queue = runnable queue
  pending looping queue = runnable queue
  pending joining queue = []
  pending returned queue = []

  -- What stands in the queue later runs behind what stands in it now.
  abbrev pub InOrder : List (ThreadMsg C) → Phase → List (ThreadMsg C) → List C → Type 0
  InOrder pushed phase queue ran =
      (more : List (ThreadMsg C)) → runnable (pushed ++ more) ≡ ran ++ pending phase (queue ++ more)

  push-InOrder :
      (pushed : List (ThreadMsg C)) (phase : Phase) (queue : List (ThreadMsg C)) (ran : List C)
      (msg : ThreadMsg C)
      → InOrder pushed phase queue ran
      → InOrder (pushed ++ (msg ∷ [])) phase (queue ++ (msg ∷ [])) ran
  push-InOrder pushed phase queue ran msg order more =
      ap runnable (append_assoc pushed (msg ∷ []) more)
      ∙ order (msg ∷ more)
      ∙ ap (λ q. ran ++ pending phase q) (sym (append_assoc queue (msg ∷ []) more))

  left-pending :
      (w : Worker C) (rest more : List (ThreadMsg C))
      → w.phase ≡ looping
      → w.queue ≡ rest
      → runnable (rest ++ more) ≡ pending w.phase (w.queue ++ more)
  unfolding pending
  left-pending w rest more loops left = sym (
      ap (λ phase. pending phase (w.queue ++ more)) loops
      ∙ ap (λ queue. runnable (queue ++ more)) left)

  dispatch-InOrder :
      (pushed rest : List (ThreadMsg C)) (msg : ThreadMsg C) (w : Worker C)
      → w.phase ≡ looping
      → w.queue ≡ rest
      → InOrder pushed looping (msg ∷ rest) w.ran
      → InOrder pushed (dispatch msg w).phase (dispatch msg w).queue (dispatch msg w).ran
  unfolding dispatch pending runnable
  dispatch-InOrder pushed rest (post_user_data callback) w loops left order more =
      order more
      ∙ sym (append_assoc w.ran (callback ∷ []) (runnable (rest ++ more)))
      ∙ ap (λ later. (w.ran ++ (callback ∷ [])) ++ later) (left-pending w rest more loops left)
  dispatch-InOrder pushed rest timer_expired w loops left order more =
      order more ∙ ap (λ later. w.ran ++ later) (left-pending w rest more loops left)
  dispatch-InOrder pushed rest exit_thread_msg w loops left order more = order more

  take_msg-InOrder :
      (pushed queue : List (ThreadMsg C)) (w : Worker C)
      → w.phase ≡ looping
      → w.queue ≡ queue
      → InOrder pushed w.phase w.queue w.ran
      → InOrder pushed (take_msg queue w).phase (take_msg queue w).queue (take_msg queue w).ran
  unfolding take_msg
  take_msg-InOrder pushed [] w loops left order = order
  take_msg-InOrder pushed (msg ∷ rest) w loops left order =
      dispatch-InOrder pushed rest msg (record w { queue = rest }) loops refl
        (λ more.
          order more
          ∙ ap (λ phase. w.ran ++ pending phase (w.queue ++ more)) loops
          ∙ ap (λ queue. w.ran ++ pending looping (queue ++ more)) left)

  finish-InOrder :
      (pushed : List (ThreadMsg C)) (timer : Timer) (w : Worker C)
      → w.phase ≡ joining
      → InOrder pushed w.phase w.queue w.ran
      → InOrder pushed (finish timer w).phase (finish timer w).queue (finish timer w).ran
  unfolding finish pending
  finish-InOrder pushed no_timer w joins order = order
  finish-InOrder pushed testing w joins order = order
  finish-InOrder pushed asleep w joins order = order
  finish-InOrder pushed ended w joins order =
      λ more. order more ∙ ap (λ phase. w.ran ++ pending phase (w.queue ++ more)) joins

  process_at-InOrder :
      (pushed : List (ThreadMsg C)) (phase : Phase) (w : Worker C)
      → w.phase ≡ phase
      → InOrder pushed w.phase w.queue w.ran
      → InOrder pushed
          (process_at phase w).phase
          (process_at phase w).queue
          (process_at phase w).ran
  unfolding process_at
  process_at-InOrder pushed not_started w at order = order
  process_at-InOrder pushed looping w at order = take_msg-InOrder pushed w.queue w at refl order
  process_at-InOrder pushed joining w at order = finish-InOrder pushed w.timer w at order
  process_at-InOrder pushed returned w at order = order

  enter_at-InOrder :
      (pushed : List (ThreadMsg C)) (phase : Phase) (thread : Bool) (id : ℕ) (w : Worker C)
      → w.phase ≡ phase
      → InOrder pushed w.phase w.queue w.ran
      → InOrder pushed
          (enter_at phase thread id w).phase
          (enter_at phase thread id w).queue
          (enter_at phase thread id w).ran
  unfolding enter_at pending
  enter_at-InOrder pushed not_started true id w at order =
      λ more. order more ∙ ap (λ phase. w.ran ++ pending phase (w.queue ++ more)) at
  enter_at-InOrder pushed not_started false id w at order = order
  enter_at-InOrder pushed looping thread id w at order = order
  enter_at-InOrder pushed joining thread id w at order = order
  enter_at-InOrder pushed returned thread id w at order = order

  test_at-InOrder :
      (pushed : List (ThreadMsg C)) (timer : Timer) (w : Worker C)
      → InOrder pushed w.phase w.queue w.ran
      → InOrder pushed (test_at timer w).phase (test_at timer w).queue (test_at timer w).ran
  unfolding test_at
  test_at-InOrder pushed no_timer w order = order
  test_at-InOrder pushed testing w order = order
  test_at-InOrder pushed asleep w order = order
  test_at-InOrder pushed ended w order = order

  Reach-InOrder :
      (pushed : List (ThreadMsg C)) (w : Worker C)
      → Reach pushed w
      → InOrder pushed w.phase w.queue w.ran
  unfolding create_thread post_msg exit_thread enter process test_timer wake_timer pending
  Reach-InOrder pushed w constructed = λ more. refl
  Reach-InOrder pushed w (created {pushed = p'} {w = w'} r) = Reach-InOrder p' w' r
  Reach-InOrder pushed w (entered {pushed = p'} {w = w'} id r) =
      enter_at-InOrder p' w'.phase w'.thread id w' refl (Reach-InOrder p' w' r)
  Reach-InOrder pushed w (posted {pushed = p'} {w = w'} callback r) =
      push-InOrder p' w'.phase w'.queue w'.ran _ (Reach-InOrder p' w' r)
  Reach-InOrder pushed w (exited {pushed = p'} {w = w'} r) =
      push-InOrder p' w'.phase w'.queue w'.ran _ (Reach-InOrder p' w' r)
  Reach-InOrder pushed w (processed {pushed = p'} {w = w'} r) =
      process_at-InOrder p' w'.phase w' refl (Reach-InOrder p' w' r)
  Reach-InOrder pushed w (tested {pushed = p'} {w = w'} r) =
      test_at-InOrder p' w'.timer w' (Reach-InOrder p' w' r)
  Reach-InOrder pushed w (woken {pushed = p'} {w = w'} sleeps r) =
      push-InOrder p' w'.phase w'.queue w'.ran _ (Reach-InOrder p' w' r)

-- In every run, whatever the order of the threads' steps, the callbacks that have run, followed by
-- those that wait in the queue of a worker that is not exiting, are the callbacks that were posted
-- before the first request to exit, each once and in the order in which they were posted.
pub Reach-runnable :
    {C : Type 0} (pushed : List (ThreadMsg C)) (w : Worker C)
    → Reach pushed w
    → w.ran ++ pending w.phase w.queue ≡ runnable pushed
Reach-runnable pushed w r = sym (
    ap runnable (sym (append-nil pushed))
    ∙ Reach-InOrder pushed w r []
    ∙ ap (λ queue. w.ran ++ pending w.phase queue) (append-nil w.queue))
