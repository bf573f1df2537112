-- ===== src/Worker/Reach.antt =====
-- The runs of a worker: any order of the steps of its threads and of the threads that post to it.
use mathlib.Core.List.{List}
use netframework.Base.{ℕ, [], ◌∷◌, ◌++◌, ◌≡◌}
use netframework.Worker.{
  Worker, ThreadMsg, post_user_data, timer_expired, exit_thread_msg, asleep, new_worker,
  create_thread, post_msg, exit_thread, enter, process, test_timer, wake_timer,
}

module _ {C : Type 0} where
  -- `Reach pushed w`: a run leads to `w` in which the messages `pushed` were put into the queue.
  pub data Reach : List (ThreadMsg C) → Worker C → Type 0 where
    constructed : Reach [] new_worker
    created :
        {pushed : List (ThreadMsg C)} {w : Worker C}
        → Reach pushed w
        → Reach pushed (create_thread w)
    entered :
        {pushed : List (ThreadMsg C)} {w : Worker C} (id : ℕ)
        → Reach pushed w
        → Reach pushed (enter id w)
    posted :
        {pushed : List (ThreadMsg C)} {w : Worker C} (callback : C)
        → Reach pushed w
        → Reach (pushed ++ (post_user_data callback ∷ [])) (post_msg callback w)
    exited :
        {pushed : List (ThreadMsg C)} {w : Worker C}
        → Reach pushed w
        → Reach (pushed ++ (exit_thread_msg ∷ [])) (exit_thread w)
    processed :
        {pushed : List (ThreadMsg C)} {w : Worker C} → Reach pushed w → Reach pushed (process w)
    tested :
        {pushed : List (ThreadMsg C)} {w : Worker C} → Reach pushed w → Reach pushed (test_timer w)
    woken :
        {pushed : List (ThreadMsg C)} {w : Worker C}
        → w.timer ≡ asleep
        → Reach pushed w
        → Reach (pushed ++ (timer_expired ∷ [])) (wake_timer w)
