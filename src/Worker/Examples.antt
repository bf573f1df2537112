-- ===== src/Worker/Examples.antt =====
-- A worker that gets two callbacks, is asked to exit, and gets a third.
use mathlib.Core.List.{List}
use netframework.Base.{ℕ, [], ◌∷◌, ◌++◌, ◌≡◌, refl}
use netframework.Worker.{
  Worker, ThreadMsg, post_user_data, exit_thread_msg, new_worker, create_thread, post_msg,
  exit_thread, enter, process, enter_at,
}
use netframework.Worker.Reach.{Reach, constructed, created, entered, posted, exited, processed}
use netframework.Worker.Order.{runnable, pending, Reach-runnable}
use netframework.Worker.Drain.{rounds, rounds-runnable}

abbrev pushed : List (ThreadMsg ℕ)
pushed = post_user_data 1 ∷ post_user_data 2 ∷ exit_thread_msg ∷ post_user_data 3 ∷ []

abbrev loaded : Worker ℕ
loaded = post_msg 3 (exit_thread (post_msg 2 (post_msg 1 (enter 7 (create_thread new_worker)))))

loaded-Reach : Reach pushed loaded
loaded-Reach = posted 3 (exited (posted 2 (posted 1 (entered 7 (created constructed)))))

-- After one round.
Reach-runnable_example :
    (process loaded).ran ++ pending (process loaded).phase (process loaded).queue ≡ 1 ∷ 2 ∷ []
unfolding runnable
Reach-runnable_example = Reach-runnable pushed (process loaded) (processed loaded-Reach)

rounds-runnable_example : (rounds 4 loaded).ran ≡ 1 ∷ 2 ∷ []
unfolding runnable post_msg exit_thread enter enter_at create_thread
rounds-runnable_example = rounds-runnable pushed loaded refl refl
