-- ===== src/Threaded/Examples.antt =====
-- A call from the thread 1 to an object whose thread is 7.
use netframework.Base.{ℕ, false, [], ◌∷◌, ◌≡◌, refl, arith}
use netframework.Worker.{Worker, enter, enter_at, create_thread, post_msg}
use netframework.Worker.Order.{runnable}
use netframework.Worker.Drain.{rounds}
use netframework.Threaded.{new_threaded, check_thread}
use netframework.Threaded.Run.{check_thread_other}

-- One call is waiting.
abbrev busy : Worker ℕ
busy = post_msg 4 (enter 7 new_threaded)

check_thread_other_example :
    ((check_thread 1 5 busy).0 ≡ false) × ((rounds 2 (check_thread 1 5 busy).1).ran ≡ 4 ∷ 5 ∷ [])
unfolding post_msg enter enter_at create_thread runnable
check_thread_other_example = check_thread_other 1 7 5 busy refl refl (ground arith)
