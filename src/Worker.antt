-- ===== src/Worker.antt =====
-- lib/workerthread.cpp: `WorkerThread`, its queue, its loop and its timer, over the type of the
-- callbacks. Each function is what one of the threads does while it holds the mutex, or between two
-- such parts; a callback runs where `process` takes it from the queue.
pub mod Reach
pub mod Order
pub mod Drain
mod Examples
use mathlib.Core.List.{List}
use netframework.Base.{ℕ, Bool, true, false, Option, none, some, [], ◌∷◌, ◌++◌, ◌==◌, if◌then◌else◌}

-- `ThreadMsg`, with a callback that is not null.
pub data ThreadMsg (C : Type 0) : Type 0 where
  post_user_data : C → ThreadMsg C
  timer_expired exit_thread_msg : ThreadMsg C

-- Where `Process` stands: not entered, in its loop, waiting for the timer thread, or returned.
pub data Phase : Type 0 where
  not_started looping joining returned : Phase

-- Where `TimerThread` stands: not started, at the test of `m_timerExit`, asleep, or returned.
pub data Timer : Type 0 where
  no_timer testing asleep ended : Timer

-- The members, where the two threads stand, and the callbacks that have run.
pub record Worker (C : Type 0) : Type 0 where
  pub thread : Bool
  pub this_id : Option ℕ
  pub queue : List (ThreadMsg C)
  pub timer_exit : Bool
  pub phase : Phase
  pub timer : Timer
  pub ran : List C

module _ {C : Type 0} where
  abbrev pub new_worker : Worker C
  new_worker = record {
    thread = false;
    this_id = none;
    queue = [];
    timer_exit = false;
    phase = not_started;
    timer = no_timer;
    ran = [];
  }

  -- The threads it makes run from here on by `enter`.
  unfoldable pub create_thread : Worker C → Worker C
  create_thread w = record w { thread = true }

  abbrev pub push : ThreadMsg C → Worker C → Worker C
  push msg w = record w { queue = w.queue ++ (msg ∷ []) }

  unfoldable pub post_msg : C → Worker C → Worker C
  post_msg callback w = push (post_user_data callback) w

  unfoldable pub exit_thread : Worker C → Worker C
  exit_thread w = push exit_thread_msg w

  -- The thread that was made enters `Process` once.
  unfoldable pub enter_at : Phase → Bool → ℕ → Worker C → Worker C
  enter_at not_started true id w = record w {
    this_id = some id;
    timer_exit = false;
    phase = looping;
    timer = testing;
  }
  enter_at _ _ id w = w

  -- The start of `Process` on the thread with the identity `id`.
  unfoldable pub enter : ℕ → Worker C → Worker C
  unfolding enter_at
  enter id w = enter_at w.phase w.thread id w

  -- What `Process` does with the message it took.
  unfoldable pub dispatch : ThreadMsg C → Worker C → Worker C
  dispatch (post_user_data callback) w = record w { ran = w.ran ++ (callback ∷ []) }
  dispatch timer_expired w = w
  dispatch exit_thread_msg w = record w { timer_exit = true; phase = joining }

  -- An empty queue is waited on.
  unfoldable pub take_msg : List (ThreadMsg C) → Worker C → Worker C
  unfolding dispatch
  take_msg [] w = w
  take_msg (msg ∷ rest) w = dispatch msg (record w { queue = rest })

  -- The end of the exit, once the timer thread has returned.
  unfoldable pub finish : Timer → Worker C → Worker C
  finish ended w = record w { queue = []; phase = returned }
  finish _ w = w

  unfoldable pub process_at : Phase → Worker C → Worker C
  unfolding take_msg finish
  process_at looping w = take_msg w.queue w
  process_at joining w = finish w.timer w
  process_at _ w = w

  -- One round of `Process`.
  unfoldable pub process : Worker C → Worker C
  unfolding process_at
  process w = process_at w.phase w

  unfoldable pub test_at : Timer → Worker C → Worker C
  test_at testing w = record w { timer = if w.timer_exit then ended else asleep }
  test_at _ w = w

  -- `while (!m_timerExit)`
  unfoldable pub test_timer : Worker C → Worker C
  unfolding test_at
  test_timer w = test_at w.timer w

  -- The rest of a round, for a timer that is asleep.
  unfoldable pub wake_timer : Worker C → Worker C
  wake_timer w = record (push timer_expired w) { timer = testing }
