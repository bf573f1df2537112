-- ===== src/Threaded.antt =====
-- lib/threadedclass.h: `ThreadedClass`, whose members run on a thread of their own. A callback is the
-- call of a member function with its arguments; the overloads of `checkThread` differ in their number.
pub mod Run
mod Examples
use netframework.Base.{ℕ, Bool, true, false, Option, none, some, ◌==◌, if◌then◌else◌}
use netframework.Worker.{Worker, new_worker, create_thread, post_msg, exit_thread}

-- No thread has the identity of a thread that was not entered.
unfoldable pub is_same_thread : ℕ → Option ℕ → Bool
is_same_thread current none = false
is_same_thread current (some id) = current == id

module _ {C : Type 0} where
  -- The constructor.
  abbrev pub new_threaded : Worker C
  new_threaded = create_thread new_worker

  -- The destructor, up to that of the worker thread.
  unfoldable pub destroy : Worker C → Worker C
  destroy thread = exit_thread thread

  -- `checkThread`, called on the thread `current`: whether the caller goes on, and the worker after it.
  unfoldable pub check_thread : ℕ → C → Worker C → Bool × Worker C
  unfolding is_same_thread
  check_thread current callback thread =
      let same = is_same_thread current thread.this_id in
      (same, if same then thread else post_msg callback thread)
