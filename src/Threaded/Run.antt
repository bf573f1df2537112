-- ===== src/Threaded/Run.antt =====
-- Where a call that is guarded by `checkThread` runs.
use netframework.Base.{
  ℕ, true, false, some, [], ◌∷◌, ◌++◌, if◌then◌else◌, length, ◌≡◌, ◌≢◌, refl, ◌∙◌, ap, arith,
}
use netframework.Worker.{Worker, post_user_data, looping, post_msg}
use netframework.Worker.Order.{runnable}
use netframework.Worker.Drain.{rounds, rounds-runnable}
use netframework.Threaded.{is_same_thread, check_thread}

-- On the worker's own thread the caller goes on and nothing is posted.
pub check_thread_own :
    {C : Type 0} (id : ℕ) (callback : C) (thread : Worker C)
    → thread.this_id ≡ some id
    → check_thread id callback thread ≡ (true, thread)
unfolding check_thread is_same_thread
check_thread_own id callback thread own =
    let same : is_same_thread id thread.this_id ≡ true =
      ap (is_same_thread id) own ∙ ground arith in
    ap (λ flag. (flag, if flag then thread else post_msg callback thread)) same

-- On any other thread the caller returns, and the worker's loop, left to itself, runs the call behind
-- what its queue held, unless a request to exit stands in front of it.
pub check_thread_other :
    {C : Type 0} (current id : ℕ) (callback : C) (thread : Worker C)
    → thread.phase ≡ looping
    → thread.this_id ≡ some id
    → current ≢ id
    → ((check_thread current callback thread).0 ≡ false)
      × ((rounds
            (length (thread.queue ++ (post_user_data callback ∷ [])))
            (check_thread current callback thread).1).ran
          ≡ thread.ran ++ runnable (thread.queue ++ (post_user_data callback ∷ [])))
unfolding check_thread is_same_thread post_msg
check_thread_other current id callback thread loops own differs =
    let other : is_same_thread current thread.this_id ≡ false =
      ap (is_same_thread current) own ∙ ground arith in
    (
      other,
      ap
            (λ flag.
              (rounds (length (thread.queue ++ (post_user_data callback ∷ [])))
                (if flag then thread else post_msg callback thread)).ran)
            other
          ∙ rounds-runnable (thread.queue ++ (post_user_data callback ∷ []))
              (post_msg callback thread) loops refl,
    )
