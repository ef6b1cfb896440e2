-- ===== src/Worker/Asleep.antt =====
-- A notification of include/asyncworker.h that is lost: `add` does not take the lock under which the
-- thread looks at the queue.
use nkvdb.Prelude.{true, false, [], ◌∷◌, ◌≡◌, refl, none}
use nkvdb.Worker.{
  Worker, waiting, nobody, thread_step, Reach, on_thread, started, added, stepped, start, add,
  is_busy,
}

module _ {T S : Type 0} (call : T → S → S) where
  -- An item that is added between the thread's look at the empty queue and its `wait` leaves the thread
  -- asleep with that item in the queue: the worker is busy, not stopped and not paused, and the
  -- thread has no step of its own.
  pub add_lost :
      (eff : S) (item : T)
      → (w : Worker T S) × Reach call eff w (item ∷ [])
        × (w.queue ≡ item ∷ [])
        × (is_busy w ≡ true)
        × (w.stop_flag ≡ false)
        × (w.thread_lock ≡ nobody)
        × (thread_step call w ≡ none)
  unfolding thread_step start add is_busy
  add_lost eff item =
      let before = stepped (stepped started (on_thread refl)) (on_thread refl) in
      (
        record {
          queue = item ∷ [];
          stop_flag = false;
          thread_work = true;
          thread_lock = nobody;
          notified = false;
          place = waiting;
          eff = eff;
        },
        stepped (added item before) (on_thread refl),
        refl,
        refl,
        refl,
        refl,
        refl,
      )
