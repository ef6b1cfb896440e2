-- ===== src/Worker/Tests.antt =====
-- Runs of the worker of include/asyncworker.h, and instances of the theorems about it: the one of
-- test/utils_test.cpp, which adds numbers.
use nkvdb.Prelude.{ℕ, ◌+◌, ◌≡◌, refl, true, false, [], ◌∷◌, none}
use nkvdb.Worker.{
  Worker, client, nobody, start, add, Reach, started, added, stepped, paused, thread_step, run,
  pause_work, is_busy,
}
use nkvdb.Worker.Fifo.{IsFifo, Reach-IsFifo, paused_is_complete}
use nkvdb.Worker.Drain.{run_drains, run-Reach}
use nkvdb.Worker.Asleep.{add_lost}

abbrev count_up : ℕ → ℕ → ℕ
count_up item value = value + item

abbrev loaded : Worker ℕ ℕ
unfolding start add
loaded = add 2 (add 1 (start 0))

loaded-Reach : Reach count_up 0 loaded (1 ∷ 2 ∷ [])
unfolding start add
loaded-Reach = added 2 (added 1 started)

-- The thread needs one step to start, four for each item, and two to come to sleep.
run_all : (run count_up 11 loaded).eff ≡ 3
unfolding run thread_step start add
run_all = refl

Reach-IsFifo_example : IsFifo count_up 0 loaded (1 ∷ 2 ∷ [])
Reach-IsFifo_example = Reach-IsFifo count_up 0 loaded (1 ∷ 2 ∷ []) loaded-Reach

run_drains_example :
    (n : ℕ) × ((run count_up n loaded).queue ≡ []) × ((run count_up n loaded).eff ≡ 3)
unfolding start add
run_drains_example = run_drains count_up 0 loaded (1 ∷ 2 ∷ []) loaded-Reach refl refl refl

-- A client that pauses the worker after these steps.
abbrev held : Worker ℕ ℕ
unfolding run thread_step start add
held = record (run count_up 12 loaded) { thread_lock = client }

held-Reach : Reach count_up 0 held (1 ∷ 2 ∷ [])
unfolding run thread_step start add pause_work
held-Reach = stepped (run-Reach count_up 0 (1 ∷ 2 ∷ []) 12 loaded loaded-Reach) (paused refl)

paused_is_complete_example : held.eff ≡ 3
unfolding run thread_step start add
paused_is_complete_example = paused_is_complete count_up 0 held (1 ∷ 2 ∷ []) held-Reach refl refl

add_lost_example :
    (w : Worker ℕ ℕ) × Reach count_up 0 w (5 ∷ [])
    × (w.queue ≡ 5 ∷ [])
    × (is_busy w ≡ true)
    × (w.stop_flag ≡ false)
    × (w.thread_lock ≡ nobody)
    × (thread_step count_up w ≡ none)
add_lost_example = add_lost count_up 0 5
