-- ===== src/Worker.antt =====
-- include/asyncworker.h: the queue and the thread of class AsyncWorker, whose threads interleave in
-- any order. `call` is virtual: it is an argument, and works on a state of type `S`.
pub mod Fifo
pub mod Drain
pub mod Asleep
mod Tests
use nkvdb.Prelude.{
  ℕ, zero, suc, Bool, true, false, List, [], ◌∷◌, ◌++◌, ◌&&◌, ◌≡◌, Option, none, some,
  if◌then◌else◌,
}

-- Who holds `m_thread_lock`: nobody, the thread, or a client between `pause_work` and
-- `continue_work`.
pub data Owner : Type 0 where
  nobody thread client : Owner

-- Where the thread stands in `_thread_func`: before the lock, at the test of the inner loop, past it
-- with an empty queue, in `wait`, behind `wait`, at the test of the stop flag, at the pop, in
-- `call`, and at the end.
pub data Place (T : Type 0) : Type 0 where
  starting testing going_to_wait waiting awake stop_test popping finished : Place T
  calling : T → Place T

-- `m_add_lock` is held only for a push and for a pop, each of which is one step. `notified` says
-- that a notification has reached the thread in `wait`.
pub record Worker (T S : Type 0) : Type 0 where
  pub queue : List T
  pub stop_flag : Bool
  pub thread_work : Bool
  pub thread_lock : Owner
  pub notified : Bool
  pub place : Place T
  pub eff : S

abbrev pub is_free : Owner → Bool
is_free nobody = true
is_free _ = false

abbrev pub in_wait : {T : Type 0} → Place T → Bool
in_wait waiting = true
in_wait _ = false

module _ {T S : Type 0} where
  -- `start`, with the state that `call` will work on.
  unfoldable pub start : S → Worker T S
  start eff = record {
    queue = [];
    stop_flag = false;
    thread_work = false;
    thread_lock = nobody;
    notified = false;
    place = starting;
    eff = eff;
  }

  -- `notify_one` reaches a thread in `wait` only.
  abbrev pub notify_one : Worker T S → Worker T S
  notify_one w = record w { notified = (if in_wait w.place then true else w.notified) }

  -- `add`.
  unfoldable pub add : T → Worker T S → Worker T S
  add item w = notify_one (record w { queue = w.queue ++ item ∷ [] })

  unfoldable pub is_busy : Worker T S → Bool
  is_busy w = elim w.queue [ [] ↦ false | x ∷ xs ↦ true ]

  -- `pause_work`, once the lock is free, and `continue_work`.
  unfoldable pub pause_work : Worker T S → Option (Worker T S)
  pause_work w = if is_free w.thread_lock then some (record w { thread_lock = client }) else none

  unfoldable pub continue_work : Worker T S → Worker T S
  continue_work w = record w { thread_lock = nobody }

  -- The parts of `kill`: setting the flag, and one round of its loop.
  unfoldable pub set_stop : Worker T S → Worker T S
  set_stop w = record w { stop_flag = true }

  unfoldable pub kill_round : Worker T S → Worker T S
  kill_round w = if w.thread_work then notify_one w else w

  -- `wait` returns, when the lock can be had again.
  unfoldable pub wake : Worker T S → Option (Worker T S)
  wake w =
      if is_free w.thread_lock
      then some (record w { thread_lock = thread; place = awake })
      else none

module _ {T S : Type 0} (call : T → S → S) where
  -- The next step of the thread, or none while it has to wait or is at its end.
  unfoldable pub thread_step : Worker T S → Option (Worker T S)
  unfolding wake
  thread_step w = elim w.place [
    | starting ↦
        if is_free w.thread_lock
        then some (record w { thread_lock = thread; thread_work = true; place = testing })
        else none
    | testing ↦ elim w.queue [
      | [] ↦ some (record w { place = going_to_wait })
      | x ∷ xs ↦ some (record w { place = stop_test })
    ]
    | going_to_wait ↦ some (record w { place = waiting; thread_lock = nobody; notified = false })
    | waiting ↦ if w.notified then wake w else none
    | awake ↦ some (record w { place = (if w.stop_flag then stop_test else testing) })
    | stop_test ↦
        if w.stop_flag
        then some (record w { place = finished; thread_work = false; thread_lock = nobody })
        else some (record w { place = popping })
    | popping ↦ elim w.queue [
      | [] ↦ none
      | x ∷ xs ↦ some (record w { queue = xs; place = calling x })
    ]
    | calling x ↦ some (record w { eff = call x w.eff; place = testing })
    | finished ↦ none
  ]

  -- What can happen in a state. `wait` may also return with no notification.
  pub data Step (w : Worker T S) : Worker T S → Type 0 where
    on_thread : {u : Worker T S} → thread_step w ≡ some u → Step w u
    spuriously : {u : Worker T S} → in_wait w.place ≡ true → wake w ≡ some u → Step w u
    paused : {u : Worker T S} → pause_work w ≡ some u → Step w u
    continued : w.thread_lock ≡ client → Step w (continue_work w)
    stopping : Step w (set_stop w)
    killing : w.stop_flag ≡ true → Step w (kill_round w)

  -- The states that can be reached, with the items added on the way.
  pub data Reach (eff : S) : Worker T S → List T → Type 0 where
    started : Reach eff (start eff) []
    added :
        {w : Worker T S} {items : List T} (item : T)
        → Reach eff w items
        → Reach eff (add item w) (items ++ item ∷ [])
    stepped : {w u : Worker T S} {items : List T} → Reach eff w items → Step w u → Reach eff u items

  -- `n` steps of the thread, as far as it can go.
  unfoldable pub run : ℕ → Worker T S → Worker T S
  unfolding thread_step
  run zero w = w
  run (suc n) w = elim (thread_step w) [ none ↦ w | some u ↦ run n u ]
