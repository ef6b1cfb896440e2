-- ===== src/Worker/Fifo.antt =====
-- The order in which the thread of include/asyncworker.h calls, and what a client sees that has
-- paused it.
use nkvdb.Prelude.{Bool, true, false, List, [], ◌∷◌, ◌++◌, ◌≡◌, refl, some, arith}
use mathlib.Core.List.{append-nil, append_assoc}
use nkvdb.Worker.{
  Worker, Place, starting, waiting, finished, calling, Owner, thread, client, thread_step, Step,
  Reach, on_thread, spuriously, paused, continued, stopping, killing, started, added, stepped,
  start, add, wake, pause_work, continue_work, set_stop, kill_round,
}

-- The item under way.
abbrev pub current : {T : Type 0} → Place T → List T
current (calling x) = x ∷ []
current _ = []

-- The places at which the thread holds the lock.
abbrev pub owns : {T : Type 0} → Place T → Bool
owns starting = false
owns waiting = false
owns finished = false
owns _ = true

abbrev pub is_thread : Owner → Bool
is_thread thread = true
is_thread _ = false

module _ {T S : Type 0} (call : T → S → S) where
  -- The calls of a list of items, one after the other.
  abbrev pub call_all : List T → S → S
  call_all [] s = s
  call_all (x ∷ xs) s = call_all xs (call x s)

  call_all-append : (xs ys : List T) (s : S) → call_all (xs ++ ys) s ≡ call_all ys (call_all xs s)
  call_all-append [] ys s = refl
  call_all-append (x ∷ xs) ys s = call_all-append xs ys (call x s)

  -- Of the items added some are done, in order; then come the one under way and those queued.
  pub record IsFifo (eff : S) (w : Worker T S) (items : List T) : Type 0 where
    pub finished_items : List T
    pub in_order : items ≡ finished_items ++ (current w.place ++ w.queue)
    pub effect : w.eff ≡ call_all finished_items eff
    pub locked : is_thread w.thread_lock ≡ owns w.place

  module _ (eff : S) (items : List T) where
    thread_step-IsFifo :
        (w u : Worker T S) → thread_step call w ≡ some u → IsFifo eff w items → IsFifo eff u items
    unfolding thread_step wake
    thread_step-IsFifo w u e f = record {
      finished_items = f.finished_items ++ current w.place;
      in_order = ground (
        arith,
        e,
        f.in_order,
        append-nil f.finished_items,
        append_assoc f.finished_items (current w.place) w.queue,
      );
      effect = ground (arith, e, f.effect, call_all-append f.finished_items (current w.place) eff);
      locked = ground (arith, e, f.locked);
    }

    Step-IsFifo : (w u : Worker T S) → Step call w u → IsFifo eff w items → IsFifo eff u items
    unfolding wake pause_work continue_work set_stop kill_round
    Step-IsFifo w u (on_thread h) f = thread_step-IsFifo w u h f
    Step-IsFifo w u (spuriously g h) f = record {
      finished_items = f.finished_items;
      in_order = ground (arith, g, h, f.in_order);
      effect = ground (arith, h, f.effect);
      locked = ground (arith, g, h, f.locked);
    }
    Step-IsFifo w u (paused h) f = record {
      finished_items = f.finished_items;
      in_order = ground (arith, h, f.in_order);
      effect = ground (arith, h, f.effect);
      locked = ground (arith, h, f.locked);
    }
    Step-IsFifo w u (continued h) f = record {
      finished_items = f.finished_items;
      in_order = f.in_order;
      effect = f.effect;
      locked = ground (arith, h, f.locked);
    }
    Step-IsFifo w u stopping f = record {
      finished_items = f.finished_items;
      in_order = f.in_order;
      effect = f.effect;
      locked = f.locked;
    }
    Step-IsFifo w u (killing h) f = record {
      finished_items = f.finished_items;
      in_order = ground (arith, f.in_order);
      effect = ground (arith, f.effect);
      locked = ground (arith, f.locked);
    }

  add-IsFifo :
      (eff : S) (w : Worker T S) (items : List T) (item : T)
      → IsFifo eff w items
      → IsFifo eff (add item w) (items ++ item ∷ [])
  unfolding add
  add-IsFifo eff w items item f = record {
    finished_items = f.finished_items;
    in_order = ground (
      arith,
      f.in_order,
      append_assoc f.finished_items (current w.place ++ w.queue) (item ∷ []),
      append_assoc (current w.place) w.queue (item ∷ []),
    );
    effect = f.effect;
    locked = f.locked;
  }

  -- However clients and the thread take turns, the items called so far are the first ones added, each
  -- once and in the order of adding, and the state is what these calls make of the first one;
  -- the item under way comes next, then the queue. The thread has the lock except before its
  -- start, in `wait`, and at its end.
  pub Reach-IsFifo :
      (eff : S) (w : Worker T S) (items : List T) → Reach call eff w items → IsFifo eff w items
  unfolding start
  Reach-IsFifo eff w items started = record {
    finished_items = [];
    in_order = refl;
    effect = refl;
    locked = refl;
  }
  Reach-IsFifo eff w items (added {w = v} {items = old} item r) =
      add-IsFifo eff v old item (Reach-IsFifo eff v old r)
  Reach-IsFifo eff w items (stepped {w = v} r st) =
      Step-IsFifo eff items v w st (Reach-IsFifo eff v items r)

  -- A client that holds the thread's lock and sees an empty queue sees the effect of every item added
  -- so far, in order.
  pub paused_is_complete :
      (eff : S) (w : Worker T S) (items : List T)
      → Reach call eff w items
      → w.thread_lock ≡ client
      → w.queue ≡ []
      → w.eff ≡ call_all items eff
  paused_is_complete eff w items r h g =
      let f = Reach-IsFifo eff w items r in
      ground (arith, h, g, f.in_order, f.effect, f.locked, append-nil f.finished_items)
