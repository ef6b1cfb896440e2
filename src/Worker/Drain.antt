-- ===== src/Worker/Drain.antt =====
-- That the thread of include/asyncworker.h, once awake, comes to the end of its queue.
use nkvdb.Prelude.{
  ℕ, zero, suc, Bool, true, false, List, [], ◌∷◌, ◌||◌, ◌≡◌, refl, some, arith, ◌∙◌, ap, inl, inr,
  Option-cases,
}
use mathlib.Core.List.{append-nil}
use nkvdb.Worker.{
  Worker, Place, starting, testing, going_to_wait, waiting, awake, stop_test, popping, finished,
  calling, Owner, nobody, thread, client, thread_step, Step, Reach, on_thread, spuriously, paused,
  continued, stopping, killing, started, added, stepped, start, add, wake, pause_work,
  continue_work, set_stop, kill_round, run,
}
use nkvdb.Worker.Fifo.{Reach-IsFifo, call_all, owns, is_thread}

abbrev has_items : {T : Type 0} → List T → Bool
has_items [] = false
has_items (x ∷ xs) = true

-- What holds where the thread is about to take an item.
abbrev sure : {T S : Type 0} → Worker T S → Bool
sure w = elim w.place [
  | popping ↦ has_items w.queue
  | stop_test ↦ w.stop_flag || has_items w.queue
  | _ ↦ true
]

-- Places from which the thread goes on: not those where it is asleep, or will be, or at its end.
abbrev pub is_up : {T : Type 0} → Place T → Bool → Bool
is_up going_to_wait notified = false
is_up waiting notified = notified
is_up finished notified = false
is_up _ notified = true

abbrev pub is_client : Owner → Bool
is_client client = true
is_client _ = false

module _ {T S : Type 0} (call : T → S → S) where
  Step-sure : (w u : Worker T S) → Step call w u → sure w ≡ true → sure u ≡ true
  unfolding thread_step wake pause_work continue_work set_stop kill_round
  Step-sure w u (on_thread h) f = ground (arith, h, f)
  Step-sure w u (spuriously g h) f = ground (arith, g, h, f)
  Step-sure w u (paused h) f = ground (arith, h, f)
  Step-sure w u (continued h) f = ground (arith, h, f)
  Step-sure w u stopping f = ground (arith, f)
  Step-sure w u (killing h) f = ground (arith, f)

  add-sure : (w : Worker T S) (item : T) → sure w ≡ true → sure (add item w) ≡ true
  unfolding add
  add-sure w item f = ground (arith, f)

  -- The thread takes no item from an empty queue.
  pub Reach-sure :
      (eff : S) (w : Worker T S) (items : List T) → Reach call eff w items → sure w ≡ true
  unfolding start
  Reach-sure eff w items started = refl
  Reach-sure eff w items (added {w = v} {items = old} item r) =
      add-sure v item (Reach-sure eff v old r)
  Reach-sure eff w items (stepped {w = v} r st) = Step-sure v w st (Reach-sure eff v items r)

  run_step :
      (n : ℕ) (w u : Worker T S) → thread_step call w ≡ some u → run call (suc n) w ≡ run call n u
  unfolding run
  run_step n w u e = ground (arith, e)

  -- Steps of the thread lead to states that can be reached.
  pub run-Reach :
      (eff : S) (items : List T) (n : ℕ) (w : Worker T S)
      → Reach call eff w items
      → Reach call eff (run call n w) items
  unfolding run
  run-Reach eff items zero w r = r
  run-Reach eff items (suc n) w r = elim (Option-cases (thread_step call w)) [
    | inl e ↦ let g : run call (suc n) w ≡ w = ground (arith, e) in rw g r
    | inr (u, e) ↦ rw (run_step n w u e) (run-Reach eff items n u (stepped r (on_thread e)))
  ]

  -- A worker that is not stopped, by its parts.
  abbrev worker : Place T → Owner → Bool → List T → Bool → S → Worker T S
  worker place lock notified queue work eff = record {
    queue = queue;
    stop_flag = false;
    thread_work = work;
    thread_lock = lock;
    notified = notified;
    place = place;
    eff = eff;
  }

  -- Four steps for an item.
  abbrev rounds : List T → ℕ
  rounds [] = 0
  rounds (x ∷ q) = suc (suc (suc (suc (rounds q))))

  run_testing :
      (q : List T) (lock : Owner) (notified work : Bool) (eff : S)
      → run call (rounds q) (worker testing lock notified q work eff)
        ≡ worker testing lock notified [] work (call_all call q eff)
  unfolding run thread_step
  run_testing [] lock notified work eff = refl
  run_testing (x ∷ q) lock notified work eff = run_testing q lock notified work (call x eff)

  -- After some steps the queue is empty and the thread at its test.
  Drains : Worker T S → Type 0
  Drains w = (n : ℕ) × ((run call n w).queue ≡ []) × ((run call n w).place ≡ testing)

  testing-Drains :
      (n : ℕ) (w : Worker T S) (q : List T) (lock : Owner) (notified work : Bool) (eff : S)
      → run call n w ≡ run call (rounds q) (worker testing lock notified q work eff)
      → Drains w
  unfolding Drains
  testing-Drains n w q lock notified work eff e =
      let g = e ∙ run_testing q lock notified work eff in
      (n, ap (λ (v : Worker T S). v.queue) g, ap (λ (v : Worker T S). v.place) g)

  up-Drains :
      (p : Place T) (lock : Owner) (notified : Bool) (q : List T) (work : Bool) (eff : S)
      → is_up p notified ≡ true
      → is_client lock ≡ false
      → is_thread lock ≡ owns p
      → sure (worker p lock notified q work eff) ≡ true
      → Drains (worker p lock notified q work eff)
  unfolding thread_step wake run
  up-Drains starting nobody nt q w e a b c d =
      testing-Drains (suc (rounds q)) (worker starting nobody nt q w e) q thread nt true e refl
  up-Drains starting thread nt q w e a b c d = cc c
  up-Drains p client nt q w e a b c d = cc b
  up-Drains testing thread nt q w e a b c d =
      testing-Drains (rounds q) (worker testing thread nt q w e) q thread nt w e refl
  up-Drains testing nobody nt q w e a b c d = cc c
  up-Drains awake nobody nt q w e a b c d = cc c
  up-Drains stop_test nobody nt q w e a b c d = cc c
  up-Drains popping nobody nt q w e a b c d = cc c
  up-Drains (calling x) nobody nt q w e a b c d = cc c
  up-Drains awake thread nt q w e a b c d =
      testing-Drains (suc (rounds q)) (worker awake thread nt q w e) q thread nt w e refl
  up-Drains stop_test thread nt [] w e a b c d = cc d
  up-Drains stop_test thread nt (x ∷ q) w e a b c d =
      testing-Drains (suc (suc (suc (rounds q)))) (worker stop_test thread nt (x ∷ q) w e) q thread
        nt w (call x e) refl
  up-Drains popping thread nt [] w e a b c d = cc d
  up-Drains popping thread nt (x ∷ q) w e a b c d =
      testing-Drains (suc (suc (rounds q))) (worker popping thread nt (x ∷ q) w e) q thread nt w
        (call x e) refl
  up-Drains (calling x) thread nt q w e a b c d =
      testing-Drains (suc (rounds q)) (worker (calling x) thread nt q w e) q thread nt w (call x e)
        refl
  up-Drains waiting nobody true q w e a b c d =
      testing-Drains (suc (suc (rounds q))) (worker waiting nobody true q w e) q thread true w e
        refl
  up-Drains waiting thread nt q w e a b c d = cc c
  up-Drains waiting nobody false q w e a b c d = cc a
  up-Drains going_to_wait lock nt q w e a b c d = cc a
  up-Drains finished lock nt q w e a b c d = cc a

  rebuild :
      (w : Worker T S)
      → w.stop_flag ≡ false
      → w ≡ worker w.place w.thread_lock w.notified w.queue w.thread_work w.eff
  rebuild w h = λ i. record w { stop_flag = h i }

  -- A worker that is not stopped, is not paused by a client, and whose thread is neither asleep with no
  -- notification nor past its last look at the queue on the way to sleep, comes by steps of the
  -- thread alone to a state with an empty queue and the effect of every item added, in order.
  pub run_drains :
      (eff : S) (w : Worker T S) (items : List T)
      → Reach call eff w items
      → w.stop_flag ≡ false
      → is_client w.thread_lock ≡ false
      → is_up w.place w.notified ≡ true
      → (n : ℕ) × ((run call n w).queue ≡ []) × ((run call n w).eff ≡ call_all call items eff)
  unfolding Drains
  run_drains eff w items r stop lock up =
      let f = Reach-IsFifo call eff w items r in
      let same = rebuild w stop in
      let down : Drains w = rw same (
        up-Drains w.place w.thread_lock w.notified w.queue w.thread_work w.eff up lock f.locked
          (ground (arith, Reach-sure eff w items r, stop))) in
      let (n, a, b) = down in
      let g = Reach-IsFifo call eff (run call n w) items (run-Reach eff items n w r) in
      (n, a, ground (arith, a, b, g.in_order, g.effect, append-nil g.finished_items))
