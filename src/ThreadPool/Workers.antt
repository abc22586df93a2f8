-- ===== src/ThreadPool/Workers.antt =====
-- The workers of rinha/thread_pool.cc and rinha/thread_pool_200.cc beside each other, and the threads that
-- add tasks: any order of their steps. What stands under the lock of the queue is one step, and the work
-- on a task is one.
use mathlib.Core.List.{Perm, perm_middle, perm_append_singleton}
use mathlib.Core.List.Perm
use rinha.Prelude.{
  ℕ, zero, suc, ◌≡◌, refl, ap, ap₂, sym, ◌∙◌, Bool, true, false, some, List, [], ◌∷◌, ◌++◌,
  append_assoc, get_elem?, set, replicate,
}
use rinha.Prelude.Stateful.{Action}
use rinha.ThreadPool.{Pool, Next, waits, takes, enqueue_process_request, next_task}

-- What a worker has in its hand: a task that it has taken from the queue, or none.
pub data Hand (Task : Type 0) : Type 0 where
  idle : Hand Task
  busy : Task → Hand Task

-- The queue and the workers, with what has happened so far: the tasks that were added, that were taken,
-- and that were done, in order.
pub record Threads (Task W : Type 0) : Type 0 where
  pub pool : Pool Task W
  pub hands : List (Hand Task)
  pub added : List Task
  pub taken : List Task
  pub done : List Task

abbrev pub held : {Task : Type 0} → List (Hand Task) → List Task
held [] = []
held (idle ∷ hands) = held hands
held (busy t ∷ hands) = t ∷ held hands

held-set_busy :
    {Task : Type 0} (hands : List (Hand Task)) (i : ℕ) (t : Task)
    → get_elem? hands i ≡ some idle
    → Perm (held (set hands i (busy t))) (t ∷ held hands)
held-set_busy [] i t h = cc
held-set_busy (idle ∷ hands) zero t h = Perm.rfl
held-set_busy (busy u ∷ hands) zero t h = cc
held-set_busy (idle ∷ hands) (suc i) t h = held-set_busy hands i t h
held-set_busy (busy u ∷ hands) (suc i) t h =
    Perm.trans (Perm.cons u (held-set_busy hands i t h)) (Perm.swap t u (held hands))

same_task : {Task : Type 0} {u t : Task} → some (busy u) ≡ some (busy t) → u ≡ t
same_task h = cc

held-set_idle :
    {Task : Type 0} (hands : List (Hand Task)) (i : ℕ) (t : Task)
    → get_elem? hands i ≡ some (busy t)
    → Perm (held hands) (t ∷ held (set hands i idle))
held-set_idle [] i t h = cc
held-set_idle (idle ∷ hands) zero t h = cc
held-set_idle (busy u ∷ hands) zero t h = Perm.cons' (same_task h) Perm.rfl
held-set_idle (idle ∷ hands) (suc i) t h = held-set_idle hands i t h
held-set_idle (busy u ∷ hands) (suc i) t h =
    Perm.trans (Perm.cons u (held-set_idle hands i t h)) (Perm.swap t u (held (set hands i idle)))

module _ {Task W : Type 0} (process : Task → Action W (Unit {0})) where
  pub data Step : Threads Task W → Threads Task W → Type 0 where
    -- `EnqueueProcessRequest`
    add :
        (s : Threads Task W) (t : Task)
        → Step s (record s { pool = enqueue_process_request t s.pool; added = s.added ++ (t ∷ []) })
    -- a worker takes the first task
    take :
        (s : Threads Task W) (i : ℕ) (t : Task) (q : Pool Task W)
        → get_elem? s.hands i ≡ some idle
        → next_task s.pool ≡ (takes t, q)
        → Step s
            (record s { pool = q; hands = set s.hands i (busy t); taken = s.taken ++ (t ∷ []) })
    -- a worker finds no task and waits on
    wait :
        (s : Threads Task W) (i : ℕ) (q : Pool Task W)
        → get_elem? s.hands i ≡ some idle
        → next_task s.pool ≡ (waits, q)
        → Step s (record s { pool = q })
    -- a worker has done its task
    finish :
        (s : Threads Task W) (i : ℕ) (t : Task) (w : W)
        → get_elem? s.hands i ≡ some (busy t)
        → process t s.pool.world ≡ some (tt, w)
        → Step s (record s {
          pool = record (s.pool) { world = w };
          hands = set s.hands i idle;
          done = s.done ++ (t ∷ []);
        })

  -- From the start of `n` workers on an empty queue.
  pub data Reach (n : ℕ) (w : W) : Threads Task W → Type 0 where
    start : Reach n w (record {
      pool = record { tasks = []; stop = false; world = w };
      hands = replicate n idle;
      added = [];
      taken = [];
      done = [];
    })
    next : {s s' : Threads Task W} → Reach n w s → Step s s' → Reach n w s'

  -- No task is lost and none is done twice.
  pub record IsFair (s : Threads Task W) : Type 0 where
    -- the tasks leave the queue in the order in which they came
    pub in_order : s.taken ++ s.pool.tasks ≡ s.added
    -- a task that was taken is done, or in the hand of one worker
    pub once : Perm s.taken (s.done ++ held s.hands)
    pub runs : s.pool.stop ≡ false

  takes_same :
      {a b : Task} {p q : Pool Task W}
      → ◌≡◌ {A = Next Task × Pool Task W} (takes a, p) (takes b, q)
      → a ≡ b
  takes_same h = cc

  takes_first :
      (tasks : List Task) (stop : Bool) (world : W) (q : Pool Task W) (t : Task)
      → next_task (record { tasks = tasks; stop = stop; world = world }) ≡ (takes t, q)
      → (tasks ≡ t ∷ q.tasks) × (q.stop ≡ stop)
  unfolding next_task
  takes_first [] true world q t h = cc
  takes_first [] false world q t h = cc
  takes_first (u ∷ rest) stop world q t h = (
    ap₂ ◌∷◌ (takes_same h) (ap (λ (r : Next Task × Pool Task W). r.1.tasks) h),
    ap (λ (r : Next Task × Pool Task W). r.1.stop) (sym h),
  )

  waits_same :
      (tasks : List Task) (stop : Bool) (world : W) (q : Pool Task W)
      → next_task (record { tasks = tasks; stop = stop; world = world }) ≡ (waits, q)
      → q ≡ record { tasks = tasks; stop = stop; world = world }
  unfolding next_task
  waits_same [] true world q h = cc
  waits_same [] false world q h = ap (λ (r : Next Task × Pool Task W). r.1) (sym h)
  waits_same (u ∷ rest) stop world q h = cc

  next_task-takes :
      (p q : Pool Task W) (t : Task)
      → next_task p ≡ (takes t, q)
      → (p.tasks ≡ t ∷ q.tasks) × (q.stop ≡ p.stop)
  next_task-takes p q t h = takes_first p.tasks p.stop p.world q t h

  next_task-waits : (p q : Pool Task W) → next_task p ≡ (waits, q) → q ≡ p
  next_task-waits p q h = waits_same p.tasks p.stop p.world q h

  held-replicate : (n : ℕ) → held {Task = Task} (replicate n idle) ≡ []
  held-replicate zero = refl
  held-replicate (suc n) = held-replicate n

  taken_once :
      (t : Task) (taken done : List Task) (hands : List (Hand Task)) (i : ℕ)
      → get_elem? hands i ≡ some idle
      → Perm taken (done ++ held hands)
      → Perm (taken ++ (t ∷ [])) (done ++ held (set hands i (busy t)))
  taken_once t taken done hands i h once = Perm.trans (perm_append_singleton t taken) (
      Perm.trans (Perm.cons t once) (
        Perm.trans (Perm.symm (perm_middle done (held hands)))
          (Perm.append_left done (Perm.symm (held-set_busy hands i t h)))))

  done_once :
      (t : Task) (taken done : List Task) (hands : List (Hand Task)) (i : ℕ)
      → get_elem? hands i ≡ some (busy t)
      → Perm taken (done ++ held hands)
      → Perm taken ((done ++ (t ∷ [])) ++ held (set hands i idle))
  done_once t taken done hands i h once = Perm.trans once (
      rw (append_assoc done (t ∷ []) (held (set hands i idle)))
        (Perm.append_left done (held-set_idle hands i t h)))

  Step-IsFair : {s s' : Threads Task W} → Step s s' → IsFair s → IsFair s'
  unfolding enqueue_process_request
  Step-IsFair (add s t) v = record {
    in_order =
        sym (append_assoc s.taken s.pool.tasks (t ∷ [])) ∙ ap (λ ts. ts ++ (t ∷ [])) v.in_order;
    once = v.once;
    runs = v.runs;
  }
  Step-IsFair (take s i t q free first) v =
      let (front, same) = next_task-takes s.pool q t first in
      record {
        in_order =
            append_assoc s.taken (t ∷ []) q.tasks
            ∙ ap (λ ts. s.taken ++ ts) (sym front)
            ∙ v.in_order;
        once = taken_once t s.taken s.done s.hands i free v.once;
        runs = same ∙ v.runs;
      }
  Step-IsFair (wait s i q free none_left) v =
      let same = next_task-waits s.pool q none_left in
      record {
        in_order = ap (λ (p : Pool Task W). s.taken ++ p.tasks) same ∙ v.in_order;
        once = v.once;
        runs = ap (λ (p : Pool Task W). p.stop) same ∙ v.runs;
      }
  Step-IsFair (finish s i t w mine works) v = record {
    in_order = v.in_order;
    once = done_once t s.taken s.done s.hands i mine v.once;
    runs = v.runs;
  }

  Reach-IsFair : (n : ℕ) (w : W) (s : Threads Task W) → Reach n w s → IsFair s
  Reach-IsFair n w _ start = record {
    in_order = refl;
    once = rw (held-replicate n) Perm.nil;
    runs = refl;
  }
  Reach-IsFair n w _ (next before step) = Step-IsFair step (Reach-IsFair n w _ before)

  -- From the start of some workers, in every order of the steps of the workers and of the threads that
  -- add tasks: the tasks leave the queue in the order in which they were added, and each task that
  -- has left it is done once or is in the hand of exactly one worker. The flag `stop` stays down.
  pub Reach-added :
      (n : ℕ) (w : W) (s : Threads Task W)
      → Reach n w s
      → (s.taken ++ s.pool.tasks ≡ s.added)
        × Perm s.added (s.done ++ (held s.hands ++ s.pool.tasks))
        × (s.pool.stop ≡ false)
  Reach-added n w s r =
      let v = Reach-IsFair n w s r in
      (
        v.in_order,
        rw (← v.in_order, ← append_assoc s.done (held s.hands) s.pool.tasks)
            (Perm.append_right s.pool.tasks v.once),
        v.runs,
      )
