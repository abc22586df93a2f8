-- ===== src/ThreadPool.antt =====
-- rinha/thread_pool.cc and rinha/thread_pool_200.cc: a queue of tasks that several workers share. The
-- two files differ in what a task is and what a worker does with it.
pub mod Draining
pub mod Workers
use rinha.Prelude.{
  ℕ, zero, suc, Bool, true, false, Option, none, some, if◌then◌else◌, List, [], ◌∷◌, ◌++◌, Bytes,
  codes,
}
use rinha.Prelude
use rinha.Prelude.Stateful.{Action, pure, effect, modify, ◌>>=◌, ◌>>◌}
use rinha.Os.{Os}

-- The queue with its `stop`, and the world behind it.
pub record Pool (Task W : Type 0) : Type 0 where
  pub tasks : List Task
  pub stop : Bool
  pub world : W

-- What a worker gets from the queue.
pub data Next (Task : Type 0) : Type 0 where
  -- it waits on the condition
  waits : Next Task
  -- it ends
  ends : Next Task
  takes : Task → Next Task

module _ {Task W : Type 0} where
  -- `EnqueueProcessRequest`
  unfoldable pub enqueue_process_request : Task → Pool Task W → Pool Task W
  enqueue_process_request f p = record p { tasks = p.tasks ++ (f ∷ []) }

  -- The block of a worker under the lock of the queue.
  unfoldable pub next_task : Pool Task W → Next Task × Pool Task W
  next_task p = elim p.tasks [
    | [] ↦ (if p.stop then ends else waits, p)
    | task ∷ rest ↦ (takes task, record p { tasks = rest })
  ]

  -- The loop of a worker, on fuel: true where it ends, false where it waits.
  unfoldable pub worker_loop : ℕ → (Task → Action W (Unit {0})) → Action (Pool Task W) Bool
  unfolding next_task
  worker_loop zero process p = none
  worker_loop (suc fuel) process p =
      let (next, q) = next_task p in
      elim next [
        | waits ↦ some (false, q)
        | ends ↦ some (true, q)
        | takes task ↦ elim (process task q.world) [
          | none ↦ none
          | some (_, w) ↦ worker_loop fuel process (record q { world = w })
        ]
      ]

-- What a worker of rinha/thread_pool_200.cc does with a task, a descriptor: it sleeps for 50
-- milliseconds and answers.
abbrev pub k_response : Bytes
k_response = codes "HTTP/1.1 200 OK\r\nContent-Length: 0\r\nConnection: keep-alive\r\n\r\n"

unfoldable pub respond : {W : Type 0} → Os W → (ℕ → W → W) → ℕ → Action W (Unit {0})
respond os sleep_for client_fd = do
  modify (sleep_for 50)
  written ← effect (os.write client_fd k_response)
  pure tt
