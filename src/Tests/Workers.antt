-- ===== src/Tests/Workers.antt =====
-- The theorem about the workers of the pool, at a concrete run.
use mathlib.Core.List.{Perm}
use rinha.Prelude.{ℕ, ◌≡◌, refl, false, [], ◌∷◌, ◌++◌, Bytes}
use rinha.ThreadPool.{enqueue_process_request, next_task}
use rinha.ThreadPool.Workers.{idle, busy, Threads, held, Step, Reach, Reach-added}
use rinha.Tests.Requests.{note}

-- Two tasks, of which the second worker has taken the first and done it, while the first worker has the
-- second one in its hand and another one waits.
abbrev after_some : Threads ℕ Bytes
after_some = record {
  pool = record { tasks = 7 ∷ []; stop = false; world = 5 ∷ [] };
  hands = busy 6 ∷ idle ∷ [];
  added = 5 ∷ 6 ∷ 7 ∷ [];
  taken = 5 ∷ 6 ∷ [];
  done = 5 ∷ [];
}

run : Reach note 2 [] after_some
unfolding enqueue_process_request next_task
run =
    Reach.next
      (Reach.next
        (Reach.next
          (Reach.next (Reach.next (Reach.next Reach.start (Step.add _ 5)) (Step.add _ 6))
            (Step.take _ 1 5 _ refl refl))
          (Step.take _ 0 6 _ refl refl))
        (Step.finish _ 1 5 _ refl refl))
      (Step.add _ 7)

Reach-added_example :
    (after_some.taken ++ after_some.pool.tasks ≡ after_some.added)
    × Perm after_some.added (after_some.done ++ (held after_some.hands ++ after_some.pool.tasks))
    × (after_some.pool.stop ≡ false)
Reach-added_example = Reach-added note 2 [] after_some run
