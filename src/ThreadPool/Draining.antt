-- ===== src/ThreadPool/Draining.antt =====
-- The queue of tasks is emptied in the order in which it was filled.
use rinha.Prelude.{
  ℕ, zero, suc, ◌+◌, ◌≤◌, ◌≡◌, refl, ap, sym, ◌∙◌, inl, inr, Bool, true, false, Option, some, List,
  [], ◌∷◌, ◌++◌, append_assoc, append-nil, length, arith, Option-cases, ◌>>=◌,
}
use rinha.Prelude.Stateful.{Action}
use rinha.ThreadPool.{Pool, enqueue_process_request, next_task, worker_loop}

module _ {Task W : Type 0} where
  -- The tasks, one behind the other.
  abbrev pub process_all : (Task → Action W (Unit {0})) → List Task → W → Option W
  process_all process [] w = some w
  process_all process (t ∷ ts) w = process t w >>= λ r. process_all process ts r.1

  abbrev pub enqueue_all : List Task → Pool Task W → Pool Task W
  enqueue_all [] p = p
  enqueue_all (t ∷ ts) p = enqueue_all ts (enqueue_process_request t p)

  enqueue_all-eq :
      (ts : List Task) (p : Pool Task W) → enqueue_all ts p ≡ record p { tasks = p.tasks ++ ts }
  unfolding enqueue_process_request
  enqueue_all-eq [] p = ap (λ ts. record p { tasks = ts }) (sym (append-nil p.tasks))
  enqueue_all-eq (t ∷ ts) p =
      enqueue_all-eq ts (record p { tasks = p.tasks ++ (t ∷ []) })
      ∙ ap (λ ts. record p { tasks = ts }) (append_assoc p.tasks (t ∷ []) ts)

  abbrev emptied : Bool → W → Bool × Pool Task W
  emptied stop w = (stop, record { tasks = []; stop = stop; world = w })

  pub worker_loop-process_all :
      (process : Task → Action W (Unit {0})) (ts : List Task) (fuel : ℕ) (stop : Bool) (w : W)
      → length ts + 1 ≤ fuel
      → worker_loop fuel process (record { tasks = ts; stop = stop; world = w })
        ≡ (process_all process ts w >>= λ w'. some (emptied stop w'))
  unfolding worker_loop next_task
  worker_loop-process_all process ts zero stop w enough = absurd (omega arith)
  worker_loop-process_all process [] (suc fuel) true w enough = refl
  worker_loop-process_all process [] (suc fuel) false w enough = refl
  worker_loop-process_all process (t ∷ ts) (suc fuel) stop w enough =
      elim (Option-cases (process t w)) [
        | inl fails ↦ rw (fails, worker_loop) refl
        | inr (r, done) ↦
            rw (done, worker_loop) (worker_loop-process_all process ts fuel stop r.1 (omega arith))
      ]

  -- A worker processes the tasks that were enqueued in their order, each once, behind those that
  -- waited before; then it ends where the pool is stopped, and waits where it is not.
  worker_loop-enqueue_all :
      (process : Task → Action W (Unit {0})) (p : Pool Task W) (ts : List Task)
      → worker_loop (length (p.tasks ++ ts) + 1) process (enqueue_all ts p) ≡ (
          process_all process (p.tasks ++ ts) p.world >>= λ w.
          some (p.stop, record { tasks = []; stop = p.stop; world = w }))
  worker_loop-enqueue_all process p ts =
      ap (worker_loop (length (p.tasks ++ ts) + 1) process) (enqueue_all-eq ts p)
      ∙ worker_loop-process_all process (p.tasks ++ ts) _ p.stop p.world (omega arith)
