-- ===== src/SharedLock.antt =====
-- rinha/shared_lock.cc: five mutexes in memory that processes share by name.
pub mod Naming
use rinha.Prelude.{
  ℕ, zero, suc, ◌+◌, Bool, true, false, not, Option, none, some, List, [], ◌∷◌, ◌++◌, Bytes, codes,
  if◌then◌else◌, get_elem?, set,
}
use rinha.Prelude.Stateful.{Action, pure, stopped, lift, effect, modify, ◌>>=◌, ◌>>◌}

-- The system calls, as a parameter; `none` and false are their failures.
pub record Shm (W : Type 0) : Type 1 where
  pub Mutex : Type 0
  pub shm_open : Bytes → W → Option ℕ × W
  pub ftruncate : ℕ → ℕ → W → Bool × W
  -- the shared pages of a descriptor, read and written as a mutex
  pub mmap : ℕ → ℕ → W → Option Mutex × W
  -- `pthread_mutex_init`, where the attribute says that processes share the mutex
  pub mutex_init : Mutex → Bool → W → W
  -- `none` where the call waits
  pub mutex_lock : Mutex → Action W (Unit {0})
  pub mutex_unlock : Mutex → W → W

abbrev pub k_shared_memory_name : List Bytes
k_shared_memory_name =
    codes "shared_memory_1"
    ∷ codes "shared_memory_2"
    ∷ codes "shared_memory_3"
    ∷ codes "shared_memory_4"
    ∷ codes "shared_memory_5"
    ∷ []

module _ {W : Type 0} (shm : Shm W) (mutex_size : ℕ) where
  open shm use {Mutex}

  -- One round of `InitializeSharedLocks`: the mutex of a name, or none after an error.
  pub shared_mutex : Bytes → Action W (Option Mutex)
  shared_mutex name = do
    opened ← effect (shm.shm_open name)
    elim opened [
      | none ↦ pure none
      | some shm_fd ↦ effect (shm.ftruncate shm_fd mutex_size) >>= λ sized.
          if not sized
          then pure none
          else (effect (shm.mmap shm_fd mutex_size) >>= λ mapped. elim mapped [
            | none ↦ pure none
            | some mutex ↦ modify (shm.mutex_init mutex true) >> pure (some mutex)
          ])
    ]

  -- The `for` loop, by the names that are left, with the places of `shared_locks` that are set.
  pub initialize_loop : List Bytes → List Mutex → Action W (Bool × List Mutex)
  unfolding shared_mutex
  initialize_loop [] shared_locks = pure (true, shared_locks)
  initialize_loop (name ∷ names) shared_locks = do
    mutex ← shared_mutex name
    elim mutex [
      | none ↦ pure (false, shared_locks)
      | some p ↦ initialize_loop names (shared_locks ++ (p ∷ []))
    ]

  -- `InitializeSharedLocks`
  unfoldable pub initialize_shared_locks : Action W (Bool × List Mutex)
  unfolding initialize_loop
  initialize_shared_locks = initialize_loop k_shared_memory_name []

  -- `GetSharedLock` and `ReleaseSharedLock`: a place that is not set is a fault.
  unfoldable pub get_shared_lock : List Mutex → ℕ → Action W (Unit {0})
  get_shared_lock shared_locks i = do mutex ← lift (get_elem? shared_locks i); shm.mutex_lock mutex

  unfoldable pub release_shared_lock : List Mutex → ℕ → Action W (Unit {0})
  release_shared_lock shared_locks i = do
    mutex ← lift (get_elem? shared_locks i)
    modify (shm.mutex_unlock mutex)
