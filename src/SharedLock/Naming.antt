-- ===== src/SharedLock/Naming.antt =====
-- Which mutexes the processes share: those of the same place, since the memory goes by its name.
use rinha.Prelude.{ℕ, ◌≡◌, ◌≢◌, Bool, true, false, none, some, List, [], ◌∷◌, Bytes}
use rinha.SharedLock.{Shm}

-- What the program relies on: the calls succeed, the memory of a descriptor is the one of its name, and a
-- mutex in it, once it was initialised for several processes, is free or held in all of them. The calls
-- before `pthread_mutex_init` leave the mutexes as they are, and this one the mutexes of other names.
pub record Named {W : Type 0} (shm : Shm W) : Type 0 where
  pub file : ℕ → W → Bytes
  pub object : shm.Mutex → Bytes
  -- whether the memory of a name has such a mutex, and whether it is held
  pub is_ready : Bytes → W → Bool
  pub is_held : Bytes → W → Bool
  pub on_open :
      (name : Bytes) (w : W)
      → (fd : ℕ) × ((shm.shm_open name w).0 ≡ some fd)
        × (file fd (shm.shm_open name w).1 ≡ name)
        × ((o : Bytes)
            → (is_ready o (shm.shm_open name w).1 ≡ is_ready o w)
              × (is_held o (shm.shm_open name w).1 ≡ is_held o w))
  pub on_truncate :
      (fd n : ℕ) (w : W)
      → ((shm.ftruncate fd n w).0 ≡ true)
        × (file fd (shm.ftruncate fd n w).1 ≡ file fd w)
        × ((o : Bytes)
            → (is_ready o (shm.ftruncate fd n w).1 ≡ is_ready o w)
              × (is_held o (shm.ftruncate fd n w).1 ≡ is_held o w))
  pub on_map :
      (fd n : ℕ) (w : W)
      → (p : shm.Mutex) × ((shm.mmap fd n w).0 ≡ some p)
        × (object p ≡ file fd w)
        × ((o : Bytes)
            → (is_ready o (shm.mmap fd n w).1 ≡ is_ready o w)
              × (is_held o (shm.mmap fd n w).1 ≡ is_held o w))
  pub on_init :
      (p : shm.Mutex) (w : W)
      → (is_ready (object p) (shm.mutex_init p true w) ≡ true)
        × (is_held (object p) (shm.mutex_init p true w) ≡ false)
        × ((o : Bytes)
            → o ≢ object p
            → (is_ready o (shm.mutex_init p true w) ≡ is_ready o w)
              × (is_held o (shm.mutex_init p true w) ≡ is_held o w))
  pub on_lock_free :
      (p : shm.Mutex) (w : W)
      → is_ready (object p) w ≡ true
      → is_held (object p) w ≡ false
      → (w' : W) × (shm.mutex_lock p w ≡ some (tt, w'))
        × (is_ready (object p) w' ≡ true)
        × (is_held (object p) w' ≡ true)
  pub on_lock_held :
      (p : shm.Mutex) (w : W)
      → is_ready (object p) w ≡ true
      → is_held (object p) w ≡ true
      → shm.mutex_lock p w ≡ none
  pub on_unlock :
      (p : shm.Mutex) (w : W)
      → is_ready (object p) w ≡ true
      → (is_ready (object p) (shm.mutex_unlock p w) ≡ true)
        × (is_held (object p) (shm.mutex_unlock p w) ≡ false)

module _ {W : Type 0} (shm : Shm W) (mutex_size : ℕ) (named : Named shm) where
  open named use {file, object, is_ready, is_held}

  abbrev pub objects : List shm.Mutex → List Bytes
  objects [] = []
  objects (p ∷ ps) = object p ∷ objects ps

  -- The memory of a name has a mutex for several processes, which none of them holds.
  abbrev Free : Bytes → W → Type 0
  Free o w = (is_ready o w ≡ true) × (is_held o w ≡ false)
