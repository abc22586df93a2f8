-- ===== src/Tests/Locks.antt =====
-- Shared memory that goes by its names, and the theorems about the shared locks on it.
use rinha.Prelude.{
  ℕ, zero, suc, ◌≡◌, ◌≢◌, inl, inr, Bool-cases, refl, Bool, true, false, Option, none, some, List,
  [], ◌∷◌, Bytes, if◌then◌else◌,
}
use rinha.HandlerSocket.Server.{same_bytes}
use rinha.SharedLock.{Shm}
use rinha.SharedLock.Naming.{Named}
use rinha.Tests.Demo.{same_bytes_refl, same_bytes_sound}

-- A descriptor is the number of a name in the order in which the names were opened.
record Memory : Type 0 where
  opened : List Bytes
  held : Bytes → Bool
  ready : Bytes → Bool

abbrev named : ℕ → List Bytes → Bytes
named i [] = []
named zero (n ∷ ns) = n
named (suc i) (n ∷ ns) = named i ns

-- The newest name has the descriptor 0 until the next call.
abbrev lock : Bytes → Memory → Option (Unit {0} × Memory)
lock p w =
    if w.held p
    then none
    else some (tt, record w { held = λ n. if same_bytes n p then true else w.held n })

abbrev shm : Shm Memory
shm = record {
  Mutex = Bytes;
  shm_open = λ name w. (some 0, record w { opened = name ∷ w.opened });
  ftruncate = λ fd n w. (true, w);
  mmap = λ fd n w. (some (named fd w.opened), w);
  mutex_init = λ p shared w. record w {
    ready = λ n. if same_bytes n p then shared else w.ready n;
    held = λ n. if same_bytes n p then false else w.held n;
  };
  mutex_lock = λ p w. lock p w;
  mutex_unlock = λ p w. record w { held = λ n. if same_bytes n p then false else w.held n };
}

lock_free :
    (p : Bytes) (w : Memory)
    → w.ready p ≡ true
    → w.held p ≡ false
    → (w' : Memory) × (lock p w ≡ some (tt, w')) × (w'.ready p ≡ true) × (w'.held p ≡ true)
lock_free p w is free = (
  record w { held = λ n. if same_bytes n p then true else w.held n },
  rw free refl,
  is,
  rw (same_bytes_refl p) refl,
)

lock_held : (p : Bytes) (w : Memory) → w.held p ≡ true → lock p w ≡ none
lock_held p w held = rw held refl

unlock_free : (p : Bytes) (w : Memory) → (if same_bytes p p then false else w.held p) ≡ false
unlock_free p w = rw (same_bytes_refl p) refl

other_name :
    (o p : Bytes) (b : Bool) (f : Bytes → Bool) → o ≢ p → (if same_bytes o p then b else f o) ≡ f o
other_name o p b f differ = elim (Bool-cases (same_bytes o p)) [
  | inl same ↦ absurd (differ (same_bytes_sound o p same))
  | inr apart ↦ rw apart refl
]

own_name : (p : Bytes) (b : Bool) (f : Bytes → Bool) → (if same_bytes p p then b else f p) ≡ b
own_name p b f = rw (same_bytes_refl p) refl

abbrev by_name : Named shm
by_name = record {
  file = λ fd w. named fd w.opened;
  object = λ p. p;
  is_ready = λ n w. w.ready n;
  is_held = λ n w. w.held n;
  on_open = λ name w. (0, refl, refl, λ o. (refl, refl));
  on_truncate = λ fd n w. (refl, refl, λ o. (refl, refl));
  on_map = λ fd n w. (named fd w.opened, refl, refl, λ o. (refl, refl));
  on_init = λ p w. (
    own_name p true w.ready,
    own_name p false w.held,
    λ o differ. (other_name o p true w.ready differ, other_name o p false w.held differ),
  );
  on_lock_free = λ p w is free. lock_free p w is free;
  on_lock_held = λ p w is held. lock_held p w held;
  on_unlock = λ p w is. (is, unlock_free p w);
}

-- Every name has a mutex of some earlier process, which is held.
abbrev stale : Memory
stale = record { opened = []; held = λ n. true; ready = λ n. true }
