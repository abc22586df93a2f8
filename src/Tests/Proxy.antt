-- ===== src/Tests/Proxy.antt =====
-- The theorems about the router, each applied at a concrete input.
use rinha.Prelude.{
  ℕ, zero, suc, ◌+◌, ◌≤◌, ◌≡◌, refl, sym, ◌⊎◌, inl, inr, ℤ, pos, true, none, some, List, [], ◌∷◌,
  ◌++◌, Bytes, arith, length, set, take, drop, take-drop, replicate, length-replicate,
}
use rinha.Os.{Os, Source, Received, bytes}
use rinha.Router.{Available, Router, k_buffer_size, minus_one}
use rinha.Router.Loop.{State, read_loop, handle_message}
use rinha.Router.Messages.{handle_message-overflow}
use rinha.Tests.Kernel.{kernel}

abbrev places : List ℤ
places = replicate 1000 minus_one

-- Two free connections to the first server, 60 and 62.
abbrev pool : Available
pool = record {
  connections = set (set places 0 (pos 60)) 1 (pos 62);
  start_idx = pos 0;
  end_idx = pos 2;
}

abbrev router : Router
router = record {
  tcp_to_unix = places;
  unix_to_tcp = places;
  connection_1_fds = set (set places 60 (pos 1)) 62 (pos 1);
  available_1 = pool;
  available_2 = record { connections = places; start_idx = pos 0; end_idx = pos 0 };
  round_robin_counter = pos 4;
}

-- A kernel with one stream of bytes, which a `read` takes from.
abbrev pub serve : ℕ → Bytes → Received × Bytes
serve n [] = (Received.error true, [])
serve n (b ∷ s) = (bytes (take n (b ∷ s)), drop n (b ∷ s))

abbrev pub stream : Os Bytes
stream = record kernel { read = λ fd n w. serve n w }

pub length-take_le : (n : ℕ) (s : Bytes) → length (take n s) ≤ n
length-take_le zero s = omega arith
length-take_le (suc n) [] = omega arith
length-take_le (suc n) (b ∷ s) = omega (arith, length-take_le n s)

pub served_read :
    (n : ℕ) (w : Bytes)
    → ((s : Bytes) × ((serve n w).0 ≡ bytes s)
        × (w ≡ s ++ (serve n w).1)
        × (length s ≤ n)
        × ((1 ≤ length s) ⊎ (n ≡ 0) ⊎ (length w ≡ 0)))
      ⊎ ((serve n w).0 ≡ Received.error true) × (w ≡ (serve n w).1) × (length w ≡ 0)
served_read n [] = inr (refl, refl, refl)
served_read zero (b ∷ s) = inl ([], refl, refl, omega arith, inr (inl refl))
served_read (suc n) (b ∷ s) = inl (
  take (suc n) (b ∷ s),
  refl,
  sym (take-drop (suc n) (b ∷ s)),
  length-take_le (suc n) (b ∷ s),
  inl (omega arith),
)

abbrev pub source : Source stream 7
source = record { waiting = λ w. w; on_read = served_read }

abbrev crowded : State Bytes
crowded = record { router = router; world = replicate 4097 65 }

handle_message-overflow_example :
    (buf : Bytes) × (w' : Bytes) × (read_loop stream (k_buffer_size + 1) 7 [] (replicate 4097 65)
      ≡ some ((buf, true), w'))
    × (replicate 4097 65 ≡ buf ++ w')
    × (length buf ≡ k_buffer_size)
    × (1 ≤ length w')
    × (handle_message stream (k_buffer_size + 1) 7 60 4 crowded ≡ none)
handle_message-overflow_example =
    handle_message-overflow stream 7 source 60 4 crowded
      (omega (arith, length-replicate {A = ℕ} 4097 65))
