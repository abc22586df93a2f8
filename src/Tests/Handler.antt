-- ===== src/Tests/Handler.antt =====
-- The theorem about a whole transaction request, at a concrete input.
use rinha.Prelude.{
  ℕ, ◌+◌, ◌≤◌, inr, refl, pos, decimal, digits, digits_before, ◌∷◌, ◌++◌, Bytes, codes, arith, drop,
  replicate,
}
use rinha.Structs.{Request, RequestType}
use rinha.Time.Freshness.{Shows, get_time-Shows}
use rinha.Time.{k_calculate_interval, TimeCache, Clock, get_time}
use rinha.RequestHandler.{Unset, Worker}
use rinha.Tests.Demo.{Memory, memory, image, absl}
use rinha.Tests.Data.{payment, regular}
use rinha.Tests.Rows.{shared}

abbrev pub clock : Clock Memory
clock = record { now = λ w. (31, w); format_time = λ t. codes "2024-02-27 21:36" }

-- The first request of a thread: its `time_str` is still "a".
abbrev pub worker : Worker absl memory image clock
worker = record {
  shared = shared;
  cache = record { time_str = codes "a" ++ replicate 19 0; last_update = 31 };
}

abbrev paid : Request
paid = record { type = RequestType.transaction; id = pos 1; transaction = payment }

abbrev timestamp : Bytes
timestamp = codes "2024-02-27 21:36" ++ (0 ∷ drop 17 payment.timestamp)

abbrev pub unset : Unset
unset = record { version = pos 77; customer = regular }

-- A text that was made 31 seconds ago, in nanoseconds.
abbrev ticking : Clock ℕ
ticking = record { now = λ w. (w, w + 1); format_time = λ t. decimal (pos t) }

abbrev aged : TimeCache
aged = record { time_str = codes "1" ++ replicate 19 0; last_update = 1 }

get_time-Shows_example :
    Shows ticking (get_time ticking aged 31000000001).0
    × (31000000001 ≤ (get_time ticking aged 31000000001).0.last_update + k_calculate_interval)
unfolding decimal digits digits_before
get_time-Shows_example = get_time-Shows ticking aged 31000000001 (inr refl) (omega arith)
