-- ===== src/Tests/Requests.antt =====
-- The theorems about requests, extracts and the queue of tasks, each at a concrete input.
use rinha.Prelude.{
  ℕ, zero, suc, ◌<◌, ◌≡◌, refl, pos, Bool, true, false, not, ◌&&◌, some, [], ◌∷◌, ◌++◌, Bytes,
  codes, arith, drop, replicate, length, Bool-cases, ◌⊎◌, inl, inr,
}
use rinha.Prelude.Stateful.{Action}
use rinha.Structs.{Request, RequestType}
use rinha.Absl.{is_prefix}
use rinha.FromHttp.{from_http}
use rinha.FromHttp.Positions.{view_of}
use rinha.FromHttp.Body.{amount, closed}
use rinha.FromHttp.Requests.{IsPost, separator, post, from_http-get, from_http-post}
use rinha.ThreadPool.{Pool}
use rinha.Tests.Demo.{absl, absl-Laws}
use rinha.Tests.Data.{sample, sample-IsWellFormed}

abbrev none_before : Bytes → Bytes → ℕ → Bool
none_before p s zero = true
none_before p s (suc k) = not (is_prefix p (drop k s)) && none_before p s k

lt_or_eq : (i k : ℕ) → i < suc k → (i < k) ⊎ (i ≡ k)
lt_or_eq i k less = ground arith

none_before-lt :
    (p s : Bytes) (k i : ℕ) → none_before p s k ≡ true → i < k → is_prefix p (drop i s) ≡ false
none_before-lt p s zero i h less = absurd (omega arith)
none_before-lt p s (suc k) i h less = elim (Bool-cases (is_prefix p (drop k s))) [
  | inl here ↦ absurd (ground (arith, h, here))
  | inr other ↦
      let before : none_before p s k ≡ true = rw other at h in
      elim (lt_or_eq i k less) [
        | inl earlier ↦ none_before-lt p s k i before earlier
        | inr same ↦ rw same other
      ]
]

abbrev pub head : Bytes
head = codes "POST /clientes/1/transacoes HTTP/1.1\r\nHost: x"

abbrev pub unread : Request
unread = record {
  type = RequestType.balance;
  id = pos 99;
  transaction = record { value = pos 9; description = replicate 11 7; timestamp = replicate 20 7 };
}

pub sample-IsPost : IsPost head sample 1
sample-IsPost = record {
  not_get = refl;
  digit = omega arith;
  id_at = refl;
  first = λ i less. none_before-lt separator (post head sample) (length head) i refl less;
  small = omega arith;
}

from_http-post_example :
    from_http absl (view_of (post head sample) (replicate 3 0)) unread
    ≡ some (
      true,
      record {
        type = RequestType.transaction;
        id = pos 1;
        transaction = record (unread.transaction) {
          value = amount sample;
          description = closed sample.description (replicate 11 7);
        };
      },
    )
from_http-post_example =
    from_http-post head sample 1 sample-IsPost (replicate 3 0) absl absl-Laws sample-IsWellFormed
      unread refl

from_http-get_example :
    from_http absl (view_of (codes "GET /clientes/3/extrato HTTP/1.1") (replicate 1 0)) unread
    ≡ some (true, record unread { type = RequestType.balance; id = pos 3 })
from_http-get_example =
    from_http-get absl absl-Laws (codes "GET /clientes/3/extrato HTTP/1.1") (replicate 1 0) 3 unread
      refl (omega arith) refl

-- A task writes its number down.
abbrev pub note : ℕ → Action Bytes (Unit {0})
note n w = some (tt, w ++ (n ∷ []))

abbrev pool : Pool ℕ Bytes
pool = record { tasks = 5 ∷ []; stop = true; world = [] }
