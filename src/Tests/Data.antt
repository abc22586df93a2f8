-- ===== src/Tests/Data.antt =====
-- The values that the examples share.
use rinha.Prelude.{ℕ, refl, inl, inr, pos, negsuc, [], ◌∷◌, ◌++◌, codes, arith, replicate}
use rinha.Structs.{Transaction, Customer}
use rinha.Customers.{IsRing}
use rinha.FromHttp.Body.{Body, IsWellFormed}
use rinha.Tests.Demo.{newcomer}

abbrev pub newcomer_ring : IsRing newcomer
newcomer_ring = record { places = refl; next_in = omega arith; filling = inl (omega arith, refl) }

abbrev pub payment : Transaction
payment = record {
  value = negsuc 499;
  description = codes "almoco" ++ replicate 5 0;
  timestamp = codes "2024-02-20T10:00:00" ++ replicate 1 0;
}

abbrev pub deposit : ℕ → Transaction
deposit n = record {
  value = pos n;
  description = codes "pix" ++ replicate 8 0;
  timestamp = codes "2024-02-20T10:00:00" ++ replicate 1 0;
}

-- A customer with more transactions than the ring holds.
abbrev pub regular : Customer
regular = record {
  limit = pos 80000;
  balance = pos 75;
  transactions =
      deposit 11
      ∷ deposit 12
      ∷ deposit 3
      ∷ deposit 4
      ∷ deposit 5
      ∷ deposit 6
      ∷ deposit 7
      ∷ deposit 8
      ∷ deposit 9
      ∷ deposit 10
      ∷ [];
  transaction_count = 11;
  next_transaction_index = 2;
}

abbrev pub regular_ring : IsRing regular
regular_ring = record {
  places = refl;
  next_in = omega arith;
  filling = inr (omega arith, omega arith);
}

-- The body of the load test, with an empty array of eleven bytes before it.
abbrev pub sample : Body
sample = record {
  lead = codes "{\"valor\": ";
  digits = codes "500";
  gap = codes " \"tipo\": \"";
  tipo = b'd';
  gap' = codes "\", \"descricao\": \"";
  description = codes "almoco";
}

pub sample-IsWellFormed : IsWellFormed sample
sample-IsWellFormed = record {
  shaped = record {
    lead_length = refl;
    all_digits = (
      (omega arith, omega arith),
      ((omega arith, omega arith), ((omega arith, omega arith), tt)),
    );
    gap_length = refl;
    known = inr refl;
    gap'_length = refl;
    unquoted = (
      (λ e. absurd (omega arith)),
      (
        (λ e. absurd (omega arith)),
        (
          (λ e. absurd (omega arith)),
          (
            (λ e. absurd (omega arith)),
            ((λ e. absurd (omega arith)), ((λ e. absurd (omega arith)), tt)),
          ),
        ),
      ),
    );
    some_text = omega arith;
    short = omega arith;
    small = omega arith;
  };
  fits = omega arith;
}
