-- ===== src/Tests/Contention.antt =====
-- A server with the row of one customer, on which another process stores a transaction at each
-- request, and the theorems about it at a concrete input.
use rinha.Prelude.{
  suc, All, ltb, Bool-cases, inl, inr, ℕ, zero, ◌+◌, ◌<◌, ◌^◌, ◌≡◌, refl, ap, ℤ, pos, negsuc,
  pos_part, decimal, stoi, stoi-decimal, FitsInt, add_int, add_int_id, Bool, true, false, Option,
  none, some, List, [], ◌∷◌, ◌++◌, ◌==◌, replicate, neg_int, neg, wrap_int, Bytes, codes,
  if◌then◌else◌, arith,
}
use rinha.Customers.{blank}
use rinha.Customers.Sized.{IsSized, IsSizedEntry}
use rinha.Structs.{Transaction, Customer, TransactionResult}
use rinha.HandlerSocket.Interface.{Client, Row}
use rinha.HandlerSocket.{Session}
use rinha.HandlerSocket.Server.{found_rows}
use rinha.HandlerSocket.Replies.{modified_rows}
use rinha.MariaDatabase.{Shared, maria_db_execute_transaction}
use rinha.MariaDatabase.Ledger.{Stand, outcome, after, Covered}
use rinha.MariaDatabase.Serial.{
  maria_db_execute_transaction-serial, maria_db_execute_transaction-Covered,
}
use rinha.MariaDatabase.Contended.{Contended}
use rinha.MariaDatabase.History.{History, values_of, add_all, execute_all, execute_all-History}
use rinha.Tests.Demo.{newcomer}
use rinha.Tests.Data.{newcomer_ring, payment, deposit}
use rinha.Tests.Image.{put_customer, get_customer, get-put_customer, full_image}

data Asked : Type 0 where
  nothing : Asked
  find : Bytes → Asked
  update : Bytes → Bytes → Asked

record Bank : Type 0 where
  row : Stand
  others : List Transaction
  rows : List Row
  asked : Asked

abbrev seen : Bank → Stand × List Transaction
seen w = (w.row, w.others)

-- One of the others goes first.
abbrev first : List Transaction → List Transaction
first [] = []
first (t ∷ ts) = t ∷ []

abbrev later : List Transaction → List Transaction
later [] = []
later (t ∷ ts) = ts

first-later : (ts : List Transaction) → ts ≡ first ts ++ later ts
first-later [] = refl
first-later (t ∷ ts) = refl

abbrev version_of : Option ℤ → ℕ
version_of none = zero
version_of (some z) = pos_part z

abbrev row_of : Stand → Bytes → Bytes → Stand
row_of r version d =
    if r.1 == version_of (stoi version) then (get_customer d, version_of (stoi version) + 1) else r

-- The answer, on the row that the other has left.
abbrev serve : Asked → Stand → List Transaction → (ℤ × ℕ) × Bank
serve nothing r ts = ((pos 0, 0), record { row = r; others = ts; rows = []; asked = nothing })
serve (find key) r ts = (
  (pos 0, 3),
  record {
    row = r;
    others = ts;
    rows = found_rows key (some (put_customer r.0, pos r.1));
    asked = nothing;
  },
)
serve (update version d) r ts = (
  (pos 0, 1),
  record {
    row = row_of r version d;
    others = ts;
    rows = modified_rows (r.1 == version_of (stoi version));
    asked = nothing;
  },
)

abbrev asks : List Bytes → List Bytes → Asked
asks (key ∷ []) mvs = find key
asks (key ∷ version ∷ []) (k ∷ d ∷ next ∷ []) = update version d
asks keys mvs = nothing

abbrev fetch : List Row → Bank → Option Row × Bank
fetch [] w = (none, w)
fetch (r ∷ rest) w = (some r, record w { rows = rest })

abbrev bank : Client
bank = record {
  World = Bank;
  Handle = Bool;
  create = λ settings w. (true, w);
  request_buf_open_index = λ h id db table index fields w. w;
  request_buf_exec_generic =
      λ h id op keys limit skip mod_op mvs w. record w { asked = asks keys mvs };
  request_send = λ h w. (pos 0, w);
  get_error_code = λ h w. pos 0;
  response_recv = λ h w. serve w.asked (after (first w.others) w.row) (later w.others);
  get_next_row = λ h w. fetch w.rows w;
  response_buf_remove = λ h w. record w { rows = [] };
}

abbrev teller : Session bank
teller = record { read_ptr = true; read_ptr_id = pos 0; write_ptr = false; write_ptr_id = pos 1 }

fetch_row :
    (rows : List Row) (w : Bank) (r : Row) (rest : List Row)
    → rows ≡ r ∷ rest
    → ((fetch rows w).0 ≡ some r)
      × ((fetch rows w).1.rows ≡ rest)
      × (seen (fetch rows w).1 ≡ seen w)
fetch_row rows w r rest e = rw e (refl, refl, refl)

fetch-none :
    (rows : List Row) (w : Bank)
    → rows ≡ []
    → w.rows ≡ []
    → ((fetch rows w).0 ≡ none) × ((fetch rows w).1.rows ≡ []) × (seen (fetch rows w).1 ≡ seen w)
fetch-none rows w e f = rw e (refl, f, refl)

version-decimal : (n : ℕ) → FitsInt (pos (n + 1)) → version_of (stoi (decimal (pos n))) ≡ n
version-decimal n fits = rw (stoi-decimal (pos n) (ground arith)) refl

abbrev contended : Contended bank teller full_image (add_int (pos 1) (negsuc 0))
contended = record {
  Idle = λ w. Unit {0};
  row = λ w. w.row;
  others = λ w. w.others;
  rows = λ h w. w.rows;
  fetches = record {
    next_row = λ h w r rest e. fetch_row w.rows w r rest e;
    no_row = λ h w e. fetch-none w.rows w e e;
  };
  removed = λ h w e. (tt, refl, refl);
  find_answers =
      λ w idle. record { send_ok = refl; send_code = refl; recv_ok = refl; recv_code = refl };
  find_rows = λ w idle. (
    record {
      front = first w.others;
      back = later w.others;
      split = first-later w.others;
      left = refl;
    },
    refl,
    refl,
  );
  update_answers = λ w x version idle. record {
    send_ok = refl;
    send_code = refl;
    recv_ok = refl;
    recv_code = refl;
  };
  update_rows = λ w x version idle fits. (
    record {
      front = first w.others;
      back = later w.others;
      split = first-later w.others;
      left = refl;
    },
    rw (version-decimal version fits, get-put_customer x) refl,
    rw (version-decimal version fits) refl,
  );
}

-- The customer is overdrawn by the transaction that comes first, as far as the limit allows.
abbrev start : Bank
start = record {
  row = (newcomer, 4);
  others = payment ∷ deposit 7 ∷ deposit 8 ∷ [];
  rows = [];
  asked = nothing;
}

abbrev counter : Shared bank full_image
counter = record { world = start; customer_write_mutexs = replicate 5 false }

abbrev below : Bytes → Bool
below [] = true
below (b ∷ s) = if ltb b 256 then below s else false

below-All : (s : Bytes) → below s ≡ true → All (λ b. b < 256) s
below-All [] e = tt
below-All (b ∷ s) e = elim (Bool-cases (ltb b 256)) [
  | inl small ↦ (ground arith, below-All s (ground arith))
  | inr large ↦ absurd (ground arith)
]

payment-IsSized : IsSizedEntry payment
payment-IsSized = record {
  value_fits = omega arith;
  description_size = refl;
  description_bytes = below-All payment.description refl;
  timestamp_size = refl;
  timestamp_bytes = below-All payment.timestamp refl;
}

deposit-IsSized : (n : ℕ) → n < 1000 → IsSizedEntry (deposit n)
deposit-IsSized n small = record {
  value_fits = ground arith;
  description_size = refl;
  description_bytes = below-All (codes "pix" ++ replicate 8 0) refl;
  timestamp_size = refl;
  timestamp_bytes = below-All (codes "2024-02-20T10:00:00" ++ replicate 1 0) refl;
}

blank-IsSized : IsSizedEntry blank
blank-IsSized = record {
  value_fits = omega arith;
  description_size = refl;
  description_bytes = below-All (replicate 11 0) refl;
  timestamp_size = refl;
  timestamp_bytes = below-All (replicate 20 0) refl;
}

blanks-IsSized : (n : ℕ) → All IsSizedEntry (replicate n blank)
blanks-IsSized zero = tt
blanks-IsSized (suc n) = (blank-IsSized, blanks-IsSized n)

newcomer-IsSized : IsSized newcomer
newcomer-IsSized = record {
  limit_fits = omega arith;
  balance_fits = omega arith;
  ring = newcomer_ring;
  entries = blanks-IsSized 10;
}

others-IsSized : All IsSizedEntry start.others
others-IsSized =
    (payment-IsSized, (deposit-IsSized 7 (omega arith), (deposit-IsSized 8 (omega arith), tt)))

maria_db_execute_transaction-serial_example :
    (front : List Transaction) × (back : List Transaction) × (w' : Bank) × (start.others
      ≡ front ++ back)
    × (w'.others ≡ back)
    × (maria_db_execute_transaction bank full_image 4 2 teller
          (pos 1)
          (deposit 5)
          (pos 77)
          newcomer
          counter
        ≡ some (outcome (deposit 5) (after front start.row), record counter { world = w' }))
    × (w'.row ≡ after (front ++ deposit 5 ∷ []) start.row)
    × Unit {0}
unfolding add_int wrap_int rinha.Prelude.◌+ℤ◌
maria_db_execute_transaction-serial_example =
    maria_db_execute_transaction-serial full_image (pos 1) contended 4 0 (deposit 5) (pos 77)
      newcomer counter (λ x fits. ap some (get-put_customer x)) refl refl tt (omega arith)
      newcomer-IsSized others-IsSized (omega arith)

execute_all-History_example :
    (front : List Transaction) × (w' : Bank) × (answers : List (TransactionResult × Customer))
    × (h : History (deposit 5 ∷ deposit 6 ∷ []) front answers start.row w'.row) × (execute_all
          teller full_image
          (pos 1)
          4
          2
          (pos 77)
          newcomer
          (deposit 5 ∷ deposit 6 ∷ [])
          counter
        ≡ some (answers, record counter { world = w' }))
    × (start.others ≡ front ++ w'.others)
    × (w'.row.0.balance ≡ add_all start.row.0.balance (values_of h))
unfolding add_int wrap_int rinha.Prelude.◌+ℤ◌
execute_all-History_example =
    execute_all-History teller full_image (pos 1) contended (deposit 5 ∷ deposit 6 ∷ []) 4 0
      (pos 77) newcomer counter (λ x fits. ap some (get-put_customer x)) refl refl tt (omega arith)
      newcomer-IsSized others-IsSized
      (deposit-IsSized 5 (omega arith), (deposit-IsSized 6 (omega arith), tt)) (omega arith)

newcomer-Covered : Covered (newcomer, 4)
unfolding Covered neg_int neg wrap_int
newcomer-Covered = omega arith

maria_db_execute_transaction-Covered_example :
    (r : TransactionResult × Customer) × (w' : Bank) × (maria_db_execute_transaction bank full_image
        4 2 teller
        (pos 1)
        payment
        (pos 77)
        newcomer
        counter
      ≡ some (r, record counter { world = w' }))
    × (r.1 ≡ w'.row.0)
    × Covered w'.row
    × (w'.row.0.limit ≡ pos 100000)
unfolding add_int wrap_int rinha.Prelude.◌+ℤ◌
maria_db_execute_transaction-Covered_example =
    maria_db_execute_transaction-Covered full_image (pos 1) contended 4 0 payment (pos 77) newcomer
      counter (λ x fits. ap some (get-put_customer x)) refl refl tt (omega arith) newcomer-IsSized
      others-IsSized newcomer-Covered (omega arith)
