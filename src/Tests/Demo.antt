-- ===== src/Tests/Demo.antt =====
-- A server in memory that keeps what the program relies on, for the examples.
use rinha.Prelude.{
  ℕ, ◌≡◌, ◌≢◌, refl, ◌⊎◌, inl, inr, ℤ, pos, decimal, stoi, stoi-decimal, FitsInt, Bool, true, false,
  ◌&&◌, Option, none, some, List, [], ◌∷◌, Bytes, codes, if◌then◌else◌, arith, replicate,
  Bool-cases, ◌++◌, leb, le→leb, lt→leb, ◌+◌, ◌<◌, ◌⊎◌, ◌&&◌, ◌-◌,
}
use rinha.Structs.{Customer}
use rinha.Absl.{Absl, Laws, is_prefix, concat}
use rinha.Customers.{blank}
use rinha.HandlerSocket.Interface.{Client, Layout, Row}
use rinha.HandlerSocket.{Session}
use rinha.HandlerSocket.Server.{Entry, Server, found_rows, same_bytes, put}

pub same_bytes_refl : (s : Bytes) → same_bytes s s ≡ true
same_bytes_refl [] = refl
same_bytes_refl (c ∷ s) = ground (arith, same_bytes_refl s)

pub same_bytes_sound : (s t : Bytes) → same_bytes s t ≡ true → s ≡ t
same_bytes_sound [] [] h = refl
same_bytes_sound [] (d ∷ t) h = cc
same_bytes_sound (c ∷ s) [] h = cc
same_bytes_sound (c ∷ s) (d ∷ t) h = ground (arith, same_bytes_sound s t)

pub data Pending : Type 0 where
  nothing : Pending
  find : Bytes → Pending
  update : Bytes → Bytes → Bytes → Bytes → Pending

pub record Memory : Type 0 where
  pub table : Bytes → Entry
  pub rows : List Row
  pub pending : Pending
  -- what was written to the descriptors
  pub output : Bytes
  -- what waits at them
  pub input : Bytes

abbrev matches : Entry → Bytes → Bool
matches none version = false
matches (some (d, v)) version = same_bytes (decimal v) version

abbrev number : Option ℤ → ℤ
number none = pos 0
number (some z) = z

abbrev counted : Bytes → List Row
counted n = (some n ∷ []) ∷ []

abbrev updated : Bool → Memory → Bytes → Bytes → Bytes → (ℤ × ℕ) × Memory
updated b w key d next =
    if b
    then (
      (pos 0, 1),
      record w {
        table = put w.table key (some (d, number (stoi next)));
        rows = counted (codes "1");
        pending = nothing;
      },
    )
    else ((pos 0, 1), record w { rows = counted (codes "0"); pending = nothing })

abbrev serve_request : Pending → Memory → (ℤ × ℕ) × Memory
serve_request nothing w = ((pos 0, 0), w)
serve_request (find key) w =
    ((pos 0, 3), record w { rows = found_rows key (w.table key); pending = nothing })
serve_request (update key version d next) w = updated (matches (w.table key) version) w key d next

abbrev request : List Bytes → List Bytes → Pending
request (key ∷ []) mvs = find key
request (key ∷ version ∷ []) (k ∷ d ∷ next ∷ []) = update key version d next
request keys mvs = nothing

abbrev fetch : List Row → Memory → Option Row × Memory
fetch [] w = (none, w)
fetch (r ∷ rest) w = (some r, record w { rows = rest })

abbrev pub memory : Client
memory = record {
  World = Memory;
  Handle = Bool;
  create = λ settings w. (true, w);
  request_buf_open_index = λ h id db table index fields w. w;
  request_buf_exec_generic =
      λ h id op keys limit skip mod_op mvs w. record w { pending = request keys mvs };
  request_send = λ h w. (pos 0, w);
  get_error_code = λ h w. pos 0;
  response_recv = λ h w. serve_request w.pending w;
  get_next_row = λ h w. fetch w.rows w;
  response_buf_remove = λ h w. record w { rows = [] };
}

abbrev pub session : Session memory
session = record { read_ptr = true; read_ptr_id = pos 0; write_ptr = false; write_ptr_id = pos 1 }

pub fetch_row :
    (rows : List Row) (w : Memory) (r : Row) (rest : List Row)
    → rows ≡ r ∷ rest
    → ((fetch rows w).0 ≡ some r)
      × ((fetch rows w).1.rows ≡ rest)
      × ((fetch rows w).1.table ≡ w.table)
fetch_row rows w r rest e = rw e (refl, refl, refl)

pub fetch-none :
    (rows : List Row) (w : Memory)
    → rows ≡ []
    → w.rows ≡ []
    → ((fetch rows w).0 ≡ none) × ((fetch rows w).1.rows ≡ []) × ((fetch rows w).1.table ≡ w.table)
fetch-none rows w e f = rw e (refl, f, refl)

pub updated_code :
    (b : Bool) (w : Memory) (key d next : Bytes) → (updated b w key d next).0 ≡ (pos 0, 1)
updated_code true w key d next = refl
updated_code false w key d next = refl

pub hit :
    (w : Memory) (e : Entry) (key d old : Bytes) (version next : ℤ)
    → FitsInt next
    → e ≡ some (old, version)
    → let w' = (updated (matches e (decimal version)) w key d (decimal next)).1 in
      (w'.rows ≡ counted (codes "1")) × (w'.table ≡ put w.table key (some (d, next)))
hit w e key d old version next fits stored =
    rw (stored, same_bytes_refl (decimal version), stoi-decimal next fits) (refl, refl)

pub matches_stale :
    (e : Entry) (version : Bytes)
    → ((old : Bytes) (v : ℤ) → decimal v ≡ version → e ≢ some (old, v))
    → matches e version ≡ false
matches_stale none version stale = refl
matches_stale (some (d, v)) version stale = elim (Bool-cases (same_bytes (decimal v) version)) [
  | inl same ↦ absurd (stale d v (same_bytes_sound (decimal v) version same) refl)
  | inr other ↦ other
]

pub missed :
    (b : Bool) (w : Memory) (key d next : Bytes)
    → b ≡ false
    → let w' = (updated b w key d next).1 in (w'.rows ≡ counted (codes "0")) × (w'.table ≡ w.table)
missed b w key d next e = rw e (refl, refl)

abbrev pub server : Server memory session
server = record {
  Idle = λ w. Unit {0};
  table = λ w. w.table;
  rows = λ h w. w.rows;
  fetches = record {
    next_row = λ h w r rest e. fetch_row w.rows w r rest e;
    no_row = λ h w e. fetch-none w.rows w e e;
  };
  removed = λ h w e. (tt, refl);
  find_answers =
      λ w key idle. record { send_ok = refl; send_code = refl; recv_ok = refl; recv_code = refl };
  find_rows = λ w key idle. (refl, refl);
  update_answers = λ w key version d next idle. record {
    send_ok = refl;
    send_code = refl;
    recv_ok = updated_code (matches (w.table key) version) w key d next;
    recv_code = refl;
  };
  update_hit =
      λ w key d old version next idle fits e. hit w (w.table key) key d old version next fits e;
  update_miss = λ w key version d next idle stale.
      missed (matches (w.table key) version) w key d next
        (matches_stale (w.table key) version stale);
}

-- A customer of the first filling, and an image of customers that gives this one back.
abbrev pub newcomer : Customer
newcomer = record {
  limit = pos 100000;
  balance = pos 0;
  transactions = replicate 10 blank;
  transaction_count = 0;
  next_transaction_index = 0;
}

abbrev pub image : Layout
image = record {
  to_bytes = λ x. decimal x.limit ++ (b',' ∷ decimal x.balance);
  of_bytes = λ s. if same_bytes s (codes "100000,0") then some newcomer else none;
}

abbrev atoi : Bytes → Bool × ℤ
atoi [] = (false, pos 0)
atoi (c ∷ s) = if leb b'0' c && leb c b'9' then (true, pos (c - b'0')) else (false, pos 0)

-- Abseil, as far as the documented behaviour determines it.
abbrev pub absl : Absl
absl = record {
  starts_with = λ text prefix. is_prefix prefix text;
  simple_atoi = λ text. atoi text;
  str_cat = λ parts. concat parts;
  of_int = λ z. decimal z;
  str_append = λ text more. text ++ more;
}

atoi_digit : (d : ℕ) → d < 10 → atoi ((b'0' + d) ∷ []) ≡ (true, pos d)
atoi_digit d few =
    let back : b'0' + d - b'0' ≡ d = omega arith in
    rw (le→leb b'0' (b'0' + d) (omega arith), le→leb (b'0' + d) b'9' (omega arith), back) refl

atoi_other : (c : ℕ) → (c < b'0') ⊎ (b'9' < c) → (atoi (c ∷ [])).0 ≡ false
atoi_other c (inl below) = rw (lt→leb c b'0' below) refl
atoi_other c (inr above) = elim (Bool-cases (leb b'0' c)) [
  | inl ge ↦ rw (ge, lt→leb b'9' c above) refl
  | inr lt ↦ rw lt refl
]

pub absl-Laws : Laws absl
absl-Laws = record {
  starts_with-eq = λ s p. refl;
  simple_atoi_digit = λ d few. atoi_digit d few;
  simple_atoi_other = λ c far. atoi_other c far;
  str_cat-eq = λ parts. refl;
  of_int-eq = λ z. refl;
  str_append-eq = λ text more. refl;
}
