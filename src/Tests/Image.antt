-- ===== src/Tests/Image.antt =====
-- An image of customers that gives every customer back, for the examples: the numbers in order, and
-- before each text or array its length.
use rinha.Prelude.{
  ℕ, zero, suc, ◌≡◌, refl, ap, ℤ, pos, negsuc, some, List, [], ◌∷◌, ◌++◌, Bytes, length, take,
}
use rinha.Structs.{Transaction, Customer}
use rinha.HandlerSocket.Interface.{Layout}

abbrev from : ℕ → Bytes → Bytes
from zero s = s
from (suc n) [] = []
from (suc n) (c ∷ s) = from n s

take-length : (b s : Bytes) → take (length b) (b ++ s) ≡ b
take-length [] s = refl
take-length (c ∷ b) s = ap (◌∷◌ c) (take-length b s)

from-length : (b s : Bytes) → from (length b) (b ++ s) ≡ s
from-length [] s = refl
from-length (c ∷ b) s = from-length b s

put_int : ℤ → Bytes → Bytes
put_int (pos n) s = 0 ∷ n ∷ s
put_int (negsuc n) s = 1 ∷ n ∷ s

get_int : Bytes → ℤ × Bytes
get_int [] = (pos 0, [])
get_int (c ∷ []) = (pos 0, [])
get_int (zero ∷ n ∷ s) = (pos n, s)
get_int (suc c ∷ n ∷ s) = (negsuc n, s)

get-put_int : (z : ℤ) (s : Bytes) → get_int (put_int z s) ≡ (z, s)
unfolding get_int put_int
get-put_int (pos n) s = refl
get-put_int (negsuc n) s = refl

get_nat : Bytes → ℕ × Bytes
get_nat [] = (0, [])
get_nat (n ∷ s) = (n, s)

put_text : Bytes → Bytes → Bytes
put_text b s = length b ∷ (b ++ s)

get_text : Bytes → Bytes × Bytes
get_text [] = ([], [])
get_text (n ∷ s) = (take n s, from n s)

get-put_text : (b s : Bytes) → get_text (put_text b s) ≡ (b, s)
unfolding get_text put_text
get-put_text b s = rw (take-length b s, from-length b s) refl

put_transaction : Transaction → Bytes → Bytes
put_transaction t s = put_int t.value (put_text t.description (put_text t.timestamp s))

get_transaction : Bytes → Transaction × Bytes
get_transaction s =
    let v = get_int s in
    let d = get_text v.1 in
    let e = get_text d.1 in (record { value = v.0; description = d.0; timestamp = e.0 }, e.1)

get-put_transaction : (t : Transaction) (s : Bytes) → get_transaction (put_transaction t s) ≡ (t, s)
unfolding get_transaction put_transaction
get-put_transaction t s =
    rw
      (
        get-put_int t.value (put_text t.description (put_text t.timestamp s)),
        get-put_text t.description (put_text t.timestamp s),
        get-put_text t.timestamp s,
      )
      refl

put_all : List Transaction → Bytes → Bytes
put_all [] s = s
put_all (t ∷ ts) s = put_transaction t (put_all ts s)

get_all : ℕ → Bytes → List Transaction × Bytes
get_all zero s = ([], s)
get_all (suc n) s = let t = get_transaction s in let ts = get_all n t.1 in (t.0 ∷ ts.0, ts.1)

get-put_all : (ts : List Transaction) (s : Bytes) → get_all (length ts) (put_all ts s) ≡ (ts, s)
unfolding get_all put_all
get-put_all [] s = refl
get-put_all (t ∷ ts) s = rw (get-put_transaction t (put_all ts s), get-put_all ts s) refl

pub put_customer : Customer → Bytes
put_customer x = put_int x.limit (
    put_int x.balance (
      x.transaction_count
      ∷ x.next_transaction_index
      ∷ length x.transactions
      ∷ put_all x.transactions []))

pub get_customer : Bytes → Customer
get_customer s =
    let limit = get_int s in
    let balance = get_int limit.1 in
    let count = get_nat balance.1 in
    let next = get_nat count.1 in
    let places = get_nat next.1 in
    record {
      limit = limit.0;
      balance = balance.0;
      transactions = (get_all places.0 places.1).0;
      transaction_count = count.0;
      next_transaction_index = next.0;
    }

pub get-put_customer : (x : Customer) → get_customer (put_customer x) ≡ x
unfolding get_customer put_customer get_nat
get-put_customer x =
    let tail =
      x.transaction_count
      ∷ x.next_transaction_index
      ∷ length x.transactions
      ∷ put_all x.transactions [] in
    rw
      (
        get-put_int x.limit (put_int x.balance tail),
        get-put_int x.balance tail,
        get-put_all x.transactions [],
      )
      refl

abbrev pub full_image : Layout
full_image = record { to_bytes = put_customer; of_bytes = λ s. some (get_customer s) }
