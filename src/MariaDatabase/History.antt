-- ===== src/MariaDatabase/History.antt =====
-- A list of transactions of one process, one behind the other, while others change the row: one history of
-- the row, and what it adds to the balance.
use rinha.Prelude.{
  All, ℕ, suc, ◌+◌, ◌<◌, ◌^◌, ◌≡◌, refl, ap, sym, subst, ◌≤◌, ◌∙◌, inl, inr, ℤ, negsuc, add_int,
  false, Option, some, List, [], ◌∷◌, ◌++◌, append_assoc, length, length-append, get_elem?, arith,
  Bool-cases, if◌then◌else◌, ◌>>=◌,
}
use rinha.Structs.{Transaction, Customer, TransactionResult}
use rinha.Customers.Sized.{IsSized, IsSizedEntry, All-front, All-back, All-append}
use rinha.HandlerSocket.Interface.{Client, Layout}
use rinha.HandlerSocket.{Session}
use rinha.MariaDatabase.{Shared, unknown_id, maria_db_execute_transaction}
use rinha.MariaDatabase.Ledger.{
  Stand, post, outcome, after, accepts, enter-balance, after-IsSized, after-le,
}
use rinha.MariaDatabase.Contended.{Contended}
use rinha.MariaDatabase.Rounds.{mutex_of}
use rinha.MariaDatabase.Serial.{maria_db_execute_transaction-serial}

-- A row takes `ours` in their order and `others` in theirs, each once and by the rule of the bank; `ours`
-- get `answers`.
pub data History
    : List Transaction
      → List Transaction
      → List (TransactionResult × Customer)
      → Stand
      → Stand
      → Type 0 where
  ends : (r : Stand) → History [] [] [] r r
  our :
      (t : Transaction) {ours others : List Transaction}
      {answers : List (TransactionResult × Customer)} (r : Stand) {r' : Stand}
      → History ours others answers (post t r) r'
      → History (t ∷ ours) others (outcome t r ∷ answers) r r'
  other :
      (u : Transaction) {ours others : List Transaction}
      {answers : List (TransactionResult × Customer)} (r : Stand) {r' : Stand}
      → History ours others answers (post u r) r'
      → History ours (u ∷ others) answers r r'

-- The values of the transactions that the bank accepts.
abbrev booked : Transaction → Stand → List ℤ → List ℤ
booked t r values = if accepts r.0 t then t.value ∷ values else values

pub values_of :
    {ours others : List Transaction} {answers : List (TransactionResult × Customer)} {r r' : Stand}
    → History ours others answers r r'
    → List ℤ
values_of (ends r) = []
values_of (our t r h) = booked t r (values_of h)
values_of (other u r h) = booked u r (values_of h)

abbrev pub add_all : ℤ → List ℤ → ℤ
add_all balance [] = balance
add_all balance (v ∷ values) = add_all (add_int balance v) values

post-balance :
    (t : Transaction) (r : Stand) (values : List ℤ)
    → add_all (post t r).0.balance values ≡ add_all r.0.balance (booked t r values)
unfolding post
post-balance t r values = elim (Bool-cases (accepts r.0 t)) [
  | inl takes ↦ rw takes (ap (λ z. add_all z values) (enter-balance t r.0))
  | inr refuses ↦ rw refuses refl
]

History-balance :
    {ours others : List Transaction} {answers : List (TransactionResult × Customer)} {r r' : Stand}
    (h : History ours others answers r r')
    → r'.0.balance ≡ add_all r.0.balance (values_of h)
unfolding values_of
History-balance (ends r) = refl
History-balance (our t r h) = History-balance h ∙ post-balance t r (values_of h)
History-balance (other u r h) = History-balance h ∙ post-balance u r (values_of h)

-- Some of the others, and then one of ours.
our_after :
    (t : Transaction) (front : List Transaction) {ours others : List Transaction}
    {answers : List (TransactionResult × Customer)} (r : Stand) {r' : Stand}
    → History ours others answers (after (front ++ t ∷ []) r) r'
    → History (t ∷ ours) (front ++ others) (outcome t (after front r) ∷ answers) r r'
unfolding after
our_after t [] r h = our t r h
our_after t (u ∷ front) r h = other u r (our_after t front (post u r) h)

-- A first part of a list, and a first part of what it leaves.
front-front :
    (ts front back left front' rest : List Transaction)
    → ts ≡ front ++ back
    → left ≡ back
    → left ≡ front' ++ rest
    → ts ≡ (front ++ front') ++ rest
front-front ts front back left front' rest split same split' =
    split ∙ ap (◌++◌ front) (sym same ∙ split') ∙ sym (append_assoc front front' rest)

module _ {c : Client} (s : Session c) (l : Layout) (id : ℤ) where
  -- The calls for a list of transactions, each with what the one before has left.
  unfoldable pub execute_all :
      ℕ
      → ℕ
      → ℤ
      → Customer
      → List Transaction
      → Shared c l
      → Option (List (TransactionResult × Customer) × Shared c l)
  execute_all fuel rows unset out [] shared = some ([], shared)
  execute_all fuel rows unset out (t ∷ ts) shared =
      maria_db_execute_transaction c l fuel rows s id t unset out shared >>= λ r.
      execute_all fuel rows unset out ts r.1 >>= λ q. some (r.0 ∷ q.0, q.1)

  execute_all-one :
      (fuel rows : ℕ) (unset : ℤ) (out : Customer) (t : Transaction) (ts : List Transaction)
      (shared shared1 shared2 : Shared c l) (r : TransactionResult × Customer)
      (answers : List (TransactionResult × Customer))
      → maria_db_execute_transaction c l fuel rows s id t unset out shared ≡ some (r, shared1)
      → execute_all fuel rows unset out ts shared1 ≡ some (answers, shared2)
      → execute_all fuel rows unset out (t ∷ ts) shared ≡ some (r ∷ answers, shared2)
  unfolding execute_all
  execute_all-one fuel rows unset out t ts shared shared1 shared2 r answers one others =
      rw (one, others) refl

  module _ (k : Contended c s l (add_int id (negsuc 0))) where
    open k use {Idle, row, others}

    -- While other processes change the row of the customer, the transactions that one process executes one
    -- behind the other all return, and there is one history of the row: it takes these transactions in their order,
    -- with the answers that they get, and between them a first part of those of the others in their order, each once and by the
    -- rule of the bank; the new balance is the old one and the values of the transactions that the rule accepts. The
    -- conditions: the id is known and its mutex free, the row and all these transactions fit the sizes of structs.h, the bytes of a customer that fits them are read back as the customer,
    -- its version stays in the `int`, and the fuel is one round more than the others have transactions.
    pub execute_all-History :
        (ts : List Transaction) (fuel rows : ℕ) (unset : ℤ) (out : Customer) (shared : Shared c l)
        → ((x : Customer) → IsSized x → l.of_bytes (l.to_bytes x) ≡ some x)
        → unknown_id id ≡ false
        → get_elem? shared.customer_write_mutexs (mutex_of id) ≡ some false
        → Idle shared.world
        → (row shared.world).1 + (length (others shared.world) + length ts) + 1 < 2 ^ 31
        → IsSized (row shared.world).0
        → All IsSizedEntry (others shared.world)
        → All IsSizedEntry ts
        → length (others shared.world) < fuel
        → (front : List Transaction) × (w' : c.World) × (answers : List
            (TransactionResult × Customer))
          × (h : History ts front answers (row shared.world) (row w')) × (execute_all fuel
                (suc (suc rows))
                unset
                out
                ts
                shared
              ≡ some (answers, record shared { world = w' }))
          × (others shared.world ≡ front ++ others w')
          × ((row w').0.balance ≡ add_all (row shared.world).0.balance (values_of h))
    unfolding execute_all values_of
    execute_all-History [] fuel rows unset out shared trip known free idle fits sized entries ours
          few =
        ([], shared.world, [], ends (row shared.world), refl, refl, refl)
    execute_all-History (t ∷ ts) fuel rows unset out shared trip known free idle fits sized entries
          ours few =
        let (front, back, w1, split, left, runs, stored, idle1) =
          maria_db_execute_transaction-serial l id k fuel rows t unset out shared trip known free
            idle (omega (arith, fits)) sized entries few in
        let size : length (others shared.world) ≡ length front + length (others w1) =
          ap length split
          ∙ length-append front back
          ∙ ap (λ us. length front + length us) (sym left) in
        let parts = subst (All IsSizedEntry) split entries in
        let grown : (row w1).1 ≤ (row shared.world).1 + length (front ++ t ∷ []) =
          omega (
            arith,
            ap (λ (r : Stand). r.1) stored,
            after-le (front ++ t ∷ []) (row shared.world),
          ) in
        let (front2, w2, answers, h, others_run, split2, _) =
          execute_all-History ts fuel rows unset out (record shared { world = w1 }) trip known free
            idle1 (omega (arith, fits, size, grown, length-append front (t ∷ [])))
            (rw stored (
              after-IsSized (front ++ t ∷ []) (row shared.world)
                (All-append IsSizedEntry front (t ∷ []) (All-front IsSizedEntry front back parts)
                  (ours.0, tt))
                sized))
            (subst (All IsSizedEntry) (sym left) (All-back IsSizedEntry front back parts)) ours.1
            (omega (arith, few, size)) in
        let whole =
          our_after t front (row shared.world)
            (subst (λ r. History ts front2 answers r (row w2)) stored h) in
        (
          front ++ front2,
          w2,
          _,
          whole,
          execute_all-one fuel (suc (suc rows)) unset out t ts shared _ _ _ answers runs others_run,
          front-front (others shared.world) front back (others w1) front2 (others w2) split left
              split2,
          History-balance whole,
        )
