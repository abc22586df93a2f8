-- ===== src/MariaDatabase/Execute.antt =====
-- `MariaDbExecuteTransaction` on a server that answers, against the rule of the bank.
use rinha.Prelude.{
  ℕ, suc, ◌≡◌, refl, ap, ◌∙◌, ◌⊎◌, inl, inr, ℤ, pos, negsuc, ◌+ℤ◌, ◌<ℤ◌, ◌≤ℤ◌, neg, add_int,
  add_int_id, neg_int_id, FitsInt, true, false, some, ◌∷◌, Bytes, take, get_elem?, arith,
}
use rinha.Structs.{Transaction, Customer, TransactionResult}
use rinha.Customers.{recent, IsRing}
use rinha.Customers.Ring.{record_transaction-recent}
use rinha.HandlerSocket.Interface.{Client, Layout}
use rinha.HandlerSocket.{Session, id_text, read_customer_hs}
use rinha.HandlerSocket.Server.{Server, put}
use rinha.HandlerSocket.Read.{read_customer_hs-found}
use rinha.HandlerSocket.Write.{write_customer_hs-hit}
use rinha.MariaDatabase.Rounds.{refused_round, accepted_round, mutex_of, locked_call}
use rinha.MariaDatabase.{Shared, overdraws, unknown_id, execute_loop, maria_db_execute_transaction}

-- Where the sum fits an `int`, the test of the code is the rule of the bank.
overdraws-cases :
    (x : Customer) (t : Transaction)
    → FitsInt (x.balance +ℤ t.value)
    → FitsInt (neg x.limit)
    → (overdraws x t ≡ true) × (x.balance +ℤ t.value <ℤ neg x.limit)
      ⊎ (overdraws x t ≡ false) × (neg x.limit ≤ℤ x.balance +ℤ t.value)
unfolding overdraws
overdraws-cases x t sum limit =
    rw (add_int_id x.balance t.value sum, neg_int_id x.limit limit) (ground arith)

module _ {c : Client} {s : Session c} (server : Server c s) (l : Layout) where
  open server use {Idle, table}

  -- What a call has done to a stored customer. It is refused, and nothing is written, exactly where
  -- the new balance would lie below the negated limit; otherwise the new record is stored under the
  -- next version, with the exact balance and the transaction before the nine latest, and no other
  -- row changes.
  abbrev pub Executed :
      Bytes → Customer → Transaction → ℤ → c.World → TransactionResult × Customer → c.World → Type 0
  Executed key customer t version w (result, x) w' =
      (customer.balance +ℤ t.value <ℤ neg customer.limit)
        × (result ≡ TransactionResult.limit_exceeded)
        × (x ≡ customer)
        × (table w' ≡ table w)
      ⊎ (neg customer.limit ≤ℤ customer.balance +ℤ t.value)
        × (result ≡ TransactionResult.success)
        × (table w' ≡ put (table w) key (some (l.to_bytes x, add_int version (pos 1))))
        × (x.balance ≡ customer.balance +ℤ t.value)
        × (x.limit ≡ customer.limit)
        × (recent x ≡ take 10 (t ∷ recent customer))
        × IsRing x

  -- The conditions: the customer is stored, and its sums fit an `int`.
  pub record Stored (key : Bytes) (customer : Customer) (t : Transaction) (version : ℤ)
      (w : c.World) : Type 0 where
    pub idle : Idle w
    pub read_back : l.of_bytes (l.to_bytes customer) ≡ some customer
    pub version_fits : FitsInt version
    pub stored : table w key ≡ some (l.to_bytes customer, version)
    pub ring : IsRing customer
    pub sum_fits : FitsInt (customer.balance +ℤ t.value)
    pub limit_fits : FitsInt (neg customer.limit)

  -- The branch that stores the new record.
  accepted_executes :
      (fuel rows : ℕ) (id : ℤ) (t : Transaction) (unset version : ℤ) (customer out : Customer)
      (w w1 : c.World)
      → Stored (id_text id) customer t version w
      → read_customer_hs c l (suc (suc rows)) s id out unset w
        ≡ some ((true, customer, version), w1)
      → Idle w1
      → table w1 ≡ table w
      → overdraws customer t ≡ false
      → neg customer.limit ≤ℤ customer.balance +ℤ t.value
      → (r : TransactionResult × Customer) × (w' : c.World) × (execute_loop c l
            (suc fuel)
            (suc (suc rows))
            s
            id
            t
            unset
            out
            w
          ≡ some (r, w'))
        × Idle w'
        × Executed (id_text id) customer t version w r w'
  accepted_executes fuel rows id t unset version customer out w w1 h reads idle same within above =
      let (x, recorded, latest, balance, limit, ring) =
        record_transaction-recent customer t h.ring in
      let (w2, writes, idle', new) =
        write_customer_hs-hit s l server rows id x version (l.to_bytes customer) w1 idle
          (ap (λ t. t (id_text id)) same ∙ h.stored) in
      (
        (TransactionResult.success, x),
        w2,
        accepted_round l s fuel (suc (suc rows)) id t unset customer x out version w w1 w2 reads
            within recorded writes,
        idle',
        inr (
          above,
          refl,
          new ∙ ap (λ t. put t (id_text id) (some (l.to_bytes x, add_int version (pos 1)))) same,
          balance ∙ add_int_id customer.balance t.value h.sum_fits,
          limit,
          latest,
          ring,
        ),
      )

  loop_executes :
      (fuel rows : ℕ) (id : ℤ) (t : Transaction) (unset version : ℤ) (customer out : Customer)
      (w : c.World)
      → Stored (id_text id) customer t version w
      → (r : TransactionResult × Customer) × (w' : c.World) × (execute_loop c l
            (suc fuel)
            (suc (suc rows))
            s
            id
            t
            unset
            out
            w
          ≡ some (r, w'))
        × Idle w'
        × Executed (id_text id) customer t version w r w'
  loop_executes fuel rows id t unset version customer out w h =
      let (w1, reads, idle, same) =
        read_customer_hs-found server l rows id customer out version unset w h.idle h.version_fits
          h.read_back h.stored in
      elim (overdraws-cases customer t h.sum_fits h.limit_fits) [
        | inl (over, below) ↦ (
          (TransactionResult.limit_exceeded, customer),
          w1,
          refused_round l s fuel (suc (suc rows)) id t unset customer out version w w1 reads over,
          idle,
          inl (below, refl, refl, same),
        )
        | inr (within, above) ↦
            accepted_executes fuel rows id t unset version customer out w w1 h reads idle same
              within above
      ]

  -- On a server that answers, a transaction of a known id, whose mutex is free and whose stored
  -- customer has sums that fit an `int`, returns in one round of the loop, whatever the caller's
  -- variables hold, with the mutex free again. Where the new balance lies below the negated limit,
  -- the result is LIMIT_EXCEEDED and no row changes. Otherwise it is SUCCESS and only the row of the
  -- customer changes: it has the next version, the exact new balance, the old limit, and the
  -- transaction before the nine latest ones.
  pub maria_db_execute_transaction-Executed :
      (fuel rows : ℕ) (id : ℤ) (t : Transaction) (unset version : ℤ) (customer out : Customer)
      (shared : Shared c l)
      → unknown_id id ≡ false
      → get_elem? shared.customer_write_mutexs (mutex_of id) ≡ some false
      → Stored (id_text (add_int id (negsuc 0))) customer t version shared.world
      → (r : TransactionResult × Customer) × (w' : c.World) × (maria_db_execute_transaction c l
            (suc fuel)
            (suc (suc rows))
            s
            id
            t
            unset
            out
            shared
          ≡ some (r, record shared { world = w' }))
        × Idle w'
        × Executed (id_text (add_int id (negsuc 0))) customer t version shared.world r w'
  maria_db_execute_transaction-Executed fuel rows id t unset version customer out shared known free
        h =
      let (r, w', runs, idle, done) =
        loop_executes fuel rows (add_int id (negsuc 0)) t unset version customer out shared.world
          h in
      (
        r,
        w',
        locked_call l s (suc fuel) (suc (suc rows)) id t unset out shared known free runs,
        idle,
        done,
      )
