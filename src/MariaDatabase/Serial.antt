-- ===== src/MariaDatabase/Serial.antt =====
-- `MariaDbExecuteTransaction` while other processes change the row of the same customer: one place in
-- the order of all transactions.
use rinha.Prelude.{
  ℕ, zero, suc, ◌+◌, ◌<◌, ◌^◌, ◌≡◌, ap, sym, ◌∙◌, ◌⊎◌, inl, inr, ℤ, pos, negsuc, All, add_int, true,
  false, some, List, [], ◌∷◌, ◌++◌, length, ◌==◌, get_elem?, arith, Bool-cases,
}
use rinha.Structs.{Transaction, Customer, TransactionResult}
use rinha.Customers.{IsRing}
use rinha.Customers.Sized.{IsSized, IsSizedEntry}
use rinha.Customers.Ring.{record_transaction-recent}
use rinha.HandlerSocket.Interface.{Client, Layout}
use rinha.HandlerSocket.{Session, read_customer_hs}
use rinha.MariaDatabase.{Shared, overdraws, unknown_id, execute_loop, maria_db_execute_transaction}
use rinha.MariaDatabase.Ledger.{
  Stand, post, outcome, after, after-Covered, after-snoc, Covered, outcome-post, outcome-refused,
  outcome-accepted,
}
use rinha.MariaDatabase.Contended.{Turn, Contended}
use rinha.MariaDatabase.Rounds.{refused_round, accepted_round, late_round, mutex_of, locked_call}
use rinha.MariaDatabase.Turns.{
  Fits, Sized, turn-Sized, turn_le, read_turn, write_turn, both, after-both, unmoved, moved_fewer,
  front_le,
}

module _ {c : Client} {s : Session c} (l : Layout) (id : ℤ) (k : Contended c s l id) where
  open c use {World}
  open k use {Idle, row, others}

  -- What a call comes to: some of the others go first, the answer and the row are those of the rule
  -- of the bank on the row that they leave, and the rest of them is still to come.
  abbrev pub Served : ℕ → ℕ → Transaction → ℤ → Customer → World → Type 0
  Served fuel rows t unset out w =
      (w' : World) × (turn : Turn c s l id row others w w') × (execute_loop c l fuel rows s id t
          unset out w
        ≡ some (outcome t (after turn.front (row w)), w'))
      × (row w' ≡ post t (after turn.front (row w)))
      × Idle w'

  -- A round that is not the last: a write that came too late, behind at least one of the others.
  abbrev Late : ℕ → ℕ → Transaction → ℤ → Customer → World → Type 0
  Late fuel rows t unset out w =
      (w' : World) × (turn : Turn c s l id row others w w') × (out' : Customer) × (execute_loop c l
          (suc fuel) rows s id t unset out w
        ≡ execute_loop c l fuel rows s id t unset out' w')
      × (row w' ≡ after turn.front (row w))
      × (length (others w') < length (others w))
      × Idle w'

  refused_serves :
      (fuel rows : ℕ) (t : Transaction) (unset : ℤ) (out : Customer) (w w1 : World)
      (turn : Turn c s l id row others w w1)
      → read_customer_hs c l rows s id out unset w ≡ some ((true, (row w1).0, pos (row w1).1), w1)
      → row w1 ≡ after turn.front (row w)
      → Idle w1
      → overdraws (row w1).0 t ≡ true
      → Served (suc fuel) rows t unset out w
  refused_serves fuel rows t unset out w w1 turn reads moved idle over =
      let (told, kept) = outcome-refused t (row w1) over in
      (
        w1,
        turn,
        refused_round l s fuel rows id t unset (row w1).0 out (pos (row w1).1) w w1 reads over
            ∙ ap (λ r. some (r, w1)) (sym told ∙ ap (outcome t) moved),
        sym kept ∙ ap (post t) moved,
        idle,
      )

  accepted_round_turn :
      (fuel rows : ℕ) (t : Transaction) (unset : ℤ) (out : Customer) (w w1 : World)
      (turn : Turn c s l id row others w w1)
      → read_customer_hs c l (suc (suc rows)) s id out unset w
        ≡ some ((true, (row w1).0, pos (row w1).1), w1)
      → row w1 ≡ after turn.front (row w)
      → Idle w1
      → Fits l id k w
      → IsRing (row w1).0
      → overdraws (row w1).0 t ≡ false
      → Served (suc fuel) (suc (suc rows)) t unset out w ⊎ Late fuel (suc (suc rows)) t unset out w
  accepted_round_turn fuel rows t unset out w w1 turn reads moved idle fits ring within =
      let (x, recorded, _, _, _, _) = record_transaction-recent (row w1).0 t ring in
      let (w2, next, writes, row2, idle2) =
        write_turn l id k rows x (row w1).1 w1 idle
          (omega (arith, turn_le l id k turn, ap (λ (r : Stand). r.1) moved)) in
      let (told, stored) = outcome-accepted t (row w1) ring within recorded in
      elim (Bool-cases ((after next.front (row w1)).1 == (row w1).1)) [
        | inl same ↦
            let place : row w1 ≡ after (both l id k turn next).front (row w) =
              sym (unmoved l id k next same) ∙ after-both l id k turn next moved in
            inl (
              w2,
              both l id k turn next,
              accepted_round l s fuel (suc (suc rows)) id t unset (row w1).0 x out (pos (row w1).1)
                    w w1 w2 reads within recorded (writes ∙ ap (λ b. some (b, w2)) same)
                  ∙ ap (λ r. some (r, w2)) (sym told ∙ ap (outcome t) place),
              row2 ∙ rw same (sym stored ∙ ap (post t) place),
              idle2,
            )
        | inr other ↦ inr (
          w2,
          both l id k turn next,
          x,
          late_round l s fuel (suc (suc rows)) id t unset (row w1).0 x out (pos (row w1).1) w w1 w2
              reads within recorded (writes ∙ ap (λ b. some (b, w2)) other),
          row2 ∙ rw other (after-both l id k turn next moved),
          omega (arith, front_le l id k turn, moved_fewer l id k next other),
          idle2,
        )
      ]

  -- Fuel for one round more than the others still have transactions is enough.
  execute_loop-Served :
      (fuel rows : ℕ) (t : Transaction) (unset : ℤ) (out : Customer) (w : World)
      → ((x : Customer) → IsSized x → l.of_bytes (l.to_bytes x) ≡ some x)
      → Idle w
      → Fits l id k w
      → Sized l id k w
      → length (others w) < fuel
      → Served fuel (suc (suc rows)) t unset out w
  execute_loop-Served zero rows t unset out w trip idle fits sized few = absurd (omega arith)
  execute_loop-Served (suc fuel) rows t unset out w trip idle fits sized few =
      let (w1, turn, reads, moved, idle1) =
        read_turn l id k rows unset out w trip idle fits sized in
      let ring1 : IsRing (row w1).0 = rw moved (turn-Sized l id k turn sized).0.ring in
      elim (Bool-cases (overdraws (row w1).0 t)) [
        | inl over ↦
            refused_serves fuel (suc (suc rows)) t unset out w w1 turn reads moved idle1 over
        | inr within ↦
            elim (accepted_round_turn fuel rows t unset out w w1 turn reads moved idle1 fits ring1
              within) [
                | inl served ↦ served
                | inr (w2, next, out', round, moved2, fewer, idle2) ↦
                    let (w3, last, runs, stored, idle3) =
                      execute_loop-Served fuel rows t unset out' w2 trip idle2
                        (omega (arith, turn_le l id k next, ap (λ (r : Stand). r.1) moved2))
                        (
                          rw moved2 (turn-Sized l id k next sized).0,
                          (turn-Sized l id k next sized).1,
                        )
                        (omega arith) in
                    let place : after last.front (row w2)
                        ≡ after (both l id k next last).front (row w) =
                      after-both l id k next last moved2 in
                    (
                      w3,
                      both l id k next last,
                      round ∙ runs ∙ ap (λ r. some (outcome t r, w3)) place,
                      stored ∙ ap (post t) place,
                      idle3,
                    )
              ]
      ]

module _ {c : Client} {s : Session c} (l : Layout) (id : ℤ)
    (k : Contended c s l (add_int id (negsuc 0))) where
  open k use {Idle, row, others}

  -- While other processes change the row of the customer, a transaction of a known id, whose mutex is
  -- free, returns after at most one round more than the others still store transactions: some of
  -- those come first and the rest stays to come, the answer is that of the rule of the bank on the row
  -- which the first ones leave, and the row is then what that rule makes of it, so that no transaction
  -- is lost or stored twice. The conditions: the row and the transactions of the others fit the sizes of structs.h, the
  -- bytes of a customer that fits them are read back as the customer, and the version stays in the `int`.
  pub maria_db_execute_transaction-serial :
      (fuel rows : ℕ) (t : Transaction) (unset : ℤ) (out : Customer) (shared : Shared c l)
      → ((x : Customer) → IsSized x → l.of_bytes (l.to_bytes x) ≡ some x)
      → unknown_id id ≡ false
      → get_elem? shared.customer_write_mutexs (mutex_of id) ≡ some false
      → Idle shared.world
      → (row shared.world).1 + length (others shared.world) + 1 < 2 ^ 31
      → IsSized (row shared.world).0
      → All IsSizedEntry (others shared.world)
      → length (others shared.world) < fuel
      → (front : List Transaction) × (back : List Transaction) × (w' : c.World) × (others
            shared.world
          ≡ front ++ back)
        × (others w' ≡ back)
        × (maria_db_execute_transaction c l fuel (suc (suc rows)) s id t unset out shared
            ≡ some (outcome t (after front (row shared.world)), record shared { world = w' }))
        × (row w' ≡ after (front ++ t ∷ []) (row shared.world))
        × Idle w'
  maria_db_execute_transaction-serial fuel rows t unset out shared trip known free idle fits sized
        entries few =
      let (w', turn, runs, stored, idle') =
        execute_loop-Served l (add_int id (negsuc 0)) k fuel rows t unset out shared.world trip idle
          fits (sized, entries) few in
      (
        turn.front,
        turn.back,
        w',
        turn.split,
        turn.left,
        locked_call l s fuel (suc (suc rows)) id t unset out shared known free runs,
        stored ∙ sym (after-snoc turn.front t (row shared.world)),
        idle',
      )

  -- Under the same conditions, where the balance of the row is not below the negated limit: the call
  -- returns, the customer that it hands out is the one that the row then has, its balance is not below
  -- the negated limit either, and the limit is the old one, whatever the others stored before it.
  pub maria_db_execute_transaction-Covered :
      (fuel rows : ℕ) (t : Transaction) (unset : ℤ) (out : Customer) (shared : Shared c l)
      → ((x : Customer) → IsSized x → l.of_bytes (l.to_bytes x) ≡ some x)
      → unknown_id id ≡ false
      → get_elem? shared.customer_write_mutexs (mutex_of id) ≡ some false
      → Idle shared.world
      → (row shared.world).1 + length (others shared.world) + 1 < 2 ^ 31
      → IsSized (row shared.world).0
      → All IsSizedEntry (others shared.world)
      → Covered (row shared.world)
      → length (others shared.world) < fuel
      → (r : TransactionResult × Customer) × (w' : c.World) × (maria_db_execute_transaction c l fuel
            (suc (suc rows))
            s
            id
            t
            unset
            out
            shared
          ≡ some (r, record shared { world = w' }))
        × (r.1 ≡ (row w').0)
        × Covered (row w')
        × ((row w').0.limit ≡ (row shared.world).0.limit)
  maria_db_execute_transaction-Covered fuel rows t unset out shared trip known free idle fits sized
        entries covered few =
      let (front, back, w', _, _, runs, stored, _) =
        maria_db_execute_transaction-serial fuel rows t unset out shared trip known free idle fits
          sized entries few in
      let r : Stand = after front (row shared.world) in
      let (kept, limit) = after-Covered (front ++ t ∷ []) (row shared.world) covered in
      (
        outcome t r,
        w',
        runs,
        outcome-post t r
            ∙ ap (λ (v : Stand). v.0) (sym (after-snoc front t (row shared.world)) ∙ sym stored),
        rw stored kept,
        rw stored limit,
      )
