-- ===== src/MariaDatabase/Balance.antt =====
-- `MariaDbGetCustomer` on a server that answers.
use rinha.Prelude.{ℕ, suc, ◌≡◌, ℤ, negsuc, add_int, FitsInt, true, false, some}
use rinha.Prelude.Stateful.{>>=-some}
use rinha.Structs.{Customer}
use rinha.HandlerSocket.Interface.{Client, Layout}
use rinha.HandlerSocket.{Session, id_text, read_customer_hs}
use rinha.HandlerSocket.Server.{Server}
use rinha.HandlerSocket.Read.{read_customer_hs-found}
use rinha.MariaDatabase.{Shared, on_world, unknown_id, maria_db_get_customer}
use rinha.MariaDatabase.Rounds.{on_world-some}

-- On an idle server that answers, the stored customer of a known id is returned, whatever the caller's variables hold; no mutex is
-- taken and no row changes.
pub maria_db_get_customer-found :
    {c : Client} {s : Session c} (server : Server c s) (l : Layout) (rows : ℕ)
    (id unset version : ℤ) (customer out : Customer) (shared : Shared c l)
    → unknown_id id ≡ false
    → server.Idle shared.world
    → FitsInt version
    → l.of_bytes (l.to_bytes customer) ≡ some customer
    → server.table shared.world (id_text (add_int id (negsuc 0)))
      ≡ some (l.to_bytes customer, version)
    → (w' : c.World) × (maria_db_get_customer c l (suc (suc rows)) s id unset out shared
        ≡ some ((true, customer), record shared { world = w' }))
      × server.Idle w'
      × (server.table w' ≡ server.table shared.world)
unfolding maria_db_get_customer
maria_db_get_customer-found {c} {s} server l rows id unset version customer out shared known idle
      fits read_back stored =
    let (w', reads, idle', same) =
      read_customer_hs-found server l rows (add_int id (negsuc 0)) customer out version unset
        shared.world idle fits read_back stored in
    (
      w',
      rw known (
          >>=-some
            (on_world c l
              (read_customer_hs c l (suc (suc rows)) s (add_int id (negsuc 0)) out unset))
            _
            (on_world-some l
              (read_customer_hs c l (suc (suc rows)) s (add_int id (negsuc 0)) out unset) shared
              reads)),
      idle',
      same,
    )
